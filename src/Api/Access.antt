-- ===== src/Api/Access.antt =====
-- Who passes the guards of internal/api/api.go: the routes of the owner, and the tools of a session.
use acp_server.Base.{
  ◌≡◌, ◌≢◌, refl, false, ◌⊎◌, inl, inr, Option, some, ◌==◌, arith, Bool-cases, Option-cases,
}
use acp_server.Store.{Text, empty, Db, Covenant, State, Host, Draw, Params, Error}
use acp_server.Covenant.{get, covenant_row, get_owner_token}
use acp_server.Execution.{Tool}
use acp_server.Api.{
  Reply, json_ok, json_error, Headers, validate_owner_token, invalid_owner, unauthorized,
  bad_request, message, owner_tool_handler,
}
use acp_server.Api.Accounts.{
  handle_get_budget, handle_set_budget, handle_issue_token, BudgetRequest,
}
use acp_server.Api.Covenants.{handle_transition}
use acp_server.Api.GitTwin.{handle_set_git_twin, BindRequest}
use acp_server.Api.Queries.{handle_list_members, handle_get_concentration_status}

-- A reply of 400 or 401 that leaves the database as it was.
abbrev pub IsDenied {ℓ} : {A : Type ℓ} → Db → Reply A × Db → Type 0
IsDenied db (json_ok a, db') = ⊥
IsDenied db (json_error e code, db') = (db' ≡ db) × ((code ≡ bad_request) ⊎ (code ≡ unauthorized))

-- The token is not the one that a known covenant stores.
abbrev pub IsNoOwner : Text → Text → Db → Type 0
IsNoOwner token covenant_id db =
    (c : Covenant) → covenant_row covenant_id db ≡ some c → c.owner_token ≢ token

refused_owner :
    (token covenant_id : Text) (db : Db)
    → IsNoOwner token covenant_id db
    → (e : Error) × (validate_owner_token token covenant_id db ≡ (json_error e unauthorized, db))
unfolding validate_owner_token get_owner_token get
refused_owner token covenant_id db stranger = elim (Bool-cases (token == empty)) [
  | inl bare ↦ (message "X-Owner-Token header required", rw bare refl)
  | inr given ↦ elim (Option-cases (covenant_row covenant_id db)) [
    | inl missing ↦ (invalid_owner, rw (given, missing) refl)
    | inr (c, found) ↦
        let apart : (c.owner_token == token) ≡ false = ground (arith, stranger c found) in
        elim (Bool-cases (c.owner_token == empty)) [
          | inl unset ↦ (invalid_owner, rw (given, found) (rw unset refl))
          | inr set ↦ (invalid_owner, rw (given, found) (rw (set, apart) refl))
        ]
  ]
]

module _ (host : Host) (draw : Draw) (h : Headers) (db : Db)
    (stranger : IsNoOwner h.owner_token h.covenant_id db) where
  denied : (db ≡ db) × ((unauthorized ≡ bad_request) ⊎ (unauthorized ≡ unauthorized))
  denied = (refl, inr refl)

  malformed : (db ≡ db) × ((bad_request ≡ bad_request) ⊎ (bad_request ≡ unauthorized))
  malformed = (refl, inl refl)

  owner_tool-IsDenied :
      {R : Type 0} (tool : Tool R) (body : Option (Option Params))
      → IsDenied db (owner_tool_handler host draw tool h body db)
  unfolding owner_tool_handler
  owner_tool-IsDenied tool body =
      let (e, refused) = refused_owner h.owner_token h.covenant_id db stranger in
      elim (Bool-cases (h.covenant_id == empty)) [
        | inl bare ↦ rw bare malformed
        | inr named ↦ elim (Bool-cases (h.owner_token == empty)) [
          | inl none_given ↦ rw (named, none_given) denied
          | inr given ↦ rw (named, given, refused) denied
        ]
      ]

  members-IsDenied :
      (prefix : Text → Text) → IsDenied db (handle_list_members prefix h (some h.covenant_id) db)
  unfolding handle_list_members
  members-IsDenied prefix =
      let (e, refused) = refused_owner h.owner_token h.covenant_id db stranger in
      elim (Bool-cases (h.covenant_id == empty)) [
        | inl bare ↦ rw bare malformed
        | inr named ↦ rw (named, refused) denied
      ]

  concentration-IsDenied :
      IsDenied db (handle_get_concentration_status host h (some h.covenant_id) db)
  unfolding handle_get_concentration_status
  concentration-IsDenied =
      let (e, refused) = refused_owner h.owner_token h.covenant_id db stranger in
      elim (Bool-cases (h.covenant_id == empty)) [
        | inl bare ↦ rw bare malformed
        | inr named ↦ rw (named, refused) denied
      ]

  -- With an owner token other than that of the covenant, or for a covenant that is not known, every
  -- route of the owner answers 400 or 401 and changes nothing: a tool of the owner whichever it is,
  -- a transition, the binding of a repository, the two routes of the budget, the issue of a session
  -- token, the list of the members and the report of the concentration.
  pub owner_routes_guarded :
      {R : Type 0} (tool : Tool R)
      → ((body : Option (Option Params))
          → IsDenied db (owner_tool_handler host draw tool h body db))
        × ((body : Option (Option State))
            → IsDenied db (handle_transition host draw h h.covenant_id body db))
        × ((body : Option BindRequest)
            → IsDenied db (handle_set_git_twin draw h h.covenant_id body db))
        × IsDenied db (handle_get_budget h h.covenant_id db)
        × ((body : Option BudgetRequest)
            → IsDenied db (handle_set_budget draw h h.covenant_id body db))
        × ((agent_id : Text)
            → IsDenied db (
                handle_issue_token host draw h
                  (some (record { agent_id = agent_id; covenant_id = h.covenant_id }))
                  db))
        × ((prefix : Text → Text)
            → IsDenied db (handle_list_members prefix h (some h.covenant_id) db))
        × IsDenied db (handle_get_concentration_status host h (some h.covenant_id) db)
  unfolding handle_transition handle_set_git_twin handle_get_budget handle_set_budget
      handle_issue_token
  owner_routes_guarded tool =
      let (e, refused) = refused_owner h.owner_token h.covenant_id db stranger in
      (
        owner_tool-IsDenied tool,
        λ body. rw refused denied,
        λ body. rw refused denied,
        rw refused denied,
        λ body. rw refused denied,
        λ agent_id. rw refused denied,
        members-IsDenied,
        concentration-IsDenied,
      )
