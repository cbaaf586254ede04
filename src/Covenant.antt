-- ===== src/Covenant.antt =====
-- internal/covenant/covenant.go: the covenants, their states and their tiers.
pub mod Members
pub mod Access
pub mod Forward
pub mod Lifecycle
pub mod Slots
pub mod Approval
use acp_server.Base.{
  ℕ, String, Bool, true, false, not, ◌&&◌, ◌||◌, Option, none, some, List, [], ◌∷◌, map, ◌==◌,
  str_eq, if◌then◌else◌, is_some, is_none,
}
use acp_server.Base.Int.{ℤ, pos, ltb_ℤ}
use acp_server.Base.Sql.{select, first, exists, update_where}
use acp_server.Store.{
  Text, Float, Time, Blob, empty, Db, Covenant, Tier, Member, Snapshot, State, ◌is◌, Host, Draw,
  Value, Error, errorf, wrap, no_rows, unique_violation, foreign_key_violation, Exec, Result, ok,
  err, pure, raise_if, modify, gets, or_raise, ◌>>=◌, ◌>>◌,
}
use acp_server.Tokens.Snapshots.{capture_snapshot}

abbrev pub transitions : State → Option State
transitions State.draft = some State.opened
transitions State.opened = some State.active
transitions State.active = some State.locked
transitions State.locked = some State.settled
transitions State.settled = none

-- `ValidSpaceTypes`: the label of the unit of a space type.
unfoldable pub unit_label : String → Option String
unit_label space_type =
    if str_eq space_type "book"
    then some "Ink"
    else if str_eq space_type "code"
    then some "Commit"
    else if str_eq space_type "music"
    then some "Note"
    else if str_eq space_type "research"
    then some "Citation"
    else if str_eq space_type "custom"
    then some "Token"
    else none

pub unit_name : Covenant → String
unit_name cov = elim (unit_label cov.space_type) [ none ↦ "Token" | some label ↦ label ]

abbrev pub is_covenant : Text → Covenant → Bool
is_covenant covenant_id c = c.covenant_id == covenant_id

abbrev pub covenant_row : Text → Db → Option Covenant
covenant_row covenant_id db = first (is_covenant covenant_id) db.covenants

abbrev pub covenant_missing : Text → Error
covenant_missing covenant_id = wrap "covenant %q: %w" no_rows

unfoldable pub get : Text → Exec Covenant
get covenant_id db = or_raise (covenant_row covenant_id db) (covenant_missing covenant_id) db

abbrev pub is_tier : Text → Text → Tier → Bool
is_tier covenant_id tier_id t = t.covenant_id == covenant_id && t.tier_id == tier_id

abbrev pub tier_row : Text → Text → Db → Option Tier
tier_row covenant_id tier_id db = first (is_tier covenant_id tier_id) db.access_tiers

abbrev pub has_tier : Text → Db → Bool
has_tier covenant_id db = exists (λ t. t.covenant_id == covenant_id) db.access_tiers

-- INSERT INTO access_tiers, with its primary key and its reference to the covenant.
unfoldable pub add_tier : Tier → Exec (Unit {0})
add_tier t db =
    if ltb_ℤ t.entry_fee_tokens (pos 0)
    then (
      err (errorf "entry_fee_tokens must be >= 0 (got %d)" (Value.int t.entry_fee_tokens ∷ [])),
      db,
    )
    else if exists (is_tier t.covenant_id t.tier_id) db.access_tiers
    then (err (unique_violation "access_tiers"), db)
    else if exists (is_covenant t.covenant_id) db.covenants
    then (ok tt, record db { access_tiers = t ∷ db.access_tiers })
    else (err (foreign_key_violation "access_tiers.covenant_id"), db)

-- The target is `none` for a text that names no state.
abbrev pub is_next : State → Option State → Bool
is_next s none = false
is_next s (some t) = elim (transitions s) [ none ↦ false | some u ↦ u is t ]

abbrev pub set_state : Time → State → Covenant → Covenant
set_state now s c = record c { state = s; updated_at = now }

abbrev pub invalid_transition : State → Option State → Error
invalid_transition s none = errorf "invalid transition %s → %s" (Value.state s ∷ [])
invalid_transition s (some t) =
    errorf "invalid transition %s → %s" (Value.state s ∷ Value.state t ∷ [])

abbrev pub no_tiers : Error
no_tiers = errorf "covenant must have at least one access tier before opening" []

abbrev pub captured : Result (List Snapshot) × Db → Result (Unit {0}) × Db
captured (ok taken, db) = (ok tt, db)
captured (err e, db) = (err (wrap "capture snapshot: %w" e), db)

-- The writes of `Transition`: the state, and on the way to LOCKED the snapshot of the ledger. The
-- state stays written when the snapshot fails.
unfoldable pub flip_state : Host → Draw → Text → State → State → Exec (Unit {0})
flip_state host draw covenant_id from target db =
    let db' = record db {
      covenants = update_where (is_covenant covenant_id) (set_state draw.now target) db.covenants;
    } in
    if from is State.active && target is State.locked
    then captured (capture_snapshot host draw covenant_id db')
    else (ok tt, db')

abbrev pub after_flip : Covenant → Result (Unit {0}) × Db → Result Covenant × Db
after_flip cov (ok u, db) = (ok cov, db)
after_flip cov (err e, db) = (err e, db)

-- The part of `Transition` behind the query.
unfoldable pub advance : Host → Draw → Text → Option State → Option Covenant → Exec Covenant
unfolding flip_state
advance host draw covenant_id target none db = (err (covenant_missing covenant_id), db)
advance host draw covenant_id none (some cov) db = (err (invalid_transition cov.state none), db)
advance host draw covenant_id (some t) (some cov) db =
    if not (is_next cov.state (some t))
    then (err (invalid_transition cov.state (some t)), db)
    else if cov.state is State.draft && not (has_tier covenant_id db)
    then (err no_tiers, db)
    else after_flip (set_state draw.now t cov) (flip_state host draw covenant_id cov.state t db)

unfoldable pub transition : Host → Draw → Text → Option State → Exec Covenant
unfolding advance
transition host draw covenant_id target db =
    advance host draw covenant_id target (covenant_row covenant_id db) db

abbrev pub is_provider : String → Bool
is_provider p =
    str_eq p "github" || (str_eq p "gitlab" || (str_eq p "gitea" || str_eq p "local-hook"))

abbrev pub bind_twin : Time → Text → String → Text → Covenant → Covenant
bind_twin now url provider config c = record c {
  git_twin_url = url;
  git_twin_provider = provider;
  git_twin_config_json = config;
  updated_at = now;
}

unfoldable pub set_git_twin : Draw → Text → Text → String → Text → Exec (Unit {0})
unfolding get
set_git_twin draw covenant_id url provider config = do
  cov ← get covenant_id
  raise_if (not (cov.state is State.draft)) (
      errorf "git twin can only be set while DRAFT (current state: %s)"
        (Value.state cov.state ∷ []))
  raise_if (not (url == empty) && not (is_provider provider)) (
      errorf "invalid git_twin_provider %q (allowed: github, gitlab, gitea, local-hook)"
        (Value.name provider ∷ []))
  modify (λ db. record db {
    covenants =
        update_where (is_covenant covenant_id) (bind_twin draw.now url provider config)
          db.covenants;
  })

unfoldable pub find_by_git_twin_url : Text → Db → List Text
find_by_git_twin_url url db =
    if url == empty
    then []
    else map (λ c. c.covenant_id) (select (λ c. c.git_twin_url == url) db.covenants)

-- A missing tier counts once.
unfoldable pub tier_multiplier : Host → Text → Text → Db → Float
tier_multiplier host covenant_id tier_id db = elim (tier_row covenant_id tier_id db) [
  | none ↦ host.floats.of_int (pos 1)
  | some t ↦ t.token_multiplier
]

unfoldable pub get_owner_token : Text → Exec Text
unfolding get
get_owner_token covenant_id = do cov ← get covenant_id; pure cov.owner_token
