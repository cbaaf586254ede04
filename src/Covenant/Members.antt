-- ===== src/Covenant/Members.antt =====
-- internal/covenant/covenant.go: the platform identities and the members of a covenant.
use acp_server.Base.{
  ℕ, String, Bool, true, false, not, ◌&&◌, ◌||◌, Option, none, some, [], ◌∷◌, ◌==◌, if◌then◌else◌,
  is_none,
}
use acp_server.Base.Int.{ℤ, pos, leb_ℤ}
use acp_server.Base.Sql.{first, exists, count_where}
use acp_server.Store.{
  Text, Blob, empty, Db, Covenant, Identity, Tier, Member, MemberStatus, State, ◌is◌, Host, Draw,
  Value, Error, errorf, wrap, no_rows, unique_violation, foreign_key_violation, Exec, Result, ok,
  err, pure, lift, raise_if, modify, or_raise, transaction, wrap_error, ◌>>=◌, ◌>>◌,
}
use acp_server.Covenant.{is_covenant, covenant_row, tier_row, unit_label}

-- The ciphertext of a platform identifier, NULL without a sealer.
unfoldable pub seal_platform_id : Host → Text → Result (Option Blob)
seal_platform_id host plaintext = elim host.sealer [
  | none ↦ ok none
  | some seal ↦ elim (seal (host.hash_text plaintext) "platform_id" plaintext) [
    | none ↦ err (errorf "seal platform_id: %w" [])
    | some blob ↦ ok (some blob)
  ]
]

-- INSERT OR IGNORE INTO platform_identities
unfoldable pub insert_identity : Identity → Db → Db
insert_identity i db =
    if exists (λ r. r.platform_id == i.platform_id) db.platform_identities
    then db
    else record db { platform_identities = i ∷ db.platform_identities }

unfoldable pub upsert_platform_identity : Host → Draw → Text → Exec (Unit {0})
unfolding seal_platform_id insert_identity
upsert_platform_identity host draw plaintext = do
  enc ← lift (seal_platform_id host plaintext)
  modify (
      insert_identity (record {
        platform_id = plaintext;
        created_at = draw.now;
        platform_id_hash = host.hash_text plaintext;
        platform_id_enc = enc;
      }))

-- The UNIQUE constraints of covenant_members.
abbrev pub clashes : Member → Member → Bool
clashes m r =
    r.covenant_id == m.covenant_id && (r.agent_id == m.agent_id || r.platform_id == m.platform_id)

-- Whether both references of the row resolve.
abbrev pub resolves : Member → Db → Bool
resolves m db =
    exists (is_covenant m.covenant_id) db.covenants
    && exists (λ r. r.platform_id == m.platform_id) db.platform_identities

unfoldable pub insert_member : Member → Exec (Unit {0})
insert_member m db =
    if exists (clashes m) db.covenant_members
    then (err (unique_violation "covenant_members"), db)
    else if resolves m db
    then (ok tt, record db { covenant_members = m ∷ db.covenant_members })
    else (err (foreign_key_violation "covenant_members"), db)

abbrev pub owner_member : Draw → Text → Member
owner_member draw platform_id = record {
  covenant_id = draw.covenant_id;
  platform_id = platform_id;
  agent_id = draw.agent_id;
  tier_id = none;
  is_owner = true;
  status = MemberStatus.active;
  joined_at = draw.now;
}

-- The row of a new covenant, with the defaults of the schema.
unfoldable pub new_covenant : Host → Draw → Text → String → Covenant
new_covenant host draw title space_type = record {
  covenant_id = draw.covenant_id;
  version = "ACP@1.0";
  space_type = space_type;
  title = title;
  description = empty;
  state = State.draft;
  owner_id = draw.agent_id;
  owner_share_pct = host.floats.of_int (pos 30);
  platform_share_pct = host.floats.of_int (pos 0);
  contributor_pool_pct = host.floats.of_int (pos 70);
  budget_limit = pos 0;
  budget_currency = "USD";
  cost_weight = host.floats.of_int (pos 1);
  owner_token = draw.owner_token;
  token_rules_json = [];
  git_twin_url = empty;
  git_twin_provider = "";
  git_twin_config_json = empty;
  created_at = draw.now;
  updated_at = draw.now;
}

unfoldable pub insert_covenant : Covenant → Exec (Unit {0})
insert_covenant c db =
    if exists (is_covenant c.covenant_id) db.covenants
    then (err (wrap "create covenant: %w" (unique_violation "covenants")), db)
    else (ok tt, record db { covenants = c ∷ db.covenants })

unfoldable pub create_rows : Host → Draw → Covenant → Text → Exec (Unit {0})
unfolding insert_covenant upsert_platform_identity insert_member
create_rows host draw cov platform_id = do
  insert_covenant cov
  upsert_platform_identity host draw platform_id
  insert_member (owner_member draw platform_id)

unfoldable pub create : Host → Draw → Text → String → Text → Exec (Covenant × Member)
unfolding create_rows new_covenant
create host draw title space_type owner_platform_id = do
  raise_if (is_none (unit_label space_type)) (
      errorf "invalid space_type %q (allowed: book, code, music, research, custom)"
        (Value.name space_type ∷ []))
  let cov = new_covenant host draw title space_type
  transaction (create_rows host draw cov owner_platform_id)
  pure (cov, owner_member draw owner_platform_id)

abbrev pub is_in_tier : Text → Text → Member → Bool
is_in_tier covenant_id tier_id m =
    m.covenant_id == covenant_id && elim m.tier_id [ none ↦ false | some t ↦ t == tier_id ]

-- The members of a tier, of any status.
abbrev pub tier_count : Text → Text → Db → ℕ
tier_count covenant_id tier_id db = count_where (is_in_tier covenant_id tier_id) db.covenant_members

-- NULL is unlimited.
abbrev pub is_full : Option ℤ → ℕ → Bool
is_full none n = false
is_full (some slots) n = leb_ℤ slots (pos n)

abbrev pub joined : Draw → Text → Text → Text → MemberStatus → Member
joined draw covenant_id platform_id tier_id status = record {
  covenant_id = covenant_id;
  platform_id = platform_id;
  agent_id = draw.agent_id;
  tier_id = some tier_id;
  is_owner = false;
  status = status;
  joined_at = draw.now;
}

abbrev pub slots_value : Option ℤ → Value
slots_value none = Value.null
slots_value (some slots) = Value.int slots

abbrev pub tier_full : Text → ℕ → Option ℤ → Error
tier_full tier_id n slots =
    errorf "tier %q is full (%d/%d)"
      (Value.text tier_id ∷ Value.int (pos n) ∷ slots_value slots ∷ [])

-- The part of `Join` behind the check of the slots.
unfoldable pub enter : Host → Draw → Text → Text → Text → Exec Member
unfolding upsert_platform_identity insert_member
enter host draw covenant_id platform_id tier_id = do
  upsert_platform_identity host draw platform_id
  wrap_error (wrap "join covenant: %w")
      (insert_member (joined draw covenant_id platform_id tier_id MemberStatus.pending))
  pure (joined draw covenant_id platform_id tier_id MemberStatus.pending)

-- The part of `Join` behind the two queries.
unfoldable pub join_tier :
    Host → Draw → Text → Text → Text → Option Covenant → Option Tier → Exec Member
join_tier host draw covenant_id platform_id tier_id none tier db =
    (err (wrap "covenant %q: %w" no_rows), db)
join_tier host draw covenant_id platform_id tier_id (some cov) none db =
    if not (cov.state is State.opened)
    then (err (errorf "covenant is not OPEN (state=%s)" (Value.state cov.state ∷ [])), db)
    else (err (wrap "tier %q not found: %w" no_rows), db)
join_tier host draw covenant_id platform_id tier_id (some cov) (some t) db =
    if not (cov.state is State.opened)
    then (err (errorf "covenant is not OPEN (state=%s)" (Value.state cov.state ∷ [])), db)
    else if is_full t.max_slots (tier_count covenant_id tier_id db)
    then (err (tier_full tier_id (tier_count covenant_id tier_id db) t.max_slots), db)
    else enter host draw covenant_id platform_id tier_id db

unfoldable pub join : Host → Draw → Text → Text → Text → Exec Member
unfolding join_tier
join host draw covenant_id platform_id tier_id db =
    join_tier host draw covenant_id platform_id tier_id (covenant_row covenant_id db)
      (tier_row covenant_id tier_id db) db

abbrev pub is_active : MemberStatus → Bool
is_active MemberStatus.active = true
is_active _ = false

abbrev pub is_member : Text → Text → Member → Bool
is_member covenant_id agent_id m = m.covenant_id == covenant_id && m.agent_id == agent_id

abbrev pub member_row : Text → Text → Db → Option Member
member_row covenant_id agent_id db = first (is_member covenant_id agent_id) db.covenant_members

unfoldable pub get_member : Text → Text → Exec Member
get_member covenant_id agent_id db =
    or_raise (member_row covenant_id agent_id db) (wrap "member %q in %q: %w" no_rows) db

-- `ErrNoMember` stands for no active member.
unfoldable pub find_member_by_platform_id : Text → Text → Exec Member
find_member_by_platform_id covenant_id platform_id db =
    or_raise
      (first
        (λ m. m.covenant_id == covenant_id && (m.platform_id == platform_id && is_active m.status))
        db.covenant_members)
      (errorf "no active member with this platform_id" []) db

-- The owner of the covenant's row, or for an old row the member that is marked as owner.
unfoldable pub get_owner_agent_id : Text → Exec Text
get_owner_agent_id covenant_id db = elim (covenant_row covenant_id db) [
  | none ↦ (err (wrap "owner agent for covenant %q: %w" no_rows), db)
  | some cov ↦
      if cov.owner_id == empty
      then elim (first (λ m. m.covenant_id == covenant_id && m.is_owner) db.covenant_members) [
        | none ↦ (err (wrap "owner agent for covenant %q: %w" no_rows), db)
        | some m ↦ (ok m.agent_id, db)
      ]
      else (ok cov.owner_id, db)
]
