-- ===== src/RateLimit/Concentration.antt =====
-- internal/ratelimit/concentration.go: each agent's share of the confirmed tokens of a covenant.
-- Agent ids are compared as numbers that stand in the order of their texts.
use acp_server.Base.{Bool, not, List, [], ◌∷◌, ltb, if◌then◌else◌}
use acp_server.Base.Int.{ℤ, pos, add64, ltb_ℤ, leb_ℤ, eqb_ℤ}
use acp_server.Base.Sql.{select}
use acp_server.Store.{Text, Float, Db, Host}
use acp_server.Tokens.{total_by_agent}
use acp_server.RateLimit.{load_policy}

pub record ConcentrationEntry : Type 0 where
  pub agent_id : Text
  pub tokens : ℤ
  pub share : Float

pub record ConcentrationReport : Type 0 where
  pub threshold : Float
  pub total : ℤ
  pub entries : List ConcentrationEntry
  pub warnings : List ConcentrationEntry

-- The loop over the rows: agents with a positive sum, and their total as a Go int.
unfoldable pub holders : Host → List (Text × ℤ) → List ConcentrationEntry
holders host [] = []
holders host ((a, n) ∷ rest) =
    let others = holders host rest in
    if leb_ℤ n (pos 0)
    then others
    else record { agent_id = a; tokens = n; share = host.floats.of_int (pos 0) } ∷ others

unfoldable pub total_from : ℤ → List ConcentrationEntry → ℤ
total_from acc [] = acc
total_from acc (e ∷ es) = total_from (add64 acc e.tokens) es

-- More tokens first, then the lower id.
abbrev pub precedes : ConcentrationEntry → ConcentrationEntry → Bool
precedes a b =
    if not (eqb_ℤ a.tokens b.tokens) then ltb_ℤ b.tokens a.tokens else ltb a.agent_id b.agent_id

unfoldable pub insert_entry : ConcentrationEntry → List ConcentrationEntry → List ConcentrationEntry
insert_entry e [] = e ∷ []
insert_entry e (f ∷ es) = if precedes f e then f ∷ insert_entry e es else e ∷ f ∷ es

unfoldable pub sort_entries : List ConcentrationEntry → List ConcentrationEntry
sort_entries [] = []
sort_entries (e ∷ es) = insert_entry e (sort_entries es)

unfoldable pub with_shares : Host → ℤ → List ConcentrationEntry → List ConcentrationEntry
with_shares host total [] = []
with_shares host total (e ∷ es) =
    record e { share = mul (div (of_int e.tokens) (of_int total)) (of_int (pos 100)) }
    ∷ with_shares host total es
  where
    open host.floats use {of_int, mul, div}

abbrev pub is_above : Host → Float → ConcentrationEntry → Bool
is_above host threshold e = host.floats.lt threshold e.share

-- The report from the sums by agent and the threshold of the policy.
unfoldable pub report_of : Host → Float → List (Text × ℤ) → ConcentrationReport
unfolding holders total_from sort_entries insert_entry with_shares
report_of host threshold sums =
    let found = holders host sums in
    let total = total_from (pos 0) found in
    let entries = with_shares host total (sort_entries found) in
    let warnings : List ConcentrationEntry =
      if host.floats.lt (host.floats.of_int (pos 0)) threshold
      then select (is_above host threshold) entries
      else [] in
    if eqb_ℤ total (pos 0)
    then record { threshold = threshold; total = pos 0; entries = []; warnings = [] }
    else record { threshold = threshold; total = total; entries = entries; warnings = warnings }

unfoldable pub check_concentration : Host → Text → Db → ConcentrationReport
check_concentration host covenant_id db =
    report_of host (load_policy host covenant_id db).concentration_warn_pct
      (total_by_agent covenant_id db)
