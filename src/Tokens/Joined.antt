-- ===== src/Tokens/Joined.antt =====
-- The query of CaptureSnapshot in internal/tokens/snapshot.go against the balances of tokens.go: for
-- members with different agents, the group of an agent sums up to its balance.
use acp_server.Base.{
  ◌≡◌, refl, sym, ap, subst, ◌∙◌, Bool, true, false, ◌||◌, List, [], ◌∷◌, ◌++◌, map, ◌==◌, ==_iff,
  Bool-cases, inl, inr, arith, All,
}
use acp_server.Base.Int.{ℤ, pos, ◌+ℤ◌, +ℤ_assoc, zero-+ℤ, +ℤ-zero, int_laws}
use acp_server.Base.Sql.{select, exists, sum_where}
use acp_server.Store.{Text, Member, LedgerRow}
use acp_server.Tokens.{confirmed_by, delta_of, is_confirmed}
use acp_server.Tokens.Totals.{Distinct}
use acp_server.Tokens.Snapshots.{
  JoinedRow, joined_row, or_null, left_join, group_keys, in_group, delta_in, is_entry_of,
}

sum_where-append :
    (p : JoinedRow → Bool) (f : JoinedRow → ℤ) (xs ys : List JoinedRow)
    → sum_where p f (xs ++ ys) ≡ sum_where p f xs +ℤ sum_where p f ys
unfolding sum_where
sum_where-append p f [] ys = sym (zero-+ℤ (sum_where p f ys))
sum_where-append p f (x ∷ xs) ys = elim (Bool-cases (p x)) [
  | inl here ↦
      rw (here, sum_where-append p f xs ys)
        (sym (+ℤ_assoc (f x) (sum_where p f xs) (sum_where p f ys)))
  | inr past ↦ rw past (sum_where-append p f xs ys)
]

exists-append :
    (p : JoinedRow → Bool) (xs ys : List JoinedRow)
    → exists p (xs ++ ys) ≡ (exists p xs || exists p ys)
unfolding exists
exists-append p [] ys = refl
exists-append p (x ∷ xs) ys = ground (arith, exists-append p xs ys)

-- A row of NULL adds nothing.
sum_where-or_null :
    (a b : Text) (rows : List JoinedRow)
    → sum_where (in_group a) delta_in (or_null b rows) ≡ sum_where (in_group a) delta_in rows
unfolding sum_where
sum_where-or_null a b [] = elim (Bool-cases (b == a)) [
  | inl here ↦ rw here (omega int_laws)
  | inr past ↦ rw past refl
]
sum_where-or_null a b (r ∷ rows) = refl

module _ (m : Member) where
  own_rows : List LedgerRow → List JoinedRow
  own_rows ledger = map (joined_row m.agent_id) (select (is_entry_of m) ledger)

  own_rows-balance :
      (ledger : List LedgerRow)
      → sum_where (in_group m.agent_id) delta_in (own_rows ledger)
        ≡ sum_where (confirmed_by m.covenant_id m.agent_id) delta_of ledger
  unfolding own_rows sum_where select
  own_rows-balance [] = refl
  own_rows-balance (l ∷ ledger) =
      let same : (m.agent_id == m.agent_id) ≡ true = ground arith in
      let rest = own_rows-balance ledger in
      elim (Bool-cases (l.covenant_id == m.covenant_id)) [
        | inr elsewhere ↦ rw elsewhere rest
        | inl here ↦ elim (Bool-cases (l.agent_id == m.agent_id)) [
          | inr other ↦ rw (here, other) rest
          | inl own ↦ elim (Bool-cases (is_confirmed l.status)) [
            | inl counted ↦ rw (here, own, counted, same) (ap (λ n. l.delta +ℤ n) rest)
            | inr open_row ↦
                rw (here, own, open_row, same)
                  (zero-+ℤ (sum_where (in_group m.agent_id) delta_in (own_rows ledger)) ∙ rest)
          ]
        ]
      ]

  own_rows-other :
      (a : Text) (ledger : List LedgerRow)
      → (m.agent_id == a) ≡ false
      → sum_where (in_group a) delta_in (own_rows ledger) ≡ pos 0
  unfolding own_rows sum_where select
  own_rows-other a [] apart = refl
  own_rows-other a (l ∷ ledger) apart = elim (Bool-cases (is_entry_of m l)) [
    | inl mine ↦ rw (mine, apart) (own_rows-other a ledger apart)
    | inr past ↦ rw past (own_rows-other a ledger apart)
  ]

  -- Every row of a member names its agent, and there is one.
  rows-agent :
      (a : Text) (rows : List LedgerRow)
      → exists (in_group a) (or_null m.agent_id (map (joined_row m.agent_id) rows))
        ≡ (m.agent_id == a)
  unfolding exists
  rows-agent a [] = ground arith
  rows-agent a (l ∷ []) = ground arith
  rows-agent a (l ∷ l' ∷ rows) = ground (arith, rows-agent a (l' ∷ rows))

abbrev pub has_agent : Text → List Member → Bool
has_agent a ms = exists (λ m. m.agent_id == a) ms

pub left_join-agents :
    (ledger : List LedgerRow) (a : Text) (ms : List Member)
    → exists (in_group a) (left_join ledger ms) ≡ has_agent a ms
unfolding left_join exists
left_join-agents ledger a [] = refl
left_join-agents ledger a (m ∷ ms) =
    exists-append (in_group a) _ (left_join ledger ms)
    ∙ rw (rows-agent m a (select (is_entry_of m) ledger), left_join-agents ledger a ms) refl

left_join-absent :
    (ledger : List LedgerRow) (a : Text) (ms : List Member)
    → has_agent a ms ≡ false
    → sum_where (in_group a) delta_in (left_join ledger ms) ≡ pos 0
unfolding left_join sum_where exists own_rows
left_join-absent ledger a [] h = refl
left_join-absent ledger a (m ∷ ms) h =
    let apart : (m.agent_id == a) ≡ false = ground arith in
    sum_where-append (in_group a) delta_in _ (left_join ledger ms)
    ∙ rw
        (
          sum_where-or_null a m.agent_id (own_rows m ledger),
          own_rows-other m a ledger apart,
          left_join-absent ledger a ms (ground arith),
        )
        (omega int_laws)

agents-has_agent :
    (a : Text) (ms : List Member) → exists (λ x. x == a) (map (λ m. m.agent_id) ms) ≡ has_agent a ms
unfolding exists
agents-has_agent a [] = refl
agents-has_agent a (m ∷ ms) = rw (agents-has_agent a ms) refl

head_balance :
    (ledger : List LedgerRow) (m : Member) (ms : List Member)
    → has_agent m.agent_id ms ≡ false
    → sum_where (in_group m.agent_id) delta_in (left_join ledger (m ∷ ms))
      ≡ sum_where (confirmed_by m.covenant_id m.agent_id) delta_of ledger
unfolding left_join own_rows
head_balance ledger m ms absent =
    sum_where-append (in_group m.agent_id) delta_in _ (left_join ledger ms)
    ∙ rw
        (
          sum_where-or_null m.agent_id m.agent_id (own_rows m ledger),
          own_rows-balance m ledger,
          left_join-absent ledger m.agent_id ms absent,
        )
        (+ℤ-zero (sum_where (confirmed_by m.covenant_id m.agent_id) delta_of ledger))

abbrev pub OfCovenant : Text → List Member → Type 0
OfCovenant k ms = All (λ m. m.covenant_id ≡ k) ms

pub left_join-balance :
    (ledger : List LedgerRow) (k a : Text) (ms : List Member)
    → Distinct (map (λ m. m.agent_id) ms)
    → OfCovenant k ms
    → has_agent a ms ≡ true
    → sum_where (in_group a) delta_in (left_join ledger ms)
      ≡ sum_where (confirmed_by k a) delta_of ledger
unfolding left_join sum_where exists own_rows
left_join-balance ledger k a [] once of_k h = cc
left_join-balance ledger k a (m ∷ ms) (absent, once) (here, of_k) h =
    elim (Bool-cases (m.agent_id == a)) [
      | inl same ↦
          subst
            (λ b.
              sum_where (in_group b) delta_in (left_join ledger (m ∷ ms))
              ≡ sum_where (confirmed_by k b) delta_of ledger)
            ((==_iff m.agent_id a).0 same)
            (subst
              (λ j.
                sum_where (in_group m.agent_id) delta_in (left_join ledger (m ∷ ms))
                ≡ sum_where (confirmed_by j m.agent_id) delta_of ledger)
              here (head_balance ledger m ms (sym (agents-has_agent m.agent_id ms) ∙ absent)))
      | inr apart ↦
          sum_where-append (in_group a) delta_in _ (left_join ledger ms)
          ∙ rw (sum_where-or_null a m.agent_id (own_rows m ledger), own_rows-other m a ledger apart)
              (zero-+ℤ (sum_where (in_group a) delta_in (left_join ledger ms))
                ∙ left_join-balance ledger k a ms once of_k (rw apart at h))
    ]

pub group_keys-Distinct : (rows : List JoinedRow) → Distinct (group_keys rows)
unfolding group_keys
group_keys-Distinct [] = tt
group_keys-Distinct (r ∷ rows) =
    elim (Bool-cases (exists (λ a. a == r.agent_id) (group_keys rows))) [
      | inl listed ↦ rw listed (group_keys-Distinct rows)
      | inr absent ↦ rw absent (absent, group_keys-Distinct rows)
    ]

pub group_keys-in_group :
    (a : Text) (rows : List JoinedRow)
    → exists (λ x. x == a) (group_keys rows) ≡ exists (in_group a) rows
unfolding group_keys exists
group_keys-in_group a [] = refl
group_keys-in_group a (r ∷ rows) =
    let rest = group_keys-in_group a rows in
    elim (Bool-cases (exists (λ x. x == r.agent_id) (group_keys rows))) [
      | inr absent ↦ rw (absent, rest) refl
      | inl listed ↦ elim (Bool-cases (r.agent_id == a)) [
        | inr apart ↦ rw (listed, apart) rest
        | inl same ↦
            rw (listed, same)
              (subst (λ b. exists (λ x. x == b) (group_keys rows) ≡ true)
                ((==_iff r.agent_id a).0 same) listed)
      ]
    ]
