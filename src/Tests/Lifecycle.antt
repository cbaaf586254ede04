-- ===== src/Tests/Lifecycle.antt =====
-- The witnesses on the covenant, its members, the access requests and the session tokens.
use acp_server.Base.{
  ℕ, suc, ◌+◌, ◌≤◌, ◌<◌, ◌≡◌, refl, true, false, Option, some, List, [], ◌∷◌, ◌==◌, ◌&&◌, ◌⊎◌, inl,
  inr, arith, eq_of_some, Bool-cases, ap, sym, ◌∙◌,
}
use acp_server.Base.Int.{pos}
use acp_server.Base.Sql.{first, exists, count_where}
use acp_server.Store.{Time, Db, Covenant, Tier, Member, MemberStatus, State, Error, ok, err}
use acp_server.Tokens.{insert_ledger}
use acp_server.Covenant.{covenant_row, is_tier, set_state, transition}
use acp_server.Covenant.Members.{is_in_tier, member_row, tier_count, join, insert_member, joined}
use acp_server.Covenant.Access.{
  already_resolved, approve_access_request, get_access_request, approve_found, approve_rows,
  book_entry_fee,
}
use acp_server.Covenant.Forward.{rank, is_late, IsAdvanced, transition-IsAdvanced}
use acp_server.Covenant.Lifecycle.{Call, run_transitions, transitions_in_order}
use acp_server.Covenant.Slots.{KeepsSlots, join-KeepsSlots}
use acp_server.Covenant.Approval.{IsApproved, approve-IsApproved, approve_once}
use acp_server.Sessions.{grace_period, active_of, rotate, validate}
use acp_server.Sessions.Rotation.{IsFreshToken, rotate_hands_over}
use acp_server.Tests.Data.{host, draw_of, server, covenant, session, tier, guest}

covenant_found : covenant_row 1 server ≡ some covenant
unfolding first
covenant_found = refl

abbrev call_of : ℕ → Option State → Call
call_of n target = record { draw = draw_of n; covenant_id = 1; target = target }

-- To LOCKED, once more to LOCKED, and to SETTLED.
abbrev three_calls : List Call
three_calls =
    call_of 1 (some State.locked)
    ∷ call_of 2 (some State.locked)
    ∷ call_of 3 (some State.settled)
    ∷ []

transitions_in_order_example :
    let (n, late, db') = run_transitions host 1 three_calls 0 0 server in
    (c' : Covenant) × (covenant_row 1 db' ≡ some c')
    × (rank c'.state ≡ 2 + n + late)
    × (2 + n + late ≤ 4)
    × ((late ≡ 0) ⊎ ((late ≡ 1) × (2 ≤ 2)))
transitions_in_order_example =
    transitions_in_order host 1 three_calls server covenant covenant_found

transition-IsAdvanced_example :
    let (r, db') = transition host (draw_of 1) 1 (some State.locked) server in
    ((e : Error) × (r ≡ err e) × (is_late e ≡ false) × (db' ≡ server))
    ⊎ (IsAdvanced (draw_of 1) 1 (some State.locked) server covenant r db'
        × ((t : State)
            → some State.locked ≡ some t
            → covenant_row 1 db' ≡ some (set_state 1 t covenant)))
transition-IsAdvanced_example =
    transition-IsAdvanced host (draw_of 1) 1 (some State.locked) server covenant covenant_found

abbrev open_server : Db
open_server = record server { covenants = record covenant { state = State.opened } ∷ [] }

slots : KeepsSlots open_server
unfolding first count_where
slots k t row n found limited = elim (Bool-cases (is_tier k t tier)) [
  | inr other ↦ absurd (cc (rw other at found))
  | inl mine ↦
      let same : tier ≡ row = eq_of_some (rw mine at found) in
      let two : pos 2 ≡ n = eq_of_some (ap (λ r. r.max_slots) same ∙ limited) in
      elim (Bool-cases (is_in_tier k t guest)) [
        | inl member ↦ rw (member, sym two) (omega arith)
        | inr outside ↦ rw (outside, sym two) (omega arith)
      ]
]

join-KeepsSlots_example : KeepsSlots (join host (draw_of 1) 1 21 4 open_server).1
join-KeepsSlots_example = join-KeepsSlots host (draw_of 1) 1 21 4 open_server slots

approve-IsApproved_example :
    ((e : Error) × (approve_access_request (draw_of 1) 1 40 101 server ≡ (err e, server)))
    ⊎ (let (r, db') = approve_access_request (draw_of 1) 1 40 101 server in
        IsApproved (draw_of 1) 1 40 101 server r db')
approve-IsApproved_example = approve-IsApproved (draw_of 1) 1 40 101 server

abbrev newcomer : Member
newcomer = joined (draw_of 1) 1 41 4 MemberStatus.active

approved : (approve_access_request (draw_of 1) 1 40 101 server).0 ≡ ok newcomer
unfolding approve_access_request get_access_request approve_found approve_rows insert_member
    book_entry_fee insert_ledger first exists
approved = refl

approve_once_example :
    let db' = (approve_access_request (draw_of 1) 1 40 101 server).1 in
    (t : Tier) × (member_row 1 401 db' ≡ some newcomer)
    × (newcomer.status ≡ MemberStatus.active)
    × (newcomer.tier_id ≡ some t.tier_id)
    × (tier_count 1 t.tier_id db' ≡ suc (tier_count 1 t.tier_id server))
    × (approve_access_request (draw_of 2) 1 40 102 db' ≡ (err already_resolved, db'))
approve_once_example = approve_once (draw_of 1) (draw_of 2) 1 40 101 102 server newcomer approved

fresh_token : IsFreshToken host (draw_of 1) 11 1 server
unfolding exists
fresh_token = refl

session_found :
    first
      (λ s. (s.token_hash == 31) && ((s.agent_id == 11) && (s.covenant_id == 1)))
      server.session_tokens
    ≡ some session
unfolding first
session_found = refl

rotate_hands_over_example :
    let (r, db') = rotate host (draw_of 1) 11 1 server in
    (r ≡ ok 1101)
    × ((now : Time) → (validate host now 1101 11 1 db').0 ≡ (true, false))
    × ((now : Time) → now ≤ 1 + grace_period → (validate host now 31 11 1 db').0 ≡ (true, true))
    × ((now : Time) → 1 + grace_period < now → (validate host now 31 11 1 db').0 ≡ (false, false))
    × (count_where (active_of 11 1) db'.session_tokens ≡ 1)
rotate_hands_over_example =
    rotate_hands_over host (draw_of 1) 11 1 server 31 session fresh_token session_found refl
