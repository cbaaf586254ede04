-- ===== src/RateLimit/Hour.antt =====
-- A sequence of calls within one hour against internal/ratelimit/ratelimit.go.
use acp_server.Base.{
  ℕ, suc, ◌+◌, ◌≤◌, ◌≡◌, refl, sym, subst, ap, ◌∙◌, List, [], ◌∷◌, inl, inr, ◌⊎◌, arith, length,
  All, Bool-cases, String,
}
use acp_server.Base.Int.{ℤ, pos, ◌+ℤ◌, ◌≤ℤ◌, ◌<ℤ◌, int_laws, ltb_ℤ, pos_part, neg_part}
use acp_server.Store.{Text, Time, Db, Host, Draw, Result, ok, err}
use acp_server.RateLimit.{check_and_increment, current_window}
use acp_server.RateLimit.Ceiling.{
  calls, limit_of, check_and_increment-room, check_and_increment-full,
}

abbrev tally : Result (Unit {0}) → ℕ → ℕ
tally (ok _) n = suc n
tally (err _) n = n

tally-le : (r : Result (Unit {0})) (n : ℕ) → n ≤ tally r n
tally-le (ok _) n = omega arith
tally-le (err _) n = omega arith

squeeze :
    (base limit : ℤ) (t m : ℕ)
    → base +ℤ pos t ≡ limit
    → t ≤ m
    → base +ℤ pos m ≤ℤ limit
    → base +ℤ pos m ≡ limit
squeeze base limit t m e le b = omega (int_laws, ap pos_part e, ap neg_part e)

module _ (host : Host) (k a : Text) (name : String) where
  -- The number of calls that are let through, and the database after all of them.
  pub run_calls : List Draw → ℕ → Db → ℕ × Db
  run_calls [] n db = (n, db)
  run_calls (draw ∷ draws) n db =
      let (r, db') = check_and_increment host draw k a name db in run_calls draws (tally r n) db'

  -- What is kept along the calls, from a start with `base` calls less than are counted.
  record IsCounted (window : Time) (limit base : ℤ) (n : ℕ) (db : Db) : Type 0 where
    policy : limit_of host k db ≡ limit
    counted : calls k a window db.rate_limit_counters ≡ base +ℤ pos n
    bounded : base +ℤ pos n ≤ℤ limit

  one_call :
      (limit base : ℤ) (n : ℕ) (draw : Draw) (db : Db)
      → pos 0 <ℤ limit
      → IsCounted (current_window draw.now) limit base n db
      → let (r, db') = check_and_increment host draw k a name db in
        IsCounted (current_window draw.now) limit base (tally r n) db'
        × ((tally r n ≡ suc n) ⊎ (base +ℤ pos (tally r n) ≡ limit))
  one_call limit base n draw db p h = elim (Bool-cases (ltb_ℤ (base +ℤ pos n) limit)) [
    | inl below ↦
        let room : base +ℤ pos n <ℤ limit = ground arith in
        let (passed, counted, kept) =
          check_and_increment-room host draw k a name db (rw h.policy p)
            (rw (h.policy, h.counted) room) in
        rw passed (
          record {
            policy = kept ∙ h.policy;
            counted = counted ∙ ap (λ c. c +ℤ pos 1) h.counted ∙ omega int_laws;
            bounded = omega int_laws;
          },
          inl refl,
        )
    | inr full ↦
        let used : limit ≤ℤ base +ℤ pos n = ground arith in
        rw
          (check_and_increment-full host draw k a name db (rw h.policy p)
            (rw (h.policy, h.counted) used))
          (h, inr (omega (int_laws, h.bounded)))
  ]

  run_calls-IsCounted :
      (window : Time) (limit base : ℤ) (draws : List Draw) (n : ℕ) (db : Db)
      → pos 0 <ℤ limit
      → All (λ d. current_window d.now ≡ window) draws
      → IsCounted window limit base n db
      → let (m, db') = run_calls draws n db in
        IsCounted window limit base m db'
        × (n ≤ m)
        × ((m ≡ n + length draws) ⊎ (base +ℤ pos m ≡ limit))
  unfolding run_calls
  run_calls-IsCounted window limit base [] n db p here h = (h, omega arith, inl (omega arith))
  run_calls-IsCounted window limit base (d ∷ draws) n db p here h =
      let (r, db') = check_and_increment host d k a name db in
      let (h', passed) =
        one_call limit base n d db p (subst (λ w. IsCounted w limit base n db) (sym here.0) h) in
      let (h'', grown, all) =
        run_calls-IsCounted window limit base draws (tally r n) db' p here.1
          (subst (λ w. IsCounted w limit base (tally r n) db') here.0 h') in
      (
        h'',
        omega (arith, tally-le r n),
        elim passed [
          | inl one ↦ elim all [ inl every ↦ inl (omega arith) | inr used ↦ inr used ]
          | inr used ↦ inr (squeeze base limit (tally r n) _ used grown h''.bounded)
        ],
      )

-- Calls of one agent within one hour, under a limit that the hour has not passed before: the ones
-- that are let through are counted, they never pass the limit, and a call is refused only when the
-- limit is used up.
pub hour_ceiling :
    (host : Host) (k a : Text) (name : String) (window : Time) (draws : List Draw) (db : Db)
    → pos 0 <ℤ limit_of host k db
    → calls k a window db.rate_limit_counters ≤ℤ limit_of host k db
    → All (λ d. current_window d.now ≡ window) draws
    → let (m, db') = run_calls host k a name draws 0 db in
      (calls k a window db'.rate_limit_counters ≡ calls k a window db.rate_limit_counters +ℤ pos m)
      × (calls k a window db'.rate_limit_counters ≤ℤ limit_of host k db)
      × ((m ≡ length draws) ⊎ (calls k a window db'.rate_limit_counters ≡ limit_of host k db))
hour_ceiling host k a name window draws db p bound here =
    let base = calls k a window db.rate_limit_counters in
    let (h, grown, all) =
      run_calls-IsCounted host k a name window (limit_of host k db) base draws 0 db p here
        (record { policy = refl; counted = omega int_laws; bounded = omega int_laws }) in
    (
      h.counted,
      rw h.counted h.bounded,
      elim all [ inl every ↦ inl (omega arith) | inr used ↦ inr (h.counted ∙ used) ],
    )
