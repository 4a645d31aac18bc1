-- ===== src/Client/Measure/Attempts.antt =====
-- What MeasureClockOffsetIP in core/client/client.go returns.
use scion_time.Client.Measure.{
  Attempt, measured, not_measured, Result, attempt_loop, measure_clock_offset_ip, num_attempts,
}
use scion_time.Base.{
  Bool, arith, false, inl, inr, none, refl, some, suc, true, zero, ℕ, ◌+◌, ◌<◌, ◌≡◌, ◌≤◌, ◌⊎◌,
  ==_false, ==_iff, Bool-cases, ◌==◌, ◌≢◌,
}
use scion_time.GoTime.{Time, Duration}
use scion_time.Ntske.Provider.{zero_time}

module _ {E : Type 0} (attempts : ℕ → Attempt E) where
  -- The calls from the one after `i` and below `n` failed.
  abbrev pub FailsFrom : ℕ → ℕ → Type 0
  FailsFrom i n = (j : ℕ) → i ≤ j → j < n → (f : E) × (attempts j ≡ not_measured f)

  abbrev pub Tells : ℕ → Bool → Result E → Type 0
  Tells j in_mode r = (attempts j ≡ measured r.timestamp r.offset in_mode) × (r.error ≡ none)

  -- No call before `i` leaves the client in the interleaved mode, so the loop makes the call `i`.
  abbrev pub GoesOn : ℕ → Type 0
  GoesOn i = (j : ℕ) → j < i → (t : Time) (o : Duration) → attempts j ≢ measured t o true

  -- Before the call `i`.
  abbrev Loops : ℕ → ℕ → Result E → Type 0
  Loops i nerr r =
      GoesOn i
      × (((nerr ≡ i) × FailsFrom 0 i × ((i ≡ 0) ⊎ ((e : E) × (r.error ≡ some e))))
          ⊎ ((nerr < i) × ((j : ℕ) × (j < i) × Tells j false r × FailsFrom (suc j) i)))

  -- Of `n` calls, all failed; or the result is that of one which is made, since none before it leaves
  -- the client in the interleaved mode, and which itself leaves it there, or after which all others
  -- failed.
  abbrev pub Ends : ℕ → Result E → Type 0
  Ends n r =
      (((e : E) × (r.error ≡ some e)) × FailsFrom 0 n)
      ⊎ ((j : ℕ) × (in_mode : Bool) × (j < n)
          × GoesOn j
          × Tells j in_mode r
          × ((in_mode ≡ true) ⊎ FailsFrom (suc j) n))

  one_more : (i n : ℕ) (f : E) → FailsFrom i n → attempts n ≡ not_measured f → FailsFrom i (suc n)
  one_more i n f h e j l u = elim (Bool-cases (j == n)) [
    | inl y ↦ let same : j ≡ n = (==_iff j n).0 y in (f, rw same e)
    | inr ne ↦ let other : j ≢ n = λ q. cc (ne, (==_iff j n).1 q) in h j l (omega (arith, u, other))
  ]

  few_errors : (i nerr : ℕ) (r : Result E) → Loops i nerr r → nerr < i + 1
  few_errors i nerr r (goes, inl (same, _, _)) = omega (arith, same)
  few_errors i nerr r (goes, inr (few, _)) = omega (arith, few)

  go_on :
      (i : ℕ)
      → GoesOn i
      → ((t : Time) (o : Duration) → attempts i ≢ measured t o true)
      → GoesOn (i + 1)
  go_on i goes h j l t o e = elim (Bool-cases (j == i)) [
    | inl y ↦ h t o (rw (← ((==_iff j i).0 y)) e)
    | inr ne ↦
        let other : j ≢ i = λ q. cc (ne, (==_iff j i).1 q) in goes j (omega (arith, l, other)) t o e
  ]

  module _ (k i nerr : ℕ) (r : Result E)
      (rest : (i' nerr' : ℕ) (r' : Result E)
        → Loops i' nerr' r'
        → 0 < i' + k
        → Ends (i' + k) (attempt_loop k i' nerr' attempts r')) where
    following : i + 1 + k ≡ i + suc k
    following = omega arith

    after_error :
        (f : E)
        → attempts i ≡ not_measured f
        → Loops i nerr r
        → Ends (i + suc k) (attempt_loop (suc k) i nerr attempts r)
    unfolding attempt_loop
    after_error f e (goes, inl (same, fails, z)) =
        let r' : Result E = record r { error = some f } in
        let all : (nerr == i) ≡ true = (==_iff nerr i).1 same in
        let ends =
          rest (i + 1) (nerr + 1) r'
            (
              go_on i goes (λ t o q. cc (e, q)),
              inl (
                omega (arith, same),
                (λ j l u. one_more 0 i f fails e j l (omega (arith, u))),
                inr (f, refl),
              ),
            )
            (omega arith) in
        rw (attempt_loop, e, all) (rw following at ends)
    after_error f e (goes, inr (few, (j, l, t, fails))) =
        let not_all : (nerr == i) ≡ false = ==_false nerr i (λ q. omega (arith, few, q)) in
        let ends =
          rest (i + 1) (nerr + 1) r
            (
              go_on i goes (λ t' o q. cc (e, q)),
              inr (
                omega (arith, few),
                (
                  j,
                  omega (arith, l),
                  t,
                  λ j' l' u. one_more (suc j) i f fails e j' l' (omega (arith, u)),
                ),
              ),
            )
            (omega arith) in
        rw (attempt_loop, e, not_all) (rw following at ends)

    after_attempt :
        (a : Attempt E)
        → attempts i ≡ a
        → Loops i nerr r
        → Ends (i + suc k) (attempt_loop (suc k) i nerr attempts r)
    unfolding attempt_loop
    after_attempt (measured t o true) e h =
        rw (attempt_loop, e) (inr (i, true, omega arith, h.0, (e, refl), inl refl))
    after_attempt (measured t o false) e h =
        let r' : Result E = record { timestamp = t; offset = o; error = none } in
        let ends =
          rest (i + 1) nerr r'
            (
              go_on i h.0 (λ t' o' q. cc (e, q)),
              inr (
                few_errors i nerr r h,
                (i, omega arith, (e, refl), λ j l u. absurd (omega (arith, l, u))),
              ),
            )
            (omega arith) in
        rw (attempt_loop, e) (rw following at ends)
    after_attempt (not_measured f) e h = after_error f e h

  attempt_loop-Ends :
      (k i nerr : ℕ) (r : Result E)
      → Loops i nerr r
      → 0 < i + k
      → Ends (i + k) (attempt_loop k i nerr attempts r)
  unfolding attempt_loop
  attempt_loop-Ends zero i nerr r (goes, inl (same, fails, inl z)) h = absurd (omega (arith, h, z))
  attempt_loop-Ends zero i nerr r (goes, inl (same, fails, inr e)) h =
      inl (e, λ j l u. fails j l (omega (arith, u)))
  attempt_loop-Ends zero i nerr r (goes, inr (few, (j, l, t, fails))) h = inr (
    j,
    false,
    omega (arith, l),
    (λ j' l'. goes j' (omega (arith, l, l'))),
    t,
    inr (λ j' l' u. fails j' l' (omega (arith, u))),
  )
  attempt_loop-Ends (suc k) i nerr r loops h =
      after_attempt k i nerr r (attempt_loop-Ends k) (attempts i) refl loops

  -- MeasureClockOffsetIP makes one call of measureClockOffsetIP, or at most three for a client with
  -- the interleaved mode enabled. Either all of them fail, and it returns an error; or it returns,
  -- without an error, what one of its calls measured: no call before that one left the client in the
  -- interleaved mode, and either that one did, or all further calls failed.
  pub measure_clock_offset_ip-Ends :
      (interleaved_mode : Bool) (zero_time : Time)
      → Ends
          (num_attempts interleaved_mode)
          (measure_clock_offset_ip interleaved_mode zero_time attempts)
  unfolding measure_clock_offset_ip num_attempts
  measure_clock_offset_ip-Ends true zero_time =
      attempt_loop-Ends 3 0 0 _
        (
          (λ j l. absurd (omega (arith, l))),
          inl (refl, (λ j l u. absurd (omega (arith, u))), inl refl),
        )
        (omega arith)
  measure_clock_offset_ip-Ends false zero_time =
      attempt_loop-Ends 1 0 0 _
        (
          (λ j l. absurd (omega (arith, l))),
          inl (refl, (λ j l u. absurd (omega (arith, u))), inl refl),
        )
        (omega arith)
