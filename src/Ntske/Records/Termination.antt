-- ===== src/Ntske/Records/Termination.antt =====
-- ReadData of net/ntske/ntske.go ends on every stream: each record takes its header off the stream.
use scion_time.Ntske.Records.{read_failed, error_of, critical_bit}
use scion_time.Base.Run.{out_of_fuel}
use Prim.Native.Nat.{min}
use scion_time.Base.{
  Bool, Bool-cases, List, [], arith, drop, false, if◌then◌else◌, inl, inr, leb, length, length-drop,
  ltb, none, refl, some, suc, true, zero, ℕ, ◌&&◌, ◌++◌, ◌<◌, ◌==◌, ◌∷◌, ◌≡◌, ◌≢◌, ◌≤◌, ◌⊎◌, ◌-◌,
  not, take, ◌%◌,
}
use scion_time.Base.Bytes.{at16}
use scion_time.Ntske.Records.{
  Data, Outcome, continue, done, failed, read_body, read_cookie, read_data, read_exact, read_step,
}

-- At most `n` bytes are left if the loop goes on.
abbrev LeavesAtMost : ℕ → Outcome → Type 0
LeavesAtMost n (continue d r) = length r ≤ n
LeavesAtMost n (done d) = Unit
LeavesAtMost n (failed e) = Unit

LeavesAtMost-if :
    (n : ℕ) (c : Bool) (x y : Outcome)
    → LeavesAtMost n x
    → LeavesAtMost n y
    → LeavesAtMost n (if c then x else y)
LeavesAtMost-if n true x y h k = h
LeavesAtMost-if n false x y h k = k

LeavesAtMost-read_exact :
    (n : ℕ) (b : List ℕ) (h : List ℕ → Data)
    → LeavesAtMost
        (length b)
        (elim (read_exact n b) [ none ↦ failed read_failed | some (v, r) ↦ continue (h v) r ])
LeavesAtMost-read_exact n b h = elim (Bool-cases (leb n (length b))) [
  | inl e ↦ rw e (omega (arith, length-drop n b))
  | inr e ↦ rw e tt
]

LeavesAtMost-read_error :
    (b : List ℕ)
    → LeavesAtMost (length b) (elim (read_exact 2 b) [
      | none ↦ failed read_failed
      | some (v, r) ↦ failed (error_of (at16 v 0))
    ])
LeavesAtMost-read_error b = elim (Bool-cases (leb 2 (length b))) [
  | inl e ↦ rw e tt
  | inr e ↦ rw e tt
]

module _ (short : ℕ → List ℕ → ℕ) where
  LeavesAtMost-read_cookie :
      (n : ℕ) (b : List ℕ) (h : List ℕ → Data)
      → LeavesAtMost (length b) (elim (read_cookie short n b) [
        | none ↦ failed read_failed
        | some (v, r) ↦ continue (h v) r
      ])
  unfolding read_cookie
  LeavesAtMost-read_cookie n b h = elim (Bool-cases (ltb 0 n && length b == 0)) [
    | inl e ↦ rw e tt
    | inr e ↦ rw e (omega (arith, length-drop (min n (short n b)) b))
  ]

  LeavesAtMost-read_body :
      (t : ℕ) (c : Bool) (n : ℕ) (d : Data) (b : List ℕ)
      → LeavesAtMost (length b) (read_body short t c n d b)
  unfolding read_body
  LeavesAtMost-read_body t c n d b =
      let at = LeavesAtMost-if (length b) in
      at (t == 0) _ _ tt (
        at (t == 1) _ _ (LeavesAtMost-read_exact 2 b (λ v. d)) (
          at (t == 4) _ _ (LeavesAtMost-read_exact 2 b (λ v. record d { algo = at16 v 0 })) (
            at (t == 5) _ _
              (LeavesAtMost-read_cookie n b (λ v. record d { cookie = d.cookie ++ (v ∷ []) }))
              (at (t == 6) _ _ (LeavesAtMost-read_exact n b (λ v. record d { server = v })) (
                at (t == 7) _ _ (LeavesAtMost-read_exact 2 b (λ v. record d { port = at16 v 0 })) (
                  at (t == 2) _ _ (LeavesAtMost-read_error b)
                    (at c _ _ tt (LeavesAtMost-read_exact n b (λ v. d)))))))))

  read_step-cases :
      (d : Data) (b : List ℕ)
      → (read_step short d b ≡ failed read_failed)
        ⊎ ((t : ℕ) × (c : Bool) × (n : ℕ) × (read_step short d b
              ≡ read_body short t c n d (drop 4 b))
            × (4 ≤ length b))
  unfolding read_step
  read_step-cases d b = elim (Bool-cases (leb 4 (length b))) [
    | inl e ↦ inr (
      at16 (take 4 b) 0 % critical_bit,
      not (ltb (at16 (take 4 b) 0) critical_bit),
      at16 (take 4 b) 2,
      rw (read_step, e) refl,
      ground arith,
    )
    | inr e ↦ inl (rw (read_step, e) refl)
  ]

  read_data-outcome :
      (fuel : ℕ) (d : Data) (b : List ℕ) (o : Outcome)
      → read_step short d b ≡ o
      → LeavesAtMost (length b - 4) o
      → length b - 4 < fuel
      → ((e : Data) (r : List ℕ) → length r < fuel → read_data short fuel e r ≢ out_of_fuel)
      → read_data short (suc fuel) d b ≢ out_of_fuel
  unfolding read_data
  read_data-outcome fuel d b (continue e r) h l f k = rw (read_data, h) (k e r (omega arith))
  read_data-outcome fuel d b (done e) h l f k = rw (read_data, h) (λ q. cc)
  read_data-outcome fuel d b (failed e) h l f k = rw (read_data, h) (λ q. cc)

  read_data_failed :
      (fuel : ℕ) (d : Data) (b : List ℕ)
      → read_step short d b ≡ failed read_failed
      → read_data short (suc fuel) d b ≢ out_of_fuel
  unfolding read_data
  read_data_failed fuel d b h = rw (read_data, h) (λ q. cc)

  -- Each run of the loop of ReadData takes four bytes at least off the stream, so on every stream
  -- a fuel above its length is enough for ReadData to end.
  pub read_data-ne-out_of_fuel :
      (fuel : ℕ) (d : Data) (b : List ℕ) → length b < fuel → read_data short fuel d b ≢ out_of_fuel
  read_data-ne-out_of_fuel zero d b h = absurd (omega arith)
  read_data-ne-out_of_fuel (suc fuel) d b h =
      let rest =
        λ (e : Data) (r : List ℕ) (k : length r < fuel). read_data-ne-out_of_fuel fuel e r k in
      elim (read_step-cases d b) [
        | inl e ↦ read_data_failed fuel d b e
        | inr (t, c, n, e, four) ↦
            read_data-outcome fuel d b _ e
              (rw (← length-drop 4 b) (LeavesAtMost-read_body t c n d (drop 4 b))) (omega arith)
              rest
      ]
