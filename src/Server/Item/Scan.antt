-- ===== src/Server/Item/Scan.antt =====
-- What the loop over the entries in handleRequest finds: the entry of the origin timestamp, and a
-- place for the new timestamps.
use scion_time.Ntp.Time64.{before}
use scion_time.Base.{
  Bool-cases, List, [], arith, false, get_elem?, inl, inr, none, refl, some, suc, ℕ, ◌+◌, ◌∙◌, ◌∷◌,
  ◌≡◌, ◌⊎◌, Option, ap, length, ◌<◌,
}
use scion_time.Ntp.Time64.{Time64, time64_eq}
use scion_time.Server.Item.{Entry, Slots, scan, earliest, no_slots}
use scion_time.Server.Item.Interleaved.{Distinct, txt_of, clash-head}
use scion_time.Server.Item.Unique.{clash, time64_eq_iff}

pub txt_of-clash : (u : Time64) (es : List Entry) → clash u es ≡ false → txt_of u es ≡ none
txt_of-clash u [] h = refl
txt_of-clash u (e ∷ es) h = let (n, k) = clash-head u e es h in rw n (txt_of-clash u es k)

-- The loop over the entries finds the entry of the origin timestamp, if there is one.
pub scan-o :
    (t u : Time64) (i : ℕ) (es : List Entry) (s found : Slots)
    → Distinct es
    → scan t u i es s ≡ some found
    → ((txt_of u es ≡ none) × (found.o ≡ s.o))
      ⊎ ((j : ℕ) × (e : Entry) × (get_elem? es j ≡ some e)
          × (txt_of u es ≡ some e.txt)
          × (found.o ≡ some (i + j)))
unfolding scan
scan-o t u i [] s found d h = inl (refl, ground arith)
scan-o t u i (e ∷ es) s found d h = elim (Bool-cases (time64_eq e.rxt t)) [
  | inl y ↦ absurd (cc (rw (scan, y) at h))
  | inr n ↦ elim (Bool-cases (time64_eq e.rxt u)) [
    | inl y ↦ elim (scan-o t u (i + 1) es _ found d.1 (rw (scan, n) at h)) [
      | inl (_, o) ↦ inr (0, e, refl, rw y refl, (o ∙ rw y (ap some (omega arith))))
      | inr (j, f, g, k, o) ↦
          absurd (cc (k, (rw ((time64_eq_iff e.rxt u).0 y) at (txt_of-clash e.rxt es d.0))))
    ]
    | inr m ↦ elim (scan-o t u (i + 1) es _ found d.1 (rw (scan, n) at h)) [
      | inl (a, o) ↦ inl (rw m a, (o ∙ rw m refl))
      | inr (j, f, g, k, o) ↦ inr (suc j, f, g, rw m k, (o ∙ ap some (omega arith)))
    ]
  ]
]

-- An index below `n` is there.
abbrev pub IsSlot : ℕ → Option (ℕ × Time64) → Type 0
IsSlot n m = (k : ℕ) × (v : Time64) × (m ≡ some (k, v)) × (k < n)

earliest-IsSlot :
    (i : ℕ) (t : Time64) (m : Option (ℕ × Time64))
    → (m ≡ none) ⊎ IsSlot i m
    → IsSlot (i + 1) (earliest i t m)
unfolding earliest
earliest-IsSlot i t none h = (i, t, refl, omega arith)
earliest-IsSlot i t (some (k, v)) (inl h) = absurd (cc h)
earliest-IsSlot i t (some (k, v)) (inr (k', v', e, lt)) = elim (Bool-cases (before t v)) [
  | inl y ↦ rw y (i, t, refl, omega arith)
  | inr n ↦ rw n (k, v, refl, (let same : k ≡ k' = cc e in omega arith))
]

scan-min :
    (t u : Time64) (i : ℕ) (es : List Entry) (s found : Slots)
    → IsSlot i s.min
    → scan t u i es s ≡ some found
    → IsSlot (i + length es) found.min
unfolding scan
scan-min t u i [] s found m h =
    let (k, v, e, lt) = m in (k, v, (let same : s ≡ found = cc h in rw (← same) e), omega arith)
scan-min t u i (e ∷ es) s found m h = elim (Bool-cases (time64_eq e.rxt t)) [
  | inl y ↦ absurd (cc (rw (scan, y) at h))
  | inr n ↦
      let (k, v, f, lt) =
        scan-min t u (i + 1) es _ found (earliest-IsSlot i e.rxt s.min (inr m))
          (rw (scan, n) at h) in
      (k, v, f, omega arith)
]

pub scan-full :
    (t u : Time64) (es : List Entry) (found : Slots)
    → 0 < length es
    → scan t u 0 es no_slots ≡ some found
    → IsSlot (length es) found.min
unfolding scan
scan-full t u [] found p h = absurd (omega arith)
scan-full t u (e ∷ es) found p h = elim (Bool-cases (time64_eq e.rxt t)) [
  | inl y ↦ absurd (cc (rw (scan, y) at h))
  | inr n ↦
      let (k, v, f, lt) =
        scan-min t u 1 es _ found (earliest-IsSlot 0 e.rxt none (inl refl)) (rw (scan, n) at h) in
      (k, v, f, omega arith)
]
