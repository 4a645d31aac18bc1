-- ===== src/Server/Item/Interleaved.antt =====
-- What handleRequest answers and stores, and what updateTXTimestamp changes, read off the entries
-- as a map from receive to transmit timestamps.
use scion_time.Base.{
  Bool-cases, List, Option, [], arith, false, if◌then◌else◌, inl, inr, length, none, refl, set,
  some, suc, true, zero, ℕ, ◌++◌, ◌<◌, ◌∙◌, ◌∷◌, ◌≡◌, ◌≤◌,
}
use scion_time.Ntp.Time64.{Time64, time64_eq}
use scion_time.Server.Item.{Entry, tss_item_cap}
use scion_time.Server.Item.Unique.{clash}

-- The transmit timestamp of the first entry with a receive timestamp.
abbrev pub txt_of : Time64 → List Entry → Option Time64
txt_of t [] = none
txt_of t (e ∷ es) = if time64_eq e.rxt t then some e.txt else txt_of t es

-- No two entries have the same receive timestamp, and there are at most 8.
abbrev pub Distinct : List Entry → Type 0
Distinct [] = Unit
Distinct (e ∷ es) = (clash e.rxt es ≡ false) × Distinct es

abbrev pub IsBuffer : List Entry → Type 0
IsBuffer es = Distinct es × (length es ≤ tss_item_cap)

pub time64_eq_self : (t : Time64) → time64_eq t t ≡ true
unfolding time64_eq
time64_eq_self t = ground arith

pub time64_eq_comm : (t u : Time64) → time64_eq t u ≡ time64_eq u t
unfolding time64_eq
time64_eq_comm t u = ground arith

-- Writing an entry with a new receive timestamp.
clash-set :
    (u : Time64) (es : List Entry) (i : ℕ) (e : Entry)
    → clash u es ≡ false
    → time64_eq e.rxt u ≡ false
    → clash u (set es i e) ≡ false
clash-set u [] i e h k = refl
clash-set u (x ∷ es) zero e h k = elim (Bool-cases (time64_eq x.rxt u)) [
  | inl y ↦ absurd (cc (rw y at h))
  | inr n ↦ rw k (rw n at h)
]
clash-set u (x ∷ es) (suc i) e h k = elim (Bool-cases (time64_eq x.rxt u)) [
  | inl y ↦ absurd (cc (rw y at h))
  | inr n ↦ rw n (clash-set u es i e (rw n at h) k)
]

pub clash-head :
    (u : Time64) (x : Entry) (es : List Entry)
    → clash u (x ∷ es) ≡ false
    → (time64_eq x.rxt u ≡ false) × (clash u es ≡ false)
clash-head u x es h = elim (Bool-cases (time64_eq x.rxt u)) [
  | inl y ↦ absurd (cc (rw y at h))
  | inr n ↦ (n, rw n at h)
]

pub Distinct-set :
    (es : List Entry) (i : ℕ) (e : Entry)
    → Distinct es
    → clash e.rxt es ≡ false
    → Distinct (set es i e)
Distinct-set [] i e d h = tt
Distinct-set (x ∷ es) zero e d h = ((clash-head e.rxt x es h).1, d.1)
Distinct-set (x ∷ es) (suc i) e d h =
    let (n, k) = clash-head e.rxt x es h in
    (clash-set x.rxt es i e d.0 (time64_eq_comm e.rxt x.rxt ∙ n), Distinct-set es i e d.1 k)

clash-append :
    (u : Time64) (es : List Entry) (e : Entry)
    → clash u es ≡ false
    → time64_eq e.rxt u ≡ false
    → clash u (es ++ (e ∷ [])) ≡ false
clash-append u [] e h k = rw k refl
clash-append u (x ∷ es) e h k = let (n, m) = clash-head u x es h in rw n (clash-append u es e m k)

pub Distinct-append :
    (es : List Entry) (e : Entry) → Distinct es → clash e.rxt es ≡ false → Distinct (es ++ (e ∷ []))
Distinct-append [] e d h = (refl, tt)
Distinct-append (x ∷ es) e d h =
    let (n, k) = clash-head e.rxt x es h in
    (clash-append x.rxt es e d.0 (time64_eq_comm e.rxt x.rxt ∙ n), Distinct-append es e d.1 k)

pub txt_of-set :
    (es : List Entry) (i : ℕ) (e : Entry)
    → i < length es
    → clash e.rxt es ≡ false
    → txt_of e.rxt (set es i e) ≡ some e.txt
txt_of-set [] i e h k = absurd (omega arith)
txt_of-set (x ∷ es) zero e h k = rw (time64_eq_self e.rxt) refl
txt_of-set (x ∷ es) (suc i) e h k =
    let (n, m) = clash-head e.rxt x es k in rw n (txt_of-set es i e (omega arith) m)

pub txt_of-append :
    (es : List Entry) (e : Entry)
    → clash e.rxt es ≡ false
    → txt_of e.rxt (es ++ (e ∷ [])) ≡ some e.txt
txt_of-append [] e k = rw (time64_eq_self e.rxt) refl
txt_of-append (x ∷ es) e k = let (n, m) = clash-head e.rxt x es k in rw n (txt_of-append es e m)
