-- ===== src/Server/Item/Unique.antt =====
-- The loop of handleRequest that makes the receive timestamp of a client's request unique.
use scion_time.Base.{
  Bool, Bool-cases, List, [], ap, arith, false, if◌then◌else◌, inl, inr, length, none, refl, some,
  sym, true, ℕ, ◌+◌, ◌<◌, ◌||◌, ◌↔◌, ◌∙◌, ◌∷◌, ◌≡◌, ◌≢◌, ◌≤◌, ◌⊎◌, suc, zero, ◌%◌, ◌*◌, ◌/◌, ◌^◌,
  not, ==_iff,
}
use scion_time.Base.Int.{
  pos, ◌+ℤ◌, ◌<ℤ◌, ◌≤ℤ◌, bits, floor_parts, int_laws, ℤ, ◌-ℤ◌, ltb_ℤ, eq_of_parts, eqb_ℤ, +ℤ_parts,
  -ℤ_parts, neg_part, pos_part,
}
use scion_time.GoTime.{Time, nanosecond, unix, add}
use scion_time.Ntp.Time64.{Time64, time64_eq, time64_from_time, epoch}
use scion_time.Server.Item.{Entry, Slots, scan, make_unique, no_slots, tss_item_cap}

abbrev pub clash : Time64 → List Entry → Bool
clash t [] = false
clash t (e ∷ es) = time64_eq e.rxt t || clash t es

-- The loop over the entries is broken off exactly if one has the receive timestamp.
scan-clash :
    (t u : Time64) (i : ℕ) (es : List Entry) (s : Slots)
    → ((clash t es ≡ true) × (scan t u i es s ≡ none))
      ⊎ ((clash t es ≡ false) × ((found : Slots) × (scan t u i es s ≡ some found)))
unfolding scan
scan-clash t u i [] s = inr (refl, (s, refl))
scan-clash t u i (e ∷ es) s = elim (Bool-cases (time64_eq e.rxt t)) [
  | inl y ↦ rw (scan, y) (inl (refl, refl))
  | inr n ↦ rw (scan, n) (scan-clash t u (i + 1) es _)
]

pub time64_eq_iff : (t u : Time64) → (time64_eq t u ≡ true) ↔ (t ≡ u)
unfolding time64_eq
time64_eq_iff t u = ground arith

bits-next : (a b : ℤ) → b ≡ a +ℤ pos 1 → bits (2 ^ 32) a ≢ bits (2 ^ 32) b
unfolding bits ◌+ℤ◌
bits-next a b h e = ground arith

-- The seconds of two such times are the same or consecutive.
near_seconds :
    (t u : Time)
    → t <ℤ u
    → u ≤ℤ t +ℤ pos 8
    → ((unix u ≡ unix t) × (nanosecond t < nanosecond u))
      ⊎ (unix u -ℤ epoch ≡ (unix t -ℤ epoch) +ℤ pos 1)
unfolding unix nanosecond
near_seconds t u h k = elim (Bool-cases (eqb_ℤ (unix u) (unix t))) [
  | inl same' ↦
      let same = (==_iff _ _).0 same' in
      inl (
        eq_of_parts _ _ same,
        omega (arith, same, floor_parts t, floor_parts u, +ℤ_parts t (pos 8)),
      )
  | inr other ↦
      let apart : pos_part (unix u) + neg_part (unix t) ≢ pos_part (unix t) + neg_part (unix u) =
        λ q. cc (other, (==_iff _ _).1 q) in
      inr (
        eq_of_parts _ _ (
          omega (
            arith,
            apart,
            floor_parts t,
            floor_parts u,
            +ℤ_parts t (pos 8),
            -ℤ_parts (unix u) epoch,
            -ℤ_parts (unix t) epoch,
            +ℤ_parts (unix t -ℤ epoch) (pos 1),
          )))
]

fraction_injective :
    (x y : ℕ) → x < y → y < 10 ^ 9 → x * 2 ^ 32 / 10 ^ 9 % 2 ^ 32 ≢ y * 2 ^ 32 / 10 ^ 9 % 2 ^ 32
fraction_injective x y h k e = omega arith

ns-lt : (t : Time) → nanosecond t < 10 ^ 9
unfolding nanosecond
ns-lt t = (floor_parts t).0

-- Times that are at most 8 ns apart have different timestamps.
time64_from_time-near :
    (t u : Time) → t <ℤ u → u ≤ℤ t +ℤ pos 8 → time64_from_time t ≢ time64_from_time u
unfolding time64_from_time
time64_from_time-near t u h k e = elim (near_seconds t u h k) [
  | inl (_, lt) ↦
      fraction_injective (nanosecond t) (nanosecond u) lt (ns-lt u)
        (ap (λ (x : Time64). x.fraction) e)
  | inr after_it ↦ bits-next _ _ after_it (ap (λ (x : Time64). x.seconds) e)
]

-- The entries with another receive timestamp than `t`.
abbrev without : Time64 → List Entry → List Entry
without t [] = []
without t (e ∷ es) = let rest = without t es in if time64_eq e.rxt t then rest else e ∷ rest

length-without : (t : Time64) (es : List Entry) → length (without t es) ≤ length es
length-without t [] = omega arith
length-without t (e ∷ es) = ground (arith, length-without t es)

length-without-clash :
    (t : Time64) (es : List Entry) → clash t es ≡ true → length (without t es) < length es
length-without-clash t [] h = cc
length-without-clash t (e ∷ es) h = elim (Bool-cases (time64_eq e.rxt t)) [
  | inl y ↦ rw y (omega (arith, length-without t es))
  | inr n ↦ rw n (omega (arith, length-without-clash t es (rw n at h)))
]

clash-without : (t u : Time64) (es : List Entry) → t ≢ u → clash u (without t es) ≡ clash u es
clash-without t u [] h = refl
clash-without t u (e ∷ es) h = elim (Bool-cases (time64_eq e.rxt t)) [
  | inl y ↦ elim (Bool-cases (time64_eq e.rxt u)) [
    | inl z ↦ absurd (h (sym ((time64_eq_iff e.rxt t).0 y) ∙ (time64_eq_iff e.rxt u).0 z))
    | inr z ↦ rw (y, z) (clash-without t u es h)
  ]
  | inr n ↦ rw (n, clash-without t u es h)
]

-- The loop ends, after less than `fuel` nanoseconds, at a receive time with a new timestamp.
pub record Settles (fuel : ℕ) (origin : Time64) (buf : List Entry) (rxt txt : Time) : Type 0 where
  pub rxt' : Time
  pub txt' : Time
  pub slots : Slots
  pub returns : make_unique fuel origin buf rxt txt ≡ some (rxt', txt', slots)
  pub from : rxt ≤ℤ rxt'
  pub until : rxt' <ℤ rxt +ℤ pos fuel
  pub new : clash (time64_from_time rxt') buf ≡ false
  pub scanned : scan (time64_from_time rxt') origin 0 buf no_slots ≡ some slots

abbrev later_txt : Time → Time → Time
later_txt rxt1 txt = if not (ltb_ℤ rxt1 txt) then add rxt1 (pos 1) else txt

Settles-now :
    (n : ℕ) (origin : Time64) (buf : List Entry) (rxt txt : Time) (s : Slots)
    → clash (time64_from_time rxt) buf ≡ false
    → scan (time64_from_time rxt) origin 0 buf no_slots ≡ some s
    → Settles (suc n) origin buf rxt txt
unfolding make_unique
Settles-now n origin buf rxt txt s free e = record {
  rxt' = rxt;
  txt' = txt;
  slots = s;
  returns = rw (make_unique, e);
  from = omega arith;
  until = omega int_laws;
  new = free;
  scanned = e;
}

Settles-later :
    (n : ℕ) (origin : Time64) (buf : List Entry) (rxt txt : Time)
    → scan (time64_from_time rxt) origin 0 buf no_slots ≡ none
    → Settles n origin buf (add rxt (pos 1)) (later_txt (add rxt (pos 1)) txt)
    → Settles (suc n) origin buf rxt txt
unfolding make_unique add
Settles-later n origin buf rxt txt e f = record {
  rxt' = f.rxt';
  txt' = f.txt';
  slots = f.slots;
  returns = rw (make_unique, e) f.returns;
  from = omega (int_laws, f.from);
  until = omega (int_laws, f.until);
  new = f.new;
  scanned = f.scanned;
}

-- The entries that clash with the next times, but not with this one.
same_later :
    (n : ℕ) (rxt : Time) (es buf : List Entry)
    → suc n ≤ 9
    → ((t : Time)
        → rxt ≤ℤ t
        → t <ℤ rxt +ℤ pos (suc n)
        → clash (time64_from_time t) es ≡ clash (time64_from_time t) buf)
    → (t : Time) → add rxt (pos 1) ≤ℤ t
    → t <ℤ add rxt (pos 1) +ℤ pos n
    → clash (time64_from_time t) (without (time64_from_time rxt) es)
      ≡ clash (time64_from_time t) buf
unfolding add
same_later n rxt es buf h same t lo hi =
    clash-without (time64_from_time rxt) (time64_from_time t) es
      (time64_from_time-near rxt t (omega int_laws) (omega int_laws))
    ∙ same t (omega int_laws) (omega int_laws)

make_unique_finds :
    (fuel : ℕ) (origin : Time64) (buf es : List Entry) (rxt txt : Time)
    → fuel ≤ 9
    → length es < fuel
    → ((t : Time)
        → rxt ≤ℤ t
        → t <ℤ rxt +ℤ pos fuel
        → clash (time64_from_time t) es ≡ clash (time64_from_time t) buf)
    → Settles fuel origin buf rxt txt
make_unique_finds zero origin buf es rxt txt h k same = absurd (omega arith)
make_unique_finds (suc n) origin buf es rxt txt h k same =
    let t64 = time64_from_time rxt in
    elim (scan-clash t64 origin 0 buf no_slots) [
      | inr (free, (s, e)) ↦ Settles-now n origin buf rxt txt s free e
      | inl (taken, e) ↦
          let shorter =
            length-without-clash t64 es (same rxt (omega arith) (omega int_laws) ∙ taken) in
          Settles-later n origin buf rxt txt e (
            make_unique_finds n origin buf (without t64 es) (add rxt (pos 1))
              (later_txt (add rxt (pos 1)) txt) (omega arith) (omega (arith, shorter))
              (same_later n rxt es buf h same))
    ]

-- With at most 8 entries, the loop of handleRequest ends within 9 attempts, and it moves the
-- receive time by at most 8 nanoseconds, to one whose timestamp no entry has.
pub make_unique-Settles :
    (origin : Time64) (buf : List Entry) (rxt txt : Time)
    → length buf ≤ tss_item_cap
    → Settles (tss_item_cap + 1) origin buf rxt txt
make_unique-Settles origin buf rxt txt h =
    make_unique_finds 9 origin buf buf rxt txt (omega arith) (omega arith) (λ t a b. refl)
