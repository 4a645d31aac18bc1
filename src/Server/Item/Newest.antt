-- ===== src/Server/Item/Newest.antt =====
-- What handleRequest of core/server/server.go does to the value by which the queue orders an item.
use scion_time.Base.{
  Bool-cases, List, Option, [], arith, false, inl, inr, none, refl, some, sym, true, ℕ, ◌+◌, ◌↔◌,
  ◌∷◌, ◌≡◌, ◌⊎◌,
}
use scion_time.Ntp.Time64.{after, before, Time64, time64_eq}
use scion_time.Server.Item.{Entry, Item, Slots, latest, no_slots, record_times, scan}

-- A receive timestamp of an entry.
abbrev pub Has : List Entry → Time64 → Type 0
Has [] w = ⊥
Has (e ∷ es) w = (w ≡ e.rxt) ⊎ Has es w

-- The receive timestamp in a slot is the latest of those that were seen.
record IsTop (Seen : Time64 → Type 0) (m : Option (ℕ × Time64)) : Type 0 where
  seen : (k : ℕ) (v : Time64) → m ≡ some (k, v) → Seen v
  above : (k : ℕ) (v w : Time64) → m ≡ some (k, v) → Seen w → before v w ≡ false
  empty : m ≡ none → (w : Time64) → ¬ Seen w

before_irrefl : (v : Time64) → before v v ≡ false
unfolding before
before_irrefl v = ground arith

before_below : (u t w : Time64) → before t u ≡ false → before u w ≡ false → before t w ≡ false
unfolding before
before_below u t w h k = ground arith

before_asym : (t u : Time64) → before t u ≡ true → before u t ≡ false
unfolding before
before_asym t u h = ground arith

latest-IsTop :
    (Seen Seen' : Time64 → Type 0) (i : ℕ) (t : Time64) (m : Option (ℕ × Time64))
    → ((w : Time64) → Seen' w ↔ (Seen w ⊎ (w ≡ t)))
    → IsTop Seen m
    → IsTop Seen' (latest i t m)
unfolding latest
latest-IsTop Seen Seen' i t none same top = record {
  seen = λ k v e. let at : t ≡ v = cc e in (same v).1 (inr (sym at));
  above = λ k v w e s.
      let at : t ≡ v = cc e in
      elim ((same w).0 s) [
        | inl o ↦ absurd (top.empty refl w o)
        | inr q ↦ rw (← at) (rw q (before_irrefl t))
      ];
  empty = λ e. absurd (cc e);
}
latest-IsTop Seen Seen' i t (some (k, u)) same top = elim (Bool-cases (before t u)) [
  | inl y ↦ rw y (record {
    seen = λ k' v e. let at : u ≡ v = cc e in (same v).1 (inl (top.seen k v (rw at refl)));
    above = λ k' v w e s.
        let at : u ≡ v = cc e in
        elim ((same w).0 s) [
          | inl o ↦ top.above k v w (rw at refl) o
          | inr q ↦ rw (← at) (rw q (before_asym t u y))
        ];
    empty = λ e. absurd (cc e);
  })
  | inr n ↦ rw n (record {
    seen = λ k' v e. let at : t ≡ v = cc e in (same v).1 (inr (sym at));
    above = λ k' v w e s.
        let at : t ≡ v = cc e in
        elim ((same w).0 s) [
          | inl o ↦ rw (← at) (before_below u t w n (top.above k u w refl o))
          | inr q ↦ rw (← at) (rw q (before_irrefl t))
        ];
    empty = λ e. absurd (cc e);
  })
]

scan-IsTop :
    (t u : Time64) (i : ℕ) (es : List Entry) (s found : Slots) (Seen Seen' : Time64 → Type 0)
    → ((w : Time64) → Seen' w ↔ (Seen w ⊎ Has es w))
    → IsTop Seen s.max
    → scan t u i es s ≡ some found
    → IsTop Seen' found.max
unfolding scan
scan-IsTop t u i [] s found Seen Seen' same top h =
    let at : s ≡ found = cc h in
    let old : (w : Time64) → Seen' w → Seen w =
      λ w q. elim ((same w).0 q) [ inl o ↦ o | inr n ↦ absurd n ] in
    rw (← at) (record {
      seen = λ k v e. (same v).1 (inl (top.seen k v e));
      above = λ k v w e q. top.above k v w e (old w q);
      empty = λ e w q. top.empty e w (old w q);
    })
scan-IsTop t u i (e ∷ es) s found Seen Seen' same top h = elim (Bool-cases (time64_eq e.rxt t)) [
  | inl y ↦ absurd (cc (rw (scan, y) at h))
  | inr n ↦
      let Next : Time64 → Type 0 = λ w. Seen w ⊎ (w ≡ e.rxt) in
      scan-IsTop t u (i + 1) es _ found Next Seen'
        (λ w. (
          (λ q. elim ((same w).0 q) [
            | inl o ↦ inl (inl o)
            | inr (inl r) ↦ inl (inr r)
            | inr (inr r) ↦ inr r
          ]),
          (λ q.
              (same w).1
                (elim q [ inl (inl o) ↦ inl o | inl (inr r) ↦ inr (inl r) | inr r ↦ inr (inr r) ])),
        ))
        (latest-IsTop Seen Next i e.rxt s.max (λ w. ((λ q. q), (λ q. q))) top) (rw (scan, n) at h)
]

-- The value for the queue, `old` before: a receive timestamp after those of all entries replaces it,
-- if there are entries, and another one leaves it.
abbrev pub Requeues : List Entry → Time64 → Time64 → Time64 → Type 0
Requeues es rxt64 old new =
    ((v : Time64) → Has es v → ((w : Time64) → Has es w → after rxt64 w ≡ true) → new ≡ rxt64)
    × ((w : Time64) → Has es w → after rxt64 w ≡ false → new ≡ old)

not_after : (x v w : Time64) → before v w ≡ false → after x w ≡ false → after x v ≡ false
unfolding before after
not_after x v w h k = ground arith

pub record_times-Requeues :
    (item : Item) (found : Slots) (t u x : Time64)
    → scan t u 0 item.buf no_slots ≡ some found
    → Requeues item.buf t item.qval (record_times item found t x).qval
unfolding record_times
record_times-Requeues item found t u x h = by_max found.max refl
  where
    top : IsTop (Has item.buf) found.max
    top =
        scan-IsTop t u 0 item.buf no_slots found (λ w. ⊥) (Has item.buf)
          (λ w. ((λ q. inr q), (λ q. elim q [ inl n ↦ absurd n | inr r ↦ r ])))
          (record {
            seen = λ k v e. absurd (cc e);
            above = λ k v w e s. absurd s;
            empty = λ e w s. s;
          })
          h

    by_max :
        (m : Option (ℕ × Time64))
        → found.max ≡ m
        → Requeues item.buf t item.qval (record_times item found t x).qval
    by_max none e = ((λ v s l. absurd (top.empty e v s)), (λ w s l. absurd (top.empty e w s)))
    by_max (some (k, v)) e = (
      (λ w s l. rw (record_times, e) (rw (l v (top.seen k v e)) refl)),
      (λ w s l. rw (record_times, e) (rw (not_after t v w (top.above k v w e s) l) refl)),
    )
