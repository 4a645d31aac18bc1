-- ===== src/Ntske/Fetcher/Stock.antt =====
-- What FetchData of net/ntske/fetcher.go returns, and what it leaves after an error.
use scion_time.Base.Run.{Run, ok, err, panic, out_of_fuel}
use scion_time.Ntske.Records.{
  Data, Outcome, read_data, read_step, continue, done, failed, ReadError,
}
use scion_time.Base.{
  ==_iff, Bool-cases, List, Option, [], inl, inr, length, none, refl, some, ℕ, ◌==◌, ◌∷◌, ◌≡◌, ◌≢◌,
  ◌⊎◌, ==_false, Option-cases, arith, false, suc, zero, true, ap, sym, ◌∙◌,
}
use scion_time.Ntske.Fetcher.{
  FetchError, checked_data, no_cookies, unknown_algo, Connected, dialed, empty_data, exchange_keys,
  fetch_data, no_keys, not_connected, not_read, or_failed, take_cookie, data_left,
}
use scion_time.Ntske.Records.Termination.{read_data-ne-out_of_fuel}
use scion_time.Ntske.Sealed.{aes_siv_cmac_256}
use mathlib.Core.Path.{subst}

-- The data can be used: there is a cookie, and the algorithm is the one that the client knows.
abbrev pub IsUsable : Data → Type 0
IsUsable d =
    ((c : List ℕ) × (rest : List (List ℕ)) × (d.cookie ≡ c ∷ rest)) × (d.algo ≡ aes_siv_cmac_256)

-- There is a cookie, but the algorithm is another.
abbrev pub IsRefused : Data → Type 0
IsRefused d =
    ((c : List ℕ) × (rest : List (List ℕ)) × (d.cookie ≡ c ∷ rest)) × (d.algo ≢ aes_siv_cmac_256)

-- An exchange fails, or leaves usable data.
abbrev pub Exchanged : Data × Option FetchError → Type 0
Exchanged r =
    ((g : Data) × (e : FetchError) × (r ≡ (g, some e)) × (e ≡ unknown_algo → IsRefused g))
    ⊎ ((g : Data) × (r ≡ (g, none)) × IsUsable g)

checked_data-Exchanged :
    (d : Data) (cs : List (List ℕ)) → d.cookie ≡ cs → Exchanged (checked_data d)
unfolding checked_data
checked_data-Exchanged d [] h = inl (d, no_cookies, rw (checked_data, h) refl, λ q. absurd (cc q))
checked_data-Exchanged d (c ∷ cs) h =
    let some_cookie : (length d.cookie == 0) ≡ false =
      rw h (==_false (suc (length cs)) 0 (λ q. omega (arith, q))) in
    elim (Bool-cases (d.algo == aes_siv_cmac_256)) [
      | inl y ↦
          inr (d, rw (some_cookie, y) refl, ((c, cs, h), (==_iff d.algo aes_siv_cmac_256).0 y))
      | inr n ↦ inl (
        d,
        unknown_algo,
        rw (some_cookie, n) refl,
        λ q. ((c, cs, h), λ e. cc (n, (==_iff d.algo aes_siv_cmac_256).1 e)),
      )
    ]

module _ (short : ℕ → List ℕ → ℕ) where
  read_data_next-ne-panic :
      (fuel : ℕ) (d : Data) (b : List ℕ) (o : Outcome)
      → read_step short d b ≡ o
      → ((e : Data) (r : List ℕ) → read_data short fuel e r ≢ panic)
      → read_data short (suc fuel) d b ≢ panic
  unfolding read_data
  read_data_next-ne-panic fuel d b (continue e r) h k = rw (read_data, h) (k e r)
  read_data_next-ne-panic fuel d b (done e) h k = rw (read_data, h) (λ q. cc)
  read_data_next-ne-panic fuel d b (failed e) h k = rw (read_data, h) (λ q. cc)

  read_data-ne-panic : (fuel : ℕ) (d : Data) (b : List ℕ) → read_data short fuel d b ≢ panic
  unfolding read_data
  read_data-ne-panic zero d b = λ q. cc
  read_data-ne-panic (suc fuel) d b =
      read_data_next-ne-panic fuel d b (read_step short d b) refl (read_data-ne-panic fuel)

  run_cases :
      (r : Run ReadError Data)
      → r ≢ panic
      → r ≢ out_of_fuel
      → ((e : Data) × (r ≡ ok e)) ⊎ ((e : ReadError) × (r ≡ err e))
  run_cases (ok e) p f = inl (e, refl)
  run_cases (err e) p f = inr (e, refl)
  run_cases panic p f = absurd (p refl)
  run_cases out_of_fuel p f = absurd (f refl)

  exchange_keys-Exchanged : (c : Option Connected) → Exchanged (exchange_keys short c)
  unfolding exchange_keys
  exchange_keys-Exchanged none = inl (empty_data, not_connected, refl, λ q. absurd (cc q))
  exchange_keys-Exchanged (some c) =
      elim (run_cases (read_data short (suc (length c.stream)) (dialed c) c.stream)
        (read_data-ne-panic _ _ _) (read_data-ne-out_of_fuel short _ _ _ (omega arith))) [
          | inr (e, h) ↦ inl (
            data_left short (suc (length c.stream)) (dialed c) c.stream,
            not_read e,
            rw (exchange_keys, h) refl,
            λ q. absurd (cc q),
          )
          | inl (d, h) ↦ elim (Option-cases c.exported_s2c) [
            | inl n ↦ inl (d, no_keys, rw (exchange_keys, h, n) refl, λ q. absurd (cc q))
            | inr (s, a) ↦ elim (Option-cases c.exported_c2s) [
              | inl n ↦ inl (
                record d { s2c_key = s },
                no_keys,
                rw (exchange_keys, h, a, n) refl,
                λ q. absurd (cc q),
              )
              | inr (k, b) ↦
                  let e : exchange_keys short (some c)
                      ≡ checked_data (record d { s2c_key = s; c2s_key = k }) =
                    rw (exchange_keys, h, a, b) refl in
                  rw e
                    (checked_data-Exchanged (record d { s2c_key = s; c2s_key = k }) d.cookie refl)
            ]
          ]
        ]

  fetch_data-exchanged :
      (c : Option Connected) (f : Data)
      → f.cookie ≡ []
      → fetch_data short c f ≡ or_failed (exchange_keys short c)
  unfolding fetch_data
  fetch_data-exchanged c f h =
      let empty : (length f.cookie == 0) ≡ true = rw h refl in rw (fetch_data, empty) refl

  or_failed-stocked :
      (g : Data) (x : List ℕ) (rest : List (List ℕ))
      → g.cookie ≡ x ∷ rest
      → or_failed (g, none) ≡ (record g { cookie = rest }, ok g)
  unfolding or_failed take_cookie
  or_failed-stocked g x rest h = ap (take_cookie g) h

  fetch_data-stocked :
      (c : Option Connected) (f : Data) (x : List ℕ) (rest : List (List ℕ))
      → f.cookie ≡ x ∷ rest
      → fetch_data short c f ≡ (record f { cookie = rest }, ok f)
  unfolding fetch_data
  fetch_data-stocked c f x rest h =
      let some_cookie : (length f.cookie == 0) ≡ false =
        rw h (==_false (suc (length rest)) 0 (λ q. omega (arith, q))) in
      rw (fetch_data, some_cookie) (or_failed-stocked f x rest h)

  -- What FetchData does: it fails after an exchange that failed, or returns data with a cookie, which
  -- it takes off the fetcher's stock and changes nothing else.
  abbrev pub Fetches : Option Connected → Data → Type 0
  Fetches c f =
      ((g : Data) × (e : FetchError) × (f.cookie ≡ []) × (fetch_data short c f ≡ (g, err e)))
      ⊎ ((d : Data) × (x : List ℕ) × (rest : List (List ℕ)) × (d.cookie ≡ x ∷ rest)
          × (fetch_data short c f ≡ (record d { cookie = rest }, ok d))
          × (((f.cookie ≡ []) × (d.algo ≡ aes_siv_cmac_256)) ⊎ (d ≡ f)))

  stock_cases :
      (f : Data) → (f.cookie ≡ []) ⊎ ((x : List ℕ) × (rest : List (List ℕ)) × (f.cookie ≡ x ∷ rest))
  stock_cases f = list_cases f.cookie
    where
      list_cases :
          (cs : List (List ℕ))
          → (cs ≡ []) ⊎ ((x : List ℕ) × (rest : List (List ℕ)) × (cs ≡ x ∷ rest))
      list_cases [] = inl refl
      list_cases (x ∷ rest) = inr (x, rest, refl)

  -- An exchange that fails for an unknown algorithm leaves its cookies and its algorithm in the
  -- fetcher: the next call of FetchData makes no exchange, whatever connection there would be, and
  -- returns the data that was refused.
  pub fetch_data-refused :
      (c c' : Option Connected) (f g : Data)
      → fetch_data short c f ≡ (g, err unknown_algo)
      → ((fetch_data short c' g).1 ≡ ok g) × (g.algo ≢ aes_siv_cmac_256)
  unfolding or_failed
  fetch_data-refused c c' f g h = elim (stock_cases f) [
    | inr (x, rest, k) ↦
        let p : ◌≡◌ {A = Data × Run FetchError Data} (record f { cookie = rest }, ok f)
            (g, err unknown_algo) =
          sym (fetch_data-stocked c f x rest k) ∙ h in
        absurd (cc p)
    | inl k ↦ elim (exchange_keys-Exchanged c) [
      | inr (r, i, ((x, rest, u), a)) ↦
          let p : ◌≡◌ {A = Data × Run FetchError Data} (record r { cookie = rest }, ok r)
              (g, err unknown_algo) =
            sym (fetch_data-exchanged c f k ∙ ap or_failed i ∙ or_failed-stocked r x rest u) ∙ h in
          absurd (cc p)
      | inl (r, e, i, refused) ↦
          let p : ◌≡◌ {A = Data × Run FetchError Data} (r, err e) (g, err unknown_algo) =
            sym (fetch_data-exchanged c f k ∙ ap or_failed i) ∙ h in
          let same : e ≡ unknown_algo = cc p in
          let same_data : r ≡ g = cc p in
          let ((x, rest, u), a) = subst IsRefused same_data (refused same) in
          (ap (λ (q : Data × Run FetchError Data). q.1) (fetch_data-stocked c' g x rest u), a)
    ]
  ]
