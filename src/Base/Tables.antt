-- ===== src/Base/Tables.antt =====
-- Equations over bytes, checked by evaluation at every value.
use scion_time.Base.{
  Bool-cases, ==_iff, Bool, arith, inl, inr, suc, true, zero, ℕ, ◌&&◌, ◌<◌, ◌==◌, ◌≡◌,
}

-- Two functions have the same values at the numbers below a bound.
unfoldable pub agree : ℕ → (ℕ → ℕ) → (ℕ → ℕ) → Bool
agree zero f g = true
agree (suc k) f g = agree k f g && f k == g k

pub agree→eq : (k : ℕ) (f g : ℕ → ℕ) → agree k f g ≡ true → (a : ℕ) → a < k → f a ≡ g a
unfolding agree
agree→eq zero f g same a below = absurd (omega arith)
agree→eq (suc k) f g same a below = elim (Bool-cases (a == k)) [
  | inl last ↦ let e : a ≡ k = (==_iff a k).0 last in rw e (ground arith)
  | inr earlier ↦ agree→eq k f g (ground arith) a (ground arith)
]

-- The same for two arguments, the second below the bound `k`.
unfoldable pub agree₂ : ℕ → ℕ → (ℕ → ℕ → ℕ) → (ℕ → ℕ → ℕ) → Bool
agree₂ zero k f g = true
agree₂ (suc h) k f g = agree₂ h k f g && agree k (f h) (g h)

pub agree₂→eq :
    (h k : ℕ) (f g : ℕ → ℕ → ℕ) → agree₂ h k f g ≡ true → (a b : ℕ) → a < h → b < k → f a b ≡ g a b
unfolding agree₂
agree₂→eq zero k f g same a b p q = absurd (omega arith)
agree₂→eq (suc h) k f g same a b p q = elim (Bool-cases (a == h)) [
  | inl last ↦
      let e : a ≡ h = (==_iff a h).0 last in rw e (agree→eq k (f h) (g h) (ground arith) b q)
  | inr earlier ↦ agree₂→eq h k f g (ground arith) a b (ground arith) q
]
