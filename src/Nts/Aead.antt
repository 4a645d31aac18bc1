-- ===== src/Nts/Aead.antt =====
-- The authenticated encryption of the package miscreant, a parameter of the model, with what the
-- code relies on: what was sealed opens under the same key, nonce and additional data, and the
-- ciphertext is as long as the plaintext with a tag of 16 bytes in front.
use scion_time.Base.{Bool, List, Option, length, some, ℕ, ◌+◌, ◌≡◌}

pub record Aead : Type 0 where
  -- miscreant.NewAEAD accepts the key
  pub accepts_key : List ℕ → Bool
  -- Seal and Open with key, nonce, plaintext or ciphertext, and additional data
  pub seal : List ℕ → List ℕ → List ℕ → List ℕ → List ℕ
  pub unseal : List ℕ → List ℕ → List ℕ → List ℕ → Option (List ℕ)
  pub unseal-seal :
      (key nonce plain additional : List ℕ)
      → unseal key nonce (seal key nonce plain additional) additional ≡ some plain
  pub length-seal :
      (key nonce plain additional : List ℕ)
      → length (seal key nonce plain additional) ≡ 16 + length plain
