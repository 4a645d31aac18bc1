-- ===== src/Ntp/Header/Fields.antt =====
-- The accessors of net/ntp/ntp.go for the first byte read and write separate bits.
use Prim.Native.Nat.{bit_and, bit_or}
use scion_time.Base.{arith, refl, some, ℕ, ◌%◌, ◌*◌, ◌+◌, ◌/◌, ◌<◌, ◌≡◌}
use scion_time.Base.Tables.{agree, agree₂, agree₂→eq, agree→eq}
use scion_time.Ntp.Header.{leap_indicator, mode, set_leap_indicator, set_mode, set_version, version}
use scion_time.Ntp.Packet.{Packet}

pub leap_indicator_lem : (p : Packet) → p.lvm < 256 → leap_indicator p ≡ p.lvm / 64
unfolding leap_indicator agree
leap_indicator_lem p h = agree→eq 256 (λ x. bit_and (x / 64) 3) (λ x. x / 64) refl p.lvm h

pub version_lem : (p : Packet) → p.lvm < 256 → version p ≡ p.lvm / 8 % 8
unfolding version agree
version_lem p h = agree→eq 256 (λ x. bit_and (x / 8) 7) (λ x. x / 8 % 8) refl p.lvm h

pub mode_lem : (p : Packet) → p.lvm < 256 → mode p ≡ p.lvm % 8
unfolding mode agree
mode_lem p h = agree→eq 256 (λ x. bit_and x 7) (λ x. x % 8) refl p.lvm h

low_two : (l : ℕ) → l < 4 → bit_and l 3 ≡ l
unfolding agree
low_two = agree→eq 4 (λ l. bit_and l 3) (λ l. l) refl

low_three : (v : ℕ) → v < 8 → bit_and v 7 ≡ v
unfolding agree
low_three = agree→eq 8 (λ l. bit_and l 7) (λ l. l) refl

leap_bits : (x l : ℕ) → x < 256 → l < 4 → bit_or (bit_and x 0x3f) (l * 64 % 256) ≡ l * 64 + x % 64
unfolding agree₂ agree
leap_bits =
    agree₂→eq 256 4 (λ x l. bit_or (bit_and x 0x3f) (l * 64 % 256)) (λ x l. l * 64 + x % 64) refl

version_bits :
    (x v : ℕ)
    → x < 256
    → v < 8
    → bit_or (bit_and x 0xc7) (v * 8 % 256) ≡ x / 64 * 64 + v * 8 + x % 8
unfolding agree₂ agree
version_bits =
    agree₂→eq 256 8 (λ x v. bit_or (bit_and x 0xc7) (v * 8 % 256))
      (λ x v. x / 64 * 64 + v * 8 + x % 8) refl

mode_bits : (x m : ℕ) → x < 256 → m < 8 → bit_or (bit_and x 0xf8) m ≡ x / 8 * 8 + m
unfolding agree₂ agree
mode_bits = agree₂→eq 256 8 (λ x m. bit_or (bit_and x 0xf8) m) (λ x m. x / 8 * 8 + m) refl

module _ (p : Packet) (x : ℕ) (hp : p.lvm < 256) where
  pub set_leap_indicator_lem :
      x < 4 → set_leap_indicator x p ≡ some (record p { lvm = x * 64 + p.lvm % 64 })
  unfolding set_leap_indicator
  set_leap_indicator_lem h = rw (low_two x h, leap_bits p.lvm x hp h) (ground arith)

  pub set_version_lem :
      x < 8 → set_version x p ≡ some (record p { lvm = p.lvm / 64 * 64 + x * 8 + p.lvm % 8 })
  unfolding set_version
  set_version_lem h = rw (low_three x h, version_bits p.lvm x hp h) (ground arith)

  pub set_mode_lem : x < 8 → set_mode x p ≡ some (record p { lvm = p.lvm / 8 * 8 + x })
  unfolding set_mode
  set_mode_lem h = rw (low_three x h, mode_bits p.lvm x hp h) (ground arith)

-- What the three accessors read.
abbrev pub Reads : Packet → ℕ → ℕ → ℕ → Type 0
Reads p l v m = (leap_indicator p ≡ l) × (version p ≡ v) × (mode p ≡ m)

-- From any first byte, a setter whose argument fits its bits sets them, keeps what the other two
-- accessors read, and changes nothing else of the packet.
pub setters_keep :
    (p : Packet) (l v m : ℕ)
    → p.lvm < 256
    → l < 4
    → v < 8
    → m < 8
    → ((q : Packet) × (set_leap_indicator l p ≡ some q)
        × Reads q l (version p) (mode p)
        × (record q { lvm = p.lvm } ≡ p))
      × ((q : Packet) × (set_version v p ≡ some q)
          × Reads q (leap_indicator p) v (mode p)
          × (record q { lvm = p.lvm } ≡ p))
      × ((q : Packet) × (set_mode m p ≡ some q)
          × Reads q (leap_indicator p) (version p) m
          × (record q { lvm = p.lvm } ≡ p))
setters_keep p l v m hp hl hv hm =
    let a = record p { lvm = l * 64 + p.lvm % 64 } in
    let b = record p { lvm = p.lvm / 64 * 64 + v * 8 + p.lvm % 8 } in
    let c = record p { lvm = p.lvm / 8 * 8 + m } in
    (
      (
        a,
        set_leap_indicator_lem p l hp hl,
        omega (
          arith,
          leap_indicator_lem a,
          version_lem a,
          mode_lem a,
          leap_indicator_lem p,
          version_lem p,
          mode_lem p,
        ),
        refl,
      ),
      (
        b,
        set_version_lem p v hp hv,
        omega (
          arith,
          leap_indicator_lem b,
          version_lem b,
          mode_lem b,
          leap_indicator_lem p,
          version_lem p,
          mode_lem p,
        ),
        refl,
      ),
      (
        c,
        set_mode_lem p m hp hm,
        omega (
          arith,
          leap_indicator_lem c,
          version_lem c,
          mode_lem c,
          leap_indicator_lem p,
          version_lem p,
          mode_lem p,
        ),
        refl,
      ),
    )
