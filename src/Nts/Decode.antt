-- ===== src/Nts/Decode.antt =====
-- net/nts/nts.go: the unpack methods and DecodePacket.
pub mod Termination
use scion_time.Base.Run.{Run, ok, err, out_of_fuel, ◌>>=◌}
use scion_time.Base.{
  Bool, List, [], drop, false, if◌then◌else◌, leb, length, not, suc, true, zero, ℕ, ◌%◌, ◌&&◌, ◌++◌,
  ◌+◌, ◌-◌, ◌==◌, ◌^◌, ◌∷◌,
}
use scion_time.Base.Bytes.{at16}
use scion_time.Nts.Buffer.{filled}
use scion_time.Nts.Packet.{
  Authenticator, NtsError, empty_packet, ext_authenticator, ext_cookie, ext_cookie_placeholder,
  ext_unique_identifier, no_authenticator, no_unique_id, ntp_packet_len, Packet, no_auth,
}

-- extHdr.Length - 4 on uint16, the length of a value.
unfoldable pub value_len : ℕ → ℕ
value_len len = (len + 2 ^ 16 - 4) % 2 ^ 16

-- UniqueIdentifier.unpack and Cookie.unpack, where `rest` is `buf[pos:]`.
unfoldable pub unpack_value : ℕ → List ℕ → List ℕ
unpack_value len rest = filled (value_len len) rest

-- Authenticator.unpack on a rest of at least four bytes, which the loop below sees to; `at` is the
-- position of the field.
unfoldable pub unpack_authenticator : ℕ → List ℕ → Authenticator
unpack_authenticator at rest =
    let nonce_len = at16 rest 0 in
    let cipher_len = at16 rest 2 in
    let behind = drop 4 rest in
    record no_auth {
      nonce = filled nonce_len behind;
      cipher_text = filled cipher_len (drop nonce_len behind);
      pos = at;
    }

-- The variables of the loop of DecodePacket.
pub record Decoding : Type 0 where
  pub pkt : Packet
  pub found_unique_id : Bool
  pub found_authenticator : Bool

abbrev pub start : Decoding
start = record { pkt = empty_packet; found_unique_id = false; found_authenticator = false }

-- The body of the loop for a field of the type `t` and the length `len` at the position `at`, where
-- `rest` is what stands behind its header. The unpack methods check the type once more, and fail
-- on none that the loop hands them.
unfoldable pub decode_field : ℕ → ℕ → ℕ → List ℕ → Decoding → Decoding
decode_field t len at rest st =
    let p = st.pkt in
    if t == ext_unique_identifier
    then record st { pkt = record p { unique_id = unpack_value len rest }; found_unique_id = true }
    else if t == ext_authenticator
    then record st {
      pkt = record p { auth = unpack_authenticator at rest };
      found_authenticator = true;
    }
    else if t == ext_cookie
    then record st { pkt = record p { cookies = p.cookies ++ unpack_value len rest ∷ [] } }
    else if t == ext_cookie_placeholder
    then record st { pkt = record p { cookie_placeholders = p.cookie_placeholders ++ [] ∷ [] } }
    else st

-- The loop moves on by the length in the header, which counts the header too.
unfoldable pub decode_loop : ℕ → List ℕ → ℕ → Decoding → Run NtsError Decoding
decode_loop zero b i st =
    if leb (i + 28) (length b) && not st.found_authenticator then out_of_fuel else ok st
decode_loop (suc fuel) b i st =
    let t = at16 (drop i b) 0 in
    let len = at16 (drop i b) 2 in
    let rest = decode_loop fuel b (i + len) (decode_field t len i (drop (i + 4) b) st) in
    if leb (i + 28) (length b) && not st.found_authenticator then rest else ok st

-- DecodePacket. A field of a positive length moves the loop on, so `length b` rounds are enough
-- where there is no other.
unfoldable pub decode_packet : List ℕ → Run NtsError Packet
decode_packet b = do
  st ← decode_loop (length b) b ntp_packet_len start
  if not st.found_unique_id
      then err no_unique_id
      else if not st.found_authenticator
      then err no_authenticator
      else ok st.pkt
