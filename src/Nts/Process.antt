-- ===== src/Nts/Process.antt =====
-- net/nts/nts.go: authenticate, ProcessRequest and ProcessResponse. The fetcher that ProcessResponse
-- fills is its stock of cookies.
pub mod Fields
pub mod Loop
pub mod Decoded
pub mod RoundTrip
pub mod Exchange
use scion_time.Base.Run.{Run, ok, err, panic, out_of_fuel, ◌>>=◌, or_err}
use scion_time.Nts.Packet.{
  Packet, NtsError, bad_key, ext_cookie, not_authentic, unexpected_response_id,
}
use scion_time.Base.{
  Bool, List, [], drop, false, if◌then◌else◌, leb, length, not, suc, take, true, zero, ℕ, ◌&&◌,
  ◌++◌, ◌+◌, ◌==◌, ◌∷◌,
}
use scion_time.Base.Bytes.{at16}
use scion_time.Nts.Aead.{Aead}
use scion_time.Nts.Decode.{unpack_value}

-- bytes.Equal
unfoldable pub equal : List ℕ → List ℕ → Bool
equal [] [] = true
equal (x ∷ xs) (y ∷ ys) = (x == y) && equal xs ys
equal [] (y ∷ ys) = false
equal (x ∷ xs) [] = false

-- The loop of authenticate over the decrypted bytes, from the position `i` on.
unfoldable pub cookie_loop : ℕ → List ℕ → ℕ → List (List ℕ) → Run NtsError (List (List ℕ))
cookie_loop zero b i cs = if leb (i + 28) (length b) then out_of_fuel else ok cs
cookie_loop (suc fuel) b i cs =
    let t = at16 (drop i b) 0 in
    let len = at16 (drop i b) 2 in
    let cs' = if t == ext_cookie then cs ++ unpack_value len (drop (i + 4) b) ∷ [] else cs in
    let rest = cookie_loop fuel b (i + len) cs' in if leb (i + 28) (length b) then rest else ok cs

unfoldable pub authenticate : Aead → Packet → List ℕ → List ℕ → Run NtsError Packet
authenticate aead p b key =
    if aead.accepts_key key
    then (do
      plain ←
          or_err not_authentic (aead.unseal key p.auth.nonce p.auth.cipher_text (take p.auth.pos b))
      cs ← cookie_loop (length plain) plain 0 p.cookies
      ok (record p { cookies = cs }))
    else err bad_key

unfoldable pub process_request : Aead → List ℕ → List ℕ → Packet → Run NtsError Packet
process_request aead b key p = authenticate aead p b key

-- The stock after ProcessResponse: StoreCookie appends.
unfoldable pub process_response :
    Aead → List ℕ → List ℕ → List (List ℕ) → Packet → List ℕ → Run NtsError (List (List ℕ))
process_response aead b key stock p req_id =
    if not (equal req_id p.unique_id)
    then err unexpected_response_id
    else (do q ← authenticate aead p b key; ok (stock ++ q.cookies))
