-- ===== src/Server/Ip.antt =====
-- core/server/server_ip.go: what runIPServer makes of one packet. The socket's results, clock readings
-- and random bytes are arguments; an error that ends the iteration is `err`, whatever is logged.
pub mod Answering
pub mod ShortId
use scion_time.Base.Run.{Run, ok, err, panic, out_of_fuel, ◌>>=◌, or_err, checked}
use scion_time.Ntp.Packet.{encode_packet, decode_packet, packet_len}
use scion_time.Ntske.Cookies.{ServerCookie, decode_encrypted_server_cookie}
use scion_time.Ntske.Provider.{Provider, Key, current, get}
use scion_time.Server.Store.{handle_request, Store, update_tx}
use scion_time.Base.{
  List, Option, [], if◌then◌else◌, length, ltb, none, not, some, suc, zero, ℕ, ◌%◌, ◌+◌, ◌==◌, ◌^◌,
  ◌∷◌,
}
use scion_time.GoTime.{Time}
use scion_time.Ntp.Validation.{Verdict, accepted, validate_request}
use scion_time.Nts.Aead.{Aead}
use scion_time.Nts.Encode.{new_response_packet}
use scion_time.Nts.Packet.{first_cookie}
use scion_time.Nts.Process.{process_request}
use scion_time.Ntske.Records.{cookie, port}
use scion_time.Ntske.Sealed.{decrypt, encrypt_each}
use scion_time.Server.Item.{reply}
use scion_time.Server.Queue.{ClientId}
use scion_time.Base.Int.{pos}

-- A packet read from the socket: its bytes, its time of receipt, the client's identifier, which is
-- its address, and its port.
pub record Arrival : Type 0 where
  pub buf : List ℕ
  pub rxt : Time
  pub client : ClientId
  pub port : ℕ

-- What the iteration takes from elsewhere: the readings of the clock in Get, handleRequest and twice
-- in Current, and the results of rand.Read for a new key, the cookies and the authenticator.
pub record Surroundings : Type 0 where
  pub get_now : Time
  pub txt : Time
  pub current_now : Time
  pub next_now : Time
  pub key_random : Option (List ℕ)
  pub cookie_randoms : ℕ → Option (List ℕ)
  pub auth_random : Option (List ℕ)

-- The iteration goes on with the next packet.
pub data Skip : Type 0 where
  skipped : Skip

abbrev pub or_skip : {E A : Type 0} → Run E A → Run Skip A
or_skip (ok a) = ok a
or_skip (err e) = err skipped
or_skip panic = panic
or_skip out_of_fuel = out_of_fuel

-- An NTS request with the cookie that the client has the keys of.
abbrev pub Authenticated : Type 0
Authenticated = scion_time.Nts.Packet.Packet × ServerCookie

unfoldable pub authenticate_request :
    Aead → Provider → Time → List ℕ → Run Skip (Option Authenticated)
authenticate_request aead provider now buf =
    if ltb packet_len (length buf)
    then (do
      ntsreq ← or_skip (scion_time.Nts.Decode.decode_packet buf)
      spent ← or_skip (first_cookie ntsreq)
      encrypted ← or_skip (decode_encrypted_server_cookie spent)
      key ← or_err skipped (get provider encrypted.id now)
      server_cookie ← or_skip (decrypt aead encrypted key.value)
      processed ← or_skip (process_request aead buf server_cookie.c2s ntsreq)
      ok (some (processed, server_cookie)))
    else ok none

unfoldable pub or_refused : Verdict → Run Skip Unit
or_refused accepted = ok tt
or_refused _ = err skipped

-- The request and its authentication.
unfoldable pub accept :
    Aead
    → Provider
    → Time
    → Arrival
    → Run Skip (scion_time.Ntp.Packet.Packet × Option Authenticated)
accept aead provider now a = do
  req ← or_err skipped (decode_packet a.buf)
  auth ← authenticate_request aead provider now a.buf
  _ ← or_refused (validate_request req a.port)
  ok (req, auth)

-- The zero value of ntp.Packet.
abbrev pub zero_packet : scion_time.Ntp.Packet.Packet
zero_packet = record {
  lvm = 0;
  stratum = 0;
  poll = pos 0;
  precision = pos 0;
  root_delay = record { seconds = 0; fraction = 0 };
  root_dispersion = record { seconds = 0; fraction = 0 };
  reference_id = 0;
  reference_time = record { seconds = 0; fraction = 0 };
  origin_time = record { seconds = 0; fraction = 0 };
  receive_time = record { seconds = 0; fraction = 0 };
  transmit_time = record { seconds = 0; fraction = 0 };
}

abbrev pub firsts : ℕ → (ℕ → Option (List ℕ)) → List (Option (List ℕ))
firsts zero f = []
firsts (suc n) f = f 0 ∷ firsts n (λ i. f (suc i))

-- The response's extension fields behind its 48 bytes, where there are cookies to send.
unfoldable pub add_fields :
    Aead → Surroundings → Key → Authenticated → List ℕ → Run Skip (Option (List ℕ))
add_fields aead s key (ntsreq, server_cookie) buf =
    let n = length ntsreq.cookies + length ntsreq.cookie_placeholders in
    let cookies = encrypt_each aead server_cookie key.value key.id (firsts n s.cookie_randoms) in
    if length cookies == 0 then ok none else (do
      ntsresp ← or_skip (new_response_packet cookies server_cookie.s2c ntsreq.unique_id)
      b ← or_skip (scion_time.Nts.Encode.encode_packet aead s.auth_random buf ntsresp)
      ok (some b))

-- The reply to write, if any, with the receive and transmit times of handleRequest.
pub record Reply : Type 0 where
  pub rxt : Time
  pub txt : Time
  pub bytes : Option (List ℕ)

unfoldable pub respond :
    Aead
    → Surroundings
    → Provider
    → Store
    → Arrival
    → scion_time.Ntp.Packet.Packet
    → Option Authenticated
    → Run Skip (Provider × Store × Reply)
respond aead s provider store a req auth = do
  (rxt, txt, resp, store') ← checked (handle_request store a.client zero_packet req a.rxt s.txt)
  elim auth [
    | none ↦
        ok (provider, store', record { rxt = rxt; txt = txt; bytes = some (encode_packet resp) })
    | some nts ↦ do
      (provider', key) ← checked (current provider s.current_now s.next_now s.key_random)
      bytes ← add_fields aead s key nts (encode_packet resp)
      ok (provider', store', record { rxt = rxt; txt = txt; bytes = bytes })
  ]

-- The result of WriteToUDPAddrPort and ReadTXTimestamp.
pub data Written : Type 0 where
  not_written : Written
  no_timestamp : Written
  timestamped : Time → ℕ → Written

-- The time for updateTXTimestamp, and the next expected identifier of a transmit timestamp, on
-- uint32.
unfoldable pub sent_at : Written → Time → ℕ → Option (Time × ℕ)
sent_at not_written txt0 txid = none
sent_at no_timestamp txt0 txid = some (txt0, txid)
sent_at (timestamped t id) txt0 txid =
    if not (id == txid) then some (txt0, (id + 1) % 2 ^ 32) else some (t, (txid + 1) % 2 ^ 32)

-- The state of the server with one socket.
pub record IpServer : Type 0 where
  pub provider : Provider
  pub store : Store
  pub txid : ℕ

-- The end of the iteration.
unfoldable pub note_sent : IpServer → ClientId → Reply → Written → IpServer
note_sent v client reply w = elim reply.bytes [
  | none ↦ v
  | some b ↦ elim (sent_at w reply.txt v.txid) [
    | none ↦ v
    | some (t, id) ↦ record v { store = (update_tx v.store client reply.rxt t).1; txid = id }
  ]
]

-- The whole iteration: the new state, and the bytes to write.
unfoldable pub serve_packet :
    Aead → Surroundings → IpServer → Arrival → Written → Run Skip (IpServer × Option (List ℕ))
serve_packet aead s v a w = do
  (req, auth) ← accept aead v.provider s.get_now a
  (provider', store', reply) ← respond aead s v.provider v.store a req auth
  ok (note_sent (record v { provider = provider'; store = store' }) a.client reply w, reply.bytes)
