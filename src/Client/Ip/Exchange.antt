-- ===== src/Client/Ip/Exchange.antt =====
-- An answer of the server, core/server/server.go, to a request of the client, core/client/client_ip.go.
use scion_time.Ntp.Packet.{Packet, IsPacket, decode_packet, encode_packet}
use scion_time.Server.Store.{handle_request, Store}
use scion_time.Server.Store.Refines.{
  Handled, Items, handle_request-Refined, known, added, evicting, refused,
}
use scion_time.Ntp.Offset.{clock_offset}
use scion_time.Client.Ip.{
  IpClient, Pending, packet, answered, Measured, continues, evaluate, four_times, judge,
  judge_packet, matches, new_request, process_nts, remember, FourTimes, filter_calls, filter_offset,
  is_recorded,
}
use scion_time.Base.{
  List, false, none, refl, some, true, ℕ, ◌+◌, ◌/◌, ◌<◌, ◌^◌, ◌≡◌, ◌≤◌, Bool-cases, arith, inl, inr,
  ◌∷◌, [], ap, sym, ◌∙◌,
}
use scion_time.Base.Int.{int_laws, pos, ◌+ℤ◌, ◌<ℤ◌, ◌≤ℤ◌, bits, negsuc, ℤ}
use scion_time.GoTime.{Time, unix, Duration}
use scion_time.Ntp.Header.{set_mode, set_version}
use scion_time.Ntp.Time64.{time64_eq, time64_from_time, time_from_time64, IsTime64, Time64}
use scion_time.Ntp.Time64.Conversion.{ntp_second, time_from_time64-time64_from_time}
use scion_time.Ntp.Validation.{validate_response_timestamps, validate_response_metadata}
use scion_time.Ntp.Validation.Accepted.{
  validate_response_timestamps_cases, validate_response_metadata-accepted,
}
use scion_time.Server.Ip.{zero_packet}
use scion_time.Server.Item.Interleaved.{time64_eq_self, txt_of}
use scion_time.Client.Ip.Accepts.{filter_offset-none, filter_offset-some}
use scion_time.Server.Item.{Item, reply, server_ref_id}
use scion_time.Server.Queue.{ClientId}
use scion_time.Server.Store.{Store}
use scion_time.Server.Store.Refines.{Items, handle_request-Refined}
use scion_time.Server.Store.Valid.{IsStore}
use mathlib.Core.List.{append-nil}
use scion_time.Ntp.Packet.RoundTrip.{decode_packet-encode_packet}

-- The first byte of a request: version 4, mode 3.
abbrev pub basic_request : Time → Packet
basic_request t0 = record zero_packet { lvm = 35; transmit_time = time64_from_time t0 }

new_request-basic :
    (c : IpClient) (reference : List ℕ) (t0 : Time)
    → continues c reference t0 ≡ false
    → new_request c reference t0 ≡ some (basic_request t0, false)
unfolding new_request set_version set_mode
new_request-basic c reference t0 h = rw h refl

-- A server's reading of its clock that is near enough to the client's at `t0`: their seconds on the
-- NTP time scale are `n` and `m`.
abbrev pub IsNear : Time → Time → Type 0
IsNear t t0 =
    (n m : ℕ) × (unix t ≡ ntp_second n)
    × (unix t0 ≡ ntp_second m)
    × (m / 2 ^ 32 ≤ n / 2 ^ 32)
    × (m ≤ n + 2 ^ 31)
    × (n < m + 2 ^ 31)

abbrev back : Time → Time → Time
back t t0 = time_from_time64 (time64_from_time t) t0

near_back : (t t0 : Time) → IsNear t t0 → (back t t0 ≤ℤ t) × (t ≤ℤ back t t0 +ℤ pos 1)
near_back t t0 (n, m, e, f, a, b, d) = time_from_time64-time64_from_time t t0 n m e f a b d

four_times-basic :
    (c : IpClient) (q : Pending) (answer : Packet) (returned t1 t2 : Time)
    → time_from_time64 answer.receive_time q.c_tx_time0 ≡ t1
    → time_from_time64 answer.transmit_time q.c_tx_time0 ≡ t2
    → four_times c q answer returned false ≡ (q.c_tx_time1, t1, t2, returned)
unfolding four_times
four_times-basic c q answer returned t1 t2 e f = rw (e, f) refl

-- The packet that handleRequest makes of such a request, in the basic mode.
abbrev pub basic_answer : Time → Time64 → Time64 → Packet
basic_answer t0 rxt64 txt64 = record zero_packet {
  lvm = 36;
  stratum = 1;
  precision = negsuc 31;
  root_dispersion = record { seconds = 0; fraction = 10 };
  reference_id = server_ref_id;
  reference_time = txt64;
  origin_time = time64_from_time t0;
  receive_time = rxt64;
  transmit_time = txt64;
}

reply-basic :
    (t0 : Time) (x y : Time64)
    → reply zero_packet (basic_request t0) x y none ≡ some (basic_answer t0 x y)
unfolding reply set_version set_mode
reply-basic t0 x y = elim (Bool-cases (time64_eq zero_packet.receive_time (time64_from_time t0))) [
  | inl h ↦ rw h refl
  | inr h ↦ rw h refl
]

bits32-lt : (z : ℤ) → bits (2 ^ 32) z < 2 ^ 32
unfolding bits
bits32-lt (pos n) = omega arith
bits32-lt (negsuc n) = omega arith

time64_from_time-IsTime64 : (t : Time) → IsTime64 (time64_from_time t)
unfolding time64_from_time
time64_from_time-IsTime64 t = (bits32-lt _, omega arith)

basic_answer-IsPacket :
    (t0 rxt txt : Time) → IsPacket (basic_answer t0 (time64_from_time rxt) (time64_from_time txt))
basic_answer-IsPacket t0 rxt txt = record {
  lvm = omega arith;
  stratum = omega arith;
  poll = omega arith;
  precision = omega arith;
  root_delay = (omega arith, omega arith);
  root_dispersion = (omega arith, omega arith);
  reference_id = omega arith;
  reference_time = time64_from_time-IsTime64 txt;
  origin_time = time64_from_time-IsTime64 t0;
  receive_time = time64_from_time-IsTime64 rxt;
  transmit_time = time64_from_time-IsTime64 txt;
}

-- The server has no entry of the client for the receive timestamp 0, which a request in the basic
-- mode has as its origin timestamp.
abbrev pub HasNoZero : Items → ClientId → Type 0
HasNoZero f k = (t : Item) → f k ≡ some t → txt_of zero_packet.origin_time t.buf ≡ none

-- What handleRequest answers to a request in the basic mode, on all branches.
Handled-basic :
    (k : ClientId) (t0 rxt txt rxt' txt' : Time) (f g : Items) (answer : Packet)
    → HasNoZero f k
    → Handled k zero_packet (basic_request t0) rxt txt f rxt' txt' answer g
    → answer ≡ basic_answer t0 (time64_from_time rxt') (time64_from_time txt')
Handled-basic k t0 rxt txt rxt' txt' f g answer free (known t t' h e served w) =
    let x = time64_from_time rxt' in
    let y = time64_from_time txt' in
    let r = reply-basic t0 x y in
    let q : reply zero_packet (basic_request t0) x y none ≡ some answer =
      rw (free t h) at served.replied in
    cc (r, q)
Handled-basic k t0 rxt txt rxt' txt' f g answer free (added h p q a e w) =
    let r = reply-basic t0 (time64_from_time rxt) (time64_from_time txt) in rw (p, q) (cc (r, e))
Handled-basic k t0 rxt txt rxt' txt' f g answer free (evicting v old h o l b p q a e w) =
    let r = reply-basic t0 (time64_from_time rxt) (time64_from_time txt) in rw (p, q) (cc (r, e))
Handled-basic k t0 rxt txt rxt' txt' f g answer free (refused h l p q a e w) =
    let r = reply-basic t0 (time64_from_time rxt) (time64_from_time txt) in rw (p, q) (cc (r, e))

module _ (s : Store) (k : ClientId) (t0 rxt txt rxt' txt' : Time) (answer : Packet) (s' : Store)
    (valid : IsStore s) (no_zero : HasNoZero s.item k)
    (handled : handle_request s k zero_packet (basic_request t0) rxt txt
      ≡ some (rxt', txt', answer, s')) where
  handle_request-basic : answer ≡ basic_answer t0 (time64_from_time rxt') (time64_from_time txt')
  handle_request-basic =
      let (r, t, a, u, e, _, h) =
        handle_request-Refined s k zero_packet (basic_request t0) rxt txt valid (omega arith) in
      let same_r : r ≡ rxt' = cc (e, handled) in
      let same_t : t ≡ txt' = cc (e, handled) in
      let same_a : a ≡ answer = cc (e, handled) in
      rw (← same_r)
        (rw (← same_t) (rw (← same_a) (Handled-basic k t0 rxt txt r t s.item u.item a no_zero h)))

metadata-basic :
    (t0 : Time) (x y : Time64)
    → validate_response_metadata (basic_answer t0 x y) ≡ scion_time.Ntp.Validation.accepted
metadata-basic t0 x y =
    (validate_response_metadata-accepted (basic_answer t0 x y) (omega arith)).1
      ((λ q. omega arith), inr (omega arith), omega arith, omega arith, omega arith)

-- The offset that the client makes of an exchange in the basic mode that the server received at
-- `rxt` and answered at `txt`.
abbrev pub Offsets :
    IpClient → List ℕ → List (List ℕ) → Time → Time → Time → Time → Time → List ℕ → Type 0
Offsets c reference stock t0 departed rxt txt returned buf =
    (req : Packet) × (m : Measured) × (t1 t2 : Time) × (new_request c reference t0
      ≡ some (req, false))
    × (judge none c reference
          (record { request = req; interleaved = false; c_tx_time0 = t0; c_tx_time1 = departed })
          stock (packet buf returned true)
        ≡ (answered m, stock))
    × (c.filter ≡ none → m.offset ≡ clock_offset departed t1 t2 returned)
    × ((f : List FourTimes → Duration)
        → c.filter ≡ some f
        → m.offset ≡ f ((departed, t1, t2, returned) ∷ c.filtered))
    × (t1 ≤ℤ rxt)
    × (rxt ≤ℤ t1 +ℤ pos 1)
    × (t2 ≤ℤ txt)
    × (txt ≤ℤ t2 +ℤ pos 1)

-- A client that does not continue an interleaved exchange sends a request in the basic mode; and what
-- handleRequest answers to that request, with a valid store that has no entry of the client for the
-- timestamp 0, is accepted, when its encoding is read from the server: the offset is ClockOffset of the
-- times at which the client sent the request and read the answer and of the receive and transmit
-- times of handleRequest, each at most 1 ns early, or, for a client with a filter, what Do returns
-- for these four times. The client's clock does not run backwards over the exchange, the server's
-- transmit time is after its receive time, both are within half an era of the client's clock and in
-- no earlier era, NTS is not used, and there is no histogram.
pub judge-Offsets :
    (c : IpClient) (reference : List ℕ) (stock : List (List ℕ)) (s : Store) (k : ClientId)
    (t0 departed rxt txt rxt' txt' returned : Time) (answer : Packet) (s' : Store)
    → continues c reference t0 ≡ false
    → c.histogram ≡ none
    → IsStore s
    → HasNoZero s.item k
    → handle_request s k zero_packet (basic_request t0) rxt txt ≡ some (rxt', txt', answer, s')
    → IsNear rxt' t0
    → IsNear txt' t0
    → departed ≤ℤ returned
    → rxt' <ℤ txt'
    → Offsets c reference stock t0 departed rxt' txt' returned (encode_packet answer)
unfolding judge judge_packet process_nts matches evaluate is_recorded
judge-Offsets c reference stock s k t0 departed rxt txt rxt' txt' returned answer s' h plain valid
      no_zero handled near_rx near_tx fwd later =
    let q : Pending = record {
      request = basic_request t0;
      interleaved = false;
      c_tx_time0 = t0;
      c_tx_time1 = departed;
    } in
    let x = time64_from_time rxt' in
    let y = time64_from_time txt' in
    let basic : Packet = basic_answer t0 x y in
    let made : answer ≡ basic =
      handle_request-basic s k t0 rxt txt rxt' txt' answer s' valid no_zero handled in
    let d : decode_packet (encode_packet basic) ≡ some basic =
      ap decode_packet (sym (append-nil (encode_packet basic)))
      ∙ decode_packet-encode_packet basic [] (basic_answer-IsPacket t0 rxt' txt') in
    let meta = metadata-basic t0 x y in
    let (lo1, hi1) = near_back rxt' t0 near_rx in
    let (lo2, hi2) = near_back txt' t0 near_tx in
    let t1 : Time = back rxt' t0 in
    let t2 : Time = back txt' t0 in
    let order : t1 ≤ℤ t2 = omega (int_laws, lo1, hi2, later) in
    let forth : validate_response_timestamps departed t1 t2 returned
        ≡ scion_time.Ntp.Validation.accepted =
      (validate_response_timestamps_cases departed t1 t2 returned).0.1 (fwd, order) in
    let same : time64_eq (time64_from_time t0) (time64_from_time t0) ≡ true =
      time64_eq_self (time64_from_time t0) in
    let times : four_times c q basic returned false ≡ (departed, t1, t2, returned) =
      four_times-basic c q basic returned t1 t2 refl refl in
    let recorded : is_recorded c (departed, t1, t2, returned) ≡ true =
      rw (is_recorded, plain) refl in
    (
      basic_request t0,
      record {
        timestamp = returned;
        times = (departed, t1, t2, returned);
        offset = filter_offset c (departed, t1, t2, returned);
        client = record (remember c reference q basic returned false) {
          filtered = filter_calls c (departed, t1, t2, returned);
        };
      },
      t1,
      t2,
      new_request-basic c reference t0 h,
      rw (judge_packet, made)
          (rw (d, matches, same) (rw (evaluate, meta, times, forth) (rw times (rw recorded refl)))),
      filter_offset-none c (departed, t1, t2, returned),
      filter_offset-some c (departed, t1, t2, returned),
      lo1,
      hi1,
      lo2,
      hi2,
    )
