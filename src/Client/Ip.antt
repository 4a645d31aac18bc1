-- ===== src/Client/Ip.antt =====
-- core/client/client_ip.go: IPClient and measureClockOffsetIP, from the reading of the clock before the
-- request on. The socket's results and clock readings are arguments. The object behind Filter is what
-- Do returns after a sequence of calls, and that behind Histogram is which values it accepts.
pub mod Accepts
pub mod Exchange
use scion_time.Base.Run.{Run, ok, err, panic, out_of_fuel}
use scion_time.Base.{◌>>=◌, ◌∷◌}
use scion_time.Ntp.Offset.{clock_offset, round_trip_delay}
use scion_time.Ntp.Packet.{Packet, encode_packet, decode_packet}
use scion_time.Ntp.Validation.{
  Verdict, accepted, validate_response_metadata, validate_response_timestamps,
}
use scion_time.Server.Ip.{zero_packet}
use scion_time.Base.{
  Bool, List, Option, [], false, if◌then◌else◌, none, not, some, suc, true, zero, ℕ, ◌&&◌, ◌*◌, ◌^◌,
}
use scion_time.Base.Int.{ltb_ℤ, pos, quot, ℤ}
use scion_time.GoTime.{Duration, Time, sub}
use scion_time.Ntp.Header.{mode_client, set_mode, set_version, version_max}
use scion_time.Ntp.Time64.{Time64, time64_eq, time64_from_time, time_from_time64}
use scion_time.Nts.Aead.{Aead}
use scion_time.Nts.Packet.{NtsError}
use scion_time.Nts.Process.{equal, process_response}

-- The field `prev`: the server, and the timestamps of the last exchange with it.
pub record Previous : Type 0 where
  pub reference : List ℕ
  pub interleaved : Bool
  pub c_tx_time : Time64
  pub c_rx_time : Time64
  pub s_rx_time : Time64

-- cTxTime, sRxTime, sTxTime and cRxTime
abbrev pub FourTimes : Type 0
FourTimes = Time × Time × Time × Time

-- `filter` is what Do returns in the last of a sequence of calls, and `filtered` the times of the
-- calls so far, both with the latest call first; `histogram` is whether RecordValue accepts a number
-- of microseconds.
pub record IpClient : Type 0 where
  pub interleaved_mode : Bool
  pub filter : Option (List FourTimes → Duration)
  pub histogram : Option (ℤ → Bool)
  pub prev : Previous
  pub filtered : List FourTimes

unfoldable pub in_interleaved_mode : IpClient → Bool
in_interleaved_mode c = c.interleaved_mode && not (equal c.prev.reference []) && c.prev.interleaved

unfoldable pub interleaved_mode_reference : IpClient → List ℕ
interleaved_mode_reference c = if not (in_interleaved_mode c) then [] else c.prev.reference

unfoldable pub reset_interleaved_mode : IpClient → IpClient
reset_interleaved_mode c = record c { prev = record c.prev { reference = [] } }

-- 3 * time.Second
abbrev pub interleaved_limit : Duration
interleaved_limit = pos (3 * 10 ^ 9)

-- The condition for a request in the interleaved mode.
unfoldable pub continues : IpClient → List ℕ → Time → Bool
continues c reference t0 =
    c.interleaved_mode
    && equal reference c.prev.reference
    && not (ltb_ℤ interleaved_limit (sub t0 (time_from_time64 c.prev.c_tx_time t0)))

-- The request, and whether it is one in the interleaved mode.
unfoldable pub new_request : IpClient → List ℕ → Time → Option (Packet × Bool)
new_request c reference t0 = do
  p ← set_version version_max zero_packet
  req ← set_mode mode_client p
  if continues c reference t0
      then some (
        record req {
          origin_time = c.prev.s_rx_time;
          receive_time = c.prev.c_rx_time;
          transmit_time = c.prev.c_tx_time;
        },
        true,
      )
      else some (record req { transmit_time = time64_from_time t0 }, false)

-- The keys of an NTS client: the cipher, the key of the server, and the identifier of the request.
pub record Session : Type 0 where
  pub aead : Aead
  pub s2c_key : List ℕ
  pub request_id : List ℕ

-- A result of ReadMsgUDPAddrPort, with the time of receipt and whether the address is the server's.
pub data Incoming : Type 0 where
  not_received : Incoming
  with_flags : Incoming
  packet : List ℕ → Time → Bool → Incoming

pub data ClientError : Type 0 where
  read_error packet_flags packet_source decode_error nts_error unexpected_packet metadata_error
        timestamp_error :
      ClientError

-- The NTS checks on a packet: the stock of cookies afterwards.
unfoldable pub process_nts : Option Session → List (List ℕ) → List ℕ → Run NtsError (List (List ℕ))
process_nts none stock buf = ok stock
process_nts (some s) stock buf = elim (scion_time.Nts.Decode.decode_packet buf) [
  | ok ntsresp ↦ process_response s.aead buf s.s2c_key stock ntsresp s.request_id
  | err e ↦ err e
  | panic ↦ panic
  | out_of_fuel ↦ out_of_fuel
]

-- What the answer is matched to: the request, its mode and the four times it is measured with.
pub record Pending : Type 0 where
  pub request : Packet
  pub interleaved : Bool
  pub c_tx_time0 : Time
  pub c_tx_time1 : Time

-- Whether an answer is in the interleaved mode, or none to the request.
unfoldable pub matches : Pending → Packet → Option Bool
matches q resp =
    if q.interleaved && time64_eq resp.origin_time q.request.receive_time
    then some true
    else if not (time64_eq resp.origin_time q.request.transmit_time)
    then none
    else some false

-- The four times of the exchange.
unfoldable pub four_times : IpClient → Pending → Packet → Time → Bool → Time × Time × Time × Time
four_times c q resp c_rx_time interleaved_resp =
    let t0 = q.c_tx_time0 in
    let s_rx_time = time_from_time64 resp.receive_time t0 in
    let s_tx_time = time_from_time64 resp.transmit_time t0 in
    if interleaved_resp
    then (
      time_from_time64 c.prev.c_tx_time t0,
      time_from_time64 c.prev.s_rx_time t0,
      s_tx_time,
      time_from_time64 c.prev.c_rx_time t0,
    )
    else (q.c_tx_time1, s_rx_time, s_tx_time, c_rx_time)

-- The field `prev` after an accepted answer.
unfoldable pub remember : IpClient → List ℕ → Pending → Packet → Time → Bool → IpClient
remember c reference q resp c_rx_time interleaved_resp =
    if c.interleaved_mode
    then record c {
      prev = record {
        reference = reference;
        interleaved = interleaved_resp;
        c_tx_time = time64_from_time q.c_tx_time1;
        c_rx_time = time64_from_time c_rx_time;
        s_rx_time = resp.receive_time;
      };
    }
    else c

-- An accepted answer: when it was received, the four times, their offset, and the client afterwards.
pub record Measured : Type 0 where
  pub timestamp : Time
  pub times : Time × Time × Time × Time
  pub offset : Duration
  pub client : IpClient

-- The offset of an answer.
unfoldable pub filter_offset : IpClient → FourTimes → Duration
filter_offset c (t0, t1, t2, t3) = elim c.filter [
  | none ↦ clock_offset t0 t1 t2 t3
  | some f ↦ f ((t0, t1, t2, t3) ∷ c.filtered)
]

-- The calls of Do with that for the answer.
unfoldable pub filter_calls : IpClient → FourTimes → List FourTimes
filter_calls c times = elim c.filter [ none ↦ c.filtered | some f ↦ times ∷ c.filtered ]

-- Whether RecordValue accepts the round-trip delay in microseconds.
unfoldable pub is_recorded : IpClient → FourTimes → Bool
is_recorded c (t0, t1, t2, t3) = elim c.histogram [
  | none ↦ true
  | some record_value ↦ record_value (quot (round_trip_delay t0 t1 t2 t3) 1000)
]

-- What one run of the loop comes to, with the stock of cookies: an error after which the client may
-- try again, one after which it may not, the end of the program or of all progress, an answer, or
-- the error of the histogram, after which the client is what the answer made of it.
pub data Round : Type 0 where
  retriable : ClientError → Round
  final : ClientError → Round
  stopped : Round
  answered : Measured → Round
  unrecorded : IpClient → Round

-- The run from the match of the answer on.
unfoldable pub evaluate : IpClient → List ℕ → Pending → Packet → Time → Bool → Round
evaluate c reference q resp c_rx_time interleaved_resp = elim (validate_response_metadata resp) [
  | accepted ↦
      let times = four_times c q resp c_rx_time interleaved_resp in
      let (t0, t1, t2, t3) = times in
      elim (validate_response_timestamps t0 t1 t2 t3) [
        | accepted ↦
            let client = record (remember c reference q resp c_rx_time interleaved_resp) {
              filtered = filter_calls c times;
            } in
            if is_recorded c times
            then answered (record {
              timestamp = c_rx_time;
              times = times;
              offset = filter_offset c times;
              client = client;
            })
            else unrecorded client
        | scion_time.Ntp.Validation.panic ↦ stopped
        | _ ↦ final timestamp_error
      ]
  | _ ↦ final metadata_error
]

unfoldable pub judge_packet :
    Option Session
    → IpClient
    → List ℕ
    → Pending
    → List (List ℕ)
    → List ℕ
    → Time
    → Round × List (List ℕ)
judge_packet session c reference q stock buf c_rx_time = elim (decode_packet buf) [
  | none ↦ (retriable decode_error, stock)
  | some resp ↦ elim (process_nts session stock buf) [
    | err e ↦ (retriable nts_error, stock)
    | panic ↦ (stopped, stock)
    | out_of_fuel ↦ (stopped, stock)
    | ok stock' ↦ elim (matches q resp) [
      | none ↦ (retriable unexpected_packet, stock')
      | some i ↦ (evaluate c reference q resp c_rx_time i, stock')
    ]
  ]
]

unfoldable pub judge :
    Option Session → IpClient → List ℕ → Pending → List (List ℕ) → Incoming → Round × List (List ℕ)
judge session c reference q stock not_received = (retriable read_error, stock)
judge session c reference q stock with_flags = (retriable packet_flags, stock)
judge session c reference q stock (packet buf t from_server) =
    if not from_server
    then (retriable packet_source, stock)
    else judge_packet session c reference q stock buf t

-- The end of one run of the loop: where the client may try again, `rest` is what follows.
unfoldable pub retry_or :
    Bool → Round × List (List ℕ) → Round × List (List ℕ) → Round × List (List ℕ)
retry_or again rest (retriable e, stock) = if again then rest else (final e, stock)
retry_or again rest (final e, stock) = (final e, stock)
retry_or again rest (stopped, stock) = (stopped, stock)
retry_or again rest (answered m, stock) = (answered m, stock)
retry_or again rest (unrecorded c, stock) = (unrecorded c, stock)

-- The loop, with the number of retries left and the results of its reads, each with the test that the
-- deadline is set and not reached.
unfoldable pub receive :
    Option Session
    → IpClient
    → List ℕ
    → Pending
    → ℕ
    → (ℕ → Incoming × Bool)
    → List (List ℕ)
    → Round × List (List ℕ)
receive session c reference q zero reads stock =
    let r = judge session c reference q stock (reads 0).0 in retry_or false r r
receive session c reference q (suc n) reads stock =
    let r = judge session c reference q stock (reads 0).0 in
    let rest = receive session c reference q n (λ i. reads (suc i)) r.1 in
    retry_or (reads 0).1 rest r

abbrev pub max_num_retries : ℕ
max_num_retries = 1
