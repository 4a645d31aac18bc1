-- ===== src/Ntske/Records.antt =====
-- net/ntske/ntske.go: the records of the key exchange, how a message of them is packed, and
-- ReadData, which reads one. Writes to the bytes.Buffer do not fail.
pub mod RoundTrip
pub mod Termination
use Prim.Native.Nat.{min}
use scion_time.Base.{
  Bool, List, Option, [], drop, false, if◌then◌else◌, leb, length, ltb, none, not, replicate, some,
  suc, take, true, zero, ℕ, ◌%◌, ◌&&◌, ◌++◌, ◌+◌, ◌-◌, ◌==◌, ◌^◌, ◌∷◌,
}
use scion_time.Base.Bytes.{at16, put16}
use scion_time.Base.Run.{Run, err, ok, out_of_fuel}

abbrev pub critical_bit : ℕ
critical_bit = 2 ^ 15

-- Data; the keys, which ExportKeys fills in, are not touched here.
pub record Data : Type 0 where
  pub c2s_key : List ℕ
  pub s2c_key : List ℕ
  pub server : List ℕ
  pub port : ℕ
  pub cookie : List (List ℕ)
  pub algo : ℕ

-- The records, without their headers, which pack does not read.
pub data Record : Type 0 where
  next_proto : ℕ → Record
  end_of_message : Record
  server : List ℕ → Bool → Record
  port : ℕ → Bool → Record
  cookie : List ℕ → Record
  warning : ℕ → Record
  error : ℕ → Record
  algorithm : List ℕ → Record

-- packheader, and the header of NextProto.pack, in front of the rest of the buffer. The type is
-- below 2^15, where setting bit 15 adds it.
unfoldable pub pack_header : ℕ → Bool → ℕ → List ℕ → List ℕ
pack_header t c body_len rest =
    put16 (if c then t + critical_bit else t) (put16 (body_len % 2 ^ 16) rest)

abbrev pub put16s : List ℕ → List ℕ
put16s [] = []
put16s (x ∷ xs) = put16 x (put16s xs)

-- packsimple of a value with the bytes `body`.
unfoldable pub pack_simple : ℕ → Bool → List ℕ → List ℕ → List ℕ
pack_simple t c body rest = pack_header t c (length body) (body ++ rest)

unfoldable pub pack_record : Record → List ℕ → List ℕ
pack_record (next_proto n) rest = pack_header 1 true 2 (put16 n rest)
pack_record end_of_message rest = pack_header 0 true 0 rest
pack_record (server addr c) rest = pack_simple 6 c addr rest
pack_record (port p c) rest = pack_simple 7 c (put16 p []) rest
pack_record (cookie c) rest = pack_simple 5 false c rest
pack_record (warning code) rest = pack_simple 3 true (put16 code []) rest
pack_record (error code) rest = pack_simple 2 true (put16 code []) rest
pack_record (algorithm algo) rest = pack_simple 4 true (put16s algo) rest

-- ExchangeMsg.Pack, in front of the rest of the stream.
unfoldable pub pack : List Record → List ℕ → List ℕ
pack [] rest = rest
pack (r ∷ rs) rest = pack_record r (pack rs rest)

pub data ReadError : Type 0 where
  read_failed read_internal_server read_bad_request read_unrecognised_critical read_unknown
        unknown_record :
      ReadError

-- binary.Read of `n` bytes, or a failure at the end of the stream.
abbrev pub read_exact : ℕ → List ℕ → Option (List ℕ × List ℕ)
read_exact n b = if leb n (length b) then some (take n b, drop n b) else none

-- The error of an Error record.
unfoldable pub error_of : ℕ → ReadError
error_of code =
    if code == 0
    then read_unrecognised_critical
    else if code == 1
    then read_bad_request
    else if code == 2
    then read_internal_server
    else read_unknown

-- What a record makes of the data, or an end of the loop.
pub data Outcome : Type 0 where
  continue : Data → List ℕ → Outcome
  done : Data → Outcome
  failed : ReadError → Outcome

-- The argument `short` is how many bytes a call of bufio.Reader.Read delivers for a request of `n`
-- bytes: it may be fewer than are asked for, and the rest of the cookie stays zero. A call at the
-- end of the stream fails.
module _ (short : ℕ → List ℕ → ℕ) where
  unfoldable pub read_cookie : ℕ → List ℕ → Option (List ℕ × List ℕ)
  read_cookie n b =
      let k = min n (short n b) in
      if ltb 0 n && length b == 0
      then none
      else some (take k b ++ replicate (n - length (take k b)) 0, drop k b)

  -- One run of the loop of ReadData once the header is read, with the type without its critical
  -- bit.
  unfoldable pub read_body : ℕ → Bool → ℕ → Data → List ℕ → Outcome
  read_body t critical body_len data_ b =
      if t == 0
      then done data_
      else if t == 1
      then elim (read_exact 2 b) [ none ↦ failed read_failed | some (v, r) ↦ continue data_ r ]
      else if t == 4
      then elim (read_exact 2 b) [
        | none ↦ failed read_failed
        | some (v, r) ↦ continue (record data_ { algo = at16 v 0 }) r
      ]
      else if t == 5
      then elim (read_cookie body_len b) [
        | none ↦ failed read_failed
        | some (c, r) ↦ continue (record data_ { cookie = data_.cookie ++ (c ∷ []) }) r
      ]
      else if t == 6
      then elim (read_exact body_len b) [
        | none ↦ failed read_failed
        | some (a, r) ↦ continue (record data_ { server = a }) r
      ]
      else if t == 7
      then elim (read_exact 2 b) [
        | none ↦ failed read_failed
        | some (v, r) ↦ continue (record data_ { port = at16 v 0 }) r
      ]
      else if t == 2
      then elim (read_exact 2 b) [
        | none ↦ failed read_failed
        | some (v, r) ↦ failed (error_of (at16 v 0))
      ]
      else if critical
      then failed unknown_record
      else elim (read_exact body_len b) [
        | none ↦ failed read_failed
        | some (v, r) ↦ continue data_ r
      ]

  unfoldable pub read_step : Data → List ℕ → Outcome
  read_step data_ b = elim (read_exact 4 b) [
    | none ↦ failed read_failed
    | some (h, r) ↦
        read_body (at16 h 0 % critical_bit) (not (ltb (at16 h 0) critical_bit)) (at16 h 2) data_ r
  ]

  -- ReadData. Each run of the loop takes at least the 4 bytes of a header off the stream.
  unfoldable pub read_data : ℕ → Data → List ℕ → Run ReadError Data
  read_data zero data_ b = out_of_fuel
  read_data (suc fuel) data_ b = elim (read_step data_ b) [
    | continue d r ↦ read_data fuel d r
    | done d ↦ ok d
    | failed e ↦ err e
  ]
