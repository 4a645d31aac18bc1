-- ===== src/Server/Item/Serves.antt =====
-- handleRequest answers every request of a client that has an item, from the store where it can,
-- and keeps the item well-formed.
use scion_time.Ntp.Time64.{time64_from_time}
use scion_time.Base.{
  Bool-cases, List, [], arith, false, get_elem?, inl, inr, none, refl, some, suc, ℕ, ◌+◌, ◌∙◌, ◌∷◌,
  ◌≡◌, Option, ap, length, length-set, set, zero, ◌++◌, ◌<◌, ◌==◌, length-append, if◌then◌else◌,
  ◌/◌, ◌*◌,
}
use scion_time.Ntp.Packet.{Packet}
use scion_time.Ntp.Time64.{Time64, time64_eq}
use scion_time.Server.Item.{
  Entry, Slots, scan, Item, no_slots, record_times, tss_item_cap, reply, stored_txt, handle_request,
}
use scion_time.Server.Item.Interleaved.{
  txt_of, IsBuffer, Distinct-append, Distinct-set, txt_of-append, txt_of-set,
}
use scion_time.Server.Item.Unique.{clash, make_unique-Settles}
use scion_time.Ntp.Header.{set_mode, set_version}
use Prim.Native.Nat.{bit_and, bit_or}
use scion_time.Base.Int.{int_laws, pos, ◌+ℤ◌, ◌≤ℤ◌}
use scion_time.Base.Tables.{agree, agree→eq}
use scion_time.GoTime.{Time}
use scion_time.Ntp.Validation.{accepted, validate_response_metadata}
use scion_time.Ntp.Validation.Accepted.{validate_response_metadata-accepted}
use scion_time.Server.Item.Scan.{scan-full, scan-o}

-- What is stored after a request: a well-formed buffer, with the new pair of timestamps.
abbrev Stores : List Entry → Time64 → Time64 → Type 0
Stores es t x = IsBuffer es × (txt_of t es ≡ some x)

Stores-set :
    (es : List Entry) (i : ℕ) (t x : Time64)
    → IsBuffer es
    → i < length es
    → clash t es ≡ false
    → Stores (set es i (record { rxt = t; txt = x })) t x
Stores-set es i t x b h free = (
  (Distinct-set es i _ b.0 free, rw (length-set es i (record { rxt = t; txt = x })) b.1),
  txt_of-set es i (record { rxt = t; txt = x }) h free,
)

Stores-append :
    (es : List Entry) (t x : Time64)
    → IsBuffer es
    → (length es == tss_item_cap) ≡ false
    → clash t es ≡ false
    → Stores (es ++ (record { rxt = t; txt = x } ∷ [])) t x
Stores-append es t x b h free = (
  (
    Distinct-append es _ b.0 free,
    (let size = length-append es (record { rxt = t; txt = x } ∷ []) in ground (arith, b.1)),
  ),
  txt_of-append es (record { rxt = t; txt = x }) free,
)

get_elem?-range : (es : List Entry) (j : ℕ) (e : Entry) → get_elem? es j ≡ some e → j < length es
get_elem?-range [] j e h = absurd (cc h)
get_elem?-range (x ∷ es) zero e h = omega arith
get_elem?-range (x ∷ es) (suc j) e h = omega (arith, get_elem?-range es j e h)

-- On every branch, handleRequest stores the timestamps.
pub record_times-Stores :
    (item : Item) (found : Slots) (t u x : Time64)
    → IsBuffer item.buf
    → clash t item.buf ≡ false
    → scan t u 0 item.buf no_slots ≡ some found
    → Stores (record_times item found t x).buf t x
unfolding record_times
record_times-Stores item found t u x b free h = elim (scan-o t u 0 item.buf no_slots found b.0 h) [
  | inr (j, e, g, k, o) ↦
      let o' : found.o ≡ some j = o ∙ ap some (omega arith) in
      rw o' (Stores-set item.buf j t x b (get_elem?-range item.buf j e g) free)
  | inl (k, o) ↦ rw o (elim (Bool-cases (length item.buf == tss_item_cap)) [
    | inr n ↦ rw n (Stores-append item.buf t x b n free)
    | inl y ↦
        let (m, v, f, lt) = scan-full t u item.buf found (ground arith) h in
        rw (y, f) (Stores-set item.buf m t x b lt free)
  ])
]

-- The transmit timestamp that the loop finds for the request's origin timestamp.
pub stored_txt-txt_of :
    (item : Item) (found : Slots) (t u : Time64)
    → IsBuffer item.buf
    → scan t u 0 item.buf no_slots ≡ some found
    → stored_txt item found ≡ txt_of u item.buf
stored_txt-txt_of item found t u b h = elim (scan-o t u 0 item.buf no_slots found b.0 h) [
  | inr (j, e, g, k, o) ↦
      let o' : found.o ≡ some j = o ∙ ap some (omega arith) in rw (o', g, k) refl
  | inl (k, o) ↦ rw (o, k) refl
]

-- The origin and transmit timestamps of an answer to `req` sent at `txt64`, where the store has
-- `stored` for the request's origin timestamp.
abbrev pub interleaved_or_basic : Packet → Time64 → Option Time64 → Time64 × Time64
interleaved_or_basic req txt64 none = (req.transmit_time, txt64)
interleaved_or_basic req txt64 (some t) =
    if time64_eq req.receive_time req.transmit_time
    then (req.transmit_time, txt64)
    else (req.receive_time, t)

pub record Answers (answer req : Packet) (rxt64 txt64 : Time64) (stored : Option Time64)
    : Type 0 where
  pub valid : validate_response_metadata answer ≡ accepted
  pub receive_time : answer.receive_time ≡ rxt64
  pub reference_time : answer.reference_time ≡ txt64
  pub origin_time : answer.origin_time ≡ (interleaved_or_basic req txt64 stored).0
  pub transmit_time : answer.transmit_time ≡ (interleaved_or_basic req txt64 stored).1

first_byte :
    (x : ℕ) → x < 256 → bit_or (bit_and (bit_or (bit_and x 199) 32) 248) 4 ≡ x / 64 * 64 + 36
unfolding agree
first_byte =
    agree→eq 256 (λ x. bit_or (bit_and (bit_or (bit_and x 199) 32) 248) 4) (λ x. x / 64 * 64 + 36)
      refl

-- With the stratum 1 and such a first byte, a client accepts the packet.
valid_answer :
    (p : Packet) (x : ℕ)
    → x < 192
    → p.lvm ≡ bit_or (bit_and (bit_or (bit_and x 199) 32) 248) 4
    → p.stratum ≡ 1
    → validate_response_metadata p ≡ accepted
valid_answer p x h e s =
    let lvm = e ∙ first_byte x (omega arith) in
    (validate_response_metadata-accepted p (omega arith)).1
      ((λ q. omega arith), inr (omega arith), omega arith, omega arith, omega arith)

pub reply-Answers :
    (resp req : Packet) (rxt64 txt64 : Time64) (stored : Option Time64)
    → resp.lvm < 192
    → (answer : Packet) × (reply resp req rxt64 txt64 stored ≡ some answer)
      × Answers answer req rxt64 txt64 stored
unfolding reply set_version set_mode
reply-Answers resp req rxt64 txt64 none h =
    elim (Bool-cases (time64_eq req.receive_time req.transmit_time)) [
      | inl y ↦ rw y (
        _,
        refl,
        record {
          valid = valid_answer _ resp.lvm h refl refl;
          receive_time = refl;
          reference_time = refl;
          origin_time = refl;
          transmit_time = refl;
        },
      )
      | inr n ↦ rw n (
        _,
        refl,
        record {
          valid = valid_answer _ resp.lvm h refl refl;
          receive_time = refl;
          reference_time = refl;
          origin_time = refl;
          transmit_time = refl;
        },
      )
    ]
reply-Answers resp req rxt64 txt64 (some t) h =
    elim (Bool-cases (time64_eq req.receive_time req.transmit_time)) [
      | inl y ↦ rw y (
        _,
        refl,
        record {
          valid = valid_answer _ resp.lvm h refl refl;
          receive_time = refl;
          reference_time = refl;
          origin_time = rw y refl;
          transmit_time = rw y refl;
        },
      )
      | inr n ↦ rw n (
        _,
        refl,
        record {
          valid = valid_answer _ resp.lvm h refl refl;
          receive_time = refl;
          reference_time = refl;
          origin_time = rw n refl;
          transmit_time = rw n refl;
        },
      )
    ]

-- What it takes to serve a request from an item: the receive time moves by at most 8 ns, to one
-- whose timestamp the item does not have; the answer passes the client's check and has the times
-- of the interleaved mode if the item has the request's origin timestamp, and of the basic mode
-- otherwise; and the new item is well-formed and has the new pair of timestamps.
abbrev pub Serves : Item → Packet → Packet → Time → Time → Type 0
Serves item resp req rxt txt =
    (rxt' txt' : Time) × (answer : Packet) × (item' : Item) × (handle_request item resp req rxt txt
      ≡ some (rxt', txt', answer, item'))
    × (rxt ≤ℤ rxt')
    × (rxt' ≤ℤ rxt +ℤ pos 8)
    × (clash (time64_from_time rxt') item.buf ≡ false)
    × Answers answer req (time64_from_time rxt') (time64_from_time txt')
        (txt_of req.origin_time item.buf)
    × IsBuffer item'.buf
    × (txt_of (time64_from_time rxt') item'.buf ≡ some (time64_from_time txt'))

-- Every request from a client whose item is well-formed is answered, with what `Serves` says: a
-- valid answer, in the interleaved mode exactly where the item has the request's origin timestamp
-- and the request's receive and transmit timestamps differ, a unique receive timestamp at most 8 ns
-- late, and a well-formed item that has the new pair of timestamps. The response is initialised
-- with a first byte whose leap indicator is not 3.
pub handle_request-Serves :
    (item : Item) (resp req : Packet) (rxt txt : Time)
    → IsBuffer item.buf
    → resp.lvm < 192
    → Serves item resp req rxt txt
unfolding handle_request
handle_request-Serves item resp req rxt txt b h =
    let f = make_unique-Settles req.origin_time item.buf rxt txt b.1 in
    let rxt64 = time64_from_time f.rxt' in
    let txt64 = time64_from_time f.txt' in
    let (answer, e, a) = reply-Answers resp req rxt64 txt64 (txt_of req.origin_time item.buf) h in
    let same = stored_txt-txt_of item f.slots rxt64 req.origin_time b f.scanned in
    let kept = record_times-Stores item f.slots rxt64 req.origin_time txt64 b f.new f.scanned in
    (
      f.rxt',
      f.txt',
      answer,
      record_times item f.slots rxt64 txt64,
      rw (f.returns, same, e) refl,
      f.from,
      omega (int_laws, f.until),
      f.new,
      a,
      kept.0,
      kept.1,
    )
