-- ===== src/Server/Item.antt =====
-- core/server/server.go: the timestamps that the server keeps of one client, and what
-- handleRequest and updateTXTimestamp do with them. The buffer of an item is the list of its first
-- `len` entries, since no other entry is read; its place in the queue is not part of it.
pub mod Unique
pub mod Interleaved
pub mod Scan
pub mod Serves
pub mod Update
pub mod Newest
use scion_time.Ntp.Packet.{Packet}
use scion_time.Base.{
  ◌>>=◌, Bool, List, Option, [], false, get_elem?, if◌then◌else◌, length, none, not, set, some, suc,
  take, true, zero, ℕ, ◌++◌, ◌+◌, ◌-◌, ◌==◌, ◌∷◌,
}
use scion_time.Ntp.Time64.{before, after, time64_eq, Time64, time64_from_time}
use Prim.Native.Nat.{max, min}
use scion_time.Base.Int.{ltb_ℤ, negsuc, pos}
use scion_time.GoTime.{Time, add}
use scion_time.Ntp.Header.{mode_server, set_mode, set_version, version_max}
use scion_time.Nts.Buffer.{filled}

abbrev pub server_ref_id : ℕ
server_ref_id = 0x58535453

abbrev pub tss_item_cap : ℕ
tss_item_cap = 8

pub record Entry : Type 0 where
  pub rxt : Time64
  pub txt : Time64

-- `qval` is the value by which the queue orders the items.
pub record Item : Type 0 where
  pub buf : List Entry
  pub qval : Time64

-- The variables `o`, `min` and `max` of the loops, each with the receive timestamp at the index;
-- `none` is -1.
pub record Slots : Type 0 where
  pub o : Option ℕ
  pub min : Option (ℕ × Time64)
  pub max : Option (ℕ × Time64)

abbrev pub no_slots : Slots
no_slots = record { o = none; min = none; max = none }

unfoldable pub earliest : ℕ → Time64 → Option (ℕ × Time64) → Option (ℕ × Time64)
earliest i t none = some (i, t)
earliest i t (some (m, u)) = if before t u then some (i, t) else some (m, u)

unfoldable pub latest : ℕ → Time64 → Option (ℕ × Time64) → Option (ℕ × Time64)
latest i t none = some (i, t)
latest i t (some (m, u)) = if not (before t u) then some (i, t) else some (m, u)

-- The inner loop of handleRequest from the index `i` on; `none` is a break, at an entry whose
-- receive timestamp is `rxt64`.
unfoldable pub scan : Time64 → Time64 → ℕ → List Entry → Slots → Option Slots
scan rxt64 origin i [] s = some s
scan rxt64 origin i (e ∷ es) s = elim (time64_eq e.rxt rxt64) [
  | true ↦ none
  | false ↦ scan rxt64 origin (i + 1) es (record {
    o = if time64_eq e.rxt origin then some i else s.o;
    min = earliest i e.rxt s.min;
    max = latest i e.rxt s.max;
  })
]

-- The outer loop of handleRequest on the receive and transmit times; `none` is that the fuel runs
-- out.
unfoldable pub make_unique : ℕ → Time64 → List Entry → Time → Time → Option (Time × Time × Slots)
make_unique zero origin buf rxt txt = none
make_unique (suc fuel) origin buf rxt txt =
    elim (scan (time64_from_time rxt) origin 0 buf no_slots) [
      | some s ↦ some (rxt, txt, s)
      | none ↦
          let rxt' = add rxt (pos 1) in
          make_unique fuel origin buf rxt' (if not (ltb_ℤ rxt' txt) then add rxt' (pos 1) else txt)
    ]

-- The response, of which the caller gives the initial value; `none` is a panic of a setter. The
-- argument `stored` is the transmit timestamp in the entry `o`, if there is one.
unfoldable pub reply : Packet → Packet → Time64 → Time64 → Option Time64 → Option Packet
reply resp req rxt64 txt64 stored = do
  v ← set_version version_max resp
  m ← set_mode mode_server v
  let filled = record m {
    stratum = 1;
    poll = req.poll;
    precision = negsuc 31;
    root_dispersion = record { seconds = 0; fraction = 10 };
    reference_id = server_ref_id;
    reference_time = txt64;
    receive_time = rxt64;
  }
  let basic = record filled { origin_time = req.transmit_time; transmit_time = txt64 }
  some (
      if time64_eq req.receive_time req.transmit_time then basic else elim stored [
        | none ↦ basic
        | some t ↦ record filled { origin_time = req.receive_time; transmit_time = t }
      ])

-- The value for the queue, and the entries, once the request is answered.
unfoldable pub record_times : Item → Slots → Time64 → Time64 → Item
record_times item s rxt64 txt64 =
    let e : Entry = record { rxt = rxt64; txt = txt64 } in
    record {
      qval = elim s.max [
        | none ↦ item.qval
        | some (m, u) ↦ if after rxt64 u then rxt64 else item.qval
      ];
      buf = elim s.o [
        | some o ↦ set item.buf o e
        | none ↦
            if length item.buf == tss_item_cap
            then elim s.min [ none ↦ item.buf | some (m, u) ↦ set item.buf m e ]
            else item.buf ++ (e ∷ [])
      ];
    }

abbrev pub stored_txt : Item → Slots → Option Time64
stored_txt item s = do o ← s.o; e ← get_elem? item.buf o; some e.txt

-- handleRequest for a client that has an item, from the clock reading `txt` on.
unfoldable pub handle_request :
    Item → Packet → Packet → Time → Time → Option (Time × Time × Packet × Item)
handle_request item resp req rxt txt = do
  (rxt', txt', s) ← make_unique (tss_item_cap + 1) req.origin_time item.buf rxt txt
  let rxt64 = time64_from_time rxt'
  let txt64 = time64_from_time txt'
  answer ← reply resp req rxt64 txt64 (stored_txt item s)
  some (rxt', txt', answer, record_times item s rxt64 txt64)

-- The loop of updateTXTimestamp from the index `i` on: the last entry of the receive timestamp,
-- the latest entry and the one after it.
pub record Latest : Type 0 where
  pub x : Option ℕ
  pub max0 : Option (ℕ × Time64)
  pub max1 : Option (ℕ × Time64)

abbrev pub no_latest : Latest
no_latest = record { x = none; max0 = none; max1 = none }

unfoldable pub is_latest : Time64 → Option (ℕ × Time64) → Bool
is_latest t none = true
is_latest t (some (m, u)) = not (before t u)

abbrev pub next_latest : Time64 → ℕ → Entry → Latest → Latest
next_latest rxt64 i e s = record {
  x = if time64_eq e.rxt rxt64 then some i else s.x;
  max0 = if is_latest e.rxt s.max0 then some (i, e.rxt) else s.max0;
  max1 =
      if is_latest e.rxt s.max0
      then s.max0
      else if is_latest e.rxt s.max1
      then some (i, e.rxt)
      else s.max1;
}

unfoldable pub scan_latest : Time64 → ℕ → List Entry → Latest → Latest
scan_latest rxt64 i [] s = s
scan_latest rxt64 i (e ∷ es) s = scan_latest rxt64 (i + 1) es (next_latest rxt64 i e s)

-- The transmit time that updateTXTimestamp leaves.
unfoldable pub ensure_after : Time → Time → Time
ensure_after rxt txt = if not (ltb_ℤ rxt txt) then add rxt (pos 1) else txt

-- tssi.buf[x] = tssi.buf[tssi.len-1]; tssi.len--
unfoldable pub remove_entry : ℕ → List Entry → List Entry
remove_entry x buf = elim (get_elem? buf (length buf - 1)) [
  | none ↦ buf
  | some e ↦ take (length buf - 1) (set buf x e)
]

-- What becomes of the item: it leaves the store and the queue, it stays, or it stays and has
-- another value for the queue.
pub data Updated : Type 0 where
  dropped : Updated
  kept : Item → Updated
  requeued : Item → Updated

unfoldable pub update_entry : Item → Time64 → Time64 → Updated
update_entry item rxt64 txt64 =
    let s = scan_latest rxt64 0 item.buf no_latest in
    elim s.x [
      | none ↦ kept item
      | some x ↦ elim (get_elem? item.buf x) [
        | none ↦ kept item
        | some e ↦
            if not (time64_eq e.txt txt64)
            then kept (record item { buf = set item.buf x (record e { txt = txt64 }) })
            else if length item.buf == 1
            then dropped
            else elim s.max0 [
              | none ↦ kept (record item { buf = remove_entry x item.buf })
              | some (m, u) ↦
                  if time64_eq u rxt64
                  then requeued (record item {
                    buf = remove_entry x item.buf;
                    qval = elim s.max1 [ none ↦ item.qval | some (m1, u1) ↦ u1 ];
                  })
                  else kept (record item { buf = remove_entry x item.buf })
            ]
      ]
    ]

-- updateTXTimestamp for a client that has an item.
unfoldable pub update_tx_timestamp : Item → Time → Time → Time × Updated
update_tx_timestamp item rxt txt =
    let txt' = ensure_after rxt txt in
    (txt', update_entry item (time64_from_time rxt) (time64_from_time txt'))
