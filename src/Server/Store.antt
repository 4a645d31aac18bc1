-- ===== src/Server/Store.antt =====
-- core/server/server.go: the timestamp store of all clients, and handleRequest and updateTXTimestamp
-- on it. The mutex makes each of them one step; the metrics are left out. The map `tss` is a function
-- with the number of its keys.
pub mod Valid
pub mod Change
pub mod Refines
pub mod Update
pub mod Reachable
use scion_time.Ntp.Packet.{Packet}
use scion_time.Ntp.Time64.{before, after, Time64, time64_from_time}
use scion_time.Base.{
  ◌>>=◌, Bool, Option, [], false, if◌then◌else◌, none, not, some, ℕ, ◌&&◌, ◌+◌, ◌-◌, ◌==◌, ◌^◌,
}
use scion_time.Server.Item.{
  update_tx_timestamp, Item, Slots, Updated, dropped, ensure_after, kept, make_unique, no_slots,
  record_times, reply, requeued, stored_txt, tss_item_cap,
}
use scion_time.GoTime.{Time}
use scion_time.Server.Queue.{ClientId, Queue, fix, pop, push, remove}
use scion_time.Sorting.{count}

abbrev pub tss_cap : ℕ
tss_cap = 2 ^ 20

pub record Store : Type 0 where
  pub item : ClientId → Option Item
  pub count : ℕ
  pub queue : Queue

-- qval of a queued item
abbrev pub qval_of : (ClientId → Option Item) → ClientId → Time64
qval_of item k = elim (item k) [ none ↦ record { seconds = 0; fraction = 0 } | some t ↦ t.qval ]

-- Less, on the items of two clients.
unfoldable pub less : (ClientId → Option Item) → ClientId → ClientId → Bool
less item a b = before (qval_of item a) (qval_of item b)

-- tss[k] = tssi, and delete(tss, k)
abbrev pub update : (ClientId → Option Item) → ClientId → Option Item → ClientId → Option Item
update f k v l = if l == k then v else f l

-- The branch for a client without an item, up to the answer: an item is evicted where the store is
-- full and its qval is not after the request's receive timestamp, and a new item is added where
-- there is room.
unfoldable pub evict : Store → Time64 → Store
evict s rxt64 =
    if s.count == tss_cap && not (after (qval_of s.item (s.queue.at 0)) rxt64)
    then record {
      item = update s.item (s.queue.at 0) none;
      count = s.count - 1;
      queue = pop (less s.item) s.queue;
    }
    else s

unfoldable pub add_item : Store → ClientId → Item → Store
add_item s k item =
    let items = update s.item k (some item) in
    record { item = items; count = s.count + 1; queue = push (less items) s.queue k }

unfoldable pub serve_unknown :
    Store → ClientId → Packet → Packet → Time → Time → Option (Time × Time × Packet × Store)
serve_unknown s k resp req rxt txt = do
  let rxt64 = time64_from_time rxt
  let txt64 = time64_from_time txt
  let room = evict s rxt64
  answer ← reply resp req rxt64 txt64 none
  some (
    rxt,
    txt,
    answer,
    if room.count == tss_cap
        then room
        else add_item room k
            (record_times (record { buf = []; qval = rxt64 }) no_slots rxt64 txt64),
  )

-- Whether the new receive timestamp is the item's latest.
abbrev pub raises_qval : Slots → Time64 → Bool
raises_qval s rxt64 = elim s.max [ none ↦ false | some (m, u) ↦ after rxt64 u ]

unfoldable pub requeue : Store → ClientId → Item → Store
requeue s k item =
    let items = update s.item k (some item) in
    record s { item = items; queue = fix (less items) s.queue (s.queue.qidx k) }

abbrev pub replace : Store → ClientId → Item → Store
replace s k item = record s { item = update s.item k (some item) }

unfoldable pub serve_known :
    Store → ClientId → Item → Packet → Packet → Time → Time → Option (Time × Time × Packet × Store)
serve_known s k item resp req rxt txt = do
  (rxt', txt', slots) ← make_unique (tss_item_cap + 1) req.origin_time item.buf rxt txt
  let rxt64 = time64_from_time rxt'
  let txt64 = time64_from_time txt'
  answer ← reply resp req rxt64 txt64 (stored_txt item slots)
  let item' = record_times item slots rxt64 txt64
  some
      (rxt', txt', answer, if raises_qval slots rxt64 then requeue s k item' else replace s k item')

-- handleRequest, from the clock reading `txt` on.
unfoldable pub handle_request :
    Store → ClientId → Packet → Packet → Time → Time → Option (Time × Time × Packet × Store)
handle_request s k resp req rxt txt = elim (s.item k) [
  | some item ↦ serve_known s k item resp req rxt txt
  | none ↦ serve_unknown s k resp req rxt txt
]

unfoldable pub drop_item : Store → ClientId → Store
drop_item s k = record {
  item = update s.item k none;
  count = s.count - 1;
  queue = remove (less s.item) s.queue (s.queue.qidx k);
}

unfoldable pub put_updated : Store → ClientId → Updated → Store
put_updated s k dropped = drop_item s k
put_updated s k (kept item) = replace s k item
put_updated s k (requeued item) = requeue s k item

-- updateTXTimestamp: the transmit time and the store.
unfoldable pub update_tx : Store → ClientId → Time → Time → Time × Store
update_tx s k rxt txt = elim (s.item k) [
  | none ↦ (ensure_after rxt txt, s)
  | some item ↦ let (txt', u) = update_tx_timestamp item rxt txt in (txt', put_updated s k u)
]
