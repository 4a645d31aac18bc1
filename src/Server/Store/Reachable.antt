-- ===== src/Server/Store/Reachable.antt =====
-- All timestamp stores of core/server/server.go that requests and updates of any clients in any order
-- lead to.
use scion_time.Ntp.Packet.{Packet}
use scion_time.Server.Store.{handle_request, Store, update_tx}
use scion_time.Base.{arith, none, refl, some, ◌<◌, ◌≡◌}
use scion_time.GoTime.{Time}
use scion_time.Server.Queue.{ClientId, empty_queue}
use scion_time.Server.Store.Refines.{handle_request-Refined}
use scion_time.Server.Store.Update.{update_tx-IsStore}
use scion_time.Server.Store.Valid.{IsStore}

-- What happens to the store: a request is handled, or the time at which an answer was sent is noted,
-- for any client and at any times.
pub data Step : Store → Store → Type 0 where
  request :
      (s : Store) (k : ClientId) (resp req : Packet) (rxt txt rxt' txt' : Time) (answer : Packet)
      (s' : Store)
      → resp.lvm < 192
      → handle_request s k resp req rxt txt ≡ some (rxt', txt', answer, s')
      → Step s s'
  sent : (s : Store) (k : ClientId) (rxt txt : Time) → Step s (update_tx s k rxt txt).1

abbrev pub empty_store : Store
empty_store = record { item = λ k. none; count = 0; queue = empty_queue }

pub data Reachable : Store → Type 0 where
  started : Reachable empty_store
  next : (s s' : Store) → Reachable s → Step s s' → Reachable s'

empty_store-IsStore : IsStore empty_store
empty_store-IsStore = record {
  indexed = λ x hx. absurd (omega arith);
  heap = λ x hx lx. absurd (omega arith);
  queued = λ k t h. absurd (cc h);
  backed = λ k m. absurd (omega (arith, m.0));
  counted = refl;
  bounded = omega arith;
  buffers = λ k t h. absurd (cc h);
}

Step-IsStore : (s s' : Store) → Step s s' → IsStore s → IsStore s'
Step-IsStore _ _ (request s k resp req rxt txt rxt' txt' answer s' lvm e) w =
    let (r, t, a, u, f, v, _) = handle_request-Refined s k resp req rxt txt w lvm in
    let same : u ≡ s' = cc (e, f) in rw (← same) v
Step-IsStore _ _ (sent s k rxt txt) w = update_tx-IsStore s k rxt txt w

-- From the empty store, requests and updates of any clients in any order only lead to valid stores:
-- the clients with an item are those in the queue, the indices of the items are their places in it,
-- the queue is a heap by the items' qval, it has at most 2^20 clients, and each item has at most
-- 8 entries, whose receive timestamps differ. The responses are initialised with first bytes whose
-- leap indicator is not 3.
pub Reachable-IsStore : (s : Store) → Reachable s → IsStore s
Reachable-IsStore _ started = empty_store-IsStore
Reachable-IsStore _ (next r s r' step) = Step-IsStore r s step (Reachable-IsStore r r')
