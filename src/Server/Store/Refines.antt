-- ===== src/Server/Store/Refines.antt =====
-- handleRequest on the timestamp store of core/server/server.go refines what it does to the item of
-- one client: the heap and the map only decide which item makes room for a new one.
use scion_time.Ntp.Packet.{Packet}
use scion_time.Ntp.Time64.{before, after, Time64, time64_from_time}
use scion_time.Base.{
  ==_false, Option, [], arith, false, inl, inr, none, refl, some, true, ◌<◌, ◌==◌, ◌≡◌, Bool-cases,
  ◌+◌, Option-cases, ◌∷◌,
}
use scion_time.GoTime.{Time}
use scion_time.Server.Item.{
  Item, Slots, no_slots, record_times, make_unique, reply, stored_txt, tss_item_cap,
}
use scion_time.Server.Item.Interleaved.{IsBuffer, txt_of}
use scion_time.Server.Item.Serves.{Answers, reply-Answers, record_times-Stores, stored_txt-txt_of}
use scion_time.Server.Queue.{ClientId}
use scion_time.Server.Store.{
  Store, add_item, handle_request, raises_qval, serve_known, serve_unknown, tss_cap, update, evict,
  replace, requeue, qval_of,
}
use scion_time.Server.Store.Change.{add_item-IsStore, evict_cases, first_found, first_qval}
use scion_time.Server.Store.Valid.{IsStore, replace-IsStore, requeue-IsStore}
use scion_time.Server.Item.Unique.{make_unique-Settles, clash}
use scion_time.Base.Int.{int_laws, pos, ◌+ℤ◌, ◌≤ℤ◌}
use scion_time.Server.Item.Newest.{Requeues, record_times-Requeues}

abbrev pub Items : Type 0
Items = ClientId → Option Item

-- The item of a client after its first request.
abbrev pub first_item : Time64 → Time64 → Item
first_item rxt64 txt64 = record { buf = record { rxt = rxt64; txt = txt64 } ∷ []; qval = rxt64 }

-- How the item `t` serves a request, and becomes `t'`: the receive time moves by at most 8 ns, to one
-- whose timestamp the item does not have; the answer is valid, with the times that the item has for
-- the request's origin timestamp; the new item is well-formed and has the new timestamps; and its
-- value for the queue is the new receive timestamp, if that is after all that the item had, and the
-- old value otherwise.
pub record ServedBy (t : Item) (resp req : Packet) (rxt rxt' txt' : Time) (answer : Packet)
    (t' : Item) : Type 0 where
  pub from : rxt ≤ℤ rxt'
  pub until : rxt' ≤ℤ rxt +ℤ pos 8
  pub new : clash (time64_from_time rxt') t.buf ≡ false
  pub answers :
      Answers answer req
        (time64_from_time rxt')
        (time64_from_time txt')
        (txt_of req.origin_time t.buf)
  pub replied :
      reply resp req (time64_from_time rxt') (time64_from_time txt') (txt_of req.origin_time t.buf)
      ≡ some answer
  pub buffer : IsBuffer t'.buf
  pub stored : txt_of (time64_from_time rxt') t'.buf ≡ some (time64_from_time txt')
  pub queued : Requeues t.buf (time64_from_time rxt') t.qval t'.qval

-- What a request of the client `k` does to the items `f`, with the answer and the two times.
pub data Handled (k : ClientId) (resp req : Packet) (rxt txt : Time) (f : Items) (rxt' txt' : Time)
    (answer : Packet) (g : Items) : Type 0 where
  -- its item serves the request, all others stay
  known :
      (t t' : Item)
      → f k ≡ some t
      → scion_time.Server.Item.handle_request t resp req rxt txt ≡ some (rxt', txt', answer, t')
      → ServedBy t resp req rxt rxt' txt' answer t'
      → g ≡ update f k (some t')
      → Handled k resp req rxt txt f rxt' txt' answer g
  -- it gets an item, all others stay
  added :
      f k ≡ none
      → rxt' ≡ rxt
      → txt' ≡ txt
      → Answers answer req (time64_from_time rxt) (time64_from_time txt) none
      → reply resp req (time64_from_time rxt) (time64_from_time txt) none ≡ some answer
      → g ≡ update f k (some (first_item (time64_from_time rxt) (time64_from_time txt)))
      → Handled k resp req rxt txt f rxt' txt' answer g
  -- it gets the place of a client whose value for the queue is a least one, and not after its own
  -- receive timestamp
  evicting :
      (v : ClientId) (old : Item)
      → f k ≡ none
      → f v ≡ some old
      → ((l : ClientId) (t : Item) → f l ≡ some t → before t.qval old.qval ≡ false)
      → after old.qval (time64_from_time rxt) ≡ false
      → rxt' ≡ rxt
      → txt' ≡ txt
      → Answers answer req (time64_from_time rxt) (time64_from_time txt) none
      → reply resp req (time64_from_time rxt) (time64_from_time txt) none ≡ some answer
      → g
        ≡ update
            (update f v none)
            k
            (some (first_item (time64_from_time rxt) (time64_from_time txt)))
      → Handled k resp req rxt txt f rxt' txt' answer g
  -- it gets none, since the values of all clients for the queue are after its receive timestamp
  refused :
      f k ≡ none
      → ((l : ClientId) (t : Item) → f l ≡ some t → after t.qval (time64_from_time rxt) ≡ true)
      → rxt' ≡ rxt
      → txt' ≡ txt
      → Answers answer req (time64_from_time rxt) (time64_from_time txt) none
      → reply resp req (time64_from_time rxt) (time64_from_time txt) none ≡ some answer
      → g ≡ f
      → Handled k resp req rxt txt f rxt' txt' answer g

-- The request is answered, the store stays valid, and the items change as `Handled` says.
abbrev pub Refined : Store → ClientId → Packet → Packet → Time → Time → Type 0
Refined s k resp req rxt txt =
    (rxt' txt' : Time) × (answer : Packet) × (s' : Store) × (handle_request s k resp req rxt txt
      ≡ some (rxt', txt', answer, s'))
    × IsStore s'
    × Handled k resp req rxt txt s.item rxt' txt' answer s'.item

record_times-qval :
    (t : Item) (found : Slots) (x y : Time64)
    → raises_qval found x ≡ false
    → (record_times t found x y).qval ≡ t.qval
unfolding record_times
record_times-qval t found x y h = ground arith

first_item-IsBuffer : (x y : Time64) → IsBuffer (first_item x y).buf
first_item-IsBuffer x y = ((refl, tt), omega arith)

after_trans : (a b c : Time64) → before a b ≡ false → after b c ≡ true → after a c ≡ true
unfolding before after
after_trans a b c h k = ground arith

module _ (resp req : Packet) (rxt txt : Time) (t : Item) where
  handled_item :
      (rxt' txt' : Time) (found : Slots) (answer : Packet)
      → make_unique (tss_item_cap + 1) req.origin_time t.buf rxt txt ≡ some (rxt', txt', found)
      → stored_txt t found ≡ txt_of req.origin_time t.buf
      → reply resp req
          (time64_from_time rxt')
          (time64_from_time txt')
          (txt_of req.origin_time t.buf)
        ≡ some answer
      → scion_time.Server.Item.handle_request t resp req rxt txt
        ≡ some (
          rxt',
          txt',
          answer,
          record_times t found (time64_from_time rxt') (time64_from_time txt'),
        )
  unfolding scion_time.Server.Item.handle_request
  handled_item rxt' txt' found answer m same e = rw (m, same, e) refl

update-none : (f : Items) (v k : ClientId) → f k ≡ none → update f v none k ≡ none
update-none f v k h = elim (Bool-cases (k == v)) [ inl y ↦ rw y refl | inr n ↦ rw n h ]

module _ (s : Store) (k : ClientId) (resp req : Packet) (rxt txt : Time) (w : IsStore s)
    (lvm : resp.lvm < 192) where
  Refined-known : (t : Item) → s.item k ≡ some t → Refined s k resp req rxt txt
  unfolding handle_request serve_known requeue
  Refined-known t h =
      let b = w.buffers k t h in
      let f = make_unique-Settles req.origin_time t.buf rxt txt b.1 in
      let rxt64 = time64_from_time f.rxt' in
      let txt64 = time64_from_time f.txt' in
      let t' : Item = record_times t f.slots rxt64 txt64 in
      let (answer, e, a) = reply-Answers resp req rxt64 txt64 (txt_of req.origin_time t.buf) lvm in
      let same = stored_txt-txt_of t f.slots rxt64 req.origin_time b f.scanned in
      let stored = record_times-Stores t f.slots rxt64 req.origin_time txt64 b f.new f.scanned in
      let served : ServedBy t resp req rxt f.rxt' f.txt' answer t' = record {
        from = f.from;
        until = omega (int_laws, f.until);
        new = f.new;
        answers = a;
        replied = e;
        buffer = stored.0;
        stored = stored.1;
        queued = record_times-Requeues t f.slots rxt64 req.origin_time txt64 f.scanned;
      } in
      elim (Bool-cases (raises_qval f.slots rxt64)) [
        | inl y ↦ (
          f.rxt',
          f.txt',
          answer,
          requeue s k t',
          rw (handle_request, h) (rw (serve_known, f.returns, same, e, y) refl),
          requeue-IsStore s w k t t' h stored.0,
          known t t' h
              (handled_item resp req rxt txt t f.rxt' f.txt' f.slots answer f.returns same e) served
              refl,
        )
        | inr n ↦ (
          f.rxt',
          f.txt',
          answer,
          replace s k t',
          rw (handle_request, h) (rw (serve_known, f.returns, same, e, n) refl),
          replace-IsStore s w k t t' h stored.0 (record_times-qval t f.slots rxt64 txt64 n),
          known t t' h
              (handled_item resp req rxt txt t f.rxt' f.txt' f.slots answer f.returns same e) served
              refl,
        )
      ]

  Refined-unknown : s.item k ≡ none → Refined s k resp req rxt txt
  unfolding handle_request serve_unknown add_item record_times
  Refined-unknown h =
      let x = time64_from_time rxt in
      let y = time64_from_time txt in
      let (answer, e, a) = reply-Answers resp req x y none lvm in
      let first : Item = first_item x y in
      elim (evict_cases s x w) [
        | inl (same, room) ↦
            let full : (s.count == tss_cap) ≡ false = ==_false _ _ (λ r. omega (arith, r, room)) in
            (
              rxt,
              txt,
              answer,
              add_item s k first,
              rw (handle_request, h) (rw (serve_unknown, same, e, full) refl),
              add_item-IsStore s k first w h room (first_item-IsBuffer x y),
              added h refl refl a e refl,
            )
        | inr (inl (same, full, late)) ↦ (
          rxt,
          txt,
          answer,
          s,
          rw (handle_request, h) (rw (serve_unknown, same, e, full) refl),
          w,
          refused h
              (λ l t q.
                let (u, eu, least) = first_qval s l t w q in
                after_trans t.qval u.qval x least (rw (qval_of, eu) at late))
              refl refl a e refl,
        )
        | inr (inr (v, full, late, room, gone)) ↦
            let (old, eo) = first_found s w (omega (arith, w.counted, full)) in
            let other : (evict s x).item k ≡ none =
              rw gone (update-none s.item (s.queue.at 0) k h) in
            (
              rxt,
              txt,
              answer,
              add_item (evict s x) k first,
              rw (handle_request, h)
                  (rw
                    (
                      serve_unknown,
                      e,
                      ==_false (evict s x).count tss_cap (λ r. omega (arith, r, room)),
                    )
                    refl),
              add_item-IsStore (evict s x) k first v other room (first_item-IsBuffer x y),
              evicting (s.queue.at 0) old h eo
                  (λ l t q.
                    let (u, eu, least) = first_qval s l t w q in
                    let same : u ≡ old = cc (eo, eu) in rw (← same) least)
                  (rw (qval_of, eo) at late) refl refl a e (rw gone refl),
            )
      ]

pub handle_request-Refined :
    (s : Store) (k : ClientId) (resp req : Packet) (rxt txt : Time)
    → IsStore s
    → resp.lvm < 192
    → Refined s k resp req rxt txt
handle_request-Refined s k resp req rxt txt w lvm = elim (Option-cases (s.item k)) [
  | inl n ↦ Refined-unknown s k resp req rxt txt w lvm n
  | inr (t, h) ↦ Refined-known s k resp req rxt txt w lvm t h
]
