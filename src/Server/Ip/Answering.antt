-- ===== src/Server/Ip/Answering.antt =====
-- What an iteration of runIPServer in core/server/server_ip.go comes to.
use scion_time.Base.Run.{ok}
use scion_time.Ntp.Packet.{encode_packet, decode_packet}
use scion_time.Server.Store.{handle_request, Store, update_tx}
use scion_time.Server.Ip.{
  Arrival, Surroundings, IpServer, Written, accept, note_sent, respond, sent_at, serve_packet,
  zero_packet, no_timestamp, not_written, timestamped,
}
use scion_time.Base.{
  arith, inl, inr, none, refl, some, ◌≡◌, ==_iff, Bool-cases, List, ℕ, ◌%◌, ◌+◌, ◌==◌, ◌^◌, ◌≢◌,
}
use scion_time.GoTime.{Time}
use scion_time.Nts.Aead.{Aead}
use scion_time.Server.Queue.{ClientId}
use scion_time.Server.Store.Refines.{Handled, handle_request-Refined}
use scion_time.Server.Store.Update.{update_tx-IsStore}
use scion_time.Server.Store.Valid.{IsStore}

-- The server's state after the answer of the request that handleRequest left `store'` for, by the
-- socket's results.
pub data Noted (v : IpServer) (k : ClientId) (rxt txt : Time) (store' : Store)
    : Written → IpServer → Type 0 where
  -- nothing was sent, and no transmit time is updated
  unsent : Noted v k rxt txt store' not_written (record v { store = store' })
  -- the transmit time stays the one of handleRequest
  unstamped :
      Noted v k rxt txt store' no_timestamp (record v { store = (update_tx store' k rxt txt).1 })
  -- the kernel's timestamp of this packet is the transmit time
  stamped :
      (t : Time) (id : ℕ)
      → id ≡ v.txid
      → Noted v k rxt txt store'
          (timestamped t id)
          (record v { store = (update_tx store' k rxt t).1; txid = (v.txid + 1) % 2 ^ 32 })
  -- a timestamp of another packet is not used, but its identifier is followed
  other_stamp :
      (t : Time) (id : ℕ)
      → id ≢ v.txid
      → Noted v k rxt txt store'
          (timestamped t id)
          (record v { store = (update_tx store' k rxt txt).1; txid = (id + 1) % 2 ^ 32 })

module _ (v : IpServer) (k : ClientId) (rxt txt : Time) (store' : Store) (b : List ℕ) where
  abbrev noted : Written → IpServer
  noted w =
      note_sent (record v { store = store' }) k (record { rxt = rxt; txt = txt; bytes = some b }) w

  note_sent-Noted : (w : Written) → Noted v k rxt txt store' w (noted w)
  unfolding note_sent sent_at
  note_sent-Noted not_written = unsent
  note_sent-Noted no_timestamp = unstamped
  note_sent-Noted (timestamped t id) = elim (Bool-cases (id == v.txid)) [
    | inl y ↦ rw (note_sent, sent_at, y) (stamped t id ((==_iff id v.txid).0 y))
    | inr n ↦ rw (note_sent, sent_at, n) (other_stamp t id (λ q. cc (n, (==_iff id v.txid).1 q)))
  ]

  note_sent-IsStore : (w : Written) → IsStore store' → IsStore (noted w).store
  unfolding note_sent sent_at
  note_sent-IsStore not_written h = h
  note_sent-IsStore no_timestamp h = update_tx-IsStore store' k rxt txt h
  note_sent-IsStore (timestamped t id) h = elim (Bool-cases (id == v.txid)) [
    | inl y ↦ rw (note_sent, sent_at, y) (update_tx-IsStore store' k rxt t h)
    | inr n ↦ rw (note_sent, sent_at, n) (update_tx-IsStore store' k rxt txt h)
  ]

-- What the server makes of a request without extension fields.
pub record AnswersPlain (aead : Aead) (s : Surroundings) (v : IpServer) (a : Arrival)
    (req : scion_time.Ntp.Packet.Packet) (w : Written) : Type 0 where
  pub rxt : Time
  pub txt : Time
  pub resp : scion_time.Ntp.Packet.Packet
  pub handled_store : Store
  pub next : IpServer
  pub handled :
      handle_request v.store a.client zero_packet req a.rxt s.txt
      ≡ some (rxt, txt, resp, handled_store)
  pub changes :
      Handled a.client zero_packet req a.rxt s.txt v.store.item rxt txt resp handled_store.item
  pub notes : Noted v a.client rxt txt handled_store w next
  pub serves : serve_packet aead s v a w ≡ ok (next, some (encode_packet resp))
  pub valid : IsStore next.store

module _ (aead : Aead) (s : Surroundings) (v : IpServer) (a : Arrival)
    (req : scion_time.Ntp.Packet.Packet) (valid : IsStore v.store) where
  -- A request without extension fields.
  respond_plain :
      (rxt txt : Time) (resp : scion_time.Ntp.Packet.Packet) (store' : Store)
      → handle_request v.store a.client zero_packet req a.rxt s.txt ≡ some (rxt, txt, resp, store')
      → respond aead s v.provider v.store a req none
        ≡ ok
            (v.provider, store', record { rxt = rxt; txt = txt; bytes = some (encode_packet resp) })
  unfolding respond
  respond_plain rxt txt resp store' h = rw h refl

  -- An accepted request of 48 bytes is answered: the bytes to write encode the packet that
  -- handleRequest makes of it, and the server goes on with the store that handleRequest leaves, in
  -- which, unless nothing was sent, the transmit time is updated to the kernel's timestamp, if that
  -- has the expected identifier, and otherwise to the time of handleRequest; the expected identifier
  -- is one more than that of the timestamp; and the store is valid, if it was before.
  pub serve_packet_plain :
      (w : Written)
      → accept aead v.provider s.get_now a ≡ ok (req, none)
      → AnswersPlain aead s v a req w
  unfolding serve_packet
  serve_packet_plain w h =
      let (rxt, txt, resp, store', e, still, handled) =
        handle_request-Refined v.store a.client zero_packet req a.rxt s.txt valid (omega arith) in
      record {
        rxt = rxt;
        txt = txt;
        resp = resp;
        handled_store = store';
        next = noted v a.client rxt txt store' (encode_packet resp) w;
        handled = e;
        changes = handled;
        notes = note_sent-Noted v a.client rxt txt store' (encode_packet resp) w;
        serves = rw (h, respond_plain rxt txt resp store' e) refl;
        valid = note_sent-IsStore v a.client rxt txt store' (encode_packet resp) w still;
      }
