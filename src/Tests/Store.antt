-- ===== src/Tests/Store.antt =====
-- Concrete runs of the timestamp store of all clients, core/server/server.go.
use scion_time.Ntp.Packet.{Packet}
use scion_time.Server.Store.Reachable.{next, request}
use scion_time.Server.Store.{handle_request, Store, add_item, evict, serve_unknown, update_tx}
use scion_time.Base.Int.{◌-ℤ◌, bits, floor_div, floor_mod, negsuc, pos}
use scion_time.Base.{arith, refl, some, ◌*◌, ◌^◌, ◌≡◌}
use scion_time.GoTime.{Time, nanosecond, unix}
use scion_time.Ntp.Header.{set_mode, set_version}
use scion_time.Ntp.Time64.{Time64, time64_eq, time64_from_time}
use scion_time.Server.Item.{record_times, reply, server_ref_id}
use scion_time.Server.Queue.{append, push, up}
use scion_time.Server.Store.Reachable.{Reachable, Reachable-IsStore, empty_store, sent, started}
use scion_time.Server.Store.Refines.{first_item}
use scion_time.Server.Store.Valid.{IsStore}

-- 2023-11-14, 22:13:20 UTC
abbrev server_time : Time
server_time = pos (1700000000 * 10 ^ 9)

abbrev zero64 : Time64
zero64 = record { seconds = 0; fraction = 0 }

abbrev request_packet : Packet
request_packet = record {
  lvm = 0;
  stratum = 0;
  poll = pos 0;
  precision = pos 0;
  root_delay = record { seconds = 0; fraction = 0 };
  root_dispersion = record { seconds = 0; fraction = 0 };
  reference_id = 0;
  reference_time = zero64;
  origin_time = zero64;
  receive_time = zero64;
  transmit_time = zero64;
}

abbrev answer_packet : Packet
answer_packet = record request_packet {
  lvm = 36;
  stratum = 1;
  precision = negsuc 31;
  root_dispersion = record { seconds = 0; fraction = 10 };
  reference_id = server_ref_id;
  reference_time = record { seconds = 3908988800; fraction = 0 };
  receive_time = record { seconds = 3908988800; fraction = 0 };
  transmit_time = record { seconds = 3908988800; fraction = 0 };
}

-- The store after the first request of the client 7.
abbrev one_client : Store
one_client =
    add_item empty_store 7
      (first_item (time64_from_time server_time) (time64_from_time server_time))

first_request_store_test :
    handle_request empty_store 7 request_packet request_packet server_time server_time
    ≡ some (server_time, server_time, answer_packet, one_client)
unfolding handle_request serve_unknown evict add_item reply record_times set_version set_mode
    time64_from_time time64_eq bits nanosecond ◌-ℤ◌ floor_mod unix floor_div push append up
first_request_store_test = refl

one_client-Reachable : Reachable one_client
one_client-Reachable = next empty_store one_client started (
    request empty_store 7 request_packet request_packet server_time server_time server_time
      server_time answer_packet one_client (omega arith) first_request_store_test)

Reachable-IsStore_example : IsStore (update_tx one_client 7 server_time server_time).1
Reachable-IsStore_example = Reachable-IsStore (update_tx one_client 7 server_time server_time).1 (
    next one_client (update_tx one_client 7 server_time server_time).1 one_client-Reachable
      (sent one_client 7 server_time server_time))
