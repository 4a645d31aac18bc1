-- ===== src/Client/Ip/Accepts.antt =====
-- What core/client/client_ip.go makes a measurement of.
use scion_time.Base.Run.{Run, ok}
use scion_time.Ntp.Packet.{Packet, decode_packet}
use scion_time.Ntp.Validation.{validate_response_metadata, validate_response_timestamps}
use scion_time.Ntp.Offset.{clock_offset}
use scion_time.Client.Ip.{
  IpClient, Pending, Session, Incoming, packet, Measured, four_times, matches, process_nts,
  remember, FourTimes, filter_calls, filter_offset,
}
use scion_time.Base.{Bool, List, Option, refl, some, true, ℕ, ◌≡◌, ◌<◌, ◌≤◌, none, ◌∷◌}
use scion_time.GoTime.{Time, Duration}

-- The answer in the packet `r` is to the request `q`, authentic in a session, and valid, with times
-- that do not run backwards; and `m` is what it tells.
pub record Accepts (session : Option Session) (c : IpClient) (reference : List ℕ) (q : Pending)
    (stock : List (List ℕ)) (r : Incoming) (m : Measured) (stock' : List (List ℕ)) : Type 0 where
  pub buf : List ℕ
  pub resp : Packet
  pub interleaved : Bool
  pub received : r ≡ packet buf m.timestamp true
  pub decodes : decode_packet buf ≡ some resp
  pub authentic : process_nts session stock buf ≡ ok stock'
  pub matching : matches q resp ≡ some interleaved
  pub metadata : validate_response_metadata resp ≡ scion_time.Ntp.Validation.accepted
  pub times_are : m.times ≡ four_times c q resp m.timestamp interleaved
  pub forwards :
      validate_response_timestamps m.times.0 m.times.1 m.times.2 m.times.3
      ≡ scion_time.Ntp.Validation.accepted
  pub unfiltered : c.filter ≡ none → m.offset ≡ clock_offset m.times.0 m.times.1 m.times.2 m.times.3
  pub filtered :
      (f : List FourTimes → Duration) → c.filter ≡ some f → m.offset ≡ f (m.times ∷ c.filtered)
  pub prev_is : m.client.prev ≡ (remember c reference q resp m.timestamp interleaved).prev
  pub filtered_is : m.client.filtered ≡ filter_calls c m.times

pub filter_offset-none :
    (c : IpClient) (times : FourTimes)
    → c.filter ≡ none
    → filter_offset c times ≡ clock_offset times.0 times.1 times.2 times.3
unfolding filter_offset
filter_offset-none c times h = rw (filter_offset, h) refl

pub filter_offset-some :
    (c : IpClient) (times : FourTimes) (f : List FourTimes → Duration)
    → c.filter ≡ some f
    → filter_offset c times ≡ f (times ∷ c.filtered)
unfolding filter_offset
filter_offset-some c times f h = rw (filter_offset, h) refl

abbrev Evaluates : IpClient → List ℕ → Pending → Packet → Time → Bool → Measured → Type 0
Evaluates c reference q resp t i m =
    (validate_response_metadata resp ≡ scion_time.Ntp.Validation.accepted)
    × (m.timestamp ≡ t)
    × (m.times ≡ four_times c q resp t i)
    × (validate_response_timestamps m.times.0 m.times.1 m.times.2 m.times.3
        ≡ scion_time.Ntp.Validation.accepted)
    × (m.offset ≡ filter_offset c m.times)
    × (m.client ≡ record (remember c reference q resp t i) { filtered = filter_calls c m.times })

-- The reads up to the `i`-th one failed in a way that lets the client try again in time.
abbrev pub Measures :
    Option Session
    → IpClient
    → List ℕ
    → Pending
    → ℕ
    → (ℕ → Incoming × Bool)
    → Measured
    → List (List ℕ)
    → Type 0
Measures session c reference q n reads m stock' =
    (i : ℕ) × (before : List (List ℕ)) × (i ≤ n)
    × ((j : ℕ) → j < i → (reads j).1 ≡ true)
    × Accepts session c reference q before (reads i).0 m stock'
