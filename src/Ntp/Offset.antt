-- ===== src/Ntp/Offset.antt =====
-- net/ntp/ntp.go: ClockOffset and RoundTripDelay, and what they measure.
use scion_time.Base.{arith, ℕ, ◌+◌, ◌/◌, ◌<◌, ◌^◌, ◌≡◌, ◌∙◌}
use scion_time.Base.Int.{
  Fits, add64, int_laws, pos, quot, saturate64_id, sub64, wrap64_id, ℤ, ◌+ℤ◌, ◌-ℤ◌, ◌≤ℤ◌,
  int_bounds, wrap64, half_double, half_near,
}
use scion_time.GoTime.{Duration, Time, sub}

unfoldable pub clock_offset : Time → Time → Time → Time → Duration
clock_offset t0 t1 t2 t3 = quot (add64 (sub t1 t0) (sub t2 t3)) 2

unfoldable pub round_trip_delay : Time → Time → Time → Time → Duration
round_trip_delay t0 t1 t2 t3 = sub64 (sub t3 t0) (sub t2 t1)

-- An exchange: the client sends at `t0`, the request is under way for `d1`, the server, whose clock
-- is ahead by `θ`, takes the time `p`, and the response is under way for `d2`. All four times are
-- as read from the clock at hand.
module _ (t0 θ : ℤ) (d1 p d2 : ℕ) where
  abbrev pub received : Time
  received = t0 +ℤ pos d1 +ℤ θ

  abbrev pub answered : Time
  answered = received +ℤ pos p

  abbrev pub returned : Time
  returned = answered -ℤ θ +ℤ pos d2

  module _ (hθ : Fits (2 ^ 60) θ) (h1 : d1 < 2 ^ 60) (hp : p < 2 ^ 60) (h2 : d2 < 2 ^ 60) where
    forth : sub received t0 ≡ pos d1 +ℤ θ
    unfolding sub
    forth =
        rw (let e : received -ℤ t0 ≡ pos d1 +ℤ θ = omega int_laws in e)
          (saturate64_id _ (omega int_bounds))

    back : sub answered returned ≡ θ -ℤ pos d2
    unfolding sub
    back =
        rw (let e : answered -ℤ returned ≡ θ -ℤ pos d2 = omega int_laws in e)
          (saturate64_id _ (omega int_bounds))

    trip : sub returned t0 ≡ pos (d1 + p + d2)
    unfolding sub
    trip =
        rw (let e : returned -ℤ t0 ≡ pos (d1 + p + d2) = omega int_laws in e)
          (saturate64_id _ (omega arith))

    stay : sub answered received ≡ pos p
    unfolding sub
    stay =
        rw (let e : answered -ℤ received ≡ pos p = omega int_laws in e)
          (saturate64_id _ (omega arith))

    sum_of_ways : add64 (sub received t0) (sub answered returned) ≡ pos d1 +ℤ θ +ℤ (θ -ℤ pos d2)
    unfolding add64
    sum_of_ways = rw (forth, back) (wrap64_id _ (omega int_bounds))

    -- With all durations below 2^60 ns, RoundTripDelay is the time that both packets were under
    -- way, and ClockOffset is off the true offset by at most half of it, rounded up.
    pub clock_offset_error :
        (round_trip_delay t0 received answered returned ≡ pos (d1 + d2))
        × (clock_offset t0 received answered returned ≤ℤ θ +ℤ pos ((d1 + d2 + 1) / 2))
        × (θ ≤ℤ clock_offset t0 received answered returned +ℤ pos ((d1 + d2 + 1) / 2))
    unfolding clock_offset round_trip_delay
    clock_offset_error =
        let wide : Fits (2 ^ 63) (pos (d1 + p + d2) -ℤ pos p) = omega int_bounds in
        let rtd : wrap64 (pos (d1 + p + d2) -ℤ pos p) ≡ pos (d1 + d2) =
          wrap64_id _ wide ∙ omega int_laws in
        let near =
          half_near (pos d1 +ℤ θ +ℤ (θ -ℤ pos d2)) θ (d1 + d2) (omega int_laws) (omega int_laws) in
        (rw (trip, stay) (unfold sub64 in rtd), rw sum_of_ways near.0, rw sum_of_ways near.1)

-- Where both ways take the same time `d`, ClockOffset is the true offset.
pub clock_offset_symmetric :
    (t0 θ : ℤ) (d p : ℕ)
    → Fits (2 ^ 60) θ
    → d < 2 ^ 60
    → p < 2 ^ 60
    → clock_offset t0 (received t0 θ d p d) (answered t0 θ d p d) (returned t0 θ d p d) ≡ θ
unfolding clock_offset
clock_offset_symmetric t0 θ d p hθ hd hp =
    let both : pos d +ℤ θ +ℤ (θ -ℤ pos d) ≡ θ +ℤ θ = omega int_laws in
    rw (sum_of_ways t0 θ d p d hθ hd hp hd, both) (half_double θ)
