-- ===== src/Csptp/Timing.antt =====
-- net/csptp/csptp.go: C2SDelay, S2CDelay, MeanPathDelay and ClockOffset, and what they measure.
use scion_time.GoTime.{Time, Duration, sub}
use scion_time.Base.{ℕ, ◌+◌, ◌/◌, ◌<◌, ◌^◌, ◌≡◌, arith, refl}
use scion_time.Base.Int.{
  Fits, add64, half_near, int_bounds, int_laws, pos, quot, quot_parts, saturate64_id, sub64,
  wrap64_id, ℤ, ◌+ℤ◌, ◌-ℤ◌, ◌≤ℤ◌, add64-eq, sub64-eq,
}

unfoldable pub c2s_delay : Time → Time → Duration → Duration → Duration
c2s_delay t0 t1 t1_corr utc_corr = sub64 (sub64 (sub t1 t0) t1_corr) utc_corr

unfoldable pub s2c_delay : Time → Time → Duration → Duration → Duration
s2c_delay t2 t3 t3_corr utc_corr = add64 (sub64 (sub t3 t2) t3_corr) utc_corr

unfoldable pub mean_path_delay : Time → Time → Time → Time → Duration → Duration → Duration
mean_path_delay t0 t1 t2 t3 t1_corr t3_corr =
    quot (add64 (sub64 (sub t1 t0) t1_corr) (sub64 (sub t3 t2) t3_corr)) 2

unfoldable pub clock_offset : Time → Time → Time → Time → Duration → Duration → Duration
clock_offset t0 t1 t2 t3 t1_corr t3_corr =
    quot (sub64 (sub64 (sub t1 t0) t1_corr) (sub64 (sub t3 t2) t3_corr)) 2

-- An exchange: the request is sent at `t0` and is under way for `d1` beyond the residence time
-- `c1` that the correction field reports, the server, whose clock is ahead by `θ`, answers at
-- `t2`, and the response is under way for `d2` beyond `c2`.
module _ (t0 t2 θ : ℤ) (d1 c1 d2 c2 : ℕ) where
  abbrev pub received : Time
  received = t0 +ℤ pos d1 +ℤ pos c1 +ℤ θ

  abbrev pub returned : Time
  returned = t2 -ℤ θ +ℤ pos d2 +ℤ pos c2

  module _ (hθ : Fits (2 ^ 60) θ) (h1 : d1 < 2 ^ 60) (k1 : c1 < 2 ^ 60) (h2 : d2 < 2 ^ 60)
      (k2 : c2 < 2 ^ 60) where
    forth : sub64 (sub received t0) (pos c1) ≡ pos d1 +ℤ θ
    unfolding sub sub64
    forth =
        let e : received -ℤ t0 ≡ pos d1 +ℤ pos c1 +ℤ θ = omega int_laws in
        let e' : pos d1 +ℤ pos c1 +ℤ θ -ℤ pos c1 ≡ pos d1 +ℤ θ = omega int_laws in
        rw (e, saturate64_id (pos d1 +ℤ pos c1 +ℤ θ) (omega int_bounds), e')
          (wrap64_id _ (omega int_bounds))

    back : sub64 (sub returned t2) (pos c2) ≡ pos d2 -ℤ θ
    unfolding sub sub64
    back =
        let e : returned -ℤ t2 ≡ pos d2 +ℤ pos c2 -ℤ θ = omega int_laws in
        let e' : pos d2 +ℤ pos c2 -ℤ θ -ℤ pos c2 ≡ pos d2 -ℤ θ = omega int_laws in
        rw (e, saturate64_id (pos d2 +ℤ pos c2 -ℤ θ) (omega int_bounds), e')
          (wrap64_id _ (omega int_bounds))

    -- With all durations below 2^60 ns, MeanPathDelay is the mean of the two delays and
    -- ClockOffset is off the true offset by at most half of their sum, both rounded: the reported
    -- residence times cancel.
    pub mean_path_delay-clock_offset :
        (mean_path_delay t0 received t2 returned (pos c1) (pos c2) ≡ pos ((d1 + d2) / 2))
        × (clock_offset t0 received t2 returned (pos c1) (pos c2) ≤ℤ θ +ℤ pos ((d1 + d2 + 1) / 2))
        × (θ ≤ℤ clock_offset t0 received t2 returned (pos c1) (pos c2) +ℤ pos ((d1 + d2 + 1) / 2))
    unfolding mean_path_delay clock_offset
    mean_path_delay-clock_offset =
        let x = pos d1 +ℤ θ -ℤ (pos d2 -ℤ θ) in
        let near = half_near x θ (d1 + d2) (omega int_laws) (omega int_laws) in
        let total =
          add64-eq (pos d1 +ℤ θ) (pos d2 -ℤ θ) (pos (d1 + d2)) (omega int_laws) (omega arith) in
        let apart = sub64-eq (pos d1 +ℤ θ) (pos d2 -ℤ θ) x refl (omega int_bounds) in
        (
          rw (forth, back, total) (omega (int_laws, quot_parts (pos (d1 + d2)) 2)),
          rw (forth, back, apart) near.0,
          rw (forth, back, apart) near.1,
        )

    -- With all durations below 2^60 ns and the offset as the UTC correction, C2SDelay and S2CDelay
    -- are the two delays.
    pub c2s_delay-s2c_delay :
        (c2s_delay t0 received (pos c1) θ ≡ pos d1) × (s2c_delay t2 returned (pos c2) θ ≡ pos d2)
    unfolding c2s_delay s2c_delay
    c2s_delay-s2c_delay = (
      rw forth (sub64-eq (pos d1 +ℤ θ) θ (pos d1) (omega int_laws) (omega arith)),
      rw back (add64-eq (pos d2 -ℤ θ) θ (pos d2) (omega int_laws) (omega arith)),
    )
