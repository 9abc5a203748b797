-- ===== src/Tests/Gauges.antt =====
-- The gauge at a concrete stream.
use downloadmgr.Prelude.{◌≡◌, ◌<◌, refl, List, [], ◌∷◌, some, ℤ, pos, take, ◌-ℤ◌}
use downloadmgr.Gauge.{Sma, new_sma, bps, watch, newest, oldest}
use downloadmgr.Gauge.Window.{newest_first, window_rate, bps-watch, watch_within}

-- Four samples in a gauge of three.
abbrev later : List (ℤ × ℤ)
later = (pos 1, pos 10) ∷ (pos 2, pos 30) ∷ (pos 3, pos 70) ∷ []

abbrev small : Sma
small = record {
  index = 0;
  max_samples = 3;
  sample_count = 0;
  samples = λ i. pos 0;
  timestamps = λ i. pos 0;
}

-- A rate that keeps the two differences.
abbrev differences : ℤ → ℤ → ℤ × ℤ
differences bytes seconds = (bytes, seconds)

small_made : new_sma 3 ≡ some small
unfolding new_sma
small_made = refl

speed : bps (pos 0, pos 0) differences (watch small (pos 0, pos 0) later) ≡ (pos 60, pos 2)
unfolding bps watch ◌-ℤ◌
speed = refl

bps-watch_example :
    bps (pos 0, pos 0) differences (watch small (pos 0, pos 0) later)
    ≡ window_rate (pos 0, pos 0) differences (take 3 (newest_first [] ((pos 0, pos 0) ∷ later)))
bps-watch_example = bps-watch (pos 0, pos 0) differences 3 small (pos 0, pos 0) later small_made

watch_within_example :
    let after = watch small (pos 0, pos 0) later in
    (after.index < 3) × (newest after < 3) × (oldest after < 3)
watch_within_example = watch_within 3 small (pos 0, pos 0) later small_made
