-- ===== src/Gauge.antt =====
-- grab/bps/sma.go and grab/bps/bps.go: the ring buffer of samples behind the speed of a transfer.
-- A point of time is a number of nanoseconds. Slices are functions of the index; the theorems show
-- that every index is within maxSamples. The quotient of floats is a parameter.
pub mod Ring
pub mod Window
use downloadmgr.Prelude.{
  ℕ, ◌+◌, ◌-◌, ◌%◌, Bool, List, [], ◌∷◌, Option, none, some, ltb, if◌then◌else◌, update, ℤ, pos,
  ◌-ℤ◌,
}

pub record Sma : Type 0 where
  pub index : ℕ
  pub max_samples : ℕ
  pub sample_count : ℕ
  pub samples : ℕ → ℤ
  pub timestamps : ℕ → ℤ

-- `none` is the panic.
unfoldable pub new_sma : ℕ → Option Sma
new_sma max_samples =
    if ltb max_samples 2
    then none
    else some (record {
      index = 0;
      max_samples = max_samples;
      sample_count = 0;
      samples = λ i. pos 0;
      timestamps = λ i. pos 0;
    })

unfoldable pub sample : Sma → ℤ → ℤ → Sma
sample c t n =
    let more = c.sample_count + 1 in
    record c {
      timestamps = update c.timestamps c.index t;
      samples = update c.samples c.index n;
      index = (c.index + 1) % c.max_samples;
      sample_count = if ltb c.max_samples more then c.max_samples else more;
    }

abbrev pub oldest : Sma → ℕ
oldest c = if ltb c.sample_count c.max_samples then 0 else c.index

abbrev pub newest : Sma → ℕ
newest c = (c.index + c.max_samples - 1) % c.max_samples

-- `rate` takes the bytes and the nanoseconds between two samples, `zero_rate` is the float 0.
unfoldable pub bps : {F : Type 0} → F → (ℤ → ℤ → F) → Sma → F
bps zero_rate rate c =
    if ltb c.sample_count 2
    then zero_rate
    else rate (c.samples (newest c) -ℤ c.samples (oldest c))
        (c.timestamps (newest c) -ℤ c.timestamps (oldest c))

-- Watch: a sample at the start, then one on each tick, each a time and the total at that time.
unfoldable pub watch : Sma → ℤ × ℤ → List (ℤ × ℤ) → Sma
unfolding sample
watch c (t, n) [] = sample c t n
watch c (t, n) (next ∷ ticks) = watch (sample c t n) next ticks
