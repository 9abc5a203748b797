-- ===== src/Gauge/Window.antt =====
-- BPS of grab/bps/sma.go against the list of the last samples.
use downloadmgr.Prelude.{
  ℕ, zero, suc, ◌-◌, ◌≡◌, ◌≤◌, ◌<◌, refl, arith, List, [], ◌∷◌, some, ltb, leb, if◌then◌else◌, ℤ,
  ◌-ℤ◌, length, get_elem?, take, ap, false, true,
}
use downloadmgr.Gauge.{Sma, new_sma, sample, bps, watch, oldest, newest}
use downloadmgr.Gauge.Ring.{Holds, new_sma-Holds, sample-Holds, newest-slot, oldest-slot}

-- The samples of `ps` before those of `hist`, the newest first.
abbrev pub newest_first : List (ℤ × ℤ) → List (ℤ × ℤ) → List (ℤ × ℤ)
newest_first hist [] = hist
newest_first hist (p ∷ ps) = newest_first (p ∷ hist) ps

abbrev last_of : ℤ × ℤ → List (ℤ × ℤ) → ℤ × ℤ
last_of p [] = p
last_of p (q ∷ qs) = last_of q qs

-- The rate over a window of samples, the newest first: from the last to the first, or zero if there
-- are not two.
abbrev pub window_rate : {F : Type 0} → F → (ℤ → ℤ → F) → List (ℤ × ℤ) → F
window_rate zero_rate rate [] = zero_rate
window_rate zero_rate rate (p ∷ []) = zero_rate
window_rate zero_rate rate (p ∷ q ∷ qs) =
    let first = last_of q qs in rate (p.1 -ℤ first.1) (p.0 -ℤ first.0)

length-take :
    (k : ℕ) (ps : List (ℤ × ℤ)) → length (take k ps) ≡ (if leb (length ps) k then length ps else k)
length-take zero [] = refl
length-take zero (p ∷ ps) = ground arith
length-take (suc k) [] = ground arith
length-take (suc k) (p ∷ ps) = ground (arith, length-take k ps)

get_elem?-last_of :
    (k : ℕ) (p : ℤ × ℤ) (ps : List (ℤ × ℤ))
    → get_elem? (p ∷ ps) (length (take k ps)) ≡ some (last_of p (take k ps))
get_elem?-last_of zero p ps = refl
get_elem?-last_of (suc k) p [] = refl
get_elem?-last_of (suc k) p (q ∷ ps) = get_elem?-last_of k q ps

bps-window :
    {F : Type 0} (zero_rate : F) (rate : ℤ → ℤ → F) (max : ℕ) (hist : List (ℤ × ℤ)) (c : Sma)
    → 2 ≤ max
    → Holds max hist c
    → bps zero_rate rate c ≡ window_rate zero_rate rate (take max hist)
unfolding bps
bps-window zero_rate rate zero hist c h v = absurd (omega arith)
bps-window zero_rate rate (suc zero) hist c h v = absurd (omega arith)
bps-window zero_rate rate (suc (suc k)) [] c h v =
    let few : ltb c.sample_count 2 ≡ true = ground (arith, v.counted) in rw few refl
bps-window zero_rate rate (suc (suc k)) (p ∷ []) c h v =
    let few : ltb c.sample_count 2 ≡ true = ground (arith, v.counted) in rw few refl
bps-window zero_rate rate (suc (suc k)) (p ∷ q ∷ ps) c h v =
    let many : ltb c.sample_count 2 ≡ false = ground (arith, v.counted) in
    let last : c.sample_count - 1 ≡ suc (length (take k ps)) =
      ground (arith, v.counted, length-take k ps) in
    let new = v.kept 0 p (omega arith) refl in
    let old =
      v.kept (c.sample_count - 1) (last_of q (take k ps)) (ground (arith, v.counted))
        (rw last (get_elem?-last_of k q ps)) in
    rw
      (
        many,
        newest-slot c (ground (arith, v.size)) (ground (arith, v.size, v.within)),
        oldest-slot (suc (suc k)) _ c (omega arith) v (ground (arith, v.counted)),
        ap (λ s. s.0) new,
        ap (λ s. s.1) new,
        ap (λ s. s.0) old,
        ap (λ s. s.1) old,
      )
      refl

enough : (max : ℕ) (c : Sma) → new_sma max ≡ some c → 2 ≤ max
unfolding new_sma
enough max c e = ground arith

watch-Holds :
    (max : ℕ) (hist : List (ℤ × ℤ)) (c : Sma) (start : ℤ × ℤ) (ticks : List (ℤ × ℤ))
    → Holds max hist c
    → Holds max (newest_first hist (start ∷ ticks)) (watch c start ticks)
unfolding watch
watch-Holds max hist c (t, n) [] v = sample-Holds max hist c t n v
watch-Holds max hist c (t, n) (next ∷ ticks) v =
    watch-Holds max ((t, n) ∷ hist) (sample c t n) next ticks (sample-Holds max hist c t n v)

-- After Watch has taken any samples with a new gauge, BPS is the rate over the last maxSamples of
-- them: the newest total less the oldest of these, over the time between the two, or zero if only
-- one sample was taken. The ring buffer never shows a sample that it has overwritten.
pub bps-watch :
    {F : Type 0} (zero_rate : F) (rate : ℤ → ℤ → F) (max : ℕ) (c : Sma) (start : ℤ × ℤ)
    (ticks : List (ℤ × ℤ))
    → new_sma max ≡ some c
    → bps zero_rate rate (watch c start ticks)
      ≡ window_rate zero_rate rate (take max (newest_first [] (start ∷ ticks)))
bps-watch zero_rate rate max c start ticks made =
    bps-window zero_rate rate max (newest_first [] (start ∷ ticks)) (watch c start ticks)
      (enough max c made) (watch-Holds max [] c start ticks (new_sma-Holds max c made))

-- Whatever samples Watch takes with a new gauge, the indices that Sample and BPS use for the two
-- slices are below maxSamples, the length of the slices: none of their accesses panics.
pub watch_within :
    (max : ℕ) (c : Sma) (start : ℤ × ℤ) (ticks : List (ℤ × ℤ))
    → new_sma max ≡ some c
    → let after = watch c start ticks in
      (after.index < max) × (newest after < max) × (oldest after < max)
watch_within max c start ticks made =
    let v = watch-Holds max [] c start ticks (new_sma-Holds max c made) in
    let after = watch c start ticks in
    let e =
      newest-slot after (ground (arith, v.size, v.within)) (ground (arith, v.size, v.within)) in
    (v.within, ground (arith, e, v.size, v.within), ground (arith, v.within))
