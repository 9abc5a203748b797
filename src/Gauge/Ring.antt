-- ===== src/Gauge/Ring.antt =====
-- Sample of grab/bps/sma.go: where the ring buffer keeps the samples of a stream.
use native.Mathlib.Nat.{mod-eq_of_lt, mod_self, add-mod_right}
use downloadmgr.Prelude.{
  ℕ, zero, suc, ◌+◌, ◌-◌, ◌%◌, ◌≡◌, ◌<◌, refl, arith, List, [], ◌∷◌, some, ltb, leb, ◌==◌,
  if◌then◌else◌, ℤ, length, get_elem?, Bool-cases, inl, inr, ==_iff, false, true, ◌∙◌, ap,
}
use downloadmgr.Gauge.{Sma, new_sma, sample, oldest, newest}

-- The place of the sample that was taken `i` samples before the newest one.
abbrev pub slot : Sma → ℕ → ℕ
slot c i = if ltb i c.index then c.index - 1 - i else c.index + c.max_samples - 1 - i

-- The gauge after the samples of `hist`, of which the newest stands first.
pub record Holds (max : ℕ) (hist : List (ℤ × ℤ)) (c : Sma) : Type 0 where
  pub size : c.max_samples ≡ max
  pub within : c.index < max
  pub counted : c.sample_count ≡ (if leb (length hist) max then length hist else max)
  pub filling : c.sample_count < max → c.index ≡ c.sample_count
  pub kept :
      (i : ℕ) (p : ℤ × ℤ)
      → i < max
      → get_elem? hist i ≡ some p
      → (c.timestamps (slot c i), c.samples (slot c i)) ≡ p

pub new_sma-Holds : (max : ℕ) (c : Sma) → new_sma max ≡ some c → Holds max [] c
unfolding new_sma
new_sma-Holds max c e = record {
  size = ground arith;
  within = ground arith;
  counted = ground arith;
  filling = ground arith;
  kept = λ i p h g. absurd (cc);
}

next_index : (i m : ℕ) → i < m → (i + 1) % m ≡ (if i + 1 == m then 0 else i + 1)
next_index i m h = elim (Bool-cases (i + 1 == m)) [
  | inl e ↦ rw e (ap (λ k. k % m) ((==_iff (i + 1) m).0 e) ∙ mod_self m)
  | inr e ↦ rw e (mod-eq_of_lt (ground arith))
]

shift : (i m : ℕ) → 0 < i → i + m - 1 ≡ (i - 1) + m
shift i m h = omega arith

pub newest-slot : (c : Sma) → 0 < c.max_samples → c.index < c.max_samples → newest c ≡ slot c 0
newest-slot c h within = elim (Bool-cases (c.index == 0)) [
  | inl e ↦ ground (
    arith,
    mod-eq_of_lt {n = c.max_samples - 1} {m = c.max_samples} (omega arith),
    ap (λ k. (k + c.max_samples - 1) % c.max_samples) ((==_iff c.index 0).0 e),
  )
  | inr e ↦ ground (
    arith,
    add-mod_right (c.index - 1) c.max_samples,
    mod-eq_of_lt {n = c.index - 1} {m = c.max_samples} (omega arith),
    ap (λ k. k % c.max_samples) (shift c.index c.max_samples (ground arith)),
  )
]

pub oldest-slot :
    (max : ℕ) (hist : List (ℤ × ℤ)) (c : Sma)
    → 0 < max
    → Holds max hist c
    → 0 < c.sample_count
    → oldest c ≡ slot c (c.sample_count - 1)
oldest-slot max hist c h v = ground (arith, v.size, v.within, v.counted, v.filling)

module _ (max : ℕ) (hist : List (ℤ × ℤ)) (c : Sma) (t n : ℤ) (v : Holds max hist c) where
  next : (c.index + 1) % c.max_samples ≡ (if c.index + 1 == c.max_samples then 0 else c.index + 1)
  next = next_index c.index c.max_samples (ground (arith, v.size, v.within))

  slot_new : slot (sample c t n) 0 ≡ c.index
  unfolding sample
  slot_new = ground (arith, v.size, v.within, next)

  slot_old : (i : ℕ) → suc i < max → slot (sample c t n) (suc i) ≡ slot c i
  unfolding sample
  slot_old i h = ground (arith, v.size, v.within, next)

  slot_free : (i : ℕ) → suc i < max → (c.index == slot c i) ≡ false
  slot_free i h = ground (arith, v.size, v.within)

  stamped : (q : ℕ) → (sample c t n).timestamps q ≡ (if c.index == q then t else c.timestamps q)
  unfolding sample
  stamped q = refl

  totalled : (q : ℕ) → (sample c t n).samples q ≡ (if c.index == q then n else c.samples q)
  unfolding sample
  totalled q = refl

  here : (c.index == slot (sample c t n) 0) ≡ true
  here = ground (arith, slot_new)

  kept :
      (i : ℕ) (p : ℤ × ℤ)
      → i < max
      → get_elem? ((t, n) ∷ hist) i ≡ some p
      → (
        (sample c t n).timestamps (slot (sample c t n) i),
        (sample c t n).samples (slot (sample c t n) i),
      )
        ≡ p
  kept zero p h e =
      rw (stamped (slot (sample c t n) 0), totalled (slot (sample c t n) 0), here) (cc)
  kept (suc i) p h e =
      rw (slot_old i h, stamped (slot c i), totalled (slot c i), slot_free i h)
        (v.kept i p (omega arith) e)

pub sample-Holds :
    (max : ℕ) (hist : List (ℤ × ℤ)) (c : Sma) (t n : ℤ)
    → Holds max hist c
    → Holds max ((t, n) ∷ hist) (sample c t n)
unfolding sample
sample-Holds max hist c t n v = record {
  size = v.size;
  within = ground (
    arith,
    v.size,
    v.within,
    next_index c.index c.max_samples (ground (arith, v.size, v.within)),
  );
  counted = ground (arith, v.size, v.counted);
  filling = ground (
    arith,
    v.size,
    v.within,
    v.counted,
    v.filling,
    next_index c.index c.max_samples (ground (arith, v.size, v.within)),
  );
  kept = kept max hist c t n v;
}
