-- ===== src/Channel/Ready.antt =====
-- The forward loop of popRandomTask in channel.go: it stops behind the tasks that may start.
use downloadmgr.Prelude.{
  ℕ, zero, suc, ◌+◌, ◌%◌, ◌≤◌, ◌<◌, ◌≡◌, refl, true, false, List, [], ◌∷◌, Option, none, some,
  arith, ◌==◌, get_elem?, get_elem?-eq-some_lt, ltb→lt, ltb, inl, inr, Bool-cases,
}
use downloadmgr.ArrayList.{ArrayList}
use downloadmgr.Channel.{starts_by, scan_ready}
use downloadmgr.Channel.Order.{IsBound, IsSorted}

pub starts_by-some :
    (start : ℕ → ℕ) (t : ℕ) (o : Option ℕ)
    → starts_by start t o ≡ true
    → (r : ℕ) × (o ≡ some r) × (start r ≤ t)
starts_by-some start t none h = cc
starts_by-some start t (some r) h = (r, refl, ground arith)

pub IsBound-later :
    (start : ℕ → ℕ) (a b : ℕ) (xs : List ℕ) → a ≤ b → IsBound start b xs → IsBound start a xs
IsBound-later start a b [] le h = tt
IsBound-later start a b (x ∷ xs) le h = (omega arith, IsBound-later start a b xs le h.1)

-- If the first task of a sorted list may not start yet, none may.
pub head_not_ready :
    (start : ℕ → ℕ) (now : ℕ) (xs : List ℕ)
    → IsSorted start xs
    → starts_by start now (get_elem? xs 0) ≡ false
    → IsBound start (suc now) xs
head_not_ready start now [] s h = tt
head_not_ready start now (x ∷ xs) s h =
    let late : suc now ≤ start x = ground arith in
    (late, IsBound-later start (suc now) (start x) xs late s.0)

pub below_ready : (rnd n : ℕ) → (n == 0) ≡ false → rnd % n < n
below_ready rnd n h = ground arith

pub bound_at :
    (start : ℕ → ℕ) (b i : ℕ) (xs : List ℕ) {r : ℕ}
    → IsBound start b xs
    → get_elem? xs i ≡ some r
    → b ≤ start r
bound_at start b i [] h e = cc
bound_at start b zero (x ∷ xs) h e = ground arith
bound_at start b (suc i) (x ∷ xs) h e = bound_at start b i xs h.1 e

-- In a sorted list no task may start behind one that may not.
pub sorted_at :
    (start : ℕ → ℕ) (now i j : ℕ) (xs : List ℕ) {r : ℕ}
    → IsSorted start xs
    → starts_by start now (get_elem? xs i) ≡ false
    → i ≤ j
    → get_elem? xs j ≡ some r
    → now < start r
sorted_at start now i j [] s stop le e = cc
sorted_at start now zero j (x ∷ xs) s stop le e =
    bound_at start (suc now) j (x ∷ xs) (head_not_ready start now (x ∷ xs) s stop) e
sorted_at start now (suc i) zero (x ∷ xs) s stop le e = absurd (omega arith)
sorted_at start now (suc i) (suc j) (x ∷ xs) s stop le e =
    sorted_at start now i j xs s.1 stop (omega arith) e

module _ {L : Type 0} ⦃al : ArrayList L⦄ (start : ℕ → ℕ) where
  pub scan_ready_before :
      (now : ℕ) (c : L) (i n j : ℕ)
      → i ≤ j
      → j < scan_ready start now c i n
      → starts_by start now (al.get j c) ≡ true
  unfolding scan_ready
  scan_ready_before now c i zero j le lt = absurd (omega arith)
  scan_ready_before now c i (suc n) j le lt = elim (Bool-cases (i == j)) [
    | inl same ↦
        let e : i ≡ j = ground arith in
        elim (Bool-cases (starts_by start now (al.get j c))) [
          | inl h ↦ h
          | inr h ↦ absurd (ground (arith, h, e))
        ]
    | inr other ↦ ground (arith, scan_ready_before now c (suc i) n j)
  ]

  pub scan_ready-le : (now : ℕ) (c : L) (i n : ℕ) → scan_ready start now c i n ≤ i + n
  unfolding scan_ready
  scan_ready-le now c i zero = omega arith
  scan_ready-le now c i (suc n) = ground (arith, scan_ready-le now c (suc i) n)

  pub scan_ready_zero :
      (now : ℕ) (c : L) (n : ℕ)
      → scan_ready start now c 0 (suc n) ≡ 0
      → starts_by start now (al.get 0 c) ≡ false
  unfolding scan_ready
  scan_ready_zero now c n h = ground (arith, scan_ready-ge now c (suc 0) n)
    where
      scan_ready-ge : (now : ℕ) (c : L) (i n : ℕ) → i ≤ scan_ready start now c i n
      scan_ready-ge now c i zero = omega arith
      scan_ready-ge now c i (suc n) = ground (arith, scan_ready-ge now c (suc i) n)

  -- The task at a chosen index below `ready` is one that may start.
  pub ready_at :
      (now k : ℕ) (c : L)
      → k < scan_ready start now c 0 (al.size c)
      → (r : ℕ) × (al.get k c ≡ some r) × (start r ≤ now)
  ready_at now k c lt =
      starts_by-some start now (al.get k c)
        (scan_ready_before now c 0 (al.size c) k (omega arith) lt)

  pub scan_ready_end :
      (now : ℕ) (c : L) (i n : ℕ)
      → scan_ready start now c i n < i + n
      → starts_by start now (al.get (scan_ready start now c i n) c) ≡ false
  unfolding scan_ready
  scan_ready_end now c i zero h = absurd (omega arith)
  scan_ready_end now c i (suc n) h = elim (Bool-cases (starts_by start now (al.get i c))) [
    | inl go ↦ rw go (scan_ready_end now c (suc i) n (ground (arith, go)))
    | inr stop ↦ rw stop stop
  ]

  -- Every task that may start lies before the end of the forward loop.
  pub below_scan_ready :
      (now i : ℕ) (c : L) {r : ℕ}
      → IsSorted start (al.values c)
      → get_elem? (al.values c) i ≡ some r
      → start r ≤ now
      → i < scan_ready start now c 0 (al.size c)
  below_scan_ready now i c s e early =
      elim (Bool-cases (ltb i (scan_ready start now c 0 (al.size c)))) [
        | inl before ↦ ltb→lt _ _ before
        | inr behind ↦
            let inside = get_elem?-eq-some_lt (al.values c) i e in
            let stop = rw (al.get-values (scan_ready start now c 0 (al.size c)) c) at (
              scan_ready_end now c 0 (al.size c)
                (ground (arith, al.size-values c, inside, behind))) in
            let late = sorted_at start now _ i (al.values c) s stop (ground arith) e in
            absurd (omega arith)
      ]
