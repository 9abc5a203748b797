-- ===== src/Channel/Order.antt =====
-- pushTaskToIdleList of channel.go against a plain stable insertion: the order of an idle list.
use downloadmgr.Prelude.{
  ℕ, zero, suc, ◌≤◌, ◌<◌, ◌≡◌, refl, List, [], ◌∷◌, arith, leb, ◌==◌, if◌then◌else◌, length,
  get_elem?, insert_at, remove_at, count, count-insert_at, one_if, ◌+◌, ◌∙◌, ◌≢◌,
}
use downloadmgr.ArrayList.{ArrayList}
use downloadmgr.Channel.{DownloadChannel, starts_by, scan_back, push_task_to_idle_list}

module _ (start : ℕ → ℕ) where
  -- No task of the list may start before `b`.
  abbrev pub IsBound : ℕ → List ℕ → Type 0
  IsBound b [] = Unit {0}
  IsBound b (x ∷ xs) = (b ≤ start x) × IsBound b xs

  abbrev pub IsSorted : List ℕ → Type 0
  IsSorted [] = Unit {0}
  IsSorted (x ∷ xs) = IsBound (start x) xs × IsSorted xs

  -- Behind every task that starts no later, before the first that starts later.
  abbrev pub insert_stable : ℕ → List ℕ → List ℕ
  insert_stable r [] = r ∷ []
  insert_stable r (x ∷ xs) = if leb (start x) (start r) then x ∷ insert_stable r xs else r ∷ x ∷ xs

  -- `scan_back` over the values of the list.
  scan_list : ℕ → List ℕ → ℕ → ℕ
  scan_list t xs zero = 0
  scan_list t xs (suc k) =
      let rest = scan_list t xs k in if starts_by start t (get_elem? xs k) then suc k else rest

  scan_list-le : (t : ℕ) (xs : List ℕ) (k : ℕ) → scan_list t xs k ≤ k
  unfolding scan_list
  scan_list-le t xs zero = omega arith
  scan_list-le t xs (suc k) = ground (arith, scan_list-le t xs k)

  scan_list-cons :
      (t x : ℕ) (xs : List ℕ) (k : ℕ)
      → scan_list t (x ∷ xs) (suc k) ≡ (
          if scan_list t xs k == 0
          then (if leb (start x) t then 1 else 0)
          else suc (scan_list t xs k))
  unfolding scan_list
  scan_list-cons t x xs zero = refl
  scan_list-cons t x xs (suc k) = ground (arith, scan_list-cons t x xs k)

  scan_list-bound : (t b : ℕ) (xs : List ℕ) (k : ℕ) → IsBound b xs → t < b → scan_list t xs k ≡ 0
  unfolding scan_list
  scan_list-bound t b xs zero h lt = refl
  scan_list-bound t b [] (suc k) h lt = scan_list-bound t b [] k h lt
  scan_list-bound t b (x ∷ xs) (suc k) h lt =
      ground (arith, scan_list-cons t x xs k, scan_list-bound t b xs k h.1 lt)

  insert_at-scan_list :
      (r : ℕ) (xs : List ℕ)
      → IsSorted xs
      → insert_at (scan_list (start r) xs (length xs)) r xs ≡ insert_stable r xs
  unfolding scan_list
  insert_at-scan_list r [] h = refl
  insert_at-scan_list r (x ∷ xs) h = ground (
    arith,
    scan_list-cons (start r) x xs (length xs),
    scan_list-bound (start r) (start x) xs (length xs) h.0,
    insert_at-scan_list r xs h.1,
  )

  IsBound-insert_stable :
      (b r : ℕ) (xs : List ℕ) → IsBound b xs → b ≤ start r → IsBound b (insert_stable r xs)
  IsBound-insert_stable b r [] h le = (le, tt)
  IsBound-insert_stable b r (x ∷ xs) h le = ground (arith, IsBound-insert_stable b r xs h.1 le)

  IsBound-mono : (a b : ℕ) (xs : List ℕ) → a ≤ b → IsBound b xs → IsBound a xs
  IsBound-mono a b [] le h = tt
  IsBound-mono a b (x ∷ xs) le h = (omega arith, IsBound-mono a b xs le h.1)

  pub IsSorted-insert_stable : (r : ℕ) (xs : List ℕ) → IsSorted xs → IsSorted (insert_stable r xs)
  IsSorted-insert_stable r [] h = (tt, tt)
  IsSorted-insert_stable r (x ∷ xs) h = ground (
    arith,
    IsSorted-insert_stable r xs h.1,
    IsBound-insert_stable (start x) r xs h.0,
    IsBound-mono (start r) (start x) xs,
  )

  -- An index that starts no task stays so behind a removal.
  IsBound-remove_at : (b i : ℕ) (xs : List ℕ) → IsBound b xs → IsBound b (remove_at i xs)
  IsBound-remove_at b i [] h = tt
  IsBound-remove_at b zero (x ∷ xs) h = h.1
  IsBound-remove_at b (suc i) (x ∷ xs) h = (h.0, IsBound-remove_at b i xs h.1)

  pub IsSorted-remove_at : (i : ℕ) (xs : List ℕ) → IsSorted xs → IsSorted (remove_at i xs)
  IsSorted-remove_at i [] h = tt
  IsSorted-remove_at zero (x ∷ xs) h = h.1
  IsSorted-remove_at (suc i) (x ∷ xs) h =
      (IsBound-remove_at (start x) i xs h.0, IsSorted-remove_at i xs h.1)

-- Sortedness reads the start times of the listed tasks only.
pub IsBound-congr :
    (s t : ℕ → ℕ) (b r : ℕ) (xs : List ℕ)
    → ((q : ℕ) → r ≢ q → s q ≡ t q)
    → count r xs ≡ 0
    → IsBound s b xs
    → IsBound t b xs
IsBound-congr s t b r [] same out h = tt
IsBound-congr s t b r (x ∷ xs) same out h = ground (arith, same x, IsBound-congr s t b r xs same)

pub IsSorted-congr :
    (s t : ℕ → ℕ) (r : ℕ) (xs : List ℕ)
    → ((q : ℕ) → r ≢ q → s q ≡ t q)
    → count r xs ≡ 0
    → IsSorted s xs
    → IsSorted t xs
IsSorted-congr s t r [] same out h = tt
IsSorted-congr s t r (x ∷ xs) same out h =
    ground (arith, same x, IsBound-congr s t (s x) r xs same, IsSorted-congr s t r xs same)

module _ {L : Type 0} ⦃al : ArrayList L⦄ (start : ℕ → ℕ) where
  scan_back-values :
      (t : ℕ) (c : L) (k : ℕ) → scan_back start t c k ≡ scan_list start t (al.values c) k
  unfolding scan_back scan_list
  scan_back-values t c zero = refl
  scan_back-values t c (suc k) = rw (al.get-values k c, scan_back-values t c k)

  push_values :
      (r : ℕ) (dc : DownloadChannel L)
      → al.values (push_task_to_idle_list start r dc).idle_list
        ≡ insert_at
            (scan_list start (start r) (al.values dc.idle_list) (length (al.values dc.idle_list)))
            r
            (al.values dc.idle_list)
  unfolding push_task_to_idle_list
  push_values r dc =
      rw
        (
          scan_back-values (start r) dc.idle_list (al.size dc.idle_list),
          al.size-values dc.idle_list,
        )
        (al.values-insert _ r dc.idle_list
          (scan_list-le start (start r) (al.values dc.idle_list) (length (al.values dc.idle_list))))

  -- On an idle list that is sorted by allowed start time, pushTaskToIdleList is the stable
  -- insertion: the new task stands behind every task that may start no later than it and before
  -- every task that may start later, and the list stays sorted.
  pub push-insert_stable :
      (r : ℕ) (dc : DownloadChannel L)
      → IsSorted start (al.values dc.idle_list)
      → let after = al.values (push_task_to_idle_list start r dc).idle_list in
        (after ≡ insert_stable start r (al.values dc.idle_list)) × IsSorted start after
  push-insert_stable r dc h =
      let e = push_values r dc ∙ insert_at-scan_list start r (al.values dc.idle_list) h in
      (e, rw e (IsSorted-insert_stable start r (al.values dc.idle_list) h))

  -- Sorted or not, a push adds the one task and keeps every other.
  pub count-push :
      (a r : ℕ) (dc : DownloadChannel L)
      → count a (al.values (push_task_to_idle_list start r dc).idle_list)
        ≡ one_if r a + count a (al.values dc.idle_list)
  count-push a r dc = rw (push_values r dc) (
      count-insert_at a r _ (al.values dc.idle_list)
        (scan_list-le start (start r) (al.values dc.idle_list) (length (al.values dc.idle_list))))
