-- ===== src/Channel/Pop.antt =====
-- popQueueTask and popRandomTask of channel.go: which task leaves an idle list, and when.
use native.Mathlib.Nat.{mod-eq_of_lt}
use downloadmgr.Prelude.{
  ℕ, suc, ◌%◌, ◌≤◌, ◌<◌, ◌≡◌, refl, false, List, [], ◌∷◌, Option, none, some, arith, ◌==◌, length,
  get_elem?, remove_at, ap, get_elem?-eq-some_lt, ◌∙◌, ltb, inl, inr, Bool-cases,
}
use downloadmgr.ArrayList.{ArrayList}
use downloadmgr.Task.{
  ChannelName, pre_handle_channel, quick_channel, random_channel, unpause_fast_channel,
  unpause_slow_channel,
}
use downloadmgr.Channel.{
  DownloadChannel, starts_by, scan_ready, pop_random_task, pop_queue_task, pop_task_form_idle_list,
}
use downloadmgr.Channel.Order.{IsBound, IsSorted}
use downloadmgr.Channel.Ready.{
  head_not_ready, below_ready, scan_ready_zero, ready_at, below_scan_ready,
}

module _ {L : Type 0} ⦃al : ArrayList L⦄ (start : ℕ → ℕ) where
  -- What a pop at time `now` may return for a channel with the list `xs`: nothing, and then no
  -- listed task may start yet, or a listed task that may start, which it removes, and nothing else
  -- changes.
  abbrev pub Pops : ℕ → List ℕ → DownloadChannel L → Option (ℕ × DownloadChannel L) → Type 0
  Pops now xs dc none = IsBound start (suc now) xs
  Pops now xs dc (some (r, after)) =
      (i : ℕ) × (get_elem? xs i ≡ some r)
      × (start r ≤ now)
      × (al.values after.idle_list ≡ remove_at i xs)
      × (after.name ≡ dc.name)
      × (after.downloading_count_limit ≡ dc.downloading_count_limit)
      × (after.retry_times_limit ≡ dc.retry_times_limit)

  -- The list after the removal of index `i`, where its values are known.
  removed :
      (i : ℕ) (c : L) (xs : List ℕ) → al.values c ≡ xs → al.values (al.remove i c) ≡ remove_at i xs
  removed i c xs e = al.values-remove i c ∙ ap (remove_at i) e

  value_at : (i : ℕ) (c : L) (xs : List ℕ) → al.values c ≡ xs → get_elem? xs i ≡ al.get i c
  value_at i c xs e = rw (al.get-values i c, e) refl

  not_empty :
      (dc : DownloadChannel L) (xs : List ℕ)
      → al.values dc.idle_list ≡ xs
      → 0 < length xs
      → (al.size dc.idle_list == 0) ≡ false
  not_empty dc xs e h = ground (arith, al.size-values dc.idle_list, ap length e)

  pop_queue_task-at :
      (now : ℕ) (dc : DownloadChannel L) (xs : List ℕ)
      → al.values dc.idle_list ≡ xs
      → IsSorted start xs
      → Pops now xs dc (pop_queue_task start now dc)
  unfolding pop_queue_task
  pop_queue_task-at now dc [] e s = rw (al.size-values dc.idle_list, e) tt
  pop_queue_task-at now dc (x ∷ xs) e s =
      let gone = removed 0 dc.idle_list (x ∷ xs) e in
      rw (not_empty dc (x ∷ xs) e (omega arith), al.get-values 0 dc.idle_list, e)
        (elim (Bool-cases (ltb now (start x))) [
          | inl late ↦ rw late (head_not_ready start now (x ∷ xs) s (ground arith))
          | inr ready ↦ rw ready (0, refl, ground arith, gone, refl, refl, refl)
        ])

  head_idle :
      (now : ℕ) (dc : DownloadChannel L) (xs : List ℕ)
      → al.values dc.idle_list ≡ xs
      → scan_ready start now dc.idle_list 0 (al.size dc.idle_list) ≡ 0
      → starts_by start now (get_elem? xs 0) ≡ false
  head_idle now dc [] e h = refl
  head_idle now dc (x ∷ xs) e h =
      let size : al.size dc.idle_list ≡ suc (length xs) =
        al.size-values dc.idle_list ∙ ap length e in
      let none_ready = rw size at h in
      let head_value = al.get-values 0 dc.idle_list ∙ ap (λ l. get_elem? l 0) e in
      rw head_value at (scan_ready_zero start now dc.idle_list (length xs) none_ready)

  pop_random_task-at :
      (now rnd : ℕ) (dc : DownloadChannel L) (xs : List ℕ)
      → al.values dc.idle_list ≡ xs
      → IsSorted start xs
      → Pops now xs dc (pop_random_task start now rnd dc)
  unfolding pop_random_task
  pop_random_task-at now rnd dc [] e s = rw (al.size-values dc.idle_list, e) tt
  pop_random_task-at now rnd dc (x ∷ xs) e s =
      let full = not_empty dc (x ∷ xs) e (omega arith) in
      elim (Bool-cases (scan_ready start now dc.idle_list 0 (al.size dc.idle_list) == 0)) [
        | inl idle ↦
            rw (full, idle)
              (head_not_ready start now (x ∷ xs) s (head_idle now dc (x ∷ xs) e (ground arith)))
        | inr some_ready ↦
            let (r, at, early) =
              ready_at start now (rnd % _) dc.idle_list (below_ready rnd _ some_ready) in
            rw (full, some_ready, at)
              (
                _,
                value_at _ dc.idle_list (x ∷ xs) e ∙ at,
                early,
                removed _ dc.idle_list (x ∷ xs) e,
                refl,
                refl,
                refl,
              )
      ]

  -- popTaskFormIdleList of any channel whose idle list is sorted: it returns nothing only when no
  -- listed task may start yet, and otherwise removes from the list one task whose allowed start
  -- time has come and changes nothing else of the channel.
  pub pop-Pops :
      (n : ChannelName) (now rnd : ℕ) (dc : DownloadChannel L)
      → IsSorted start (al.values dc.idle_list)
      → Pops now (al.values dc.idle_list) dc (pop_task_form_idle_list start n now rnd dc)
  unfolding pop_task_form_idle_list
  pop-Pops random_channel now rnd dc s = pop_random_task-at now rnd dc _ refl s
  pop-Pops pre_handle_channel now rnd dc s = pop_queue_task-at now dc _ refl s
  pop-Pops quick_channel now rnd dc s = pop_queue_task-at now dc _ refl s
  pop-Pops unpause_fast_channel now rnd dc s = pop_queue_task-at now dc _ refl s
  pop-Pops unpause_slow_channel now rnd dc s = pop_queue_task-at now dc _ refl s

  -- The random channel treats every task alike that may start: whichever index of a sorted idle
  -- list holds one, some random number makes popRandomTask return that task and remove that index.
  pub pop_random_any :
      (now i : ℕ) (dc : DownloadChannel L) {r : ℕ}
      → IsSorted start (al.values dc.idle_list)
      → get_elem? (al.values dc.idle_list) i ≡ some r
      → start r ≤ now
      → (rnd : ℕ) × (pop_random_task start now rnd dc
          ≡ some (r, record dc { idle_list = al.remove i dc.idle_list }))
  unfolding pop_random_task
  pop_random_any now i dc s e early =
      let before = below_scan_ready start now i dc.idle_list s e early in
      let full =
        not_empty dc _ refl (ground (arith, get_elem?-eq-some_lt (al.values dc.idle_list) i e)) in
      let chosen = mod-eq_of_lt before in
      let some_ready : (scan_ready start now dc.idle_list 0 (al.size dc.idle_list) == 0) ≡ false =
        ground arith in
      (i, rw (full, some_ready, chosen, al.get-values i dc.idle_list, e, chosen) refl)
