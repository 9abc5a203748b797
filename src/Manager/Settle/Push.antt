-- ===== src/Manager/Settle/Push.antt =====
-- pushTaskToIdleList of channel.go keeps the manager safe and moves a worker's task to one idle list.
use mathlib.Core.Path.{fun_ext}
use downloadmgr.Prelude.{
  ℕ, ◌+◌, ◌≤◌, ◌<◌, ◌≡◌, ◌⊎◌, inl, inr, refl, subst, Bool, sym, true, false, some, count, one_if,
  Bool-cases, arith, if◌then◌else◌,
}
use downloadmgr.ArrayList.{ArrayList}
use downloadmgr.Task.{
  ChannelName, pre_handle_channel, quick_channel, random_channel, unpause_fast_channel,
  unpause_slow_channel,
}
use downloadmgr.Channel.{DownloadChannel, push_task_to_idle_list}
use downloadmgr.Channel.Order.{IsSorted, push-insert_stable, count-push}
use downloadmgr.Manager.{DownloadMgr, write_task, start_times, name_eq, push_task}
use downloadmgr.Manager.Places.{
  panics, idle, idle_count, retry_limit, HasLimits, BelongsTo, IsSafe, Settles,
}
use downloadmgr.Manager.Settle.Ends.{count-out}

pub name_eq→eq : (n m : ChannelName) → name_eq n m ≡ true → n ≡ m
name_eq→eq n m h = ground arith

module _ {L : Type 0} ⦃al : ArrayList L⦄ where
  -- A push into one list adds the one task to it.
  pub idle_count-push :
      (dm : DownloadMgr L) (n : ChannelName) (x r : ℕ)
      → idle_count r (push_task dm n x) ≡ idle_count r dm + one_if x r
  unfolding push_task
  idle_count-push dm pre_handle_channel x r =
      omega (arith, count-push _ r x (dm.channel pre_handle_channel))
  idle_count-push dm quick_channel x r = omega (arith, count-push _ r x (dm.channel quick_channel))
  idle_count-push dm random_channel x r =
      omega (arith, count-push _ r x (dm.channel random_channel))
  idle_count-push dm unpause_fast_channel x r =
      omega (arith, count-push _ r x (dm.channel unpause_fast_channel))
  idle_count-push dm unpause_slow_channel x r =
      omega (arith, count-push _ r x (dm.channel unpause_slow_channel))

  IsSorted-if :
      (start : ℕ → ℕ) (b : Bool) (dc dd : DownloadChannel L)
      → IsSorted start (al.values dc.idle_list)
      → IsSorted start (al.values dd.idle_list)
      → IsSorted start (al.values (if b then dc else dd).idle_list)
  IsSorted-if start true dc dd h k = h
  IsSorted-if start false dc dd h k = k

  push_task-IsSorted :
      (dm : DownloadMgr L) (n : ChannelName) (x : ℕ)
      → ((m : ChannelName) → IsSorted (start_times dm) (idle dm m))
      → (m : ChannelName) → IsSorted (start_times (push_task dm n x)) (idle (push_task dm n x) m)
  unfolding push_task
  push_task-IsSorted dm n x s m =
      let written = write_task dm x (record (dm.tasks x) { channel = some n }) in
      let same : start_times dm ≡ start_times written = fun_ext λ r. ground arith in
      let kept = λ (k : ChannelName). subst (λ f. IsSorted f (idle dm k)) same (s k) in
      IsSorted-if (start_times written) (name_eq n m) _ (dm.channel m)
        (push-insert_stable (start_times written) x (dm.channel n) (kept n)).1 (kept m)

  count_if :
      (start : ℕ → ℕ) (b : Bool) (x r : ℕ) (dc dd : DownloadChannel L)
      → 0 < count r (al.values (if b then push_task_to_idle_list start x dc else dd).idle_list)
      → ((b ≡ true) × ((0 < count r (al.values dc.idle_list)) ⊎ (r ≡ x)))
        ⊎ (0 < count r (al.values dd.idle_list))
  count_if start true x r dc dd h = ground (arith, count-push start r x dc)
  count_if start false x r dc dd h = inr h

  -- The list of channel `m` holds `r` after a push of `x` into `n` if it did before, or if `r` is
  -- `x` and `m` is `n`.
  count-push_task :
      (dm : DownloadMgr L) (n m : ChannelName) (x r : ℕ)
      → 0 < count r (idle (push_task dm n x) m)
      → (0 < count r (idle dm m)) ⊎ ((r ≡ x) × (m ≡ n))
  unfolding push_task
  count-push_task dm n m x r h =
      elim (count_if _ (name_eq n m) x r (dm.channel n) (dm.channel m) h) [
        | inl (e, inl before) ↦ inl (subst (λ k. 0 < count r (idle dm k)) (name_eq→eq n m e) before)
        | inl (e, inr new) ↦ inr (new, sym (name_eq→eq n m e))
        | inr before ↦ inl before
      ]

  push_task-listed :
      (dm : DownloadMgr L) (n m : ChannelName) (x r : ℕ)
      → idle_count x dm ≡ 0
      → (dm.tasks x).fail_times ≤ retry_limit n
      → IsSafe dm
      → (0 < count r (idle dm m)) ⊎ ((r ≡ x) × (m ≡ n))
      → BelongsTo m ((push_task dm n x).tasks r)
  unfolding push_task
  push_task-listed dm n m x r out few s (inl h) =
      ground (arith, count-out dm m x out, s.listed m r h)
  push_task-listed dm n m x r out few s (inr (e, k)) = ground arith

  push_task-limits :
      (dm : DownloadMgr L) (n m : ChannelName) (x : ℕ)
      → HasLimits n (dm.channel n)
      → HasLimits m (dm.channel m)
      → HasLimits m ((push_task dm n x).channel m)
  unfolding push_task push_task_to_idle_list
  push_task-limits dm n m x h k = elim (Bool-cases (name_eq n m)) [
    | inl e ↦ rw (e, ← name_eq→eq n m e) h
    | inr e ↦ rw e k
  ]

  push_task-calm :
      (dm : DownloadMgr L) (n : ChannelName) (x : ℕ)
      → panics dm.calls ≡ 0
      → panics (push_task dm n x).calls ≡ 0
  unfolding push_task
  push_task-calm dm n x h = h

  push_task-IsSafe :
      (dm : DownloadMgr L) (n : ChannelName) (x : ℕ)
      → idle_count x dm ≡ 0
      → (dm.tasks x).fail_times ≤ retry_limit n
      → IsSafe dm
      → IsSafe (push_task dm n x)
  push_task-IsSafe dm n x out few s = record {
    sorted = push_task-IsSorted dm n x s.sorted;
    listed = λ m r h. push_task-listed dm n m x r out few s (count-push_task dm n m x r h);
    limits = λ m. push_task-limits dm n m x (s.limits n) (s.limits m);
    calm = push_task-calm dm n x s.calm;
  }

  -- A push of a task that is in no list puts it into one list and changes no other task.
  pub push_task-Settles :
      (dm : DownloadMgr L) (n : ChannelName) (x : ℕ)
      → idle_count x dm ≡ 0
      → (dm.tasks x).fail_times ≤ retry_limit n
      → IsSafe dm
      → Settles dm x (push_task dm n x)
  unfolding push_task
  push_task-Settles dm n x out few s = record {
    safe = push_task-IsSafe dm n x out few s;
    moves = record {
      total = λ r. omega (arith, idle_count-push dm n x r);
      others = λ q h. ground arith;
      same_id = ground arith;
      same_flag = ground arith;
      same_next = refl;
      same_current = refl;
      elsewhere = λ r h. ground (arith, idle_count-push dm n x r);
      lost_elsewhere = λ r h. refl;
      mapped = inl (ground (arith, idle_count-push dm n x x), refl, refl);
    };
  }
