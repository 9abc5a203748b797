-- ===== src/Channel.antt =====
-- channel.go: a download channel, its idle list and the operations on that list. Each takes the
-- lock of the list for its whole body, so each is one step. `start` reads a task's allowStartTime
-- from the store of tasks.
pub mod Order
pub mod Ready
pub mod Pop
pub mod Check
use downloadmgr.Prelude.{
  ℕ, zero, suc, ◌+◌, ◌*◌, ◌%◌, Bool, true, false, ◌||◌, Option, none, some, ltb, leb, ◌==◌,
  if◌then◌else◌,
}
use downloadmgr.ArrayList.{ArrayList}
use downloadmgr.Task.{
  ChannelName, pre_handle_channel, quick_channel, random_channel, unpause_fast_channel,
  unpause_slow_channel,
}

abbrev pub pre_handle_channel_count_limit : ℕ
pre_handle_channel_count_limit = 3

abbrev pub quick_channel_count_limit : ℕ
quick_channel_count_limit = 6

abbrev pub random_channel_count_limit : ℕ
random_channel_count_limit = 6

abbrev pub unpause_fast_channel_count_limit : ℕ
unpause_fast_channel_count_limit = 6

abbrev pub unpause_slow_channel_count_limit : ℕ
unpause_slow_channel_count_limit = 6

abbrev pub pre_handle_channel_retry_time : ℕ
pre_handle_channel_retry_time = 1

abbrev pub quick_channel_retry_time : ℕ
quick_channel_retry_time = 1

abbrev pub random_channel_retry_time : ℕ
random_channel_retry_time = 3

abbrev pub unpause_fast_channel_retry_time : ℕ
unpause_fast_channel_retry_time = 1

abbrev pub unpause_slow_channel_retry_time : ℕ
unpause_slow_channel_retry_time = 3

-- The two functions of the struct are closures that the init functions choose by name: see
-- `pop_task_form_idle_list` below and Channel/Check.
pub record DownloadChannel (L : Type 0) : Type 0 where
  pub name : ChannelName
  pub downloading_count_limit : ℕ
  pub retry_times_limit : ℕ
  pub idle_list : L

module _ {L : Type 0} ⦃al : ArrayList L⦄ where
  -- `none` is the error result. The name is set by the callers.
  unfoldable pub init_channel : ChannelName → ℕ → ℕ → Option (DownloadChannel L)
  init_channel name downloading_count_limit retry_times_limit =
      if ltb downloading_count_limit 1 || ltb 15 downloading_count_limit
      then none
      else if ltb 5 retry_times_limit
      then none
      else some (record {
        name = name;
        downloading_count_limit = downloading_count_limit;
        retry_times_limit = retry_times_limit;
        idle_list = al.empty;
      })

  unfoldable pub init_pre_handle_channel : Option (DownloadChannel L)
  unfolding init_channel
  init_pre_handle_channel =
      init_channel pre_handle_channel pre_handle_channel_count_limit pre_handle_channel_retry_time

  unfoldable pub init_quick_channel : Option (DownloadChannel L)
  unfolding init_channel
  init_quick_channel = init_channel quick_channel quick_channel_count_limit quick_channel_retry_time

  unfoldable pub init_random_pause_channel : Option (DownloadChannel L)
  unfolding init_channel
  init_random_pause_channel =
      init_channel random_channel random_channel_count_limit random_channel_retry_time

  unfoldable pub init_unpause_fast_channel : Option (DownloadChannel L)
  unfolding init_channel
  init_unpause_fast_channel =
      init_channel unpause_fast_channel unpause_fast_channel_count_limit
        unpause_fast_channel_retry_time

  unfoldable pub init_unpause_slow_channel : Option (DownloadChannel L)
  unfolding init_channel
  init_unpause_slow_channel =
      init_channel unpause_slow_channel unpause_slow_channel_count_limit
        unpause_slow_channel_retry_time

  unfoldable pub idle_size : DownloadChannel L → ℕ
  idle_size dc = al.size dc.idle_list

-- Whether a listed task, if it is there, may start at `t`.
abbrev pub starts_by : (ℕ → ℕ) → ℕ → Option ℕ → Bool
starts_by start t none = false
starts_by start t (some r) = leb (start r) t

module _ {L : Type 0} ⦃al : ArrayList L⦄ (start : ℕ → ℕ) where
  -- The backward loop of pushTaskToIdleList over the first `k` tasks. The result is insertPos + 1.
  unfoldable pub scan_back : ℕ → L → ℕ → ℕ
  scan_back t c zero = 0
  scan_back t c (suc k) =
      let rest = scan_back t c k in if starts_by start t (al.get k c) then suc k else rest

  unfoldable pub push_task_to_idle_list : ℕ → DownloadChannel L → DownloadChannel L
  push_task_to_idle_list r dc =
      let insert_pos = scan_back (start r) dc.idle_list (al.size dc.idle_list) in
      record dc { idle_list = al.insert insert_pos r dc.idle_list }

  -- The forward loop of popRandomTask from index `i`, for `n` more tasks. The result is
  -- maxIndex + 1.
  unfoldable pub scan_ready : ℕ → L → ℕ → ℕ → ℕ
  scan_ready now c i zero = i
  scan_ready now c i (suc n) =
      let rest = scan_ready now c (suc i) n in if starts_by start now (al.get i c) then rest else i

  -- rand.Intn(n) is `rnd % n`: some number below n, and any of them for some `rnd`.
  unfoldable pub pop_random_task : ℕ → ℕ → DownloadChannel L → Option (ℕ × DownloadChannel L)
  pop_random_task now rnd dc =
      let ready = scan_ready now dc.idle_list 0 (al.size dc.idle_list) in
      if al.size dc.idle_list == 0
      then none
      else if ready == 0
      then none
      else elim (al.get (rnd % ready) dc.idle_list) [
        | none ↦ none
        | some r ↦ some (r, record dc { idle_list = al.remove (rnd % ready) dc.idle_list })
      ]

  unfoldable pub pop_queue_task : ℕ → DownloadChannel L → Option (ℕ × DownloadChannel L)
  pop_queue_task now dc = if al.size dc.idle_list == 0 then none else elim (al.get 0 dc.idle_list) [
    | none ↦ none
    | some r ↦
        if ltb now (start r)
        then none
        else some (r, record dc { idle_list = al.remove 0 dc.idle_list })
  ]

  -- The closure that each init function stores: the random channel pops at random, every other
  -- channel pops its first task.
  unfoldable pub pop_task_form_idle_list :
      ChannelName → ℕ → ℕ → DownloadChannel L → Option (ℕ × DownloadChannel L)
  unfolding pop_random_task pop_queue_task
  pop_task_form_idle_list random_channel now rnd dc = pop_random_task now rnd dc
  pop_task_form_idle_list _ now rnd dc = pop_queue_task now dc
