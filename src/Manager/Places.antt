-- ===== src/Manager/Places.antt =====
-- Where a task is, counted over the whole manager: in the idle lists and in the record of terminal
-- callbacks; and the facts about a manager that every operation of a worker keeps.
use downloadmgr.Prelude.{ℕ, ◌+◌, ◌≤◌, ◌<◌, ◌≡◌, ◌≢◌, ◌⊎◌, List, [], ◌∷◌, some, count, one_if}
use downloadmgr.ArrayList.{ArrayList}
use downloadmgr.Task.{
  Task, ChannelName, pre_handle_channel, quick_channel, random_channel, unpause_fast_channel,
  unpause_slow_channel,
}
use downloadmgr.Channel.{
  pre_handle_channel_retry_time, quick_channel_retry_time, random_channel_retry_time,
  unpause_fast_channel_retry_time, unpause_slow_channel_retry_time, pre_handle_channel_count_limit,
  quick_channel_count_limit, random_channel_count_limit, unpause_fast_channel_count_limit,
  unpause_slow_channel_count_limit, DownloadChannel,
}
use downloadmgr.Channel.Order.{IsSorted}
use downloadmgr.Manager.{
  DownloadMgr, Call, on_success, on_cancel, on_fail, panic, client_panic, start_times, map_delete,
}

-- The callbacks that end a task: success, cancel and fail.
abbrev pub ending : ℕ → Call → ℕ
ending r (on_success x) = one_if x r
ending r (on_cancel x) = one_if x r
ending r (on_fail x f) = one_if x r
ending r _ = 0

abbrev pub endings : ℕ → List Call → ℕ
endings r [] = 0
endings r (c ∷ cs) = ending r c + endings r cs

-- The panics of client.Do that took the task `r` from its worker.
abbrev pub losing : ℕ → Call → ℕ
losing r (client_panic x) = one_if x r
losing r _ = 0

abbrev pub losses : ℕ → List Call → ℕ
losses r [] = 0
losses r (c ∷ cs) = losing r c + losses r cs

-- The panics of other causes.
abbrev pub panicking : Call → ℕ
panicking (panic x) = 1
panicking _ = 0

abbrev pub panics : List Call → ℕ
panics [] = 0
panics (c ∷ cs) = panicking c + panics cs

abbrev pub retry_limit : ChannelName → ℕ
retry_limit pre_handle_channel = pre_handle_channel_retry_time
retry_limit quick_channel = quick_channel_retry_time
retry_limit random_channel = random_channel_retry_time
retry_limit unpause_fast_channel = unpause_fast_channel_retry_time
retry_limit unpause_slow_channel = unpause_slow_channel_retry_time

abbrev pub worker_limit : ChannelName → ℕ
worker_limit pre_handle_channel = pre_handle_channel_count_limit
worker_limit quick_channel = quick_channel_count_limit
worker_limit random_channel = random_channel_count_limit
worker_limit unpause_fast_channel = unpause_fast_channel_count_limit
worker_limit unpause_slow_channel = unpause_slow_channel_count_limit

-- A task that belongs to channel `n` and has not used up more retries than the channel gives.
abbrev pub BelongsTo : ChannelName → Task → Type 0
BelongsTo n t = (t.channel ≡ some n) × (t.fail_times ≤ retry_limit n)

module _ {L : Type 0} ⦃al : ArrayList L⦄ where
  abbrev pub idle : DownloadMgr L → ChannelName → List ℕ
  idle dm n = al.values (dm.channel n).idle_list

  -- How often `r` stands in the five idle lists.
  abbrev pub idle_count : ℕ → DownloadMgr L → ℕ
  idle_count r dm =
      count r (idle dm pre_handle_channel)
      + count r (idle dm quick_channel)
      + count r (idle dm random_channel)
      + count r (idle dm unpause_fast_channel)
      + count r (idle dm unpause_slow_channel)

  -- The numbers of retries and of workers of channel `n` are those of the constants.
  abbrev pub HasLimits : ChannelName → DownloadChannel L → Type 0
  HasLimits n d =
      (d.retry_times_limit ≡ retry_limit n) × (d.downloading_count_limit ≡ worker_limit n)

  -- Every idle list is sorted by allowed start time, and its tasks belong to its channel; the
  -- limits are those of the constants; no worker has panicked but in client.Do.
  pub record IsSafe (dm : DownloadMgr L) : Type 0 where
    pub sorted : (n : ChannelName) → IsSorted (start_times dm) (idle dm n)
    pub listed : (n : ChannelName) (r : ℕ) → 0 < count r (idle dm n) → BelongsTo n (dm.tasks r)
    pub limits : (n : ChannelName) → HasLimits n (dm.channel n)
    pub calm : panics dm.calls ≡ 0

  -- What a worker may do with the task `x` that it took from an idle list: put it into one idle
  -- list again, or end it with at most one terminal callback and take it out of the task map, or lose
  -- it in a panic of client.Do, which leaves it in the task map.
  pub record Moves (dm : DownloadMgr L) (x : ℕ) (dm' : DownloadMgr L) : Type 0 where
    pub total :
        (r : ℕ)
        → idle_count r dm' + endings r dm'.calls + losses r dm'.calls
          ≤ idle_count r dm + endings r dm.calls + losses r dm.calls + one_if x r
    pub others : (q : ℕ) → x ≢ q → dm'.tasks q ≡ dm.tasks q
    pub same_id : (dm'.tasks x).id ≡ (dm.tasks x).id
    pub same_flag : (dm'.tasks x).cancel_flag ≡ (dm.tasks x).cancel_flag
    pub same_next : dm'.next_ref ≡ dm.next_ref
    pub same_current : dm'.current_id ≡ dm.current_id
    pub elsewhere : (r : ℕ) → x ≢ r → idle_count r dm' ≡ idle_count r dm
    pub lost_elsewhere : (r : ℕ) → x ≢ r → losses r dm'.calls ≡ losses r dm.calls
    pub mapped :
        ((idle_count x dm' ≡ idle_count x dm + 1)
          × (losses x dm'.calls ≡ losses x dm.calls)
          × (dm'.task_map ≡ dm.task_map))
        ⊎ ((idle_count x dm' ≡ idle_count x dm)
            × (losses x dm'.calls ≡ losses x dm.calls)
            × (dm'.task_map ≡ map_delete (dm.tasks x).id dm.task_map))
        ⊎ ((idle_count x dm' ≡ idle_count x dm)
            × (losses x dm'.calls ≡ losses x dm.calls + 1)
            × (dm'.task_map ≡ dm.task_map))

  pub record Settles (dm : DownloadMgr L) (x : ℕ) (dm' : DownloadMgr L) : Type 0 where
    pub safe : IsSafe dm'
    pub moves : Moves dm x dm'

  -- A change of the task `x` and of the record of calls that no property below reads.
  pub record Quiet (dm : DownloadMgr L) (x : ℕ) (dm' : DownloadMgr L) : Type 0 where
    pub same_channel : dm'.channel ≡ dm.channel
    pub same_map : dm'.task_map ≡ dm.task_map
    pub same_next : dm'.next_ref ≡ dm.next_ref
    pub same_current : dm'.current_id ≡ dm.current_id
    pub others : (q : ℕ) → x ≢ q → dm'.tasks q ≡ dm.tasks q
    pub same_id : (dm'.tasks x).id ≡ (dm.tasks x).id
    pub same_flag : (dm'.tasks x).cancel_flag ≡ (dm.tasks x).cancel_flag
    pub same_endings : (r : ℕ) → endings r dm'.calls ≡ endings r dm.calls
    pub same_losses : (r : ℕ) → losses r dm'.calls ≡ losses r dm.calls
    pub same_panics : panics dm'.calls ≡ panics dm.calls

  -- The task that a worker of channel `n` holds: it is in no idle list and belongs to `n`.
  pub record Held (dm : DownloadMgr L) (n : ChannelName) (x : ℕ) : Type 0 where
    pub out : idle_count x dm ≡ 0
    pub belongs : BelongsTo n (dm.tasks x)
