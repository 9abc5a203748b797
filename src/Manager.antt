-- ===== src/Manager.antt =====
-- The state of downloadmgr.go and the operations of task.go and channel.go that act on it.
-- `tasks` is the memory that `*Task` pointers read: a pointer is a number below `next_ref`. `calls`
-- records, newest first, what leaves the program: the callbacks and the removed files.
pub mod Places
pub mod Settle
pub mod Broken
pub mod Download
pub mod Add
pub mod Classify
pub mod Advance
pub mod Rank
pub mod Lifecycle
pub mod System
use downloadmgr.Prelude.{
  ℕ, zero, suc, ◌+◌, Bool, true, false, List, [], ◌∷◌, ◌++◌, Option, none, some, leb, ◌==◌,
  if◌then◌else◌, update, Text, codes,
}
use downloadmgr.ArrayList.{ArrayList}
use downloadmgr.Task.{
  Task, TaskStatus, fail, success, pause, new, FailReasonType, no_fail, fail_expire,
  fail_size_limit, fail_request_error, fail_other, BrokenType, no_broken, broken_expire,
  broken_size_limit, broken_no_speed, broken_pause, broken_low_speed, broken_cancel, ChannelName,
  pre_handle_channel, quick_channel, random_channel, unpause_fast_channel, unpause_slow_channel,
}
use downloadmgr.Channel.{DownloadChannel, push_task_to_idle_list}

-- A callback, with the FailReason that it finds in the task; a file removal; or a Go panic on the
-- worker's goroutine, which safeInfiLoop recovers from by starting the worker's loop again:
-- `client_panic` is that of client.Do, in mkdirp of grab/util.go, `panic` any other.
pub data Call : Type 0 where
  on_success on_cancel on_downloading on_slow_speed : ℕ → Call
  on_fail : ℕ → FailReasonType → Call
  remove_file : Text → Call
  panic client_panic : ℕ → Call

-- `task_map` is the sync.Map from ids to tasks, `channel` holds preHandleChannel and the four
-- entries of the map downloadChannel.
pub record DownloadMgr (L : Type 0) : Type 0 where
  pub current_id : ℕ
  pub channel : ChannelName → DownloadChannel L
  pub ignore_header_map : List Text
  pub task_map : List (ℕ × ℕ)
  pub tasks : ℕ → Task
  pub next_ref : ℕ
  pub calls : List Call

abbrev pub name_eq : ChannelName → ChannelName → Bool
name_eq pre_handle_channel pre_handle_channel = true
name_eq quick_channel quick_channel = true
name_eq random_channel random_channel = true
name_eq unpause_fast_channel unpause_fast_channel = true
name_eq unpause_slow_channel unpause_slow_channel = true
name_eq _ _ = false

abbrev pub header_path : Text → Text
header_path path = path ++ codes ".header"

-- taskMap.Delete, Load and Store.
unfoldable pub map_delete : ℕ → List (ℕ × ℕ) → List (ℕ × ℕ)
map_delete i [] = []
map_delete i ((j, r) ∷ m) = if j == i then map_delete i m else (j, r) ∷ map_delete i m

unfoldable pub map_load : ℕ → List (ℕ × ℕ) → Option ℕ
map_load i [] = none
map_load i ((j, r) ∷ m) = if j == i then some r else map_load i m

unfoldable pub map_store : ℕ → ℕ → List (ℕ × ℕ) → List (ℕ × ℕ)
unfolding map_delete
map_store i r m = (i, r) ∷ map_delete i m

module _ {L : Type 0} where
  abbrev pub write_task : DownloadMgr L → ℕ → Task → DownloadMgr L
  write_task dm r t = record dm { tasks = update dm.tasks r t }

  abbrev pub set_channel : DownloadMgr L → ChannelName → DownloadChannel L → DownloadMgr L
  set_channel dm n dc = record dm { channel = λ m. if name_eq n m then dc else dm.channel m }

  abbrev pub log : DownloadMgr L → Call → DownloadMgr L
  log dm c = record dm { calls = c ∷ dm.calls }

  abbrev pub log_if : Bool → DownloadMgr L → Call → DownloadMgr L
  log_if b dm c = record dm { calls = if b then c ∷ dm.calls else dm.calls }

  -- The allowed start times, as a push or a pop reads them.
  abbrev pub start_times : DownloadMgr L → ℕ → ℕ
  start_times dm r = (dm.tasks r).allow_start_time

  abbrev delete_from_map : DownloadMgr L → ℕ → DownloadMgr L
  delete_from_map dm r = record dm { task_map = map_delete (dm.tasks r).id dm.task_map }

  -- The two os.Remove calls.
  abbrev remove_files : DownloadMgr L → Text → DownloadMgr L
  remove_files dm path = record dm {
    calls = remove_file (header_path path) ∷ remove_file path ∷ dm.calls;
  }

  unfoldable pub task_success : DownloadMgr L → ℕ → DownloadMgr L
  unfolding map_delete
  task_success dm r =
      let dm = write_task dm r (record (dm.tasks r) { status = success }) in
      let dm = log_if (dm.tasks r).on_success dm (on_success r) in delete_from_map dm r

  unfoldable pub task_cancel : DownloadMgr L → ℕ → DownloadMgr L
  unfolding map_delete
  task_cancel dm r =
      let dm = log_if (dm.tasks r).on_cancel dm (on_cancel r) in
      let dm = remove_files dm (dm.tasks r).save_path in delete_from_map dm r

  unfoldable pub task_fail : DownloadMgr L → ℕ → DownloadMgr L
  unfolding map_delete
  task_fail dm r =
      let dm = write_task dm r (record (dm.tasks r) { status = fail }) in
      let dm = log_if (dm.tasks r).on_fail dm (on_fail r (dm.tasks r).fail_reason) in
      let dm = remove_files dm (dm.tasks r).save_path in delete_from_map dm r

module _ {L : Type 0} ⦃al : ArrayList L⦄ where
  -- The channel's pushTaskToIdleList, with its write of the task's channel.
  unfoldable pub push_task : DownloadMgr L → ChannelName → ℕ → DownloadMgr L
  push_task dm n r =
      let dm = write_task dm r (record (dm.tasks r) { channel = some n }) in
      set_channel dm n (push_task_to_idle_list (start_times dm) r (dm.channel n))

  break_off_in : Option ChannelName → DownloadMgr L → ℕ → ℕ → DownloadMgr L
  unfolding task_fail push_task
  break_off_in none dm now r = log dm (panic r)
  break_off_in (some n) dm now r =
      if leb (dm.channel n).retry_times_limit (dm.tasks r).fail_times
      then task_fail dm r
      else push_task
          (write_task dm r (record (dm.tasks r) {
            fail_reason = no_fail;
            fail_times = (dm.tasks r).fail_times + 1;
            allow_start_time = now + 5000;
          }))
          n r

  -- `now` is time.Now().UnixMilli(). A task with no channel makes `t.channel` a nil dereference.
  unfoldable pub task_break_off : DownloadMgr L → ℕ → ℕ → DownloadMgr L
  unfolding break_off_in
  task_break_off dm now r =
      let dm = write_task dm r (record (dm.tasks r) { status = fail }) in
      break_off_in (dm.tasks r).channel dm now r

  abbrev pub set_fail_reason : DownloadMgr L → ℕ → FailReasonType → DownloadMgr L
  set_fail_reason dm r f = write_task dm r (record (dm.tasks r) { fail_reason = f })

  -- handleBrokenTaskFunc of the channel `n`. Its default case is for no value that is declared.
  unfoldable pub handle_broken_task :
      ChannelName → DownloadMgr L → ℕ → ℕ → BrokenType → DownloadMgr L
  unfolding task_fail task_cancel task_break_off push_task
  handle_broken_task n dm now r no_broken = dm
  handle_broken_task n dm now r broken_pause =
      push_task (write_task dm r (record (dm.tasks r) { status = pause })) n r
  handle_broken_task n dm now r broken_expire = task_fail (set_fail_reason dm r fail_expire) r
  handle_broken_task n dm now r broken_size_limit =
      task_fail (set_fail_reason dm r fail_size_limit) r
  handle_broken_task n dm now r broken_no_speed =
      task_break_off (set_fail_reason dm r fail_request_error) now r
  handle_broken_task n dm now r broken_low_speed =
      push_task (write_task dm r (record (dm.tasks r) { fail_times = 0; status = new }))
        unpause_slow_channel r
  handle_broken_task n dm now r broken_cancel = task_cancel dm r
