-- ===== src/Manager/Download/Success.antt =====
-- Who calls onSuccess: nobody but the attempt that carries out the download of that task.
pub mod Others
use downloadmgr.Prelude.{
  ℕ, ◌+◌, ◌≡◌, ◌≢◌, ◌∙◌, refl, Bool, true, false, not, List, [], ◌∷◌, Option, none, some, arith,
  one_if, leb, contains, codes, Text, if◌then◌else◌, ◌&&◌, eqb_ℤ, ℤ, pos,
}
use downloadmgr.ArrayList.{ArrayList}
use downloadmgr.Task.{
  Response, fail, fail_expire, no_fail, ChannelName, fail_no_space, fail_size_limit,
  fail_request_error, fail_other, downloading, BrokenType, no_broken, broken_expire,
  broken_size_limit, broken_no_speed, broken_pause, broken_low_speed, broken_cancel,
}
use downloadmgr.Manager.{
  DownloadMgr, Call, on_success, on_downloading, on_slow_speed, write_task, set_fail_reason, log,
  log_if, push_task, task_success, task_cancel, task_fail, task_break_off, break_off_in,
  handle_broken_task,
}
use downloadmgr.Manager.Download.{
  Attempt, Tick, LoopExit, finished, returned, after_check, checked, on_tick_in, on_tick, monitor,
  check_file, after_transfer, after_loop, over_content_limit, after_err, after_wait, after_do, wait,
}
use downloadmgr.Channel.Check.{Verdict}

abbrev pub successes : ℕ → List Call → ℕ
successes r [] = 0
successes r (on_success x ∷ cs) = one_if x r + successes r cs
successes r (_ ∷ cs) = successes r cs

module _ {L : Type 0} ⦃al : ArrayList L⦄ (r : ℕ) where
  -- The calls of onSuccess for `r` stay.
  pub record NoSuccess (cs : List Call) (d : DownloadMgr L) : Type 0 where
    pub kept : successes r d.calls ≡ successes r cs

  pub trans_NoSuccess :
      {cs : List Call} {d e : DownloadMgr L} → NoSuccess cs d → NoSuccess d.calls e → NoSuccess cs e
  trans_NoSuccess p q = record { kept = q.kept ∙ p.kept }

  pub if_NoSuccess :
      (b : Bool) {cs : List Call} {d e : DownloadMgr L}
      → NoSuccess cs d
      → NoSuccess cs e
      → NoSuccess cs (if b then d else e)
  if_NoSuccess true p q = p
  if_NoSuccess false p q = q

  pub task_cancel-NoSuccess : (dm : DownloadMgr L) (x : ℕ) → NoSuccess dm.calls (task_cancel dm x)
  unfolding task_cancel
  task_cancel-NoSuccess dm x = record { kept = ground arith }

  pub task_fail-NoSuccess : (dm : DownloadMgr L) (x : ℕ) → NoSuccess dm.calls (task_fail dm x)
  unfolding task_fail
  task_fail-NoSuccess dm x = record { kept = ground arith }

  pub push_task-NoSuccess :
      (dm : DownloadMgr L) (n : ChannelName) (x : ℕ) → NoSuccess dm.calls (push_task dm n x)
  unfolding push_task
  push_task-NoSuccess dm n x = record { kept = refl }

  break_off_in-NoSuccess :
      (o : Option ChannelName) (dm : DownloadMgr L) (now x : ℕ)
      → NoSuccess dm.calls (break_off_in o dm now x)
  unfolding break_off_in push_task
  break_off_in-NoSuccess none dm now x = record { kept = refl }
  break_off_in-NoSuccess (some n) dm now x =
      if_NoSuccess (leb (dm.channel n).retry_times_limit (dm.tasks x).fail_times)
        (task_fail-NoSuccess dm x)
        (push_task-NoSuccess
          (write_task dm x (record (dm.tasks x) {
            fail_reason = no_fail;
            fail_times = (dm.tasks x).fail_times + 1;
            allow_start_time = now + 5000;
          }))
          n x)

  pub task_break_off-NoSuccess :
      (dm : DownloadMgr L) (now x : ℕ) → NoSuccess dm.calls (task_break_off dm now x)
  unfolding task_break_off
  task_break_off-NoSuccess dm now x =
      let failed = write_task dm x (record (dm.tasks x) { status = fail }) in
      break_off_in-NoSuccess (failed.tasks x).channel failed now x

  pub handle_broken_task-NoSuccess :
      (n : ChannelName) (dm : DownloadMgr L) (now x : ℕ) (b : BrokenType)
      → NoSuccess dm.calls (handle_broken_task n dm now x b)
  unfolding handle_broken_task push_task
  handle_broken_task-NoSuccess n dm now x no_broken = record { kept = refl }
  handle_broken_task-NoSuccess n dm now x broken_pause = record { kept = refl }
  handle_broken_task-NoSuccess n dm now x broken_expire =
      task_fail-NoSuccess (set_fail_reason dm x fail_expire) x
  handle_broken_task-NoSuccess n dm now x broken_size_limit =
      task_fail-NoSuccess (set_fail_reason dm x fail_size_limit) x
  handle_broken_task-NoSuccess n dm now x broken_no_speed =
      task_break_off-NoSuccess (set_fail_reason dm x fail_request_error) now x
  handle_broken_task-NoSuccess n dm now x broken_low_speed = record { kept = refl }
  handle_broken_task-NoSuccess n dm now x broken_cancel = task_cancel-NoSuccess dm x
