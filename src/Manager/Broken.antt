-- ===== src/Manager/Broken.antt =====
-- handleBrokenTaskFunc of channel.go: where a download that is broken off goes.
use downloadmgr.Prelude.{
  ℕ, ◌+◌, ◌≡◌, ◌≢◌, ◌≤◌, ◌<◌, ◌⊎◌, inl, inr, ◌∷◌, refl, arith, some, count, if◌then◌else◌, leb,
  Bool-cases,
}
use downloadmgr.ArrayList.{ArrayList}
use downloadmgr.Task.{
  Task, BrokenType, no_broken, broken_expire, broken_size_limit, broken_no_speed, broken_pause,
  broken_low_speed, broken_cancel, ChannelName, pre_handle_channel, quick_channel, random_channel,
  unpause_fast_channel, unpause_slow_channel, pause, new, fail, no_fail, FailReasonType,
  fail_expire, fail_size_limit, fail_request_error,
}
use downloadmgr.Manager.{
  DownloadMgr, on_fail, on_cancel, remove_file, header_path, map_delete, write_task,
  set_fail_reason, push_task, task_fail, task_cancel, task_break_off, break_off_in,
  handle_broken_task,
}
use downloadmgr.Manager.Places.{idle, idle_count, retry_limit, IsSafe, Settles, Held}
use downloadmgr.Manager.Settle.{
  idle_count-push, push_task-Settles, write-Quiet, Quiet-Settles, Quiet-IsSafe, Quiet-Held,
  task_cancel-Settles, task_fail-Settles, task_break_off-Settles,
}
use downloadmgr.Manager.Download.Retry.{task_fail-IsFailed}

module _ {L : Type 0} ⦃al : ArrayList L⦄ where
  -- The task `x` has failed for good, for the reason `f`.
  pub record Fails (dm : DownloadMgr L) (x : ℕ) (f : FailReasonType) (after : DownloadMgr L)
      : Type 0 where
    pub out : idle_count x after ≡ 0
    pub failed : (after.tasks x).status ≡ fail
    pub unmapped : after.task_map ≡ map_delete (dm.tasks x).id dm.task_map
    pub called :
        after.calls
        ≡ remove_file (header_path (dm.tasks x).save_path)
          ∷ remove_file (dm.tasks x).save_path
          ∷ (if (dm.tasks x).on_fail then on_fail x f ∷ dm.calls else dm.calls)

  -- It stands once in the list of channel `n`, and nobody was told.
  pub record Waits (dm : DownloadMgr L) (x : ℕ) (n : ChannelName) (after : DownloadMgr L)
      : Type 0 where
    pub listed : count x (idle after n) ≡ 1
    pub owner : (after.tasks x).channel ≡ some n
    pub same_map : after.task_map ≡ dm.task_map
    pub silent : after.calls ≡ dm.calls

  -- It was cancelled.
  pub record IsCancelled (dm : DownloadMgr L) (x : ℕ) (after : DownloadMgr L) : Type 0 where
    pub out : idle_count x after ≡ 0
    pub unmapped : after.task_map ≡ map_delete (dm.tasks x).id dm.task_map
    pub called :
        after.calls
        ≡ remove_file (header_path (dm.tasks x).save_path)
          ∷ remove_file (dm.tasks x).save_path
          ∷ (if (dm.tasks x).on_cancel then on_cancel x ∷ dm.calls else dm.calls)

  -- Where a task of channel `n` goes for each reason.
  abbrev pub GoesTo : ChannelName → DownloadMgr L → ℕ → ℕ → BrokenType → DownloadMgr L → Type 0
  GoesTo n dm now x no_broken after = after ≡ dm
  GoesTo n dm now x broken_expire after = Fails dm x fail_expire after
  GoesTo n dm now x broken_size_limit after = Fails dm x fail_size_limit after
  GoesTo n dm now x broken_cancel after = IsCancelled dm x after
  GoesTo n dm now x broken_pause after =
      Waits dm x n after
      × ((after.tasks x).status ≡ pause)
      × ((after.tasks x).fail_times ≡ (dm.tasks x).fail_times)
  GoesTo n dm now x broken_low_speed after =
      Waits dm x unpause_slow_channel after
      × ((after.tasks x).status ≡ new)
      × ((after.tasks x).fail_times ≡ 0)
  GoesTo n dm now x broken_no_speed after =
      (((dm.tasks x).fail_times < retry_limit n)
        × Waits dm x n after
        × ((after.tasks x).fail_times ≡ (dm.tasks x).fail_times + 1)
        × ((after.tasks x).allow_start_time ≡ now + 5000))
      ⊎ ((retry_limit n ≤ (dm.tasks x).fail_times) × Fails dm x fail_request_error after)

  failed-Fails :
      (dm : DownloadMgr L) (x : ℕ) (f : FailReasonType)
      → idle_count x dm ≡ 0
      → Fails dm x f (task_fail (set_fail_reason dm x f) x)
  unfolding task_fail
  failed-Fails dm x f out = record {
    out = out;
    failed = ground arith;
    unmapped = ground arith;
    called = ground arith;
  }

  count-push_there :
      (dm : DownloadMgr L) (n : ChannelName) (x : ℕ)
      → idle_count x dm ≡ 0
      → count x (idle (push_task dm n x) n) ≡ 1
  unfolding push_task
  count-push_there dm pre_handle_channel x out =
      ground (arith, idle_count-push dm pre_handle_channel x x, out)
  count-push_there dm quick_channel x out =
      ground (arith, idle_count-push dm quick_channel x x, out)
  count-push_there dm random_channel x out =
      ground (arith, idle_count-push dm random_channel x x, out)
  count-push_there dm unpause_fast_channel x out =
      ground (arith, idle_count-push dm unpause_fast_channel x x, out)
  count-push_there dm unpause_slow_channel x out =
      ground (arith, idle_count-push dm unpause_slow_channel x x, out)

  pushed-Waits :
      (dm : DownloadMgr L) (n : ChannelName) (x : ℕ) (t : Task)
      → idle_count x dm ≡ 0
      → Waits dm x n (push_task (write_task dm x t) n x)
  unfolding push_task
  pushed-Waits dm n x t out = record {
    listed = count-push_there (write_task dm x t) n x out;
    owner = ground arith;
    same_map = refl;
    silent = refl;
  }

  broken_off-GoesTo :
      (dm : DownloadMgr L) (n : ChannelName) (now x : ℕ)
      → Held dm n x
      → IsSafe dm
      → GoesTo n dm now x broken_no_speed
          (task_break_off (set_fail_reason dm x fail_request_error) now x)
  unfolding task_break_off break_off_in push_task
  broken_off-GoesTo dm n now x h s =
      let dm₁ = set_fail_reason dm x fail_request_error in
      let dm₂ = write_task dm₁ x (record (dm₁.tasks x) { status = fail }) in
      let owned : (dm₂.tasks x).channel ≡ some n = ground (arith, h.belongs.0) in
      let limit = (s.limits n).0 in
      elim (Bool-cases (leb (dm.channel n).retry_times_limit (dm₂.tasks x).fail_times)) [
        | inl over ↦
            let end = task_fail-IsFailed dm₂ x in
            rw (owned, break_off_in, over)
              (inr (
                ground (arith, over, limit),
                record {
                  out = h.out;
                  failed = end.failed;
                  unmapped = ground (arith, end.unmapped);
                  called = ground (arith, end.called);
                },
              ))
        | inr more ↦
            let t = record (dm₂.tasks x) {
              fail_reason = no_fail;
              fail_times = (dm₂.tasks x).fail_times + 1;
              allow_start_time = now + 5000;
            } in
            let waits = pushed-Waits dm₂ n x t h.out in
            rw (owned, break_off_in, more)
              (inl (
                ground (arith, more, limit),
                record {
                  listed = waits.listed;
                  owner = waits.owner;
                  same_map = refl;
                  silent = refl;
                },
                ground arith,
                ground arith,
              ))
      ]

module _ {L : Type 0} ⦃al : ArrayList L⦄ (n : ChannelName) (dm : DownloadMgr L) (now x : ℕ)
    (h : Held dm n x) (s : IsSafe dm) where
  handled-Settles :
      (b : BrokenType) → b ≢ no_broken → Settles dm x (handle_broken_task n dm now x b)
  unfolding handle_broken_task
  handled-Settles no_broken r = absurd (r refl)
  handled-Settles broken_expire r =
      let q = write-Quiet dm x (record (dm.tasks x) { fail_reason = fail_expire }) refl refl in
      Quiet-Settles dm _ _ x q (task_fail-Settles _ x h.out (Quiet-IsSafe dm _ n x q h s))
  handled-Settles broken_size_limit r =
      let q = write-Quiet dm x (record (dm.tasks x) { fail_reason = fail_size_limit }) refl refl in
      Quiet-Settles dm _ _ x q (task_fail-Settles _ x h.out (Quiet-IsSafe dm _ n x q h s))
  handled-Settles broken_no_speed r =
      let q =
        write-Quiet dm x (record (dm.tasks x) { fail_reason = fail_request_error }) refl refl in
      Quiet-Settles dm _ _ x q (
        task_break_off-Settles _ n now x (Quiet-Held dm _ n x q (ground (arith, h.belongs)) h)
          (Quiet-IsSafe dm _ n x q h s))
  handled-Settles broken_pause r =
      let q = write-Quiet dm x (record (dm.tasks x) { status = pause }) refl refl in
      Quiet-Settles dm _ _ x q
        (push_task-Settles _ n x h.out (ground (arith, h.belongs)) (Quiet-IsSafe dm _ n x q h s))
  handled-Settles broken_low_speed r =
      let q = write-Quiet dm x (record (dm.tasks x) { fail_times = 0; status = new }) refl refl in
      Quiet-Settles dm _ _ x q (
        push_task-Settles _ unpause_slow_channel x h.out (ground arith)
          (Quiet-IsSafe dm _ n x q h s))
  handled-Settles broken_cancel r = task_cancel-Settles dm x h.out s

  handled-GoesTo : (b : BrokenType) → GoesTo n dm now x b (handle_broken_task n dm now x b)
  unfolding handle_broken_task task_cancel push_task
  handled-GoesTo no_broken = refl
  handled-GoesTo broken_expire = failed-Fails dm x fail_expire h.out
  handled-GoesTo broken_size_limit = failed-Fails dm x fail_size_limit h.out
  handled-GoesTo broken_cancel = record {
    out = h.out;
    unmapped = ground arith;
    called = ground arith;
  }
  handled-GoesTo broken_pause = (pushed-Waits dm n x _ h.out, ground arith, ground arith)
  handled-GoesTo broken_low_speed =
      (pushed-Waits dm unpause_slow_channel x _ h.out, ground arith, ground arith)
  handled-GoesTo broken_no_speed = broken_off-GoesTo dm n now x h s

  -- Where a task of channel `n` goes that a worker holds and whose download is broken off. For a
  -- pause it stands once in the list of `n`, with the status pause and the failures that it had. For
  -- a low speed it stands once in the list of the unpause-slow channel, as a new task with no
  -- failures. For an expiry or a size limit it fails: it is in no list, it is deleted from the task
  -- map, its files are removed, and onFail, if set, is called with that reason. A cancellation does the
  -- same with onCancel. For no speed it stands once in the list of `n`, to be tried 5 s later with one
  -- failure more, while it has failed less often than `n` retries, and fails as a request error
  -- after that. When it is listed, no callback is called and the task map stays. In each case no other
  -- task changes or moves, and the lists stay sorted with their own tasks.
  pub handle_broken_task-Settles :
      (b : BrokenType)
      → b ≢ no_broken
      → Settles dm x (handle_broken_task n dm now x b)
        × GoesTo n dm now x b (handle_broken_task n dm now x b)
  handle_broken_task-Settles b r = (handled-Settles b r, handled-GoesTo b)
