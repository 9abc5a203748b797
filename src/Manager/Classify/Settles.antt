-- ===== src/Manager/Classify/Settles.antt =====
-- The bodies of the worker loops settle the task that they are given.
use downloadmgr.Prelude.{◌≢◌, refl, arith, true, false, Bool, Option, some, none, ℕ}
use downloadmgr.ArrayList.{ArrayList}
use downloadmgr.Task.{
  fail_expire, fail_request_error, ChannelName, pre_handle_channel, quick_channel, random_channel,
  unpause_fast_channel, unpause_slow_channel,
}
use downloadmgr.Manager.{DownloadMgr}
use downloadmgr.Manager.Places.{IsSafe, Settles, Held}
use downloadmgr.Manager.Settle.{
  push_task-Settles, write-Quiet, Quiet-Settles, Quiet-IsSafe, Quiet-Held, task_cancel-Settles,
  task_fail-Settles, task_break_off-Settles, if_Settles,
}
use downloadmgr.Manager.Download.Cases.{start_download-Settles}
use downloadmgr.Manager.Classify.{Work, classify, classified, classify_task, run_task, work_on}

module _ {L : Type 0} ⦃al : ArrayList L⦄ (dm : DownloadMgr L) (x : ℕ) (s : IsSafe dm) where
  pub classified-Settles :
      (now : ℕ) (can_resume : Option Bool)
      → Held dm pre_handle_channel x
      → Settles dm x (classified dm now x (classify dm x can_resume))
  unfolding classified classify
  classified-Settles now none h =
      let q =
        write-Quiet dm x (record (dm.tasks x) { fail_reason = fail_request_error }) refl refl in
      Quiet-Settles dm _ _ x q (
        task_break_off-Settles _ pre_handle_channel now x
          (Quiet-Held dm _ pre_handle_channel x q (ground (arith, h.belongs)) h)
          (Quiet-IsSafe dm _ pre_handle_channel x q h s))
  classified-Settles now (some true) h =
      let q = write-Quiet dm x (record (dm.tasks x) { can_resume = true }) refl refl in
      Quiet-Settles dm _ _ x q (
        push_task-Settles _ random_channel x h.out (ground (arith, h.belongs))
          (Quiet-IsSafe dm _ pre_handle_channel x q h s))
  classified-Settles now (some false) h =
      push_task-Settles dm unpause_fast_channel x h.out h.belongs.1 s

  run_task-Settles :
      (n : ChannelName) (w : Work)
      → n ≢ pre_handle_channel
      → Held dm n x
      → Settles dm x (run_task dm x w)
  unfolding run_task
  run_task-Settles n w works h =
      let q = write-Quiet dm x (record (dm.tasks x) { fail_reason = fail_expire }) refl refl in
      if_Settles (dm.tasks x).cancel_flag (task_cancel-Settles dm x h.out s) (
        if_Settles _
          (Quiet-Settles dm _ _ x q (task_fail-Settles _ x h.out (Quiet-IsSafe dm _ n x q h s)))
          (start_download-Settles n x works dm w.attempt h s))

  -- Whatever a worker meets while it handles its task, the classifying workers and the downloading
  -- ones alike: when it is done the task stands in exactly one idle list and is still in the task
  -- map, with no terminal callback; or it stands in none and is deleted from the task map, with at
  -- most one terminal callback; or client.Do has panicked, and then the task stands in no list, no
  -- terminal callback was made for it, and it is still in the task map. No other task has changed or
  -- moved; every idle list is sorted by allowed start time; no task of a list has more failures than
  -- its channel retries; and no worker has panicked in any other place.
  pub work_on-Settles : (n : ChannelName) (w : Work) → Held dm n x → Settles dm x (work_on n dm x w)
  unfolding work_on classify_task
  work_on-Settles pre_handle_channel w h =
      if_Settles (dm.tasks x).cancel_flag (task_cancel-Settles dm x h.out s)
        (classified-Settles w.ended _ h)
  work_on-Settles quick_channel w h = run_task-Settles quick_channel w (λ e. cc) h
  work_on-Settles random_channel w h = run_task-Settles random_channel w (λ e. cc) h
  work_on-Settles unpause_fast_channel w h = run_task-Settles unpause_fast_channel w (λ e. cc) h
  work_on-Settles unpause_slow_channel w h = run_task-Settles unpause_slow_channel w (λ e. cc) h
