-- ===== src/Manager/Download/Retry.antt =====
-- taskBreakOff, and the errors that lead to it: when a task is tried again and when it fails.
use downloadmgr.Prelude.{
  ℕ, ◌+◌, ◌≡◌, ◌≤◌, ◌<◌, refl, true, false, ◌∙◌, ap, not, ◌∷◌, some, arith, if-false, Text,
  if◌then◌else◌, leb,
}
use downloadmgr.ArrayList.{ArrayList}
use downloadmgr.Task.{Response, ChannelName, fail, no_fail, fail_other}
use downloadmgr.Manager.{
  DownloadMgr, on_fail, remove_file, write_task, set_fail_reason, task_fail, task_break_off,
  break_off_in, push_task, header_path, map_delete,
}
use downloadmgr.Manager.Places.{idle_count}
use downloadmgr.Manager.Settle.{idle_count-push}
use downloadmgr.Manager.Download.{returns, Attempt, after_do, after_wait, start_download, wait}

module _ {L : Type 0} ⦃al : ArrayList L⦄ where
  -- What a task is when it has been put back for another try at time `now`.
  pub record IsQueuedAgain (dm : DownloadMgr L) (now x : ℕ) (after : DownloadMgr L) : Type 0 where
    pub queued : idle_count x after ≡ idle_count x dm + 1
    pub counted : (after.tasks x).fail_times ≡ (dm.tasks x).fail_times + 1
    pub later : (after.tasks x).allow_start_time ≡ now + 5000
    pub forgotten : (after.tasks x).fail_reason ≡ no_fail
    pub same_map : after.task_map ≡ dm.task_map
    pub silent : after.calls ≡ dm.calls

  -- What a task is when it has failed for good.
  pub record IsFailed (dm : DownloadMgr L) (x : ℕ) (after : DownloadMgr L) : Type 0 where
    pub gone : idle_count x after ≡ idle_count x dm
    pub failed : (after.tasks x).status ≡ fail
    pub unmapped : after.task_map ≡ map_delete (dm.tasks x).id dm.task_map
    pub called :
        after.calls
        ≡ remove_file (header_path (dm.tasks x).save_path)
          ∷ remove_file (dm.tasks x).save_path
          ∷ (if (dm.tasks x).on_fail
              then on_fail x (dm.tasks x).fail_reason ∷ dm.calls
              else dm.calls)

  push_again :
      (dm : DownloadMgr L) (n : ChannelName) (now x : ℕ)
      → IsQueuedAgain dm now x (
          push_task
            (write_task dm x (record (dm.tasks x) {
              fail_reason = no_fail;
              fail_times = (dm.tasks x).fail_times + 1;
              allow_start_time = now + 5000;
            }))
            n
            x)
  unfolding push_task
  push_again dm n now x = record {
    queued = ground (
      arith,
      idle_count-push
          (write_task dm x (record (dm.tasks x) {
            fail_reason = no_fail;
            fail_times = (dm.tasks x).fail_times + 1;
            allow_start_time = now + 5000;
          }))
          n x x,
    );
    counted = ground arith;
    later = ground arith;
    forgotten = ground arith;
    same_map = refl;
    silent = refl;
  }

  pub task_fail-IsFailed : (dm : DownloadMgr L) (x : ℕ) → IsFailed dm x (task_fail dm x)
  unfolding task_fail
  task_fail-IsFailed dm x = record {
    gone = refl;
    failed = ground arith;
    unmapped = ground arith;
    called = ground arith;
  }

  -- taskBreakOff of a task of channel `n` that has failed less often than the channel retries puts
  -- it back into one idle list, to be tried 5 s later, with one failure more and no fail reason,
  -- leaves the task map alone and calls no callback.
  pub task_break_off-IsQueuedAgain :
      (dm : DownloadMgr L) (n : ChannelName) (now x : ℕ)
      → (dm.tasks x).channel ≡ some n
      → (dm.tasks x).fail_times < (dm.channel n).retry_times_limit
      → IsQueuedAgain dm now x (task_break_off dm now x)
  unfolding task_break_off break_off_in
  task_break_off-IsQueuedAgain dm n now x owner few =
      let dm₁ = write_task dm x (record (dm.tasks x) { status = fail }) in
      let owned : (dm₁.tasks x).channel ≡ some n = ground (arith, owner) in
      let more : leb (dm.channel n).retry_times_limit (dm₁.tasks x).fail_times ≡ false =
        ground (arith, few) in
      let again = push_again dm₁ n now x in
      rw (owned, break_off_in, more)
        (record {
          queued = again.queued;
          counted = ground (arith, again.counted);
          later = again.later;
          forgotten = again.forgotten;
          same_map = again.same_map;
          silent = again.silent;
        })

  -- taskBreakOff of a task of channel `n` that has failed as often as the channel retries fails it
  -- for good: it goes into no idle list and out of the task map, its two files are removed, and
  -- onFail, if there is one, is called with the fail reason that the task has.
  pub task_break_off-IsFailed :
      (dm : DownloadMgr L) (n : ChannelName) (now x : ℕ)
      → (dm.tasks x).channel ≡ some n
      → (dm.channel n).retry_times_limit ≤ (dm.tasks x).fail_times
      → IsFailed dm x (task_break_off dm now x)
  unfolding task_break_off break_off_in
  task_break_off-IsFailed dm n now x owner many =
      let dm₁ = write_task dm x (record (dm.tasks x) { status = fail }) in
      let owned : (dm₁.tasks x).channel ≡ some n = ground (arith, owner) in
      let over : leb (dm.channel n).retry_times_limit (dm₁.tasks x).fail_times ≡ true =
        ground (arith, many) in
      let end = task_fail-IsFailed dm₁ x in
      rw (owned, break_off_in, over)
        (record {
          gone = end.gone;
          failed = end.failed;
          unmapped = ground (arith, end.unmapped);
          called = ground (arith, end.called);
        })

  module _ (dm : DownloadMgr L) (n : ChannelName) (x : ℕ) (a : Attempt) (resp : Response)
      (err : Text) (owner : (dm.tasks x).channel ≡ some n) (ok : a.request_ok ≡ true)
      (go : (dm.tasks x).cancel_flag ≡ false) (result : a.do_result ≡ returns (some resp))
      (answered : resp.has_http_response ≡ true) (failed : resp.err ≡ some err) where
    start_download_breaks_off :
        start_download dm x a ≡ task_break_off (set_fail_reason dm x fail_other) a.now x
    unfolding start_download after_do after_wait
    start_download_breaks_off =
        if-false _ _ (ap not ok)
        ∙ if-false _ _ go
        ∙ ap (after_do dm x a) result
        ∙ if-false _ _ (ap not answered)
        ∙ ap (after_wait dm x a (wait resp)) failed

    -- An attempt whose request is made, not cancelled before and answered, and whose transfer ends
    -- with an error, whatever its text, queues the task again 5 s later, without a callback, while it
    -- has failed less often than its channel retries: "no space" errors are retried too.
    pub start_download_error-IsQueuedAgain :
        (dm.tasks x).fail_times < (dm.channel n).retry_times_limit
        → IsQueuedAgain dm a.now x (start_download dm x a)
    start_download_error-IsQueuedAgain few =
        let dm₁ = set_fail_reason dm x fail_other in
        let again =
          task_break_off-IsQueuedAgain dm₁ n a.now x (ground (arith, owner))
            (ground (arith, few)) in
        rw start_download_breaks_off (record {
          queued = again.queued;
          counted = ground (arith, again.counted);
          later = again.later;
          forgotten = again.forgotten;
          same_map = again.same_map;
          silent = again.silent;
        })

    -- An attempt whose request is made, not cancelled before and answered, and whose transfer ends
    -- with an error, whatever its text, fails the task when it has failed as often as its channel
    -- retries, and onFail finds the reason Fail_Other, never Fail_NoSpace.
    pub start_download_error-IsFailed :
        (dm.channel n).retry_times_limit ≤ (dm.tasks x).fail_times
        → IsFailed (set_fail_reason dm x fail_other) x (start_download dm x a)
    start_download_error-IsFailed many =
        let dm₁ = set_fail_reason dm x fail_other in
        rw start_download_breaks_off
          (task_break_off-IsFailed dm₁ n a.now x (ground (arith, owner)) (ground (arith, many)))
