-- ===== src/Manager/Advance.antt =====
-- The bodies of the two worker loops, that of classifyNewTaskLoop in downloadmgr.go and that of run
-- in channel.go with startDownload of task.go, cut where another goroutine may come in between: at
-- each test of the cancel flag and while the worker waits for the origin.
pub mod Settles
pub mod Spares
use downloadmgr.Prelude.{ℕ, not, if◌then◌else◌}
use downloadmgr.ArrayList.{ArrayList}
use downloadmgr.Task.{fail_expire, fail_request_error, ChannelName, pre_handle_channel}
use downloadmgr.Manager.{DownloadMgr, task_cancel, task_fail, task_break_off, set_fail_reason}
use downloadmgr.Manager.Download.{after_do}
use downloadmgr.Manager.Classify.{
  Work, is_expired, classify, classified, check_origin_resume_support,
}

-- Where a worker stands with the task that it holds: behind the pop, behind the tests of the loop,
-- or, with a download, behind the test of the flag in startDownload, at client.Do.
pub data Phase : Type 0 where
  taken admitted started : Phase

-- A worker that holds a task.
pub record Worker : Type 0 where
  pub channel : ChannelName
  pub task : ℕ
  pub phase : Phase

-- What a worker does next: it goes on to a phase, or it is done with its task.
pub data Advance (L : Type 0) : Type 0 where
  goes_on : Phase → Advance L
  ends : DownloadMgr L → Advance L

module _ {L : Type 0} ⦃al : ArrayList L⦄ where
  -- In classifyNewTaskLoop.
  unfoldable pub advance_classify : Phase → DownloadMgr L → ℕ → Work → Advance L
  unfolding task_cancel classify classified check_origin_resume_support
  advance_classify taken dm r w =
      if (dm.tasks r).cancel_flag then ends (task_cancel dm r) else goes_on admitted
  advance_classify _ dm r w =
      ends (classified dm w.ended r (classify dm r (check_origin_resume_support w.url_ok w.answer)))

  -- In run and startDownload.
  unfoldable pub advance_download : Phase → DownloadMgr L → ℕ → Work → Advance L
  unfolding task_cancel task_fail task_break_off after_do
  advance_download taken dm r w =
      if (dm.tasks r).cancel_flag
      then ends (task_cancel dm r)
      else if is_expired (dm.tasks r) w.began
      then ends (task_fail (set_fail_reason dm r fail_expire) r)
      else goes_on admitted
  advance_download admitted dm r w =
      if not w.attempt.request_ok
      then ends (task_break_off (set_fail_reason dm r fail_request_error) w.attempt.now r)
      else if (dm.tasks r).cancel_flag
      then ends (task_cancel dm r)
      else goes_on started
  advance_download started dm r w = ends (after_do dm r w.attempt w.attempt.do_result)

  unfoldable pub advance : ChannelName → Phase → DownloadMgr L → ℕ → Work → Advance L
  unfolding advance_classify advance_download
  advance pre_handle_channel p dm r w = advance_classify p dm r w
  advance _ p dm r w = advance_download p dm r w
