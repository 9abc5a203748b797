-- ===== src/Manager/Classify.antt =====
-- downloadmgr.go: the classification of new tasks, and the bodies of the two worker loops, that of
-- classifyNewTaskLoop and that of run in channel.go, over one task that a worker took.
pub mod Settles
pub mod Expiry
pub mod Routes
use downloadmgr.Prelude.{
  ℕ, ◌/◌, Bool, true, false, ◌||◌, ◌&&◌, List, [], ◌∷◌, Option, none, some, ltb, ◌==◌,
  if◌then◌else◌, ℤ, pos, leb_ℤ, Text, codes, text_eq,
}
use downloadmgr.ArrayList.{ArrayList}
use downloadmgr.Task.{
  Task, TaskType, quick_task, normal_task, fail_expire, fail_request_error, ChannelName,
  random_channel, unpause_fast_channel, pre_handle_channel,
}
use downloadmgr.Manager.{
  DownloadMgr, write_task, push_task, task_cancel, task_fail, task_break_off, set_fail_reason,
}
use downloadmgr.Manager.Download.{Attempt, start_download}

-- How io.CopyN(buf, resp.Body, 2) ends.
pub data CopyResult : Type 0 where
  copied_all : CopyResult
  copied_eof : ℕ → CopyResult
  copied_error : ℕ → CopyResult

-- The answer to the GET request with `Range: bytes=0-0`.
pub record OriginResponse : Type 0 where
  pub status_code : ℕ
  pub accept_ranges : Option (List Text)
  pub copied : CopyResult

abbrev has_bytes : List Text → Bool
has_bytes [] = false
has_bytes (v ∷ vs) = text_eq v (codes "bytes") || has_bytes vs

abbrev accepts_bytes : Option (List Text) → Bool
accepts_bytes none = false
accepts_bytes (some vs) = has_bytes vs

abbrev one_byte : CopyResult → Bool
one_byte (copied_eof written) = written == 1
one_byte _ = false

-- `url_ok` says that url.Parse succeeds, `none` is an error of c.Do or of the function.
unfoldable pub check_origin_resume_support : Bool → Option OriginResponse → Option Bool
check_origin_resume_support false answer = none
check_origin_resume_support true none = none
check_origin_resume_support true (some resp) =
    if ltb resp.status_code 200 || ltb 299 resp.status_code
    then none
    else if accepts_bytes resp.accept_ranges
    then some true
    else if one_byte resp.copied
    then some true
    else some false

-- What a worker meets between taking a task and being done with it: when it begins and,
-- for the classifying workers, when it ends, in milliseconds, their answer from the origin, and the attempt of the others.
pub record Work : Type 0 where
  pub began : ℕ
  pub ended : ℕ
  pub url_ok : Bool
  pub answer : Option OriginResponse
  pub attempt : Attempt

abbrev pub is_quick : TaskType → Bool
is_quick quick_task = true
is_quick normal_task = false

-- The test on ExpireTime in run.
abbrev pub is_expired : Task → ℕ → Bool
is_expired t now = is_quick t.task_type && leb_ℤ t.expire_time (pos (now / 1000))

module _ {L : Type 0} ⦃al : ArrayList L⦄ where
  -- `none` is the error result.
  unfoldable pub classify : DownloadMgr L → ℕ → Option Bool → Option (DownloadMgr L)
  unfolding push_task
  classify dm r none = none
  classify dm r (some true) =
      some
        (push_task (write_task dm r (record (dm.tasks r) { can_resume = true })) random_channel r)
  classify dm r (some false) = some (push_task dm unpause_fast_channel r)

  unfoldable pub classified : DownloadMgr L → ℕ → ℕ → Option (DownloadMgr L) → DownloadMgr L
  unfolding task_break_off
  classified dm now r none = task_break_off (set_fail_reason dm r fail_request_error) now r
  classified dm now r (some dm') = dm'

  -- The body of classifyNewTaskLoop behind the pop.
  unfoldable pub classify_task : DownloadMgr L → ℕ → Work → DownloadMgr L
  unfolding task_cancel classify classified check_origin_resume_support
  classify_task dm r w =
      if (dm.tasks r).cancel_flag
      then task_cancel dm r
      else classified dm w.ended r (classify dm r (check_origin_resume_support w.url_ok w.answer))

  -- The body of run behind the pop.
  unfoldable pub run_task : DownloadMgr L → ℕ → Work → DownloadMgr L
  unfolding task_cancel task_fail start_download
  run_task dm r w =
      if (dm.tasks r).cancel_flag
      then task_cancel dm r
      else if is_expired (dm.tasks r) w.began
      then task_fail (set_fail_reason dm r fail_expire) r
      else start_download dm r w.attempt

  -- What the workers of channel `n` do with a task.
  unfoldable pub work_on : ChannelName → DownloadMgr L → ℕ → Work → DownloadMgr L
  unfolding classify_task run_task
  work_on pre_handle_channel dm r w = classify_task dm r w
  work_on _ dm r w = run_task dm r w
