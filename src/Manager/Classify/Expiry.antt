-- ===== src/Manager/Classify/Expiry.antt =====
-- The expiry test of run in channel.go.
use mathlib.Core.Path.{ap₂}
use downloadmgr.Prelude.{
  ℕ, ◌/◌, ◌≡◌, true, false, arith, ap, ◌∙◌, if-false, if-true, pos, leb_ℤ, ◌≤ℤ◌, ◌&&◌,
}
use downloadmgr.ArrayList.{ArrayList}
use downloadmgr.Task.{fail_expire, quick_task}
use downloadmgr.Manager.{DownloadMgr, set_fail_reason, task_fail}
use downloadmgr.Manager.Download.Retry.{IsFailed, task_fail-IsFailed}
use downloadmgr.Manager.Classify.{Work, run_task, is_quick}

module _ {L : Type 0} ⦃al : ArrayList L⦄ where
  -- A quick task that was not cancelled and whose ExpireTime is 0 or negative fails with Fail_Expire
  -- whenever a worker takes it, before any request is made.
  pub run_task_expired :
      (dm : DownloadMgr L) (x : ℕ) (w : Work)
      → (dm.tasks x).cancel_flag ≡ false
      → (dm.tasks x).task_type ≡ quick_task
      → (dm.tasks x).expire_time ≤ℤ pos 0
      → IsFailed (set_fail_reason dm x fail_expire) x (run_task dm x w)
  unfolding run_task
  run_task_expired dm x w go quick expired =
      let over : leb_ℤ (dm.tasks x).expire_time (pos (w.began / 1000)) ≡ true = ground arith in
      let is_quick_one : is_quick (dm.tasks x).task_type ≡ true = ap is_quick quick in
      let reached : run_task dm x w ≡ task_fail (set_fail_reason dm x fail_expire) x =
        if-false _ _ go ∙ if-true _ _ (ap₂ ◌&&◌ is_quick_one over) in
      rw reached (task_fail-IsFailed (set_fail_reason dm x fail_expire) x)
