-- ===== src/Manager/Settle.antt =====
-- taskBreakOff of task.go, and what it rests on: the endings of a task, the pushes and the silent
-- writes keep the manager safe and move the worker's task to one place.
pub mod Ends
pub mod Push
pub mod Silent
pub use Ends.*
pub use Push.*
pub use Silent.*
use mathlib.Core.Path.{fun_ext, ap₂}
use downloadmgr.Prelude.{
  ℕ, ◌+◌, ◌≤◌, ◌<◌, ◌≡◌, ◌≢◌, ◌⊎◌, inl, inr, refl, ap, subst, Bool, sym, ◌∙◌, true, false, some,
  count, one_if, Bool-cases, arith, leb, if◌then◌else◌,
}
use downloadmgr.ArrayList.{ArrayList}
use downloadmgr.Task.{
  Task, no_fail, fail, ChannelName, pre_handle_channel, quick_channel, random_channel,
  unpause_fast_channel, unpause_slow_channel,
}
use downloadmgr.Channel.{DownloadChannel, push_task_to_idle_list}
use downloadmgr.Channel.Order.{IsSorted, IsSorted-congr, push-insert_stable, count-push}
use downloadmgr.Manager.{
  DownloadMgr, write_task, start_times, map_delete, name_eq, task_success, task_cancel, task_fail,
  task_break_off, push_task, break_off_in,
}
use downloadmgr.Manager.Places.{
  endings, panics, idle, idle_count, retry_limit, BelongsTo, IsSafe, Settles, Quiet, Held,
}

module _ {L : Type 0} ⦃al : ArrayList L⦄ where
  break_off_in-Settles :
      (dm : DownloadMgr L) (n : ChannelName) (now x : ℕ)
      → Held dm n x
      → IsSafe dm
      → Settles dm x (break_off_in (some n) dm now x)
  unfolding break_off_in
  break_off_in-Settles dm n now x h s =
      elim (Bool-cases (leb (dm.channel n).retry_times_limit (dm.tasks x).fail_times)) [
        | inl e ↦ rw e (task_fail-Settles dm x h.out s)
        | inr e ↦
            let t = record (dm.tasks x) {
              fail_reason = no_fail;
              fail_times = (dm.tasks x).fail_times + 1;
              allow_start_time = now + 5000;
            } in
            let q = write-Quiet dm x t refl refl in
            rw e (
              Quiet-Settles dm _ _ x q (
                push_task-Settles (write_task dm x t) n x h.out (ground (arith, s.limits n))
                  (Quiet-IsSafe dm _ n x q h s)))
      ]

  -- taskBreakOff ends the task or puts it back into the list of its channel.
  pub task_break_off-Settles :
      (dm : DownloadMgr L) (n : ChannelName) (now x : ℕ)
      → Held dm n x
      → IsSafe dm
      → Settles dm x (task_break_off dm now x)
  unfolding task_break_off
  task_break_off-Settles dm n now x h s =
      let t = record (dm.tasks x) { status = fail } in
      let q = write-Quiet dm x t refl refl in
      let owner : ((write_task dm x t).tasks x).channel ≡ some n = ground (arith, h.belongs.0) in
      rw owner (
        Quiet-Settles dm _ _ x q (
          break_off_in-Settles (write_task dm x t) n now x
            (Quiet-Held dm _ n x q (owner, ground (arith, h.belongs.1)) h)
            (Quiet-IsSafe dm _ n x q h s)))
