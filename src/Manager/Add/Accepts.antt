-- ===== src/Manager/Add/Accepts.antt =====
-- addDownloadTask of downloadmgr.go: what a caller that hands over an http url gets.
use downloadmgr.Prelude.{
  ℕ, ◌+◌, ◌≡◌, refl, true, arith, trim, to_lower, leb, if◌then◌else◌, if-false, ap, some, not,
}
use downloadmgr.ArrayList.{ArrayList}
use downloadmgr.Task.{TaskParams, new_task}
use downloadmgr.Manager.{DownloadMgr, map_load, map_store, push_task}
use downloadmgr.Manager.Places.{idle_count}
use downloadmgr.Manager.Settle.{idle_count-push}
use downloadmgr.Manager.Add.{
  task, max_uint64, is_http, entry_channel, gen_id, store_task, make_task, get_task_info,
  add_download_task,
}

module _ {L : Type 0} ⦃al : ArrayList L⦄ where
  -- The task `x` has been taken on with the parameters `p` at time `now`.
  pub record IsAccepted (dm : DownloadMgr L) (now : ℕ) (p : TaskParams) (x : ℕ)
      (after : DownloadMgr L) : Type 0 where
    pub queued : idle_count x after ≡ idle_count x dm + 1
    pub found : get_task_info after (after.tasks x).id ≡ some x
    pub numbered :
        (after.tasks x).id ≡ (if leb max_uint64 dm.current_id then 1 else dm.current_id + 1)
    pub counting : after.current_id ≡ (after.tasks x).id
    pub owned : (after.tasks x).channel ≡ some (entry_channel p.task_type)
    pub trimmed : (after.tasks x).target_url ≡ trim p.target_url
    pub fresh : (after.tasks x).fail_times ≡ 0
    pub startable : (after.tasks x).allow_start_time ≡ now
    pub silent : after.calls ≡ dm.calls

  -- addDownloadTask of a url that begins with http:// or https://, blanks around it and the case of
  -- its letters aside: the caller gets the new task, with the url less the blanks; its id is the one
  -- after the last, or 1 after the largest 64-bit number; GetTaskInfo finds it; it stands once more
  -- in the idle lists and belongs to the channel of its type, its allowed start time is the current
  -- time, it has not failed yet, and no callback is called.
  pub add_download_task-IsAccepted :
      (dm : DownloadMgr L) (now : ℕ) (p : TaskParams)
      → is_http (to_lower (trim p.target_url)) ≡ true
      → let added = add_download_task dm now p in
        (added.1 ≡ task dm.next_ref) × IsAccepted dm now p dm.next_ref added.0
  unfolding add_download_task make_task gen_id store_task map_store map_load get_task_info push_task
      new_task
  add_download_task-IsAccepted dm now p http =
      let q = record p { save_path = trim p.save_path; target_url = trim p.target_url } in
      let made = make_task dm now q in
      let reached : add_download_task dm now p
          ≡ (push_task made (entry_channel p.task_type) dm.next_ref, task dm.next_ref) =
        if-false _ _ (ap not http) in
      rw reached (
        refl,
        record {
          queued =
              ground
                (arith, idle_count-push made (entry_channel p.task_type) dm.next_ref dm.next_ref);
          found = ground arith;
          numbered = ground arith;
          counting = ground arith;
          owned = ground arith;
          trimmed = ground arith;
          fresh = ground arith;
          startable = ground arith;
          silent = ground arith;
        },
      )
