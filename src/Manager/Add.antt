-- ===== src/Manager/Add.antt =====
-- downloadmgr.go: how tasks enter the manager and how callers look at it, and error.go.
pub mod Accepts
use downloadmgr.Prelude.{
  ℕ, ◌+◌, ◌-◌, ◌^◌, Bool, false, ◌||◌, not, List, [], ◌∷◌, Option, none, some, leb, if◌then◌else◌,
  pos, Text, codes, trim, to_lower, has_prefix,
}
use downloadmgr.ArrayList.{ArrayList}
use downloadmgr.Task.{
  Task, TaskParams, TaskType, quick_task, normal_task, new_task, ChannelName, pre_handle_channel,
  quick_channel, random_channel, unpause_fast_channel, unpause_slow_channel,
}
use downloadmgr.Channel.{
  DownloadChannel, idle_size, init_pre_handle_channel, init_quick_channel,
  init_random_pause_channel, init_unpause_fast_channel, init_unpause_slow_channel,
}
use downloadmgr.Manager.{DownloadMgr, write_task, map_load, map_store, push_task}

pub data Added : Type 0 where
  task : ℕ → Added
  err_origin_url_protocol : Added

abbrev pub max_uint64 : ℕ
max_uint64 = 2 ^ 64 - 1

-- The tests of the lower-cased url.
abbrev pub is_http : Text → Bool
is_http url = has_prefix (codes "http://") url || has_prefix (codes "https://") url

-- Quick tasks go straight to the quick channel.
abbrev pub entry_channel : TaskType → ChannelName
entry_channel quick_task = quick_channel
entry_channel normal_task = pre_handle_channel

module _ {L : Type 0} where
  -- The id generation under idLock: the manager with the new currentId.
  unfoldable pub gen_id : DownloadMgr L → DownloadMgr L
  gen_id dm =
      let current = if leb max_uint64 dm.current_id then 0 else dm.current_id in
      record dm { current_id = current + 1 }

  -- `&Task{…}` and the Store into the map; the new pointer is the old `next_ref`.
  unfoldable pub store_task : DownloadMgr L → Task → DownloadMgr L
  unfolding map_store
  store_task dm t = record (write_task dm dm.next_ref t) {
    next_ref = dm.next_ref + 1;
    task_map = map_store t.id dm.next_ref dm.task_map;
  }

  -- From the id generation to the Store, over the trimmed path and url. `now` is the clock that
  -- newTask reads.
  unfoldable pub make_task : DownloadMgr L → ℕ → TaskParams → DownloadMgr L
  unfolding gen_id store_task new_task
  make_task dm now p = let dm = gen_id dm in store_task dm (new_task now dm.current_id p)

  unfoldable pub get_task_info : DownloadMgr L → ℕ → Option ℕ
  unfolding map_load
  get_task_info dm id = map_load id dm.task_map

module _ {L : Type 0} ⦃al : ArrayList L⦄ where
  unfoldable pub add_download_task : DownloadMgr L → ℕ → TaskParams → DownloadMgr L × Added
  unfolding make_task push_task trim to_lower
  add_download_task dm now p =
      let save_path = trim p.save_path in
      let target_url = trim p.target_url in
      if not (is_http (to_lower target_url))
      then (dm, err_origin_url_protocol)
      else let made =
          make_task dm now (record p { save_path = save_path; target_url = target_url }) in
        (push_task made (entry_channel p.task_type) dm.next_ref, task dm.next_ref)

  unfoldable pub add_quick_download_task : DownloadMgr L → ℕ → TaskParams → DownloadMgr L × Added
  unfolding add_download_task
  add_quick_download_task dm now p =
      add_download_task dm now (record p { task_type = quick_task; on_slow_speed = false })

  unfoldable pub add_normal_download_task : DownloadMgr L → ℕ → TaskParams → DownloadMgr L × Added
  unfolding add_download_task
  add_normal_download_task dm now p =
      add_download_task dm now (record p { task_type = normal_task; expire_time = pos 0 })

  -- The sizes in the returned map, and the total. The prehandle channel is not in the map.
  unfoldable pub get_idle_task_size : DownloadMgr L → List (ChannelName × ℕ) × ℕ
  unfolding idle_size
  get_idle_task_size dm =
      let size = λ (n : ChannelName). idle_size (dm.channel n) in
      (
        (quick_channel, size quick_channel)
            ∷ (random_channel, size random_channel)
            ∷ (unpause_fast_channel, size unpause_fast_channel)
            ∷ (unpause_slow_channel, size unpause_slow_channel)
            ∷ [],
        size quick_channel
            + size random_channel
            + size unpause_fast_channel
            + size unpause_slow_channel,
      )

  -- `ic, _ := initChannel(…)` drops the error, and a nil channel is a panic in the next line: there
  -- is no manager then.
  or_panic :
      Option (DownloadChannel L)
      → (DownloadChannel L → Option (DownloadMgr L))
      → Option (DownloadMgr L)
  or_panic none f = none
  or_panic (some dc) f = f dc

  abbrev channels_of : (q r f s p : DownloadChannel L) → ChannelName → DownloadChannel L
  channels_of q r f s p pre_handle_channel = p
  channels_of q r f s p quick_channel = q
  channels_of q r f s p random_channel = r
  channels_of q r f s p unpause_fast_channel = f
  channels_of q r f s p unpause_slow_channel = s

  -- `zero_task` is what memory holds before a task is made.
  unfoldable pub new_download_mgr : Task → Option (DownloadMgr L)
  unfolding or_panic init_pre_handle_channel init_quick_channel init_random_pause_channel
      init_unpause_fast_channel init_unpause_slow_channel
  new_download_mgr zero_task = or_panic init_pre_handle_channel λ p.
      or_panic init_quick_channel λ q. or_panic init_random_pause_channel λ r.
        or_panic init_unpause_fast_channel λ f. or_panic init_unpause_slow_channel λ s.
          some (record {
            current_id = 0;
            channel = channels_of q r f s p;
            ignore_header_map = [];
            task_map = [];
            tasks = λ _. zero_task;
            next_ref = 0;
            calls = [];
          })
