-- ===== src/Manager/System.antt =====
-- The running program: the manager, its workers, each with the one task that it holds, and the
-- callers of addDownloadTask. An event is one step of one goroutine: a list of events is an
-- interleaving of the callers and workers. A worker handles its task in the steps of Advance, between
-- which other goroutines may come, and so they may between the Store and the push of
-- addDownloadTask.
pub mod Inv
pub mod Removal
pub mod Adds
pub mod Steps
pub mod Map
pub mod Lookup
pub mod Start
pub mod Cancelled
pub mod Bounded
pub mod Holder
pub mod Status
pub mod Working
pub mod Lifecycle
use downloadmgr.Prelude.{
  ℕ, ◌+◌, Bool, true, false, List, [], ◌∷◌, Option, none, some, ltb, if◌then◌else◌, get_elem?,
  remove_at, set, Text, not, trim, to_lower,
}
use downloadmgr.ArrayList.{ArrayList}
use downloadmgr.Task.{Task, TaskParams, ChannelName, cancel_download}
use downloadmgr.Channel.{DownloadChannel, pop_task_form_idle_list}
use downloadmgr.Manager.{DownloadMgr, name_eq, write_task, set_channel, start_times, push_task}
use downloadmgr.Manager.Add.{make_task, is_http, entry_channel, new_download_mgr}
use downloadmgr.Manager.Classify.{Work}
use downloadmgr.Manager.Advance.{Worker, taken, Advance, goes_on, ends, advance}

-- `held` lists the busy workers, `adding` the tasks that a caller of addDownloadTask has stored in
-- the task map and not yet pushed.
pub record System (L : Type 0) : Type 0 where
  pub dm : DownloadMgr L
  pub held : List Worker
  pub adding : List ℕ

-- A caller begins to add a task (up to the Store), the `i`-th of those who have begun pushes its task
-- and returns; a caller cancels a task that it was given, or sets the ignored headers; an idle worker
-- polls its idle list (at a time, with a random number); the `i`-th busy worker does the next part
-- of its work.
pub data Event : Type 0 where
  adds : ℕ → TaskParams → Event
  pushes : ℕ → Event
  cancels : ℕ → Event
  ignores : List Text → Event
  polls : ChannelName → ℕ → ℕ → Event
  works : ℕ → Work → Event

abbrev pub busy : ChannelName → List Worker → ℕ
busy n [] = 0
busy n (k ∷ held) = (if name_eq n k.channel then 1 else 0) + busy n held

module _ {L : Type 0} where
  unfoldable pub set_ignore_header : DownloadMgr L → List Text → DownloadMgr L
  set_ignore_header dm hs = record dm { ignore_header_map = hs }

  abbrev took : System L → ChannelName → Option (ℕ × DownloadChannel L) → System L
  took s n none = s
  took s n (some (r, dc)) = record s {
    dm = set_channel s.dm n dc;
    held = record { channel = n; task = r; phase = taken } ∷ s.held;
  }

  -- The `i`-th busy worker has done a part of its work.
  abbrev moved : System L → ℕ → Worker → Advance L → System L
  moved s i k (goes_on p) = record s { held = set s.held i (record k { phase = p }) }
  moved s i k (ends dm') = record s { dm = dm'; held = remove_at i s.held }

module _ {L : Type 0} ⦃al : ArrayList L⦄ where
  -- A channel has downloadingCountLimit workers, so at most so many are busy.
  unfoldable pub poll : System L → ChannelName → ℕ → ℕ → System L
  unfolding pop_task_form_idle_list
  poll s n now rnd =
      if ltb (busy n s.held) (s.dm.channel n).downloading_count_limit
      then took s n (pop_task_form_idle_list (start_times s.dm) n now rnd (s.dm.channel n))
      else s

  unfoldable pub cancel : System L → ℕ → System L
  unfolding cancel_download
  cancel s r =
      if ltb r s.dm.next_ref
      then record s { dm = write_task s.dm r (cancel_download (s.dm.tasks r)) }
      else s

  -- addDownloadTask up to the Store.
  unfoldable pub begin_add : System L → ℕ → TaskParams → System L
  unfolding make_task trim to_lower
  begin_add s now p =
      let save_path = trim p.save_path in
      let target_url = trim p.target_url in
      if not (is_http (to_lower target_url)) then s else record s {
        dm = make_task s.dm now (record p { save_path = save_path; target_url = target_url });
        adding = s.dm.next_ref ∷ s.adding;
      }

  abbrev pushed : System L → ℕ → Option ℕ → System L
  unfolding push_task
  pushed s i none = s
  pushed s i (some r) = record s {
    dm = push_task s.dm (entry_channel (s.dm.tasks r).task_type) r;
    adding = remove_at i s.adding;
  }

  -- addDownloadTask behind the Store. The task keeps the type that it was made with.
  unfoldable pub push : System L → ℕ → System L
  unfolding push_task
  push s i = pushed s i (get_elem? s.adding i)

  worked : System L → ℕ → Work → Option Worker → System L
  unfolding advance
  worked s i w none = s
  worked s i w (some k) = moved s i k (advance k.channel k.phase s.dm k.task w)

  unfoldable pub work : System L → ℕ → Work → System L
  unfolding worked
  work s i w = worked s i w (get_elem? s.held i)

  unfoldable pub step : System L → Event → System L
  unfolding poll cancel work begin_add push set_ignore_header
  step s (adds now p) = begin_add s now p
  step s (pushes i) = push s i
  step s (cancels r) = cancel s r
  step s (ignores hs) = record s { dm = set_ignore_header s.dm hs }
  step s (polls n now rnd) = poll s n now rnd
  step s (works i w) = work s i w

  unfoldable pub run : System L → List Event → System L
  unfolding step
  run s [] = s
  run s (e ∷ es) = run (step s e) es
