-- ===== src/Manager/Download.antt =====
-- startDownload of task.go, over what the environment answers during one attempt. The result of
-- client.Do is a Response; Err waits until its Done is closed, so after a call of Err the response
-- is complete.
pub mod Cases
pub mod Monitor
pub mod Outcomes
pub mod Retry
pub mod Composed
pub mod Success
pub mod Lowers
use downloadmgr.Prelude.{
  ℕ, ◌/◌, Bool, true, false, not, ◌&&◌, ◌||◌, List, [], ◌∷◌, Option, none, some, if◌then◌else◌, ℤ,
  pos, negsuc, ltb_ℤ, eqb_ℤ, contains, codes, Text,
}
use downloadmgr.ArrayList.{ArrayList}
use downloadmgr.Task.{
  Task, Response, downloading, fail_no_space, fail_size_limit, fail_request_error, fail_other,
  ChannelName,
}
use downloadmgr.Channel.{idle_size}
use downloadmgr.Channel.Check.{Progress, Verdict, check_downloading_state}
use downloadmgr.Manager.{
  DownloadMgr, on_downloading, on_slow_speed, panic, client_panic, write_task, log, log_if,
  set_fail_reason, task_success, task_cancel, task_fail, task_break_off, handle_broken_task,
}

-- One value from the ticker, every 2 s: the time in milliseconds and the state of the transfer.
pub record Tick : Type 0 where
  pub now : ℕ
  pub progress : Progress

-- client.Do returns (`none` is nil) or panics.
pub data DoResult : Type 0 where
  returns : Option Response → DoResult
  do_panics : DoResult

-- What the environment does in one attempt: whether grab.NewRequest succeeds, what client.Do
-- does, whether saveHeader succeeds, the ticks that the select statement takes
-- before it takes Done, the size that os.Stat finds, and the time at which the attempt ends.
pub record Attempt : Type 0 where
  pub request_ok : Bool
  pub do_result : DoResult
  pub header_saved : Bool
  pub ticks : List Tick
  pub stat : Option ℤ
  pub now : ℕ

-- Response.Err and Response.Wait: they return when Done is closed.
abbrev pub wait : Response → Response
wait resp = record resp { complete = true }

-- How the monitor loop is left: by `break loop`, or by a return from startDownload.
pub data LoopExit (L : Type 0) : Type 0 where
  finished returned : DownloadMgr L → LoopExit L

abbrev over_content_limit : Task → Response → Bool
over_content_limit t resp =
    not (eqb_ℤ resp.content_length (negsuc 0))
    && (ltb_ℤ (pos 0) t.size_limit && ltb_ℤ t.size_limit resp.content_length)

module _ {L : Type 0} ⦃al : ArrayList L⦄ where
  -- The test behind the check, of a task in channel `n`: the loop goes on if there is no exit.
  after_check : ChannelName → DownloadMgr L → ℕ → Response → Tick → Verdict → Option (LoopExit L)
  unfolding handle_broken_task
  after_check n dm r resp tick v =
      if v.need_broken && not resp.complete
      then some (returned (handle_broken_task n dm tick.now r v.broken_type))
      else none

  abbrev checked :
      ChannelName
      → DownloadMgr L
      → ℕ
      → Response
      → Tick
      → Option Verdict
      → DownloadMgr L × Option (LoopExit L)
  unfolding after_check
  checked n dm r resp tick none = (dm, some (returned (log dm (panic r))))
  checked n dm r resp tick (some v) =
      let dm = log_if v.slow_speed_called dm (on_slow_speed r) in
      (dm, after_check n dm r resp tick v)

  on_tick_in :
      Option ChannelName → DownloadMgr L → ℕ → Response → Tick → DownloadMgr L × Option (LoopExit L)
  unfolding check_downloading_state idle_size after_check
  on_tick_in none dm r resp tick = (dm, some (returned (log dm (panic r))))
  on_tick_in (some n) dm r resp tick = checked n dm r resp tick (
      check_downloading_state n (dm.tasks r) (idle_size (dm.channel n)) tick.progress
        (tick.now / 1000))

  -- One round of the loop on a tick.
  on_tick : DownloadMgr L → ℕ → Response → Tick → DownloadMgr L × Option (LoopExit L)
  unfolding on_tick_in
  on_tick dm r resp tick =
      let dm = log_if (dm.tasks r).on_downloading dm (on_downloading r) in
      on_tick_in (dm.tasks r).channel dm r resp tick

  unfoldable pub monitor : DownloadMgr L → ℕ → Response → List Tick → LoopExit L
  unfolding on_tick
  monitor dm r resp [] = finished dm
  monitor dm r resp (tick ∷ ticks) =
      let (dm', exit) = on_tick dm r resp tick in
      elim exit [ some e ↦ e | none ↦ monitor dm' r resp ticks ]

  check_file : DownloadMgr L → ℕ → ℕ → Option ℤ → DownloadMgr L
  unfolding task_break_off task_success
  check_file dm now r none = task_break_off (set_fail_reason dm r fail_other) now r
  check_file dm now r (some size) =
      if eqb_ℤ size (pos 0)
      then task_break_off (set_fail_reason dm r fail_other) now r
      else task_success dm r

  -- From the second test of resp.Err() on.
  after_transfer : DownloadMgr L → ℕ → Attempt → Option Text → DownloadMgr L
  unfolding task_fail task_break_off check_file
  after_transfer dm r a (some e) =
      if contains (codes "no space") e
      then task_fail (set_fail_reason dm r fail_no_space) r
      else task_break_off dm a.now r
  after_transfer dm r a none = check_file dm a.now r a.stat

  after_loop : ℕ → Attempt → Response → LoopExit L → DownloadMgr L
  unfolding after_transfer
  after_loop r a resp (returned dm) = dm
  after_loop r a resp (finished dm) = after_transfer dm r a resp.err

  -- From `t.Response = resp` on.
  after_err : DownloadMgr L → ℕ → Attempt → Response → DownloadMgr L
  unfolding task_fail task_break_off after_loop monitor
  after_err dm r a resp =
      let dm = write_task dm r (record (dm.tasks r) { response = some resp }) in
      if over_content_limit (dm.tasks r) resp
      then task_fail (set_fail_reason dm r fail_size_limit) r
      else if not a.header_saved
      then task_break_off (set_fail_reason dm r fail_request_error) a.now r
      else let dm = write_task dm r (record (dm.tasks r) { status = downloading }) in
        after_loop r a resp (monitor dm r resp a.ticks)

  -- The first test of resp.Err(), with the error that it returned.
  after_wait : DownloadMgr L → ℕ → Attempt → Response → Option Text → DownloadMgr L
  unfolding task_break_off after_err
  after_wait dm r a resp (some e) = task_break_off (set_fail_reason dm r fail_other) a.now r
  after_wait dm r a resp none = after_err dm r a resp

  -- From the result of client.Do on. Its panic leaves startDownload and the worker's loop; nothing
  -- is done with the task on the way.
  unfoldable pub after_do : DownloadMgr L → ℕ → Attempt → DoResult → DownloadMgr L
  unfolding task_break_off after_wait
  after_do dm r a do_panics = log dm (client_panic r)
  after_do dm r a (returns none) = task_break_off (set_fail_reason dm r fail_request_error) a.now r
  after_do dm r a (returns (some resp)) =
      if not resp.has_http_response
      then task_break_off (set_fail_reason dm r fail_request_error) a.now r
      else after_wait dm r a (wait resp) resp.err

  unfoldable pub start_download : DownloadMgr L → ℕ → Attempt → DownloadMgr L
  unfolding task_break_off task_cancel after_do
  start_download dm r a =
      if not a.request_ok
      then task_break_off (set_fail_reason dm r fail_request_error) a.now r
      else if (dm.tasks r).cancel_flag
      then task_cancel dm r
      else after_do dm r a a.do_result
