-- ===== src/Manager/Download/Success/Others.antt =====
-- What comes behind client.Do, for a task other than the one whose successes are counted.
use downloadmgr.Prelude.{
  ℕ, ◌≢◌, refl, Bool, true, false, not, List, [], ◌∷◌, Option, none, some, arith, contains, codes,
  Text, if◌then◌else◌, ◌&&◌, eqb_ℤ, ℤ, pos,
}
use downloadmgr.ArrayList.{ArrayList}
use downloadmgr.Task.{
  Response, ChannelName, fail_no_space, fail_size_limit, fail_request_error, fail_other,
  downloading,
}
use downloadmgr.Manager.{
  DownloadMgr, Call, on_downloading, on_slow_speed, write_task, set_fail_reason, log, log_if,
  task_success, handle_broken_task,
}
use downloadmgr.Manager.Download.{
  DoResult, returns, do_panics, Attempt, Tick, LoopExit, finished, returned, after_check, checked,
  on_tick_in, on_tick, monitor, check_file, after_transfer, after_loop, over_content_limit,
  after_err, after_wait, after_do, wait,
}
use downloadmgr.Channel.Check.{Verdict}
use downloadmgr.Manager.Download.Success.{
  NoSuccess, if_NoSuccess, trans_NoSuccess, task_fail-NoSuccess, task_break_off-NoSuccess,
  handle_broken_task-NoSuccess,
}

module _ {L : Type 0} ⦃al : ArrayList L⦄ (r : ℕ) where
  -- The monitor loop.
  abbrev exit_mgr : LoopExit L → DownloadMgr L
  exit_mgr (finished dm) = dm
  exit_mgr (returned dm) = dm

  abbrev TickNoSuccess : List Call → DownloadMgr L × Option (LoopExit L) → Type 0
  TickNoSuccess cs (d, none) = NoSuccess r cs d
  TickNoSuccess cs (d, some e) = NoSuccess r cs d × NoSuccess r cs (exit_mgr e)

  module _ (x : ℕ) where
    checked-NoSuccess :
        (n : ChannelName) (dm : DownloadMgr L) (resp : Response) (tick : Tick) (v : Option Verdict)
        → TickNoSuccess dm.calls (checked n dm x resp tick v)
    unfolding after_check
    checked-NoSuccess n dm resp tick none = (record { kept = refl }, record { kept = refl })
    checked-NoSuccess n dm resp tick (some v) =
        called v.slow_speed_called (v.need_broken && not resp.complete)
      where
        called :
            (c b : Bool)
            → TickNoSuccess dm.calls (
              log_if c dm (on_slow_speed x),
              if b
                  then some (
                      returned (
                        handle_broken_task n
                          (log_if c dm (on_slow_speed x))
                          tick.now
                          x
                          v.broken_type))
                  else none,
            )
        called true true = (
          record { kept = refl },
          record {
            kept =
                (handle_broken_task-NoSuccess r n (log dm (on_slow_speed x)) tick.now x
                  v.broken_type).kept;
          },
        )
        called true false = record { kept = refl }
        called false true =
            (record { kept = refl }, handle_broken_task-NoSuccess r n dm tick.now x v.broken_type)
        called false false = record { kept = refl }

    on_tick_in-NoSuccess :
        (o : Option ChannelName) (dm : DownloadMgr L) (resp : Response) (tick : Tick)
        → TickNoSuccess dm.calls (on_tick_in o dm x resp tick)
    unfolding on_tick_in
    on_tick_in-NoSuccess none dm resp tick = (record { kept = refl }, record { kept = refl })
    on_tick_in-NoSuccess (some n) dm resp tick = checked-NoSuccess n dm resp tick _

    told_first :
        (cs : List Call) (p : DownloadMgr L × Option (LoopExit L))
        → TickNoSuccess (on_downloading x ∷ cs) p
        → TickNoSuccess cs p
    told_first cs (d, none) h = record { kept = h.kept }
    told_first cs (d, some e) h = (record { kept = h.0.kept }, record { kept = h.1.kept })

    on_tick-NoSuccess :
        (dm : DownloadMgr L) (resp : Response) (tick : Tick)
        → TickNoSuccess dm.calls (on_tick dm x resp tick)
    unfolding on_tick
    on_tick-NoSuccess dm resp tick = told (dm.tasks x).on_downloading
      where
        told :
            (b : Bool)
            → TickNoSuccess dm.calls (
                on_tick_in
                  ((log_if b dm (on_downloading x)).tasks x).channel
                  (log_if b dm (on_downloading x))
                  x
                  resp
                  tick)
        told true =
            told_first dm.calls _
              (on_tick_in-NoSuccess (dm.tasks x).channel (log dm (on_downloading x)) resp tick)
        told false = on_tick_in-NoSuccess (dm.tasks x).channel dm resp tick

    monitor-NoSuccess :
        (dm : DownloadMgr L) (resp : Response) (ticks : List Tick)
        → NoSuccess r dm.calls (exit_mgr (monitor dm x resp ticks))
    unfolding monitor
    monitor-NoSuccess dm resp [] = record { kept = refl }
    monitor-NoSuccess dm resp (tick ∷ ticks) =
        went_on (on_tick dm x resp tick) (on_tick-NoSuccess dm resp tick)
          (λ d. monitor-NoSuccess d resp ticks)
      where
        went_on :
            (p : DownloadMgr L × Option (LoopExit L))
            → TickNoSuccess dm.calls p
            → ((d : DownloadMgr L) → NoSuccess r d.calls (exit_mgr (monitor d x resp ticks)))
            → NoSuccess r dm.calls
                (exit_mgr (elim p.1 [ some e ↦ e | none ↦ monitor p.0 x resp ticks ]))
        went_on (d, none) h rest = trans_NoSuccess r h (rest d)
        went_on (d, some e) h rest = h.1

    -- What comes behind client.Do, for another task.
    module _ (other : x ≢ r) where
      check_file-NoSuccess :
          (dm : DownloadMgr L) (now : ℕ) (stat : Option ℤ)
          → NoSuccess r dm.calls (check_file dm now x stat)
      unfolding check_file task_success
      check_file-NoSuccess dm now none =
          task_break_off-NoSuccess r (set_fail_reason dm x fail_other) now x
      check_file-NoSuccess dm now (some size) =
          if_NoSuccess r (eqb_ℤ size (pos 0))
            (task_break_off-NoSuccess r (set_fail_reason dm x fail_other) now x)
            (record { kept = ground arith })

      after_loop-NoSuccess :
          (a : Attempt) (resp : Response) (dm : DownloadMgr L) (e : LoopExit L)
          → NoSuccess r dm.calls (exit_mgr e)
          → NoSuccess r dm.calls (after_loop x a resp e)
      unfolding after_loop after_transfer
      after_loop-NoSuccess a resp dm (returned d) h = h
      after_loop-NoSuccess a resp dm (finished d) h = trans_NoSuccess r h (ends resp.err)
        where
          ends : (err : Option Text) → NoSuccess r d.calls (after_transfer d x a err)
          ends none = check_file-NoSuccess d a.now a.stat
          ends (some t) =
              if_NoSuccess r (contains (codes "no space") t)
                (task_fail-NoSuccess r (set_fail_reason d x fail_no_space) x)
                (task_break_off-NoSuccess r d a.now x)

      after_err-NoSuccess :
          (dm : DownloadMgr L) (a : Attempt) (resp : Response)
          → NoSuccess r dm.calls (after_err dm x a resp)
      unfolding after_err
      after_err-NoSuccess dm a resp =
          let d = write_task dm x (record (dm.tasks x) { response = some resp }) in
          let d' = write_task d x (record (d.tasks x) { status = downloading }) in
          if_NoSuccess r (over_content_limit (d.tasks x) resp)
            (task_fail-NoSuccess r (set_fail_reason d x fail_size_limit) x)
            (if_NoSuccess r (not a.header_saved)
              (task_break_off-NoSuccess r (set_fail_reason d x fail_request_error) a.now x)
              (after_loop-NoSuccess a resp dm (monitor d' x resp a.ticks)
                (monitor-NoSuccess d' resp a.ticks)))

      pub after_do-NoSuccess :
          (dm : DownloadMgr L) (a : Attempt) (res : DoResult)
          → NoSuccess r dm.calls (after_do dm x a res)
      unfolding after_do after_wait
      after_do-NoSuccess dm a do_panics = record { kept = refl }
      after_do-NoSuccess dm a (returns none) =
          task_break_off-NoSuccess r (set_fail_reason dm x fail_request_error) a.now x
      after_do-NoSuccess dm a (returns (some resp)) =
          if_NoSuccess r (not resp.has_http_response)
            (task_break_off-NoSuccess r (set_fail_reason dm x fail_request_error) a.now x)
            (ends resp.err)
        where
          ends : (err : Option Text) → NoSuccess r dm.calls (after_wait dm x a (wait resp) err)
          ends (some e) = task_break_off-NoSuccess r (set_fail_reason dm x fail_other) a.now x
          ends none = after_err-NoSuccess dm a (wait resp)
