-- ===== src/Manager/Download/Outcomes.antt =====
-- What startDownload and the retries of taskBreakOff come to in the cases that matter to a caller.
use downloadmgr.Prelude.{
  ℕ, ◌≡◌, ◌≢◌, refl, true, false, ◌∙◌, sym, Bool, not, List, Option, some, none, arith, Bool-cases,
  inl, inr, contains, codes, Text, ℤ, if◌then◌else◌, eqb_ℤ, pos, leb,
}
use downloadmgr.ArrayList.{ArrayList}
use downloadmgr.Task.{fail, Response, ChannelName, pre_handle_channel, downloading, fail_other}
use downloadmgr.Manager.{
  DownloadMgr, Call, write_task, set_fail_reason, task_break_off, break_off_in,
}
use downloadmgr.Manager.Download.{
  Attempt, Tick, monitor, check_file, after_loop, after_transfer, over_content_limit, after_err,
  DoResult, returns, do_panics, after_wait, after_do, start_download, wait,
}
use downloadmgr.Manager.Download.Monitor.{monitor-Logs}

module _ {L : Type 0} ⦃al : ArrayList L⦄ where
  -- Two managers that agree on everything but the record of calls.
  pub record Agree (d e : DownloadMgr L) : Type 0 where
    pub channels : d.channel ≡ e.channel
    pub tasks : d.tasks ≡ e.tasks
    pub maps : d.task_map ≡ e.task_map

  if_Agree :
      (b : Bool) (e : DownloadMgr L) {d d' : DownloadMgr L}
      → Agree d d'
      → Agree (if b then e else d) (if b then e else d')
  if_Agree true e p = record { channels = refl; tasks = refl; maps = refl }
  if_Agree false e p = p

  break_off_in-Agree :
      (dm : DownloadMgr L) (cs : List Call) (o : Option ChannelName) (now x : ℕ)
      → Agree (break_off_in o (record dm { calls = cs }) now x) (break_off_in o dm now x)
  unfolding break_off_in
  break_off_in-Agree dm cs none now x = record { channels = refl; tasks = refl; maps = refl }
  break_off_in-Agree dm cs (some n) now x =
      elim (Bool-cases (leb (dm.channel n).retry_times_limit (dm.tasks x).fail_times)) [
        | inl e ↦ rw e (record { channels = refl; tasks = refl; maps = refl })
        | inr e ↦ rw e (record { channels = refl; tasks = refl; maps = refl })
      ]

  task_break_off-Agree :
      (dm : DownloadMgr L) (cs : List Call) (now x : ℕ)
      → Agree (task_break_off (record dm { calls = cs }) now x) (task_break_off dm now x)
  unfolding task_break_off
  task_break_off-Agree dm cs now x =
      break_off_in-Agree (write_task dm x (record (dm.tasks x) { status = fail })) cs _ now x

  check_file-Agree :
      (dm : DownloadMgr L) (cs : List Call) (now x : ℕ) (stat : Option ℤ)
      → Agree (check_file (record dm { calls = cs }) now x stat) (check_file dm now x stat)
  unfolding check_file
  check_file-Agree dm cs now x none =
      task_break_off-Agree (set_fail_reason dm x fail_other) cs now x
  check_file-Agree dm cs now x (some size) = elim (Bool-cases (eqb_ℤ size (pos 0))) [
    | inl e ↦ rw e (task_break_off-Agree (set_fail_reason dm x fail_other) cs now x)
    | inr e ↦ rw e (record { channels = refl; tasks = refl; maps = refl })
  ]

  after_transfer-Agree :
      (dm : DownloadMgr L) (cs : List Call) (x : ℕ) (a : Attempt) (err : Option Text)
      → Agree (after_transfer (record dm { calls = cs }) x a err) (after_transfer dm x a err)
  unfolding after_transfer
  after_transfer-Agree dm cs x a (some e) = elim (Bool-cases (contains (codes "no space") e)) [
    | inl h ↦ rw h (record { channels = refl; tasks = refl; maps = refl })
    | inr h ↦ rw h (task_break_off-Agree dm cs a.now x)
  ]
  after_transfer-Agree dm cs x a none = check_file-Agree dm cs a.now x a.stat

  module _ (n : ChannelName) (x : ℕ) (works : n ≢ pre_handle_channel) where
    -- The loop and what follows it, for a response that is complete.
    after_loop-Agree :
        (dm : DownloadMgr L) (a : Attempt) (resp : Response)
        → resp.complete ≡ true
        → (dm.tasks x).channel ≡ some n
        → Agree (after_loop x a resp (monitor dm x resp a.ticks)) (after_transfer dm x a resp.err)
    unfolding after_loop
    after_loop-Agree dm a resp done owner =
        let (dm', e, l) = monitor-Logs dm n x resp a.ticks done owner works in
        rw (e, l.same) (after_transfer-Agree dm l.calls x a resp.err)

    after_err-Agree :
        (dm : DownloadMgr L) (a : Attempt) (ticks : List Tick) (resp : Response)
        → resp.complete ≡ true
        → (dm.tasks x).channel ≡ some n
        → Agree (after_err dm x a resp) (after_err dm x (record a { ticks = ticks }) resp)
    unfolding after_err
    after_err-Agree dm a ticks resp done owner =
        let d₁ = write_task dm x (record (dm.tasks x) { response = some resp }) in
        let d₂ = write_task d₁ x (record (d₁.tasks x) { status = downloading }) in
        let owned : (d₂.tasks x).channel ≡ some n = ground (arith, owner) in
        let p = after_loop-Agree d₂ a resp done owned in
        let q = after_loop-Agree d₂ (record a { ticks = ticks }) resp done owned in
        elim (Bool-cases (over_content_limit (d₁.tasks x) resp)) [
          | inl e ↦ rw e (record { channels = refl; tasks = refl; maps = refl })
          | inr e ↦ elim (Bool-cases a.header_saved) [
            | inl f ↦
                rw (e, f)
                  (record {
                    channels = p.channels ∙ sym q.channels;
                    tasks = p.tasks ∙ sym q.tasks;
                    maps = p.maps ∙ sym q.maps;
                  })
            | inr f ↦ rw (e, f) (record { channels = refl; tasks = refl; maps = refl })
          ]
        ]

    after_do-Agree :
        (dm : DownloadMgr L) (a : Attempt) (ticks : List Tick) (result : DoResult)
        → (dm.tasks x).channel ≡ some n
        → Agree (after_do dm x a result) (after_do dm x (record a { ticks = ticks }) result)
    unfolding after_do
    after_do-Agree dm a ticks do_panics owner = record {
      channels = refl;
      tasks = refl;
      maps = refl;
    }
    after_do-Agree dm a ticks (returns none) owner = record {
      channels = refl;
      tasks = refl;
      maps = refl;
    }
    after_do-Agree dm a ticks (returns (some resp)) owner =
        if_Agree (not resp.has_http_response) _ (answered resp.err)
      where
        answered :
            (err : Option Text)
            → Agree
                (after_wait dm x a (wait resp) err)
                (after_wait dm x (record a { ticks = ticks }) (wait resp) err)
        answered (some e) = record { channels = refl; tasks = refl; maps = refl }
        answered none = after_err-Agree dm a ticks (wait resp) refl owner

    -- For a task of a download channel: startDownload calls resp.Err(), which waits for
    -- the end of the transfer, before it enters the monitor loop. So whatever the ticker delivers and
    -- the channel's check answers - a cancellation, an expiry, a size limit, a pause, a low speed -
    -- the idle lists, the tasks and the task map after the attempt are the same as with any other
    -- ticks, none included.
    pub start_download_ignores_ticks :
        (dm : DownloadMgr L) (a : Attempt) (ticks : List Tick)
        → (dm.tasks x).channel ≡ some n
        → Agree (start_download dm x a) (start_download dm x (record a { ticks = ticks }))
    unfolding start_download
    start_download_ignores_ticks dm a ticks owner = elim (Bool-cases a.request_ok) [
      | inr e ↦ rw e (record { channels = refl; tasks = refl; maps = refl })
      | inl e ↦ elim (Bool-cases (dm.tasks x).cancel_flag) [
        | inl f ↦ rw (e, f) (record { channels = refl; tasks = refl; maps = refl })
        | inr f ↦ rw (e, f) (after_do-Agree dm a ticks a.do_result owner)
      ]
    ]
