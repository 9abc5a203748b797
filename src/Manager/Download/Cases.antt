-- ===== src/Manager/Download/Cases.antt =====
-- startDownload, branch by branch: what each leaves, and that it settles the worker's task.
use downloadmgr.Prelude.{
  ℕ, ◌≡◌, ◌≢◌, refl, true, not, List, Option, some, none, arith, eqb_ℤ, Text, ℤ, pos, contains,
  codes, sym, subst,
}
use downloadmgr.ArrayList.{ArrayList}
use downloadmgr.Task.{
  Task, Response, ChannelName, pre_handle_channel, downloading, FailReasonType, fail_size_limit,
  fail_request_error, fail_other,
}
use downloadmgr.Manager.{
  DownloadMgr, write_task, log, client_panic, Call, set_fail_reason, task_success, task_cancel,
  task_fail, task_break_off,
}
use downloadmgr.Manager.Places.{endings, losses, panics, BelongsTo, IsSafe, Settles, Quiet, Held}
use downloadmgr.Manager.Settle.{
  client_panic-Settles, task_success-Settles, task_cancel-Settles, task_fail-Settles,
  task_break_off-Settles, Quiet-Settles, Quiet-IsSafe, Quiet-Held, Quiet-trans, write-Quiet,
  if_Settles,
}
use downloadmgr.Manager.Download.{
  DoResult, returns, do_panics, Attempt, monitor, check_file, after_loop, after_transfer,
  after_wait, after_err, after_do, start_download, wait,
}
use downloadmgr.Manager.Download.Monitor.{Logs, monitor-Logs}

module _ {L : Type 0} ⦃al : ArrayList L⦄ (n : ChannelName) (x : ℕ) where
  -- A manager whose task `x` a worker of channel `n` holds, reached from `dm` by quiet changes.
  pub record Ready (dm dm' : DownloadMgr L) : Type 0 where
    quiet : Quiet dm x dm'
    held : Held dm' n x
    safe : IsSafe dm'

  pub start_Ready : (dm : DownloadMgr L) → Held dm n x → IsSafe dm → Ready dm dm
  start_Ready dm h s = record {
    quiet = record {
      same_channel = refl;
      same_map = refl;
      same_next = refl;
      same_current = refl;
      others = λ k h. refl;
      same_id = refl;
      same_flag = refl;
      same_endings = λ r. refl;
      same_losses = λ r. refl;
      same_panics = refl;
    };
    held = h;
    safe = s;
  }

  write_Ready :
      {dm dm' : DownloadMgr L} (t : Task)
      → Ready dm dm'
      → t.id ≡ (dm'.tasks x).id
      → t.cancel_flag ≡ (dm'.tasks x).cancel_flag
      → BelongsTo n t
      → Ready dm (write_task dm' x t)
  write_Ready {dm} {dm'} t p i f b =
      let q = write-Quiet dm' x t i f in
      record {
        quiet = Quiet-trans p.quiet q;
        held = Quiet-Held dm' _ n x q (ground (arith, b)) p.held;
        safe = Quiet-IsSafe dm' _ n x q p.held p.safe;
      }

  pub reason_Ready :
      {dm dm' : DownloadMgr L} (f : FailReasonType)
      → Ready dm dm'
      → Ready dm (set_fail_reason dm' x f)
  reason_Ready f p = write_Ready _ p refl refl p.held.belongs

  pub broken_off :
      {dm dm' : DownloadMgr L} (now : ℕ) → Ready dm dm' → Settles dm x (task_break_off dm' now x)
  broken_off {dm} {dm'} now p =
      Quiet-Settles dm dm' _ x p.quiet (task_break_off-Settles dm' n now x p.held p.safe)

  failed : {dm dm' : DownloadMgr L} → Ready dm dm' → Settles dm x (task_fail dm' x)
  failed {dm} {dm'} p = Quiet-Settles dm dm' _ x p.quiet (task_fail-Settles dm' x p.held.out p.safe)

  cancelled : {dm dm' : DownloadMgr L} → Ready dm dm' → Settles dm x (task_cancel dm' x)
  cancelled {dm} {dm'} p =
      Quiet-Settles dm dm' _ x p.quiet (task_cancel-Settles dm' x p.held.out p.safe)

  succeeded : {dm dm' : DownloadMgr L} → Ready dm dm' → Settles dm x (task_success dm' x)
  succeeded {dm} {dm'} p =
      Quiet-Settles dm dm' _ x p.quiet (task_success-Settles dm' x p.held.out p.safe)

  lost : {dm dm' : DownloadMgr L} → Ready dm dm' → Settles dm x (log dm' (client_panic x))
  lost {dm} {dm'} p =
      Quiet-Settles dm dm' _ x p.quiet (client_panic-Settles dm' x p.held.out p.safe)

  calls_Ready :
      {dm dm' : DownloadMgr L} (cs : List Call)
      → ((r : ℕ) → endings r cs ≡ endings r dm'.calls)
      → ((r : ℕ) → losses r cs ≡ losses r dm'.calls)
      → panics cs ≡ panics dm'.calls
      → Ready dm dm'
      → Ready dm (record dm' { calls = cs })
  calls_Ready {dm} {dm'} cs e u f p =
      let q : Quiet dm' x (record dm' { calls = cs }) = record {
        same_channel = refl;
        same_map = refl;
        same_next = refl;
        same_current = refl;
        others = λ k h. refl;
        same_id = refl;
        same_flag = refl;
        same_endings = e;
        same_losses = u;
        same_panics = f;
      } in
      record {
        quiet = Quiet-trans p.quiet q;
        held = Quiet-Held dm' _ n x q p.held.belongs p.held;
        safe = Quiet-IsSafe dm' _ n x q p.held p.safe;
      }

  logged_Ready : {dm dm' dm'' : DownloadMgr L} → Ready dm dm' → Logs dm' dm'' → Ready dm dm''
  logged_Ready {dm} {dm'} p l =
      subst (Ready dm) (sym l.same)
        (calls_Ready l.calls l.same_endings l.same_losses l.same_panics p)

  check_file-Settles :
      {dm dm' : DownloadMgr L} (now : ℕ) (stat : Option ℤ)
      → Ready dm dm'
      → Settles dm x (check_file dm' now x stat)
  unfolding check_file
  check_file-Settles now none p = broken_off now (reason_Ready _ p)
  check_file-Settles now (some size) p =
      if_Settles (eqb_ℤ size (pos 0)) (broken_off now (reason_Ready _ p)) (succeeded p)

  after_transfer-Settles :
      {dm dm' : DownloadMgr L} (a : Attempt) (err : Option Text)
      → Ready dm dm'
      → Settles dm x (after_transfer dm' x a err)
  unfolding after_transfer
  after_transfer-Settles a (some e) p =
      if_Settles (contains (codes "no space") e) (failed (reason_Ready _ p)) (broken_off a.now p)
  after_transfer-Settles a none p = check_file-Settles a.now a.stat p

  module _ (works : n ≢ pre_handle_channel) where
    loop-Settles :
        {dm dm' : DownloadMgr L} (a : Attempt) (resp : Response)
        → resp.complete ≡ true
        → Ready dm dm'
        → Settles dm x (after_loop x a resp (monitor dm' x resp a.ticks))
    unfolding after_loop
    loop-Settles {dm} {dm'} a resp done p =
        let (dm'', e, l) = monitor-Logs dm' n x resp a.ticks done p.held.belongs.0 works in
        subst (λ l. Settles dm x (after_loop x a resp l)) (sym e)
          (after_transfer-Settles a resp.err (logged_Ready p l))

    after_err-Settles :
        {dm dm' : DownloadMgr L} (a : Attempt) (resp : Response)
        → resp.complete ≡ true
        → Ready dm dm'
        → Settles dm x (after_err dm' x a resp)
    unfolding after_err
    after_err-Settles {dm} {dm'} a resp done p =
        let d₁ = write_task dm' x (record (dm'.tasks x) { response = some resp }) in
        let p₁ : Ready dm d₁ = write_Ready _ p refl refl p.held.belongs in
        if_Settles _ (failed (reason_Ready fail_size_limit p₁)) (
          if_Settles (not a.header_saved) (broken_off a.now (reason_Ready fail_request_error p₁)) (
            loop-Settles a resp done (
              write_Ready (record (d₁.tasks x) { status = downloading }) p₁ refl refl
                p₁.held.belongs)))

    pub after_do-Settles :
        {dm dm' : DownloadMgr L} (a : Attempt) (result : DoResult)
        → Ready dm dm'
        → Settles dm x (after_do dm' x a result)
    unfolding after_do
    after_do-Settles a do_panics p = lost p
    after_do-Settles a (returns none) p = broken_off a.now (reason_Ready fail_request_error p)
    after_do-Settles a (returns (some resp)) p =
        if_Settles (not resp.has_http_response)
          (broken_off a.now (reason_Ready fail_request_error p))
          (after_wait-Settles a (wait resp) refl resp.err p)
      where
        after_wait-Settles :
            {dm dm' : DownloadMgr L} (a : Attempt) (resp : Response)
            → resp.complete ≡ true
            → (err : Option Text) → Ready dm dm'
            → Settles dm x (after_wait dm' x a resp err)
        after_wait-Settles a resp done (some e) p = broken_off a.now (reason_Ready fail_other p)
        after_wait-Settles a resp done none p = after_err-Settles a resp done p

    -- Whatever happens in an attempt of a worker that is not a classifying one, startDownload
    -- puts its task back into one idle list, ends it with at most one terminal callback, or loses it
    -- in a panic of client.Do, leaves every other task alone, and keeps the manager safe.
    pub start_download-Settles :
        (dm : DownloadMgr L) (a : Attempt)
        → Held dm n x
        → IsSafe dm
        → Settles dm x (start_download dm x a)
    unfolding start_download
    start_download-Settles dm a h s =
        let p = start_Ready dm h s in
        if_Settles (not a.request_ok) (broken_off a.now (reason_Ready fail_request_error p))
          (if_Settles (dm.tasks x).cancel_flag (cancelled p) (after_do-Settles a a.do_result p))
