-- ===== src/Manager/Download/Lowers.antt =====
-- startDownload lowers the rank of its task, or ends with the task in no idle list.
use downloadmgr.Prelude.{
  ℕ, ◌≡◌, ◌≢◌, inl, refl, sym, subst, true, not, Option, none, some, contains, codes, Text, ℤ, pos,
  eqb_ℤ,
}
use downloadmgr.ArrayList.{ArrayList}
use downloadmgr.Task.{
  Response, ChannelName, pre_handle_channel, downloading, FailReasonType, fail_no_space,
  fail_size_limit, fail_request_error, fail_other,
}
use downloadmgr.Manager.{DownloadMgr, write_task, set_fail_reason}
use downloadmgr.Manager.Download.{
  Attempt, monitor, check_file, after_transfer, after_loop, over_content_limit, after_err, DoResult,
  returns, do_panics, after_wait, after_do, wait,
}
use downloadmgr.Manager.Download.Monitor.{Logs, monitor-Logs}
use downloadmgr.Manager.Rank.{Lowers, Tries, if_Lowers, write_Tries, failed, succeeded, broken_off}

module _ {L : Type 0} ⦃al : ArrayList L⦄ (x k : ℕ) {n : ChannelName} where
  pub reason_Tries :
      {dm : DownloadMgr L} (f : FailReasonType)
      → Tries x k n dm
      → Tries x k n (set_fail_reason dm x f)
  reason_Tries {dm} f p =
      write_Tries x k {dm = dm} (record (dm.tasks x) { fail_reason = f }) refl refl p

  logged_Tries : {dm dm' : DownloadMgr L} → Logs dm dm' → Tries x k n dm → Tries x k n dm'
  logged_Tries l p =
      subst (Tries x k n) (sym l.same)
        (record { out = p.out; owner = p.owner; has_rank = p.has_rank; limits = p.limits })

  check_file-Lowers :
      {dm : DownloadMgr L} (now : ℕ) (stat : Option ℤ)
      → Tries x k n dm
      → Lowers x k n (check_file dm now x stat)
  unfolding check_file
  check_file-Lowers now none p = broken_off x k now (reason_Tries fail_other p)
  check_file-Lowers now (some size) p =
      if_Lowers x k (eqb_ℤ size (pos 0)) (broken_off x k now (reason_Tries fail_other p))
        (succeeded x k p)

  after_transfer-Lowers :
      {dm : DownloadMgr L} (a : Attempt) (err : Option Text)
      → Tries x k n dm
      → Lowers x k n (after_transfer dm x a err)
  unfolding after_transfer
  after_transfer-Lowers a (some e) p =
      if_Lowers x k (contains (codes "no space") e) (failed x k (reason_Tries fail_no_space p))
        (broken_off x k a.now p)
  after_transfer-Lowers a none p = check_file-Lowers a.now a.stat p

  module _ (works : n ≢ pre_handle_channel) where
    loop-Lowers :
        {dm : DownloadMgr L} (a : Attempt) (resp : Response)
        → resp.complete ≡ true
        → Tries x k n dm
        → Lowers x k n (after_loop x a resp (monitor dm x resp a.ticks))
    unfolding after_loop
    loop-Lowers {dm} a resp done p =
        let (dm', e, l) = monitor-Logs dm n x resp a.ticks done p.owner works in
        subst (λ l. Lowers x k n (after_loop x a resp l)) (sym e)
          (after_transfer-Lowers a resp.err (logged_Tries l p))

    after_err-Lowers :
        {dm : DownloadMgr L} (a : Attempt) (resp : Response)
        → resp.complete ≡ true
        → Tries x k n dm
        → Lowers x k n (after_err dm x a resp)
    unfolding after_err
    after_err-Lowers {dm} a resp done p =
        let d = write_task dm x (record (dm.tasks x) { response = some resp }) in
        let q : Tries x k n d =
          write_Tries x k {dm = dm} (record (dm.tasks x) { response = some resp }) refl refl p in
        if_Lowers x k (over_content_limit (d.tasks x) resp)
          (failed x k (reason_Tries fail_size_limit q))
          (if_Lowers x k (not a.header_saved)
            (broken_off x k a.now (reason_Tries fail_request_error q))
            (loop-Lowers a resp done
              (write_Tries x k {dm = d} (record (d.tasks x) { status = downloading }) refl refl q)))

    after_wait-Lowers :
        {dm : DownloadMgr L} (a : Attempt) (resp : Response) (err : Option Text)
        → resp.complete ≡ true
        → Tries x k n dm
        → Lowers x k n (after_wait dm x a resp err)
    unfolding after_wait
    after_wait-Lowers a resp (some e) done p = broken_off x k a.now (reason_Tries fail_other p)
    after_wait-Lowers a resp none done p = after_err-Lowers a resp done p

    pub after_do-Lowers :
        {dm : DownloadMgr L} (a : Attempt) (res : DoResult)
        → Tries x k n dm
        → Lowers x k n (after_do dm x a res)
    unfolding after_do
    after_do-Lowers a do_panics p = record { lower = inl p.out }
    after_do-Lowers a (returns none) p = broken_off x k a.now (reason_Tries fail_request_error p)
    after_do-Lowers a (returns (some resp)) p =
        if_Lowers x k (not resp.has_http_response)
          (broken_off x k a.now (reason_Tries fail_request_error p))
          (after_wait-Lowers a (wait resp) resp.err refl p)
