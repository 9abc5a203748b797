-- ===== src/Manager/Advance/Settles.antt =====
-- A worker that is done with its task has settled it.
use downloadmgr.Prelude.{ℕ, ◌≢◌, Bool, true, false, not, refl, if◌then◌else◌}
use downloadmgr.ArrayList.{ArrayList}
use downloadmgr.Task.{
  fail_expire, fail_request_error, ChannelName, pre_handle_channel, quick_channel, random_channel,
  unpause_fast_channel, unpause_slow_channel,
}
use downloadmgr.Manager.{DownloadMgr}
use downloadmgr.Manager.Places.{IsSafe, Settles, Held}
use downloadmgr.Manager.Settle.{
  write-Quiet, Quiet-Settles, Quiet-IsSafe, task_cancel-Settles, task_fail-Settles,
}
use downloadmgr.Manager.Download.Cases.{after_do-Settles, start_Ready, reason_Ready, broken_off}
use downloadmgr.Manager.Classify.{Work, is_expired}
use downloadmgr.Manager.Classify.Settles.{classified-Settles}
use downloadmgr.Manager.Advance.{
  Phase, taken, admitted, started, Advance, goes_on, ends, advance_classify, advance_download,
  advance,
}

module _ {L : Type 0} ⦃al : ArrayList L⦄ where
  abbrev pub SettlesIfEnds : DownloadMgr L → ℕ → Advance L → Type 0
  SettlesIfEnds dm x (goes_on p) = Unit {0}
  SettlesIfEnds dm x (ends dm') = Settles dm x dm'

module _ {L : Type 0} ⦃al : ArrayList L⦄ (dm : DownloadMgr L) (x : ℕ) (s : IsSafe dm) where
  if_ends :
      (b : Bool) (p q : Advance L)
      → SettlesIfEnds dm x p
      → SettlesIfEnds dm x q
      → SettlesIfEnds dm x (if b then p else q)
  if_ends true p q h k = h
  if_ends false p q h k = k

  classify-SettlesIfEnds :
      (p : Phase) (w : Work)
      → Held dm pre_handle_channel x
      → SettlesIfEnds dm x (advance_classify p dm x w)
  unfolding advance_classify
  classify-SettlesIfEnds taken w h =
      if_ends (dm.tasks x).cancel_flag _ _ (task_cancel-Settles dm x h.out s) tt
  classify-SettlesIfEnds admitted w h = classified-Settles dm x s w.ended _ h
  classify-SettlesIfEnds started w h = classified-Settles dm x s w.ended _ h

  download-SettlesIfEnds :
      (n : ChannelName) (p : Phase) (w : Work)
      → n ≢ pre_handle_channel
      → Held dm n x
      → SettlesIfEnds dm x (advance_download p dm x w)
  unfolding advance_download
  download-SettlesIfEnds n taken w works h =
      let q = write-Quiet dm x (record (dm.tasks x) { fail_reason = fail_expire }) refl refl in
      if_ends (dm.tasks x).cancel_flag _ _ (task_cancel-Settles dm x h.out s) (
        if_ends (is_expired (dm.tasks x) w.began) _ _
          (Quiet-Settles dm _ _ x q (task_fail-Settles _ x h.out (Quiet-IsSafe dm _ n x q h s))) tt)
  download-SettlesIfEnds n admitted w works h =
      if_ends (not w.attempt.request_ok) _ _
        (broken_off n x w.attempt.now
          (reason_Ready n x fail_request_error (start_Ready n x dm h s)))
        (if_ends (dm.tasks x).cancel_flag _ _ (task_cancel-Settles dm x h.out s) tt)
  download-SettlesIfEnds n started w works h =
      after_do-Settles n x works w.attempt w.attempt.do_result (start_Ready n x dm h s)

  pub advance-SettlesIfEnds :
      (n : ChannelName) (p : Phase) (w : Work)
      → Held dm n x
      → SettlesIfEnds dm x (advance n p dm x w)
  unfolding advance
  advance-SettlesIfEnds pre_handle_channel p w h = classify-SettlesIfEnds p w h
  advance-SettlesIfEnds quick_channel p w h = download-SettlesIfEnds quick_channel p w (λ e. cc) h
  advance-SettlesIfEnds random_channel p w h = download-SettlesIfEnds random_channel p w (λ e. cc) h
  advance-SettlesIfEnds unpause_fast_channel p w h =
      download-SettlesIfEnds unpause_fast_channel p w (λ e. cc) h
  advance-SettlesIfEnds unpause_slow_channel p w h =
      download-SettlesIfEnds unpause_slow_channel p w (λ e. cc) h
