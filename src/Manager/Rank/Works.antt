-- ===== src/Manager/Rank/Works.antt =====
-- A worker that is done with its task has lowered its rank, or has left it in no idle list.
use downloadmgr.Prelude.{
  ℕ, ◌≢◌, inr, refl, arith, Bool, true, false, not, Option, none, some, if◌then◌else◌,
}
use downloadmgr.ArrayList.{ArrayList}
use downloadmgr.Task.{
  ChannelName, pre_handle_channel, quick_channel, random_channel, unpause_fast_channel,
  unpause_slow_channel, fail_expire, fail_request_error,
}
use downloadmgr.Manager.{DownloadMgr, push_task}
use downloadmgr.Manager.Download.Lowers.{reason_Tries, after_do-Lowers}
use downloadmgr.Manager.Classify.{Work, is_expired, classify, classified}
use downloadmgr.Manager.Advance.{
  Phase, taken, admitted, started, Advance, goes_on, ends, advance_classify, advance_download,
  advance,
}
use downloadmgr.Manager.Rank.{Lowers, Tries, failed, cancelled, broken_off}

module _ {L : Type 0} ⦃al : ArrayList L⦄ (x k : ℕ) where
  abbrev pub LowersIfEnds : ChannelName → Advance L → Type 0
  LowersIfEnds n (goes_on p) = Unit {0}
  LowersIfEnds n (ends dm) = Lowers x k n dm

  if_ends :
      (n : ChannelName) (b : Bool) (p q : Advance L)
      → LowersIfEnds n p
      → LowersIfEnds n q
      → LowersIfEnds n (if b then p else q)
  if_ends n true p q h i = h
  if_ends n false p q h i = i

  classified-Lowers :
      (dm : DownloadMgr L) (now : ℕ) (o : Option Bool)
      → Tries x k pre_handle_channel dm
      → Lowers x k pre_handle_channel (classified dm now x (classify dm x o))
  unfolding classify classified push_task
  classified-Lowers dm now none p = broken_off x k now (reason_Tries x k fail_request_error p)
  classified-Lowers dm now (some true) p = record {
    lower = inr (ground (arith, p.owner, p.has_rank), (random_channel, ground arith, refl));
  }
  classified-Lowers dm now (some false) p = record {
    lower = inr (ground (arith, p.owner, p.has_rank), (unpause_fast_channel, ground arith, refl));
  }

  classify-LowersIfEnds :
      (dm : DownloadMgr L) (p : Phase) (w : Work)
      → Tries x k pre_handle_channel dm
      → LowersIfEnds pre_handle_channel (advance_classify p dm x w)
  unfolding advance_classify
  classify-LowersIfEnds dm taken w h =
      if_ends pre_handle_channel (dm.tasks x).cancel_flag _ _ (cancelled x k h) tt
  classify-LowersIfEnds dm admitted w h = classified-Lowers dm w.ended _ h
  classify-LowersIfEnds dm started w h = classified-Lowers dm w.ended _ h

  download-LowersIfEnds :
      (dm : DownloadMgr L) (n : ChannelName) (p : Phase) (w : Work)
      → n ≢ pre_handle_channel
      → Tries x k n dm
      → LowersIfEnds n (advance_download p dm x w)
  unfolding advance_download
  download-LowersIfEnds dm n taken w works h =
      if_ends n (dm.tasks x).cancel_flag _ _ (cancelled x k h) (
        if_ends n (is_expired (dm.tasks x) w.began) _ _
          (failed x k (reason_Tries x k fail_expire h)) tt)
  download-LowersIfEnds dm n admitted w works h =
      if_ends n (not w.attempt.request_ok) _ _
        (broken_off x k w.attempt.now (reason_Tries x k fail_request_error h))
        (if_ends n (dm.tasks x).cancel_flag _ _ (cancelled x k h) tt)
  download-LowersIfEnds dm n started w works h =
      after_do-Lowers x k works w.attempt w.attempt.do_result h

  pub advance-LowersIfEnds :
      (dm : DownloadMgr L) (n : ChannelName) (p : Phase) (w : Work)
      → Tries x k n dm
      → LowersIfEnds n (advance n p dm x w)
  unfolding advance
  advance-LowersIfEnds dm pre_handle_channel p w h = classify-LowersIfEnds dm p w h
  advance-LowersIfEnds dm quick_channel p w h =
      download-LowersIfEnds dm quick_channel p w (λ e. cc) h
  advance-LowersIfEnds dm random_channel p w h =
      download-LowersIfEnds dm random_channel p w (λ e. cc) h
  advance-LowersIfEnds dm unpause_fast_channel p w h =
      download-LowersIfEnds dm unpause_fast_channel p w (λ e. cc) h
  advance-LowersIfEnds dm unpause_slow_channel p w h =
      download-LowersIfEnds dm unpause_slow_channel p w (λ e. cc) h
