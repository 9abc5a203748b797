-- ===== src/Manager/Advance/Spares.antt =====
-- What the next part of a worker's work does to another task, or to a task that was cancelled before
-- client.Do: it neither requests it nor reports its success.
use downloadmgr.Prelude.{
  ℕ, ◌≡◌, ◌≢◌, refl, ap, Bool, true, false, not, Option, none, some, inl, inr, Bool-cases,
  if◌then◌else◌,
}
use downloadmgr.ArrayList.{ArrayList}
use downloadmgr.Task.{
  ChannelName, fail_expire, fail_request_error, pre_handle_channel, quick_channel, random_channel,
  unpause_fast_channel, unpause_slow_channel,
}
use downloadmgr.Manager.{DownloadMgr, push_task, set_fail_reason}
use downloadmgr.Manager.Download.Success.{
  NoSuccess, task_cancel-NoSuccess, task_fail-NoSuccess, task_break_off-NoSuccess,
}
use downloadmgr.Manager.Download.Success.Others.{after_do-NoSuccess}
use downloadmgr.Manager.Classify.{Work, is_expired, classify, classified}
use downloadmgr.Manager.Advance.{
  Phase, taken, admitted, started, Advance, goes_on, ends, advance_classify, advance_download,
  advance,
}

abbrev pub is_started : Phase → Bool
is_started started = true
is_started _ = false

-- A worker that holds the task `x` in phase `p` is not at client.Do for `r`.
abbrev pub IsElsewhere : ℕ → Phase → ℕ → Type 0
IsElsewhere r p x = is_started p ≡ true → x ≢ r

module _ {L : Type 0} ⦃al : ArrayList L⦄ (r : ℕ) where
  -- The next part of a worker's work on `x` neither requests `r` nor reports its success.
  abbrev pub Spares : DownloadMgr L → ℕ → Advance L → Type 0
  Spares dm x (goes_on p) = IsElsewhere r p x
  Spares dm x (ends d) = NoSuccess r dm.calls d

  if_Spares :
      (b : Bool) (dm : DownloadMgr L) (x : ℕ) (p q : Advance L)
      → Spares dm x p
      → Spares dm x q
      → Spares dm x (if b then p else q)
  if_Spares true dm x p q h k = h
  if_Spares false dm x p q h k = k

  classified-NoSuccess :
      (dm : DownloadMgr L) (now x : ℕ) (o : Option Bool)
      → NoSuccess r dm.calls (classified dm now x (classify dm x o))
  unfolding classify classified push_task
  classified-NoSuccess dm now x none =
      task_break_off-NoSuccess r (set_fail_reason dm x fail_request_error) now x
  classified-NoSuccess dm now x (some true) = record { kept = refl }
  classified-NoSuccess dm now x (some false) = record { kept = refl }

  module _ (dm : DownloadMgr L) (x : ℕ) (w : Work) (flagged : (dm.tasks r).cancel_flag ≡ true) where
    classify-Spares : (p : Phase) → Spares dm x (advance_classify p dm x w)
    unfolding advance_classify
    classify-Spares taken =
        if_Spares (dm.tasks x).cancel_flag dm x _ _ (task_cancel-NoSuccess r dm x) (λ e. cc)
    classify-Spares admitted = classified-NoSuccess dm w.ended x _
    classify-Spares started = classified-NoSuccess dm w.ended x _

    download-Spares : (p : Phase) → IsElsewhere r p x → Spares dm x (advance_download p dm x w)
    unfolding advance_download
    download-Spares taken h =
        if_Spares (dm.tasks x).cancel_flag dm x _ _ (task_cancel-NoSuccess r dm x) (
          if_Spares (is_expired (dm.tasks x) w.began) dm x _ _
            (task_fail-NoSuccess r (set_fail_reason dm x fail_expire) x) (λ e. cc))
    download-Spares admitted h =
        if_Spares (not w.attempt.request_ok) dm x _ _
          (task_break_off-NoSuccess r (set_fail_reason dm x fail_request_error) w.attempt.now x)
          (elim (Bool-cases (dm.tasks x).cancel_flag) [
            | inl e ↦ rw e (task_cancel-NoSuccess r dm x)
            | inr e ↦ rw e (λ d same. absurd (cc (ap (λ q. (dm.tasks q).cancel_flag) same)))
          ])
    download-Spares started h = after_do-NoSuccess r x (h refl) dm w.attempt w.attempt.do_result

    pub advance-Spares :
        (n : ChannelName) (p : Phase) → IsElsewhere r p x → Spares dm x (advance n p dm x w)
    unfolding advance
    advance-Spares pre_handle_channel p h = classify-Spares p
    advance-Spares quick_channel p h = download-Spares p h
    advance-Spares random_channel p h = download-Spares p h
    advance-Spares unpause_fast_channel p h = download-Spares p h
    advance-Spares unpause_slow_channel p h = download-Spares p h
