-- ===== src/Manager/Lifecycle.antt =====
-- The life of one task, as a caller may picture it: an abstract machine that knows no lists, no
-- clocks and no other task.
use downloadmgr.Prelude.{
  ℕ, ◌≡◌, ◌≢◌, refl, ap, arith, Bool, true, false, not, Option, some, if◌then◌else◌,
}
use downloadmgr.ArrayList.{ArrayList}
use downloadmgr.Task.{
  TaskType, quick_task, normal_task, ChannelName, pre_handle_channel, quick_channel, random_channel,
  unpause_fast_channel, unpause_slow_channel,
}
use downloadmgr.Manager.{DownloadMgr}
use downloadmgr.Manager.Add.{entry_channel}
use downloadmgr.Manager.Classify.{Work, is_expired}
use downloadmgr.Manager.Rank.{routes}
use downloadmgr.Manager.Advance.{
  Phase, taken, admitted, started, Advance, goes_on, ends, advance_classify, advance_download,
  advance,
}

-- Not yet made, stored in the task map by a caller who adds it, in the idle list of a channel, with a worker of a channel, or out of the manager.
pub data Status : Type 0 where
  unmade stored gone : Status
  queued : Option ChannelName → Status
  working : ChannelName → Phase → Status

pub data Life : Status → Status → Type 0 where
  enters : Life unmade stored
  is_queued : (t : TaskType) → Life stored (queued (some (entry_channel t)))
  is_taken : (n : ChannelName) → Life (queued (some n)) (working n taken)
  admits : (n : ChannelName) → Life (working n taken) (working n admitted)
  requests :
      (n : ChannelName) → n ≢ pre_handle_channel → Life (working n admitted) (working n started)
  returns :
      (n m : ChannelName) (p : Phase) → routes n m ≡ true → Life (working n p) (queued (some m))
  leaves : (n : ChannelName) (p : Phase) → Life (working n p) gone

pub data Lives (s : Status) : Status → Type 0 where
  here : Lives s s
  next : {t u : Status} → Lives s t → Life t u → Lives s u

pub Lives-trans : {s t u : Status} → Lives s t → Lives t u → Lives s u
Lives-trans p here = p
Lives-trans p (next q l) = next (Lives-trans p q) l

-- Not in the unpause-slow channel.
abbrev pub IsOffSlow : Status → Type 0
IsOffSlow (queued o) = o ≢ some unpause_slow_channel
IsOffSlow (working n p) = n ≢ unpause_slow_channel
IsOffSlow unmade = Unit {0}
IsOffSlow stored = Unit {0}
IsOffSlow gone = Unit {0}

routes_slow : (n : ChannelName) → routes n unpause_slow_channel ≡ true → n ≡ unpause_slow_channel
routes_slow pre_handle_channel e = cc
routes_slow quick_channel e = cc
routes_slow random_channel e = cc
routes_slow unpause_fast_channel e = cc
routes_slow unpause_slow_channel e = refl

entry_channel-IsOffSlow : (t : TaskType) → IsOffSlow (queued (some (entry_channel t)))
entry_channel-IsOffSlow quick_task = λ e. cc
entry_channel-IsOffSlow normal_task = λ e. cc

Life-IsOffSlow : {t u : Status} → Life t u → IsOffSlow t → IsOffSlow u
Life-IsOffSlow enters h = tt
Life-IsOffSlow (is_queued k) h = entry_channel-IsOffSlow k
Life-IsOffSlow (is_taken n) h = λ e. h (ap some e)
Life-IsOffSlow (admits n) h = h
Life-IsOffSlow (requests n w) h = h
Life-IsOffSlow (returns n m p ok) h = λ e. h (routes_slow n (ground (arith, e, ok)))
Life-IsOffSlow (leaves n p) h = tt

pub Lives-IsOffSlow : {t u : Status} → Lives t u → IsOffSlow t → IsOffSlow u
Lives-IsOffSlow here h = h
Lives-IsOffSlow (next q l) h = Life-IsOffSlow l (Lives-IsOffSlow q h)

module _ {L : Type 0} where
  -- A worker that goes on does the next step of the abstract machine.
  abbrev pub LivesIfGoes : ChannelName → Phase → Advance L → Type 0
  LivesIfGoes n p (goes_on q) = Life (working n p) (working n q)
  LivesIfGoes n p (ends d) = Unit {0}

  if_goes :
      (n : ChannelName) (p : Phase) (b : Bool) (a a' : Advance L)
      → LivesIfGoes n p a
      → LivesIfGoes n p a'
      → LivesIfGoes n p (if b then a else a')
  if_goes n p true a a' h k = h
  if_goes n p false a a' h k = k

module _ {L : Type 0} ⦃al : ArrayList L⦄ (dm : DownloadMgr L) (x : ℕ) (w : Work) where
  classify-LivesIfGoes : (p : Phase) → LivesIfGoes pre_handle_channel p (advance_classify p dm x w)
  unfolding advance_classify
  classify-LivesIfGoes taken =
      if_goes pre_handle_channel taken (dm.tasks x).cancel_flag _ _ tt (admits pre_handle_channel)
  classify-LivesIfGoes admitted = tt
  classify-LivesIfGoes started = tt

  download-LivesIfGoes :
      (n : ChannelName) (p : Phase)
      → n ≢ pre_handle_channel
      → LivesIfGoes n p (advance_download p dm x w)
  unfolding advance_download
  download-LivesIfGoes n taken works =
      if_goes n taken (dm.tasks x).cancel_flag _ _ tt
        (if_goes n taken (is_expired (dm.tasks x) w.began) _ _ tt (admits n))
  download-LivesIfGoes n admitted works =
      if_goes n admitted (not w.attempt.request_ok) _ _ tt
        (if_goes n admitted (dm.tasks x).cancel_flag _ _ tt (requests n works))
  download-LivesIfGoes n started works = tt

  pub advance-LivesIfGoes : (n : ChannelName) (p : Phase) → LivesIfGoes n p (advance n p dm x w)
  unfolding advance
  advance-LivesIfGoes pre_handle_channel p = classify-LivesIfGoes p
  advance-LivesIfGoes quick_channel p = download-LivesIfGoes quick_channel p (λ e. cc)
  advance-LivesIfGoes random_channel p = download-LivesIfGoes random_channel p (λ e. cc)
  advance-LivesIfGoes unpause_fast_channel p = download-LivesIfGoes unpause_fast_channel p (λ e. cc)
  advance-LivesIfGoes unpause_slow_channel p = download-LivesIfGoes unpause_slow_channel p (λ e. cc)
