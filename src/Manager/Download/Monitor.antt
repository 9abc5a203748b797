-- ===== src/Manager/Download/Monitor.antt =====
-- The monitor loop of startDownload. It is entered behind a call of Response.Err, which returns
-- only when the transfer is over, so what the checks answer has no effect.
use downloadmgr.Prelude.{ℕ, ◌/◌, ◌≡◌, ◌≢◌, refl, true, ◌∙◌, List, [], ◌∷◌, some, none, arith, ap}
use downloadmgr.ArrayList.{ArrayList}
use downloadmgr.Task.{
  Task, Response, ChannelName, pre_handle_channel, quick_channel, random_channel,
  unpause_fast_channel, unpause_slow_channel,
}
use downloadmgr.Channel.{idle_size}
use downloadmgr.Channel.Check.{Progress, Verdict, check_downloading_state}
use downloadmgr.Manager.{DownloadMgr, Call, on_downloading, on_slow_speed, log_if}
use downloadmgr.Manager.Places.{endings, losses, panics}
use downloadmgr.Manager.Download.{
  Tick, finished, monitor, on_tick, on_tick_in, checked, after_check,
}

check_some :
    (n : ChannelName) (t : Task) (idle : ℕ) (p : Progress) (now : ℕ)
    → n ≢ pre_handle_channel
    → (v : Verdict) × (check_downloading_state n t idle p now ≡ some v)
unfolding check_downloading_state
check_some pre_handle_channel t idle p now h = absurd (h refl)
check_some quick_channel t idle p now h = (_, refl)
check_some random_channel t idle p now h = (_, refl)
check_some unpause_fast_channel t idle p now h = (_, refl)
check_some unpause_slow_channel t idle p now h = (_, refl)

module _ {L : Type 0} ⦃al : ArrayList L⦄ where
  -- The same manager but for calls that end no task.
  pub record Logs (dm dm' : DownloadMgr L) : Type 0 where
    pub calls : List Call
    pub same : dm' ≡ record dm { calls = calls }
    pub same_endings : (r : ℕ) → endings r calls ≡ endings r dm.calls
    pub same_losses : (r : ℕ) → losses r calls ≡ losses r dm.calls
    pub same_panics : panics calls ≡ panics dm.calls

  after_check-complete :
      (n : ChannelName) (dm : DownloadMgr L) (r : ℕ) (resp : Response) (tick : Tick) (v : Verdict)
      → resp.complete ≡ true
      → after_check n dm r resp tick v ≡ none
  unfolding after_check
  after_check-complete n dm r resp tick v done = ground arith

  on_tick-Logs :
      (dm : DownloadMgr L) (n : ChannelName) (r : ℕ) (resp : Response) (tick : Tick)
      → resp.complete ≡ true
      → (dm.tasks r).channel ≡ some n
      → n ≢ pre_handle_channel
      → (dm' : DownloadMgr L) × (on_tick dm r resp tick ≡ (dm', none)) × Logs dm dm'
  unfolding on_tick
  on_tick-Logs dm n r resp tick done owner h =
      let dm₁ = log_if (dm.tasks r).on_downloading dm (on_downloading r) in
      let (v, e) =
        check_some n (dm.tasks r) (idle_size (dm.channel n)) tick.progress (tick.now / 1000) h in
      let dm₂ = log_if v.slow_speed_called dm₁ (on_slow_speed r) in
      (
        dm₂,
        ap (λ o. on_tick_in o dm₁ r resp tick) owner
            ∙ ap (checked n dm₁ r resp tick) e
            ∙ ap (λ o. (dm₂, o)) (after_check-complete n dm₂ r resp tick v done),
        record {
          calls = dm₂.calls;
          same = refl;
          same_endings = λ q. ground arith;
          same_losses = λ q. ground arith;
          same_panics = ground arith;
        },
      )

  Logs-trans : {dm dm' dm'' : DownloadMgr L} → Logs dm dm' → Logs dm' dm'' → Logs dm dm''
  Logs-trans p q = record {
    calls = q.calls;
    same = q.same ∙ ap (λ (d : DownloadMgr L). record d { calls = q.calls }) p.same;
    same_endings = λ r. q.same_endings r ∙ (ap (λ d. endings r d.calls) p.same ∙ p.same_endings r);
    same_losses = λ r. q.same_losses r ∙ (ap (λ d. losses r d.calls) p.same ∙ p.same_losses r);
    same_panics = q.same_panics ∙ (ap (λ d. panics d.calls) p.same ∙ p.same_panics);
  }

  monitor-cons :
      (dm dm' : DownloadMgr L) (r : ℕ) (resp : Response) (tick : Tick) (ticks : List Tick)
      → on_tick dm r resp tick ≡ (dm', none)
      → monitor dm r resp (tick ∷ ticks) ≡ monitor dm' r resp ticks
  unfolding monitor
  monitor-cons dm dm' r resp tick ticks e = rw (e, monitor) (rw e)

  -- With the response complete the loop always ends by `break loop`, and all that it has done is
  -- to call onDownloading and onSlowSpeed.
  pub monitor-Logs :
      (dm : DownloadMgr L) (n : ChannelName) (r : ℕ) (resp : Response) (ticks : List Tick)
      → resp.complete ≡ true
      → (dm.tasks r).channel ≡ some n
      → n ≢ pre_handle_channel
      → (dm' : DownloadMgr L) × (monitor dm r resp ticks ≡ finished dm') × Logs dm dm'
  unfolding monitor
  monitor-Logs dm n r resp [] done owner h = (
    dm,
    refl,
    record {
      calls = dm.calls;
      same = refl;
      same_endings = λ r. refl;
      same_losses = λ r. refl;
      same_panics = refl;
    },
  )
  monitor-Logs dm n r resp (tick ∷ ticks) done owner h =
      let (dm₁, e, log₁) = on_tick-Logs dm n r resp tick done owner h in
      let (dm₂, f, log₂) =
        monitor-Logs dm₁ n r resp ticks done (ap (λ d. (d.tasks r).channel) log₁.same ∙ owner) h in
      (dm₂, monitor-cons dm dm₁ r resp tick ticks e ∙ f, Logs-trans log₁ log₂)
