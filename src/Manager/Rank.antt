-- ===== src/Manager/Rank.antt =====
-- How often a task may still be handled: a rank that every requeueing by a worker lowers, since
-- taskBreakOff counts the failures, which the channels limit, and classification is done once.
pub mod Works
use downloadmgr.Prelude.{
  ℕ, ◌+◌, ◌-◌, ◌*◌, ◌≤◌, ◌<◌, ◌≡◌, ◌⊎◌, inl, inr, refl, sym, subst, arith, Bool, true, false,
  Option, none, some, leb, Bool-cases, if◌then◌else◌, List,
}
use downloadmgr.ArrayList.{ArrayList}
use downloadmgr.Task.{
  Task, fail, no_fail, FailReasonType, ChannelName, pre_handle_channel, quick_channel,
  random_channel, unpause_fast_channel, unpause_slow_channel,
}
use downloadmgr.Manager.{
  DownloadMgr, name_eq, Call, write_task, push_task, set_fail_reason, task_success, task_cancel,
  task_fail, task_break_off, break_off_in,
}
use downloadmgr.Manager.Places.{idle_count, BelongsTo, HasLimits, retry_limit}

-- A task that is in no channel yet may be pushed into the prehandle channel.
abbrev to_classify : Option ChannelName → ℕ
to_classify none = 1
to_classify (some pre_handle_channel) = 1
to_classify (some _) = 0

-- No channel retries more often than three times.
abbrev pub task_rank : Task → ℕ
task_rank t = 2 * (3 - t.fail_times) + to_classify t.channel

retry_limit-bound : (n : ChannelName) → retry_limit n ≤ 3
retry_limit-bound pre_handle_channel = omega arith
retry_limit-bound quick_channel = omega arith
retry_limit-bound random_channel = omega arith
retry_limit-bound unpause_fast_channel = omega arith
retry_limit-bound unpause_slow_channel = omega arith

-- From which channel's worker a task may come into which idle list.
abbrev pub routes : ChannelName → ChannelName → Bool
routes pre_handle_channel random_channel = true
routes pre_handle_channel unpause_fast_channel = true
routes n m = name_eq n m

routes_back : (n : ChannelName) → routes n n ≡ true
routes_back pre_handle_channel = refl
routes_back quick_channel = refl
routes_back random_channel = refl
routes_back unpause_fast_channel = refl
routes_back unpause_slow_channel = refl

module _ {L : Type 0} ⦃al : ArrayList L⦄ (x k : ℕ) where
  -- The task is in no idle list, or it is in one with a rank below `k`, and belongs to a channel
  -- that a worker of channel `n` may push it into.
  pub record Lowers (n : ChannelName) (dm : DownloadMgr L) : Type 0 where
    pub lower :
        (idle_count x dm ≡ 0)
        ⊎ ((task_rank (dm.tasks x) < k)
            × ((m : ChannelName) × ((dm.tasks x).channel ≡ some m) × (routes n m ≡ true)))

  -- A worker of channel `n` holds the task with the rank `k`.
  pub record Tries (n : ChannelName) (dm : DownloadMgr L) : Type 0 where
    pub out : idle_count x dm ≡ 0
    pub owner : (dm.tasks x).channel ≡ some n
    pub has_rank : task_rank (dm.tasks x) ≡ k
    pub limits : HasLimits n (dm.channel n)

  pub if_Lowers :
      {n : ChannelName} (b : Bool) {d e : DownloadMgr L}
      → Lowers n d
      → Lowers n e
      → Lowers n (if b then d else e)
  if_Lowers true p q = p
  if_Lowers false p q = q

  if_Lowers_by :
      {n : ChannelName} (b : Bool) {d e : DownloadMgr L}
      → Lowers n d
      → (b ≡ false → Lowers n e)
      → Lowers n (if b then d else e)
  if_Lowers_by true p q = p
  if_Lowers_by false p q = q refl

  module _ {n : ChannelName} where
    pub write_Tries :
        {dm : DownloadMgr L} (t : Task)
        → t.channel ≡ (dm.tasks x).channel
        → t.fail_times ≡ (dm.tasks x).fail_times
        → Tries n dm
        → Tries n (write_task dm x t)
    write_Tries t c f p = record {
      out = p.out;
      owner = ground (arith, c, p.owner);
      has_rank = ground (arith, c, f, p.owner, p.has_rank);
      limits = p.limits;
    }

    pub failed : {dm : DownloadMgr L} → Tries n dm → Lowers n (task_fail dm x)
    unfolding task_fail
    failed p = record { lower = inl p.out }

    pub cancelled : {dm : DownloadMgr L} → Tries n dm → Lowers n (task_cancel dm x)
    unfolding task_cancel
    cancelled p = record { lower = inl p.out }

    pub succeeded : {dm : DownloadMgr L} → Tries n dm → Lowers n (task_success dm x)
    unfolding task_success
    succeeded p = record { lower = inl p.out }

    requeued :
        (dm : DownloadMgr L) (now : ℕ)
        → Tries n dm
        → leb (dm.channel n).retry_times_limit (dm.tasks x).fail_times ≡ false
        → Lowers n (
            push_task
              (write_task dm x (record (dm.tasks x) {
                fail_reason = no_fail;
                fail_times = (dm.tasks x).fail_times + 1;
                allow_start_time = now + 5000;
              }))
              n
              x)
    unfolding push_task
    requeued dm now p few = record {
      lower = inr (
        ground (arith, few, p.owner, p.has_rank, p.limits.0, retry_limit-bound n),
        (n, ground arith, routes_back n),
      );
    }

    break_off_at :
        (dm : DownloadMgr L) (now : ℕ) (o : Option ChannelName)
        → some n ≡ o
        → Tries n dm
        → Lowers n (break_off_in o dm now x)
    unfolding break_off_in
    break_off_at dm now o e p =
        subst (λ o. Lowers n (break_off_in o dm now x)) e
          (if_Lowers_by (leb (dm.channel n).retry_times_limit (dm.tasks x).fail_times) (failed p)
            (requeued dm now p))

    pub broken_off :
        {dm : DownloadMgr L} (now : ℕ) → Tries n dm → Lowers n (task_break_off dm now x)
    unfolding task_break_off
    broken_off {dm} now p =
        let failed_mgr = write_task dm x (record (dm.tasks x) { status = fail }) in
        let q = write_Tries {dm = dm} (record (dm.tasks x) { status = fail }) refl refl p in
        break_off_at failed_mgr now _ (sym q.owner) q
