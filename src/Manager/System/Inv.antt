-- ===== src/Manager/System/Inv.antt =====
-- What holds of the program after every interleaving of callers and workers.
use downloadmgr.Prelude.{
  ℕ, count, ◌<◌, zero, suc, ◌+◌, ◌≤◌, ◌≡◌, ◌≢◌, List, [], ◌∷◌, none, some, one_if, arith, get_elem?,
  remove_at, set,
}
use downloadmgr.ArrayList.{ArrayList}
use downloadmgr.Task.{Task, ChannelName}
use downloadmgr.Manager.{DownloadMgr, start_times}
use downloadmgr.Manager.Places.{endings, losses, idle_count, worker_limit, BelongsTo, IsSafe}
use downloadmgr.Manager.Advance.{Phase, Worker}
use downloadmgr.Manager.System.{System, busy}

-- How often the workers hold `r`.
abbrev pub held_count : ℕ → List Worker → ℕ
held_count r [] = 0
held_count r (k ∷ held) = one_if k.task r + held_count r held

pub held_count-remove_at :
    (r i : ℕ) (held : List Worker) {k : Worker}
    → get_elem? held i ≡ some k
    → one_if k.task r + held_count r (remove_at i held) ≡ held_count r held
held_count-remove_at r i [] e = cc
held_count-remove_at r zero (j ∷ held) e = ground arith
held_count-remove_at r (suc i) (j ∷ held) e = omega (arith, held_count-remove_at r i held e)

pub busy-remove_at :
    (n : ChannelName) (i : ℕ) (held : List Worker) → busy n (remove_at i held) ≤ busy n held
busy-remove_at n i [] = omega arith
busy-remove_at n zero (j ∷ held) = omega arith
busy-remove_at n (suc i) (j ∷ held) = omega (arith, busy-remove_at n i held)

-- A worker that goes on to another phase.
module _ (p : Phase) where
  pub held_count-set :
      (r i : ℕ) (held : List Worker) {k : Worker}
      → get_elem? held i ≡ some k
      → held_count r (set held i (record k { phase = p })) ≡ held_count r held
  held_count-set r i [] e = cc
  held_count-set r zero (j ∷ held) e = ground arith
  held_count-set r (suc i) (j ∷ held) e = omega (arith, held_count-set r i held e)

  pub busy-set :
      (n : ChannelName) (i : ℕ) (held : List Worker) {k : Worker}
      → get_elem? held i ≡ some k
      → busy n (set held i (record k { phase = p })) ≡ busy n held
  busy-set n i [] e = cc
  busy-set n zero (j ∷ held) e = ground arith
  busy-set n (suc i) (j ∷ held) e = omega (arith, busy-set n i held e)

-- A task that was not yet pushed into a channel.
abbrev pub IsNew : Task → Type 0
IsNew t = (t.fail_times ≡ 0) × (t.channel ≡ none)

module _ {L : Type 0} where
  -- Every held task belongs to the channel of the worker that holds it.
  abbrev pub Holders : DownloadMgr L → List Worker → Type 0
  Holders dm [] = Unit {0}
  Holders dm (k ∷ held) = BelongsTo k.channel (dm.tasks k.task) × Holders dm held

  pub Holders-congr :
      (dm dm' : DownloadMgr L) (x : ℕ) (held : List Worker)
      → ((q : ℕ) → x ≢ q → dm'.tasks q ≡ dm.tasks q)
      → held_count x held ≡ 0
      → Holders dm held
      → Holders dm' held
  Holders-congr dm dm' x [] others out h = tt
  Holders-congr dm dm' x (j ∷ held) others out h = (
    rw (others j.task (λ e. absurd (ground arith))) h.0,
    Holders-congr dm dm' x held others (ground arith) h.1,
  )

  pub Holders-remove_at :
      (dm : DownloadMgr L) (i : ℕ) (held : List Worker)
      → Holders dm held
      → Holders dm (remove_at i held)
  Holders-remove_at dm i [] h = tt
  Holders-remove_at dm zero (p ∷ held) h = h.1
  Holders-remove_at dm (suc i) (p ∷ held) h = (h.0, Holders-remove_at dm i held h.1)

  pub Holders-set :
      (dm : DownloadMgr L) (p : Phase) (i : ℕ) (held : List Worker) {k : Worker}
      → get_elem? held i ≡ some k
      → Holders dm held
      → Holders dm (set held i (record k { phase = p }))
  Holders-set dm p i [] e h = h
  Holders-set dm p zero (j ∷ held) e h = (ground arith, h.1)
  Holders-set dm p (suc i) (j ∷ held) e h = (h.0, Holders-set dm p i held e h.1)

  pub Holders-at :
      (dm : DownloadMgr L) (i : ℕ) (held : List Worker) {k : Worker}
      → get_elem? held i ≡ some k
      → Holders dm held
      → BelongsTo k.channel (dm.tasks k.task)
  Holders-at dm i [] e h = cc
  Holders-at dm zero (j ∷ held) e h = ground arith
  Holders-at dm (suc i) (j ∷ held) e h = Holders-at dm i held e h.1

module _ {L : Type 0} ⦃al : ArrayList L⦄ where
  -- The places of the task `r`: idle lists, workers, callers of
  -- addDownloadTask, terminal callbacks and panics of client.Do.
  abbrev pub places : ℕ → System L → ℕ
  places r s =
      idle_count r s.dm
      + held_count r s.held
      + count r s.adding
      + endings r s.dm.calls
      + losses r s.dm.calls

  -- A task is in one place at most, a pointer that is not yet made is in none, and no channel has
  -- more busy workers than were started for it.
  pub record Inv (s : System L) : Type 0 where
    pub safe : IsSafe s.dm
    pub placed : (r : ℕ) → places r s ≤ 1
    pub fresh : (r : ℕ) → s.dm.next_ref ≤ r → places r s ≡ 0
    pub newcomers : (r : ℕ) → 0 < count r s.adding → IsNew (s.dm.tasks r)
    pub holders : Holders s.dm s.held
    pub crewed : (n : ChannelName) → busy n s.held ≤ worker_limit n

  -- A change of tasks that keeps the start times, the owners and the counts of failures.
  pub same-IsSafe :
      (dm dm' : DownloadMgr L)
      → dm'.channel ≡ dm.channel
      → dm'.calls ≡ dm.calls
      → start_times dm' ≡ start_times dm
      → ((n : ChannelName) (r : ℕ) → BelongsTo n (dm.tasks r) → BelongsTo n (dm'.tasks r))
      → IsSafe dm
      → IsSafe dm'
  same-IsSafe dm dm' c l t b s = record {
    sorted = λ n. rw (c, t) (s.sorted n);
    listed = λ n r h. b n r (s.listed n r (rw c at h));
    limits = λ n. rw c (s.limits n);
    calm = rw l s.calm;
  }

  pub Holders-mono :
      (dm dm' : DownloadMgr L) (held : List Worker)
      → ((n : ChannelName) (r : ℕ) → BelongsTo n (dm.tasks r) → BelongsTo n (dm'.tasks r))
      → Holders dm held
      → Holders dm' held
  Holders-mono dm dm' [] b h = tt
  Holders-mono dm dm' (j ∷ held) b h = (b j.channel j.task h.0, Holders-mono dm dm' held b h.1)
