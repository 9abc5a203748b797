-- ===== src/Manager/System/Steps.antt =====
-- Every step of the program keeps its invariant: the workers, the callers, and all of them.
use mathlib.Core.Path.{fun_ext}
use downloadmgr.Prelude.{
  ℕ, ◌+◌, ◌≤◌, ◌<◌, ◌⊎◌, true, false, subst, sym, ◌≡◌, inl, inr, refl, List, [], ◌∷◌, Option, some,
  none, arith, Bool-cases, Option-cases, get_elem?, remove_at, set, ltb, count, ==_iff, ◌==◌,
  count-remove_at,
}
use downloadmgr.ArrayList.{ArrayList}
use downloadmgr.Task.{ChannelName, cancel_download}
use downloadmgr.Channel.{DownloadChannel}
use downloadmgr.Channel.Pop.{Pops, pop-Pops}
use downloadmgr.Manager.{DownloadMgr, write_task, set_channel, start_times, name_eq}
use downloadmgr.Manager.Places.{idle, idle_count, worker_limit, BelongsTo, Settles}
use downloadmgr.Manager.Settle.Push.{name_eq→eq}
use downloadmgr.Manager.Classify.{Work}
use downloadmgr.Manager.Advance.{Phase, taken, Worker, Advance, goes_on, ends, advance}
use downloadmgr.Manager.Advance.Settles.{SettlesIfEnds, advance-SettlesIfEnds}
use downloadmgr.Manager.System.{
  System, Event, pushes, adds, cancels, ignores, polls, works, poll, took, moved, cancel, work,
  worked, step, run, busy, set_ignore_header,
}
use downloadmgr.Manager.System.Inv.{
  IsNew, held_count-remove_at, busy-remove_at, held_count-set, busy-set, Holders-set, Holders-congr,
  Holders-remove_at, Holders-at, Holders-mono, same-IsSafe, Inv,
}
use downloadmgr.Manager.System.Removal.{idle_count-removed, removed-IsSafe}
use downloadmgr.Manager.System.Adds.{begin_add-Inv, push-Inv}

module _ {L : Type 0} ⦃al : ArrayList L⦄ where
  -- The worker `k` that is done with its task, with the other workers' tasks.
  settled-Inv :
      (s : System L) (i : ℕ) (k : Worker) (dm' : DownloadMgr L)
      → get_elem? s.held i ≡ some k
      → Inv s
      → Settles s.dm k.task dm'
      → Inv (record s { dm = dm'; held = remove_at i s.held })
  settled-Inv s i k dm' e v st = record {
    safe = st.safe;
    placed = λ r. omega (arith, v.placed r, st.moves.total r, held_count-remove_at r i s.held e);
    fresh = λ r h.
        let old : s.dm.next_ref ≤ r = omega (arith, st.moves.same_next) in
        omega (arith, v.fresh r old, st.moves.total r, held_count-remove_at r i s.held e);
    newcomers = λ r h. newcomer r h (Bool-cases (k.task == r));
    holders =
        Holders-congr s.dm dm' k.task (remove_at i s.held) st.moves.others
          (ground (arith, v.placed k.task, held_count-remove_at k.task i s.held e))
          (Holders-remove_at s.dm i s.held v.holders);
    crewed = λ m. omega (arith, busy-remove_at m i s.held, v.crewed m);
  }
    where
      newcomer :
          (r : ℕ)
          → 0 < count r s.adding
          → ((k.task == r) ≡ true) ⊎ ((k.task == r) ≡ false)
          → IsNew (dm'.tasks r)
      newcomer r h (inl same) = absurd (
          ground
            (arith, v.placed r, held_count-remove_at r i s.held e, (==_iff k.task r).0 same, h))
      newcomer r h (inr other) =
          subst IsNew (sym (st.moves.others r (λ q. cc ((==_iff k.task r).1 q)))) (v.newcomers r h)

  -- The worker `k` that goes on.
  phase-Inv :
      (s : System L) (i : ℕ) (k : Worker) (p : Phase)
      → get_elem? s.held i ≡ some k
      → Inv s
      → Inv (record s { held = set s.held i (record k { phase = p }) })
  phase-Inv s i k p e v = record {
    safe = v.safe;
    placed = λ r. omega (arith, v.placed r, held_count-set p r i s.held e);
    fresh = λ r h. omega (arith, v.fresh r h, held_count-set p r i s.held e);
    newcomers = v.newcomers;
    holders = Holders-set s.dm p i s.held e v.holders;
    crewed = λ m. omega (arith, v.crewed m, busy-set p m i s.held e);
  }

  -- What the `i`-th busy worker does settles its task, if it ends with it.
  pub advance-held :
      (s : System L) (i : ℕ) (k : Worker) (w : Work)
      → get_elem? s.held i ≡ some k
      → Inv s
      → SettlesIfEnds s.dm k.task (advance k.channel k.phase s.dm k.task w)
  advance-held s i k w e v =
      let out : idle_count k.task s.dm ≡ 0 =
        ground (arith, v.placed k.task, held_count-remove_at k.task i s.held e) in
      advance-SettlesIfEnds s.dm k.task v.safe k.channel k.phase w
        (record { out = out; belongs = Holders-at s.dm i s.held e v.holders })

  moved-Inv :
      (s : System L) (i : ℕ) (k : Worker) (a : Advance L)
      → get_elem? s.held i ≡ some k
      → Inv s
      → SettlesIfEnds s.dm k.task a
      → Inv (moved s i k a)
  moved-Inv s i k (goes_on p) e v h = phase-Inv s i k p e v
  moved-Inv s i k (ends dm') e v h = settled-Inv s i k dm' e v h

  work-Inv : (s : System L) (i : ℕ) (w : Work) → Inv s → Inv (work s i w)
  unfolding work worked
  work-Inv s i w v = elim (Option-cases (get_elem? s.held i)) [
    | inl e ↦ rw (e, worked) v
    | inr (k, e) ↦ rw (e, worked) (moved-Inv s i k _ e v (advance-held s i k w e v))
  ]

  cancelled-BelongsTo :
      (dm : DownloadMgr L) (x : ℕ) (n : ChannelName) (r : ℕ)
      → BelongsTo n (dm.tasks r)
      → BelongsTo n ((write_task dm x (cancel_download (dm.tasks x))).tasks r)
  unfolding cancel_download
  cancelled-BelongsTo dm x n r b = ground arith

  cancel-Inv : (s : System L) (x : ℕ) → Inv s → Inv (cancel s x)
  unfolding cancel cancel_download
  cancel-Inv s x v = elim (Bool-cases (ltb x s.dm.next_ref)) [
    | inr e ↦ rw e v
    | inl e ↦
        let dm' = write_task s.dm x (cancel_download (s.dm.tasks x)) in
        rw e (record {
          safe =
              same-IsSafe s.dm dm' refl refl (fun_ext λ r. ground arith)
                (cancelled-BelongsTo s.dm x) v.safe;
          placed = v.placed;
          fresh = v.fresh;
          newcomers = λ r h. ground (arith, v.newcomers r h);
          holders = Holders-mono s.dm dm' s.held (cancelled-BelongsTo s.dm x) v.holders;
          crewed = v.crewed;
        })
  ]

  -- A task goes from an idle list to a worker.
  took-Inv :
      (s : System L) (n : ChannelName) (now : ℕ) (popped : Option (ℕ × DownloadChannel L))
      → busy n s.held < (s.dm.channel n).downloading_count_limit
      → Pops (start_times s.dm) now (idle s.dm n) (s.dm.channel n) popped
      → Inv s
      → Inv (took s n popped)
  took-Inv s n now none free e v = v
  took-Inv s n now (some (r, dc)) free (i, at, early, gone, name, limit, retries) v = record {
    safe = removed-IsSafe s.dm n i r dc at gone (limit, retries) v.safe;
    placed = λ q. omega (arith, idle_count-removed s.dm n i r dc at gone q, v.placed q);
    fresh = λ q h. omega (arith, idle_count-removed s.dm n i r dc at gone q, v.fresh q h);
    newcomers = v.newcomers;
    holders = (
      v.safe.listed n r (ground (arith, count-remove_at r r i (idle s.dm n) at)),
      Holders-mono s.dm (set_channel s.dm n dc) s.held (λ m q b. b) v.holders,
    );
    crewed = λ m. crew m (Bool-cases (name_eq m n));
  }
    where
      crew :
          (m : ChannelName)
          → (name_eq m n ≡ true) ⊎ (name_eq m n ≡ false)
          → busy m (record { channel = n; task = r; phase = taken } ∷ s.held) ≤ worker_limit m
      crew m (inl e) =
          let same = name_eq→eq m n e in
          rw e (
            subst (λ k. 1 + busy k s.held ≤ worker_limit k) (sym same)
              (omega (arith, free, (v.safe.limits n).1)))
      crew m (inr e) = rw e (omega (arith, v.crewed m))

  poll-Inv : (s : System L) (n : ChannelName) (now rnd : ℕ) → Inv s → Inv (poll s n now rnd)
  unfolding poll
  poll-Inv s n now rnd v =
      elim (Bool-cases (ltb (busy n s.held) (s.dm.channel n).downloading_count_limit)) [
        | inl e ↦ rw e (
            took-Inv s n now _ (ground arith)
              (pop-Pops (start_times s.dm) n now rnd (s.dm.channel n) (v.safe.sorted n)) v)
        | inr e ↦ rw e v
      ]

  pub step-Inv : (s : System L) (e : Event) → Inv s → Inv (step s e)
  unfolding step set_ignore_header
  step-Inv s (adds now p) v = begin_add-Inv s now p v
  step-Inv s (pushes i) v = push-Inv s i v
  step-Inv s (cancels r) v = cancel-Inv s r v
  step-Inv s (ignores hs) v = record {
    safe = same-IsSafe s.dm (set_ignore_header s.dm hs) refl refl refl (λ n r b. b) v.safe;
    placed = v.placed;
    fresh = v.fresh;
    newcomers = v.newcomers;
    holders = Holders-mono s.dm (set_ignore_header s.dm hs) s.held (λ n r b. b) v.holders;
    crewed = v.crewed;
  }
  step-Inv s (polls n now rnd) v = poll-Inv s n now rnd v
  step-Inv s (works i w) v = work-Inv s i w v

  -- After any interleaving of calls of the manager and steps of the workers, from a state where
  -- it holds: every idle list is sorted by allowed start time, its tasks belong to its channel and
  -- have failed no more often than it retries, no worker has panicked but in client.Do, every held
  -- task belongs to the channel of its worker, a task is in one place at most (an idle list, the
  -- hands of a worker or of a caller who adds it, a terminal callback, a panic of client.Do, counted with repetition), a pointer that is not yet made is in none, and no
  -- channel has more busy workers than its constant says.
  pub run-Inv : (s : System L) (es : List Event) → Inv s → Inv (run s es)
  unfolding run
  run-Inv s [] v = v
  run-Inv s (e ∷ es) v = run-Inv (step s e) es (step-Inv s e v)
