-- ===== src/Manager/System/Cancelled.antt =====
-- CancelDownload against the workers: what a cancellation that comes before client.Do achieves.
use downloadmgr.Prelude.{
  ℕ, zero, suc, ◌<◌, ◌≡◌, refl, sym, ap, ◌∙◌, true, not, List, [], ◌∷◌, Option, none, some, inl,
  inr, arith, Bool-cases, Option-cases, get_elem?, remove_at, set, ltb, ◌==◌, ==_iff, trim,
  to_lower,
}
use downloadmgr.ArrayList.{ArrayList}
use downloadmgr.Task.{ChannelName, TaskParams, cancel_download}
use downloadmgr.Channel.{DownloadChannel}
use downloadmgr.Manager.{push_task}
use downloadmgr.Manager.Add.{make_task, is_http}
use downloadmgr.Manager.Download.Success.{NoSuccess, trans_NoSuccess}
use downloadmgr.Manager.Classify.{Work}
use downloadmgr.Manager.Advance.{Worker, Advance, goes_on, ends}
use downloadmgr.Manager.Advance.Settles.{SettlesIfEnds}
use downloadmgr.Manager.System.{
  System, Event, begin_add, push, pushes, adds, cancels, ignores, polls, works, poll, took, moved,
  cancel, work, worked, step, run, busy, set_ignore_header,
}
use downloadmgr.Manager.System.Inv.{Inv}
use downloadmgr.Manager.System.Steps.{step-Inv, advance-held}
use downloadmgr.Manager.Advance.Spares.{IsElsewhere, Spares, advance-Spares}

module _ (r : ℕ) where
  -- No busy worker is at client.Do for `r`.
  abbrev pub Unrequested : List Worker → Type 0
  Unrequested [] = Unit {0}
  Unrequested (k ∷ held) = IsElsewhere r k.phase k.task × Unrequested held

  Unrequested-remove_at :
      (i : ℕ) (held : List Worker) → Unrequested held → Unrequested (remove_at i held)
  Unrequested-remove_at i [] h = tt
  Unrequested-remove_at zero (k ∷ held) h = h.1
  Unrequested-remove_at (suc i) (k ∷ held) h = (h.0, Unrequested-remove_at i held h.1)

  Unrequested-set :
      (i : ℕ) (held : List Worker) (k : Worker)
      → IsElsewhere r k.phase k.task
      → Unrequested held
      → Unrequested (set held i k)
  Unrequested-set i [] k e h = tt
  Unrequested-set zero (j ∷ held) k e h = (e, h.1)
  Unrequested-set (suc i) (j ∷ held) k e h = (h.0, Unrequested-set i held k e h.1)

  Unrequested-at :
      (i : ℕ) (held : List Worker) (k : Worker)
      → get_elem? held i ≡ some k
      → Unrequested held
      → IsElsewhere r k.phase k.task
  Unrequested-at i [] k e h = cc
  Unrequested-at zero (j ∷ held) k e h = ground (arith, h.0)
  Unrequested-at (suc i) (j ∷ held) k e h = Unrequested-at i held k e h.1

module _ {L : Type 0} ⦃al : ArrayList L⦄ (r : ℕ) where
  -- The task `r` was cancelled, and no worker is at client.Do for it.
  pub record IsStopped (s : System L) : Type 0 where
    pub made : r < s.dm.next_ref
    pub flagged : (s.dm.tasks r).cancel_flag ≡ true
    pub unrequested : Unrequested r s.held

  abbrev pub StaysStopped : System L → System L → Type 0
  StaysStopped s s' = IsStopped s' × NoSuccess r s.dm.calls s'.dm

  moved-StaysStopped :
      (s : System L) (i : ℕ) (k : Worker) (a : Advance L)
      → SettlesIfEnds s.dm k.task a
      → Spares r s.dm k.task a
      → IsStopped s
      → StaysStopped s (moved s i k a)
  moved-StaysStopped s i k (goes_on p) st q h = (
    record {
      made = h.made;
      flagged = h.flagged;
      unrequested = Unrequested-set r i s.held (record k { phase = p }) q h.unrequested;
    },
    record { kept = refl },
  )
  moved-StaysStopped s i k (ends d) st q h = (
    record {
      made = omega (arith, h.made, st.moves.same_next);
      flagged = elim (Bool-cases (k.task == r)) [
        | inl same ↦ flag_of ((==_iff k.task r).0 same)
        | inr other ↦
            ap (λ t. t.cancel_flag) (st.moves.others r (λ p. cc ((==_iff k.task r).1 p)))
            ∙ h.flagged
      ];
      unrequested = Unrequested-remove_at r i s.held h.unrequested;
    },
    q,
  )
    where
      flag_of : k.task ≡ r → (d.tasks r).cancel_flag ≡ true
      flag_of same =
          ap (λ x. (d.tasks x).cancel_flag) (sym same)
          ∙ st.moves.same_flag
          ∙ ap (λ x. (s.dm.tasks x).cancel_flag) same
          ∙ h.flagged

  work-StaysStopped :
      (s : System L) (i : ℕ) (w : Work) → Inv s → IsStopped s → StaysStopped s (work s i w)
  unfolding work worked
  work-StaysStopped s i w v h = elim (Option-cases (get_elem? s.held i)) [
    | inl e ↦ rw (e, worked) (h, record { kept = refl })
    | inr (k, e) ↦
        rw (e, worked)
          (moved-StaysStopped s i k _ (advance-held s i k w e v)
            (advance-Spares r s.dm k.task w h.flagged k.channel k.phase
              (Unrequested-at r i s.held k e h.unrequested))
            h)
  ]

  begin_add-StaysStopped :
      (s : System L) (now : ℕ) (p : TaskParams) → IsStopped s → StaysStopped s (begin_add s now p)
  unfolding begin_add make_task
  begin_add-StaysStopped s now p h =
      elim (Bool-cases (not (is_http (to_lower (trim p.target_url))))) [
        | inl e ↦ rw e (h, record { kept = refl })
        | inr e ↦ rw e (
          record {
            made = omega (arith, h.made);
            flagged = ground (arith, h.made, h.flagged);
            unrequested = h.unrequested;
          },
          record { kept = refl },
        )
      ]

  push-StaysStopped : (s : System L) (i : ℕ) → IsStopped s → StaysStopped s (push s i)
  unfolding push push_task
  push-StaysStopped s i h = elim (Option-cases (get_elem? s.adding i)) [
    | inl e ↦ rw e (h, record { kept = refl })
    | inr (x, e) ↦ rw e (
      record { made = h.made; flagged = ground (arith, h.flagged); unrequested = h.unrequested },
      record { kept = refl },
    )
  ]

  took-StaysStopped :
      (s : System L) (n : ChannelName) (popped : Option (ℕ × DownloadChannel L))
      → IsStopped s
      → StaysStopped s (took s n popped)
  took-StaysStopped s n none h = (h, record { kept = refl })
  took-StaysStopped s n (some (x, dc)) h = (
    record { made = h.made; flagged = h.flagged; unrequested = (λ e. cc, h.unrequested) },
    record { kept = refl },
  )

  poll-StaysStopped :
      (s : System L) (n : ChannelName) (now rnd : ℕ)
      → IsStopped s
      → StaysStopped s (poll s n now rnd)
  unfolding poll
  poll-StaysStopped s n now rnd h =
      elim (Bool-cases (ltb (busy n s.held) (s.dm.channel n).downloading_count_limit)) [
        | inl e ↦ rw e (took-StaysStopped s n _ h)
        | inr e ↦ rw e (h, record { kept = refl })
      ]

  cancel-StaysStopped : (s : System L) (x : ℕ) → IsStopped s → StaysStopped s (cancel s x)
  unfolding cancel cancel_download
  cancel-StaysStopped s x h = elim (Bool-cases (ltb x s.dm.next_ref)) [
    | inr e ↦ rw e (h, record { kept = refl })
    | inl e ↦ rw e (
      record { made = h.made; flagged = ground (arith, h.flagged); unrequested = h.unrequested },
      record { kept = refl },
    )
  ]

  step-StaysStopped : (s : System L) (e : Event) → Inv s → IsStopped s → StaysStopped s (step s e)
  unfolding step set_ignore_header
  step-StaysStopped s (adds now p) v h = begin_add-StaysStopped s now p h
  step-StaysStopped s (pushes i) v h = push-StaysStopped s i h
  step-StaysStopped s (cancels x) v h = cancel-StaysStopped s x h
  step-StaysStopped s (ignores hs) v h = (
    record { made = h.made; flagged = h.flagged; unrequested = h.unrequested },
    record { kept = refl },
  )
  step-StaysStopped s (polls n now rnd) v h = poll-StaysStopped s n now rnd h
  step-StaysStopped s (works i w) v h = work-StaysStopped s i w v h

  -- From a state where the invariant holds: when CancelDownload was called for a task before any
  -- worker was at client.Do for it, then after any interleaving of the callers and the workers its
  -- flag still stands, no worker is at client.Do for it, and onSuccess has been called for it no
  -- more often than before.
  pub run-StaysStopped :
      (s : System L) (es : List Event) → Inv s → IsStopped s → StaysStopped s (run s es)
  unfolding run
  run-StaysStopped s [] v h = (h, record { kept = refl })
  run-StaysStopped s (e ∷ es) v h =
      let now = step-StaysStopped s e v h in
      let later = run-StaysStopped (step s e) es (step-Inv s e v) now.0 in
      (later.0, trans_NoSuccess r now.1 later.1)
