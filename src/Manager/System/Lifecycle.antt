-- ===== src/Manager/System/Lifecycle.antt =====
-- Every task of the running program lives as the abstract machine says.
use downloadmgr.Prelude.{
  ℕ, ◌+◌, ◌<◌, ◌≡◌, ◌⊎◌, inl, inr, refl, sym, ap, subst, ◌∙◌, true, false, not, List, [], ◌∷◌,
  Option, none, some, arith, Bool-cases, Option-cases, get_elem?, remove_at, count, count-remove_at,
  ltb, ◌==◌, ==_iff, one_if, trim, to_lower,
}
use downloadmgr.ArrayList.{ArrayList}
use downloadmgr.Task.{TaskType, ChannelName, TaskParams, cancel_download}
use downloadmgr.Channel.{DownloadChannel}
use downloadmgr.Channel.Pop.{Pops, pop-Pops}
use downloadmgr.Manager.{write_task, start_times, push_task}
use downloadmgr.Manager.Places.{idle, idle_count}
use downloadmgr.Manager.Settle.{idle_count-push}
use downloadmgr.Manager.Add.{make_task, is_http, entry_channel}
use downloadmgr.Manager.Advance.{taken, Worker}
use downloadmgr.Manager.Lifecycle.{
  Life, enters, is_queued, is_taken, Lives, here, next, Lives-trans, IsOffSlow, Lives-IsOffSlow,
}
use downloadmgr.Manager.System.{
  System, Event, begin_add, push, pushes, adds, cancels, ignores, polls, works, poll, took, cancel,
  step, run, busy, set_ignore_header,
}
use downloadmgr.Manager.System.Inv.{Inv}
use downloadmgr.Manager.System.Removal.{idle_count-removed}
use downloadmgr.Manager.System.Steps.{step-Inv}
use downloadmgr.Manager.System.Holder.{holder, holder-none}
use downloadmgr.Manager.System.Status.{
  stored_status, status, Steps, life, same_standing, same_status, held_status, queued_status,
  unmade_status, standing_status, is_made,
}
use downloadmgr.Manager.System.Working.{work-Steps}

module _ {L : Type 0} ⦃al : ArrayList L⦄ (r : ℕ) where
  -- A fresh task is made.
  made-Steps :
      (s : System L) (now : ℕ) (p : TaskParams)
      → Inv s
      → Steps r s (record s { dm = make_task s.dm now p; adding = s.dm.next_ref ∷ s.adding })
  unfolding make_task
  made-Steps s now p v = elim (Bool-cases (s.dm.next_ref == r)) [
    | inl same ↦ inr (
        life (unmade_status r s (ground (arith, same)))
          (stored_status r after (ground (arith, same))
            (holder-none r s.held (ground (arith, same, v.fresh r))) (ground (arith, same)))
          enters)
    | inr other ↦ inl (old other (Bool-cases (ltb r s.dm.next_ref)))
  ]
    where
      after : System L
      after = record s { dm = make_task s.dm now p; adding = s.dm.next_ref ∷ s.adding }

      old :
          (s.dm.next_ref == r) ≡ false
          → (ltb r s.dm.next_ref ≡ true) ⊎ (ltb r s.dm.next_ref ≡ false)
          → status r after ≡ status r s
      old other (inl m) =
          standing_status r after (ground (arith, m))
          ∙ same_standing (holder r s.held) (ground (arith, other)) refl (ground (arith, other))
          ∙ sym (standing_status r s m)
      old other (inr m) =
          unmade_status r after (ground (arith, m, other)) ∙ sym (unmade_status r s m)

  begin_add-Steps :
      (s : System L) (now : ℕ) (p : TaskParams) → Inv s → Steps r s (begin_add s now p)
  unfolding begin_add
  begin_add-Steps s now p v = elim (Bool-cases (not (is_http (to_lower (trim p.target_url))))) [
    | inl e ↦ rw e (inl refl)
    | inr e ↦ rw e (made-Steps s now _ v)
  ]

  pushed-Steps :
      (s : System L) (i x : ℕ) (t : TaskType)
      → get_elem? s.adding i ≡ some x
      → Inv s
      → Steps r s
          (record s { dm = push_task s.dm (entry_channel t) x; adding = remove_at i s.adding })
  unfolding push_task
  pushed-Steps s i x t e v = elim (Bool-cases (x == r)) [
    | inl same ↦
        let there : count r s.adding ≡ 1 = ground (arith, same, v.placed r, fewer) in
        let made = is_made r s v (omega (arith, there)) in
        let none_holds = holder-none r s.held (omega (arith, there, v.placed r)) in
        inr (
          life (stored_status r s made none_holds (ground (arith, there)))
            (queued_status r after (entry_channel t) made none_holds
              (ground (arith, same, there, fewer)) (ground (arith, same, pushed))
              (ground (arith, same)))
            (is_queued t))
    | inr other ↦ inl (
        same_status r s after refl refl (ground (arith, other, fewer))
          (ground (arith, other, pushed)) (ground (arith, other)))
  ]
    where
      after : System L
      after = record s { dm = push_task s.dm (entry_channel t) x; adding = remove_at i s.adding }

      pushed : idle_count r after.dm ≡ idle_count r s.dm + one_if x r
      pushed = idle_count-push s.dm (entry_channel t) x r

      fewer : one_if x r + count r (remove_at i s.adding) ≡ count r s.adding
      fewer = count-remove_at r x i s.adding e

  push-Steps : (s : System L) (i : ℕ) → Inv s → Steps r s (push s i)
  unfolding push
  push-Steps s i v = elim (Option-cases (get_elem? s.adding i)) [
    | inl e ↦ rw e (inl refl)
    | inr (x, e) ↦ rw e (pushed-Steps s i x _ e v)
  ]

  took-Steps :
      (s : System L) (n : ChannelName) (now : ℕ) (popped : Option (ℕ × DownloadChannel L))
      → Pops (start_times s.dm) now (idle s.dm n) (s.dm.channel n) popped
      → Inv s
      → Steps r s (took s n popped)
  took-Steps s n now none e v = inl refl
  took-Steps s n now (some (x, dc)) (i, at, early, gone_one, name, limit, retries) v =
      elim (Bool-cases (x == r)) [
        | inl same ↦ inr (self ((==_iff x r).0 same))
        | inr other ↦ inl (
            same_status r s (took s n (some (x, dc))) refl (ground (arith, other)) refl
              (ground (arith, other, removed)) refl)
      ]
    where
      removed : idle_count r (took s n (some (x, dc))).dm + one_if x r ≡ idle_count r s.dm
      removed = idle_count-removed s.dm n i x dc at gone_one r

      self : x ≡ r → Life (status r s) (status r (took s n (some (x, dc))))
      self same =
          let stands : 0 < idle_count r s.dm = ground (arith, removed, same) in
          let made = is_made r s v (omega (arith, stands)) in
          let taker : Worker = record { channel = n; task = x; phase = taken } in
          life
            (queued_status r s n made (holder-none r s.held (omega (arith, v.placed r, stands)))
              (omega (arith, v.placed r, stands)) (ground (arith, stands))
              (ap (λ q. (s.dm.tasks q).channel) (sym same)
                ∙ (v.safe.listed n x (ground (arith, count-remove_at x x i (idle s.dm n) at))).0))
            (held_status r (took s n (some (x, dc))) taker made (ground (arith, same))) (is_taken n)

  poll-Steps : (s : System L) (n : ChannelName) (now rnd : ℕ) → Inv s → Steps r s (poll s n now rnd)
  unfolding poll
  poll-Steps s n now rnd v =
      elim (Bool-cases (ltb (busy n s.held) (s.dm.channel n).downloading_count_limit)) [
        | inl e ↦ rw e (
            took-Steps s n now _
              (pop-Pops (start_times s.dm) n now rnd (s.dm.channel n) (v.safe.sorted n)) v)
        | inr e ↦ rw e (inl refl)
      ]

  cancelled_channel :
      (s : System L) (x : ℕ)
      → ((write_task s.dm x (cancel_download (s.dm.tasks x))).tasks r).channel
        ≡ (s.dm.tasks r).channel
  unfolding cancel_download
  cancelled_channel s x = ground arith

  cancel-Steps : (s : System L) (x : ℕ) → Steps r s (cancel s x)
  unfolding cancel cancel_download
  cancel-Steps s x = elim (Bool-cases (ltb x s.dm.next_ref)) [
    | inr e ↦ rw e (inl refl)
    | inl e ↦ rw e (
        inl (
          same_status r s (record s { dm = write_task s.dm x (cancel_download (s.dm.tasks x)) })
            refl refl refl refl (cancelled_channel s x)))
  ]

  step-Steps : (s : System L) (e : Event) → Inv s → Steps r s (step s e)
  unfolding step set_ignore_header
  step-Steps s (adds now p) v = begin_add-Steps s now p v
  step-Steps s (pushes i) v = push-Steps s i v
  step-Steps s (cancels x) v = cancel-Steps s x
  step-Steps s (ignores hs) v = inl refl
  step-Steps s (polls n now rnd) v = poll-Steps s n now rnd v
  step-Steps s (works i w) v = work-Steps r s i w v

  run_lives : (s : System L) (es : List Event) → Inv s → Lives (status r s) (status r (run s es))
  unfolding run
  run_lives s [] v = here
  run_lives s (e ∷ es) v =
      Lives-trans (one (step-Steps s e v)) (run_lives (step s e) es (step-Inv s e v))
    where
      one : Steps r s (step s e) → Lives (status r s) (status r (step s e))
      one (inl same) = subst (Lives (status r s)) (sym same) here
      one (inr l) = next here l

  -- From a state where the invariant holds, over any interleaving of the callers and the workers, every
  -- task lives as the abstract machine says: it is made and stored, and then pushed into the idle list
  -- of a type's entry channel; a
  -- worker of the channel whose list it stands in takes it, admits it and, if it is not a classifying
  -- one, requests it; a worker of a download channel puts it back into the list of that
  -- channel only, a classifying one into the list of the prehandle, the random or the
  -- unpause-fast channel; or it leaves the manager. And a task that is not in the unpause-slow channel
  -- at first, neither in its list nor with its workers, never comes into it.
  pub run-Lives :
      (s : System L) (es : List Event)
      → Inv s
      → IsOffSlow (status r s)
      → Lives (status r s) (status r (run s es)) × IsOffSlow (status r (run s es))
  run-Lives s es v h = let lives = run_lives s es v in (lives, Lives-IsOffSlow lives h)
