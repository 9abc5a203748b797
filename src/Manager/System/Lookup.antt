-- ===== src/Manager/System/Lookup.antt =====
-- GetTaskInfo after any interleaving.
use downloadmgr.Prelude.{
  ℕ, suc, ◌+◌, ◌≤◌, ◌<◌, ◌≡◌, if-true, inl, inr, refl, ap, ◌∙◌, not, List, [], ◌∷◌, Option, some,
  none, arith, Bool-cases, Option-cases, get_elem?, ltb, ◌==◌, if◌then◌else◌, trim, to_lower,
  length, count-remove_at, remove_at,
}
use downloadmgr.ArrayList.{ArrayList}
use downloadmgr.Task.{ChannelName, TaskParams, cancel_download}
use downloadmgr.Channel.{DownloadChannel, pop_task_form_idle_list}
use downloadmgr.Channel.Pop.{Pops, pop-Pops}
use downloadmgr.Manager.{map_load, push_task, start_times}
use downloadmgr.Manager.Places.{endings, idle}
use downloadmgr.Manager.Settle.{idle_count-push}
use downloadmgr.Manager.Add.{make_task, is_http, max_uint64, get_task_info}
use downloadmgr.Manager.Classify.{Work}
use downloadmgr.Manager.Advance.{Worker, Advance, goes_on, ends}
use downloadmgr.Manager.Advance.Settles.{SettlesIfEnds}
use downloadmgr.Manager.System.{
  System, Event, begin_add, push, pushes, adds, cancels, ignores, polls, works, poll, took, moved,
  cancel, work, worked, step, run, busy, set_ignore_header,
}
use downloadmgr.Manager.System.Inv.{Inv, held_count-set}
use downloadmgr.Manager.System.Removal.{idle_count-removed}
use downloadmgr.Manager.System.Steps.{step-Inv, advance-held, run-Inv}
use downloadmgr.Manager.System.Map.{
  live, kept, MapInv, same-MapInv, settled-MapInv, map_load-map_store,
}

module _ {L : Type 0} ⦃al : ArrayList L⦄ where
  moved-MapInv :
      (s : System L) (i : ℕ) (k : Worker) (a : Advance L)
      → get_elem? s.held i ≡ some k
      → Inv s
      → SettlesIfEnds s.dm k.task a
      → MapInv s
      → MapInv (moved s i k a)
  moved-MapInv s i k (goes_on p) e v h m =
      same-MapInv s (moved s i k (goes_on p)) refl refl refl (λ q. refl)
        (λ q. omega (arith, held_count-set p q i s.held e)) m
  moved-MapInv s i k (ends dm') e v h m = settled-MapInv s i k dm' e v h m

  work-MapInv : (s : System L) (i : ℕ) (w : Work) → Inv s → MapInv s → MapInv (work s i w)
  unfolding work worked
  work-MapInv s i w v m = elim (Option-cases (get_elem? s.held i)) [
    | inl e ↦ rw (e, worked) m
    | inr (k, e) ↦ rw (e, worked) (moved-MapInv s i k _ e v (advance-held s i k w e v) m)
  ]

  made-MapInv :
      (s : System L) (now : ℕ) (p : TaskParams)
      → s.dm.next_ref < max_uint64
      → Inv s
      → MapInv s
      → MapInv (record s { dm = make_task s.dm now p; adding = s.dm.next_ref ∷ s.adding })
  unfolding make_task
  made-MapInv s now p room v m = record {
    current = ground (arith, m.current);
    ids = λ r h. ground (arith, m.current, m.ids r);
    mapped = λ r. ground (
      arith,
      m.current,
      m.mapped r,
      v.fresh s.dm.next_ref,
      map_load-map_store (suc s.dm.next_ref) s.dm.next_ref (suc r) s.dm.task_map,
    );
  }

  begin_add-MapInv :
      (s : System L) (now : ℕ) (p : TaskParams)
      → s.dm.next_ref < max_uint64
      → Inv s
      → MapInv s
      → MapInv (begin_add s now p)
  unfolding begin_add
  begin_add-MapInv s now p room v m =
      elim (Bool-cases (not (is_http (to_lower (trim p.target_url))))) [
        | inl e ↦ rw e m
        | inr e ↦ rw e (made-MapInv s now _ room v m)
      ]

  pushed-MapInv :
      (s : System L) (i x : ℕ) (n : ChannelName)
      → get_elem? s.adding i ≡ some x
      → MapInv s
      → MapInv (record s { dm = push_task s.dm n x; adding = remove_at i s.adding })
  unfolding push_task
  pushed-MapInv s i x n e m =
      same-MapInv s (record s { dm = push_task s.dm n x; adding = remove_at i s.adding }) refl refl
        refl (λ q. ground arith)
        (λ q. omega (arith, idle_count-push s.dm n x q, count-remove_at q x i s.adding e)) m

  push-MapInv : (s : System L) (i : ℕ) → MapInv s → MapInv (push s i)
  unfolding push
  push-MapInv s i m = elim (Option-cases (get_elem? s.adding i)) [
    | inl e ↦ rw e m
    | inr (x, e) ↦ rw e (pushed-MapInv s i x _ e m)
  ]

  took-MapInv :
      (s : System L) (n : ChannelName) (now : ℕ) (popped : Option (ℕ × DownloadChannel L))
      → Pops (start_times s.dm) now (idle s.dm n) (s.dm.channel n) popped
      → MapInv s
      → MapInv (took s n popped)
  took-MapInv s n now none e m = m
  took-MapInv s n now (some (r, dc)) (i, at, early, gone, name, limit, retries) m =
      same-MapInv s (took s n (some (r, dc))) refl refl refl (λ q. refl)
        (λ q. omega (arith, idle_count-removed s.dm n i r dc at gone q)) m

  poll-MapInv :
      (s : System L) (n : ChannelName) (now rnd : ℕ) → Inv s → MapInv s → MapInv (poll s n now rnd)
  unfolding poll
  poll-MapInv s n now rnd v m =
      elim (Bool-cases (ltb (busy n s.held) (s.dm.channel n).downloading_count_limit)) [
        | inl e ↦ rw e (
            took-MapInv s n now _
              (pop-Pops (start_times s.dm) n now rnd (s.dm.channel n) (v.safe.sorted n)) m)
        | inr e ↦ rw e m
      ]

  cancel-MapInv : (s : System L) (x : ℕ) → MapInv s → MapInv (cancel s x)
  unfolding cancel cancel_download
  cancel-MapInv s x m = elim (Bool-cases (ltb x s.dm.next_ref)) [
    | inr e ↦ rw e m
    | inl e ↦ rw e (same-MapInv s _ refl refl refl (λ q. ground arith) (λ q. refl) m)
  ]

  step-MapInv :
      (s : System L) (e : Event) → s.dm.next_ref < max_uint64 → Inv s → MapInv s → MapInv (step s e)
  unfolding step set_ignore_header
  step-MapInv s (adds now p) room v m = begin_add-MapInv s now p room v m
  step-MapInv s (pushes i) room v m = push-MapInv s i m
  step-MapInv s (cancels r) room v m = cancel-MapInv s r m
  step-MapInv s (ignores hs) room v m =
      same-MapInv s (record s { dm = set_ignore_header s.dm hs }) refl refl refl (λ q. refl)
        (λ q. refl) m
  step-MapInv s (polls n now rnd) room v m = poll-MapInv s n now rnd v m
  step-MapInv s (works i w) room v m = work-MapInv s i w v m

  took-next_ref :
      (s : System L) (n : ChannelName) (popped : Option (ℕ × DownloadChannel L))
      → (took s n popped).dm.next_ref ≡ s.dm.next_ref
  took-next_ref s n none = refl
  took-next_ref s n (some (r, dc)) = refl

  moved-next_ref :
      (s : System L) (i : ℕ) (k : Worker) (a : Advance L)
      → SettlesIfEnds s.dm k.task a
      → (moved s i k a).dm.next_ref ≡ s.dm.next_ref
  moved-next_ref s i k (goes_on p) h = refl
  moved-next_ref s i k (ends dm') h = h.moves.same_next

  -- A step makes one task at most, and forgets none.
  pub step-next_ref :
      (s : System L) (e : Event)
      → Inv s
      → (s.dm.next_ref ≤ (step s e).dm.next_ref) × ((step s e).dm.next_ref ≤ s.dm.next_ref + 1)
  unfolding step poll cancel work worked begin_add push make_task push_task set_ignore_header
  step-next_ref s (adds now p) v = ground arith
  step-next_ref s (pushes i) v = elim (Option-cases (get_elem? s.adding i)) [
    | inl e ↦ rw e (omega arith, omega arith)
    | inr (x, e) ↦ rw e (omega arith, omega arith)
  ]
  step-next_ref s (cancels r) v = ground arith
  step-next_ref s (ignores hs) v = (omega arith, omega arith)
  step-next_ref s (polls n now rnd) v = ground (
    arith,
    took-next_ref s n (pop_task_form_idle_list (start_times s.dm) n now rnd (s.dm.channel n)),
  )
  step-next_ref s (works i w) v = elim (Option-cases (get_elem? s.held i)) [
    | inl e ↦ rw (e, worked) (omega arith, omega arith)
    | inr (k, e) ↦
        let same = moved-next_ref s i k _ (advance-held s i k w e v) in
        rw (e, worked) (omega (arith, same), omega (arith, same))
  ]

  pub run-MapInv :
      (s : System L) (es : List Event)
      → s.dm.next_ref + length es ≤ max_uint64
      → Inv s
      → MapInv s
      → MapInv (run s es)
  unfolding run
  run-MapInv s [] room v m = m
  run-MapInv s (e ∷ es) room v m =
      run-MapInv (step s e) es (omega (arith, (step-next_ref s e v).1)) (step-Inv s e v)
        (step-MapInv s e (omega arith) v m)

  -- After any interleaving from a state where the invariants hold, as long as the tasks made before
  -- it and its events are no more than the 64-bit ids: GetTaskInfo of a task's id returns that task
  -- when the task stands in an idle list, in the hands of a worker or of the caller who adds it, or
  -- was taken from its worker by a panic of client.Do, and returns nil otherwise.
  pub get_task_info-run :
      (s : System L) (es : List Event) (r : ℕ)
      → s.dm.next_ref + length es ≤ max_uint64
      → Inv s
      → MapInv s
      → r < (run s es).dm.next_ref
      → get_task_info (run s es).dm ((run s es).dm.tasks r).id
        ≡ (if kept r (run s es) == 0 then none else some r)
  unfolding get_task_info
  get_task_info-run s es r room v m made =
      let after = run-MapInv s es room v m in
      ap (λ i. map_load i (run s es).dm.task_map) (after.ids r made) ∙ after.mapped r

  -- After any interleaving from a state where the invariants hold, as long as the tasks made before
  -- it and its events are no more than the 64-bit ids: when onSuccess, onFail or onCancel has been
  -- called for a task, it was called once, no idle list, no worker and no caller who adds it has the
  -- task any more, and GetTaskInfo of its id returns nil.
  pub get_task_info-ended :
      (s : System L) (es : List Event) (r : ℕ)
      → s.dm.next_ref + length es ≤ max_uint64
      → Inv s
      → MapInv s
      → r < (run s es).dm.next_ref
      → 0 < endings r (run s es).dm.calls
      → (endings r (run s es).dm.calls ≡ 1)
        × (live r (run s es) ≡ 0)
        × (get_task_info (run s es).dm ((run s es).dm.tasks r).id ≡ none)
  get_task_info-ended s es r room v m made ended =
      let once = (run-Inv s es v).placed r in
      let gone : live r (run s es) ≡ 0 = omega arith in
      (
        omega arith,
        gone,
        get_task_info-run s es r room v m made
            ∙ if-true {b = kept r (run s es) == 0} none (some r) (ground (arith, gone)),
      )
