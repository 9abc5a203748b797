-- ===== src/Manager/System/Bounded.antt =====
-- How often the workers are done with one task, over a whole interleaving.
use downloadmgr.Prelude.{
  ℕ, ◌+◌, ◌≤◌, ◌<◌, ◌≡◌, ◌≢◌, inl, inr, refl, ap, subst, not, List, [], ◌∷◌, Option, none, some,
  arith, Bool-cases, Option-cases, get_elem?, remove_at, ltb, ◌==◌, ==_iff, one_if, if◌then◌else◌,
  trim, to_lower, count-remove_at,
}
use downloadmgr.ArrayList.{ArrayList}
use downloadmgr.Task.{ChannelName, TaskParams, cancel_download}
use downloadmgr.Channel.{DownloadChannel}
use downloadmgr.Channel.Pop.{Pops, pop-Pops}
use downloadmgr.Manager.{DownloadMgr, write_task, start_times, push_task}
use downloadmgr.Manager.Places.{idle}
use downloadmgr.Manager.Settle.{idle_count-push}
use downloadmgr.Manager.Add.{make_task, is_http}
use downloadmgr.Manager.Classify.{Work}
use downloadmgr.Manager.Advance.{Worker, Advance, goes_on, ends, advance}
use downloadmgr.Manager.Advance.Settles.{SettlesIfEnds}
use downloadmgr.Manager.Rank.{task_rank, Lowers, Tries}
use downloadmgr.Manager.Rank.Works.{LowersIfEnds, advance-LowersIfEnds}
use downloadmgr.Manager.System.{
  System, Event, begin_add, push, pushes, adds, cancels, ignores, polls, works, poll, took, moved,
  cancel, work, worked, step, run, busy, set_ignore_header,
}
use downloadmgr.Manager.System.Inv.{Inv, Holders-at, held_count-set, held_count-remove_at}
use downloadmgr.Manager.System.Removal.{idle_count-removed}
use downloadmgr.Manager.System.Steps.{step-Inv, advance-held}
use downloadmgr.Manager.System.Map.{live}
use downloadmgr.Manager.System.Lookup.{step-next_ref}

module _ {L : Type 0} ⦃al : ArrayList L⦄ (r : ℕ) where
  -- How often a worker may still be done with `r`: 0 when the task is gone.
  abbrev pub left : System L → ℕ
  left s = if live r s == 0 then 0 else task_rank (s.dm.tasks r) + 1

  abbrev ended_by : Worker → Advance L → ℕ
  ended_by k (goes_on p) = 0
  ended_by k (ends dm) = one_if k.task r

  abbrev ended_at : System L → Work → Option Worker → ℕ
  ended_at s w none = 0
  ended_at s w (some k) = ended_by k (advance k.channel k.phase s.dm k.task w)

  -- Whether a worker is done with `r` in this event.
  abbrev finishes : System L → Event → ℕ
  finishes s (works i w) = ended_at s w (get_elem? s.held i)
  finishes s _ = 0

  -- How often in these.
  unfoldable pub finished : System L → List Event → ℕ
  unfolding step
  finished s [] = 0
  finished s (e ∷ es) = finishes s e + finished (step s e) es

  same_left :
      (s s' : System L)
      → live r s' ≡ live r s
      → task_rank (s'.dm.tasks r) ≡ task_rank (s.dm.tasks r)
      → left s' ≡ left s
  same_left s s' l t = rw (l, t) refl

module _ {L : Type 0} ⦃al : ArrayList L⦄ (s : System L) (i : ℕ) (k : Worker)
    (e : get_elem? s.held i ≡ some k) (v : Inv s) where
  -- The worker is done with its task.
  self_left :
      (dm' : DownloadMgr L)
      → Lowers k.task (task_rank (s.dm.tasks k.task)) k.channel dm'
      → one_if k.task k.task + left k.task (record s { dm = dm'; held = remove_at i s.held })
        ≤ left k.task s
  self_left dm' lo = elim lo.lower [
    | inl gone ↦ ground (arith, gone, v.placed k.task, held_count-remove_at k.task i s.held e)
    | inr (less, there) ↦ ground (arith, less, held_count-remove_at k.task i s.held e)
  ]

  module _ (r : ℕ) where
    left-moved :
        (a : Advance L)
        → SettlesIfEnds s.dm k.task a
        → LowersIfEnds k.task (task_rank (s.dm.tasks k.task)) k.channel a
        → ended_by r k a + left r (moved s i k a) ≤ left r s
    left-moved (goes_on p) st lo = omega (
      arith,
      same_left r s (moved s i k (goes_on p)) (omega (arith, held_count-set p r i s.held e)) refl,
    )
    left-moved (ends dm') st lo = elim (Bool-cases (k.task == r)) [
      | inl same ↦
          subst (λ q. one_if k.task q + left q (moved s i k (ends dm')) ≤ left q s)
            ((==_iff k.task r).0 same) (self_left dm' lo)
      | inr other ↦
          let apart : k.task ≢ r = λ q. cc ((==_iff k.task r).1 q) in
          let unmoved =
            same_left r s (moved s i k (ends dm'))
              (ground (arith, other, held_count-remove_at r i s.held e, st.moves.elsewhere r apart))
              (ap task_rank (st.moves.others r apart)) in
          ground (arith, other, unmoved)
    ]

  pub tries : Tries k.task (task_rank (s.dm.tasks k.task)) k.channel s.dm
  tries = record {
    out = ground (arith, v.placed k.task, held_count-remove_at k.task i s.held e);
    owner = (Holders-at s.dm i s.held e v.holders).0;
    has_rank = refl;
    limits = v.safe.limits k.channel;
  }

module _ {L : Type 0} ⦃al : ArrayList L⦄ (r : ℕ) where
  left-work :
      (s : System L) (i : ℕ) (w : Work)
      → Inv s
      → ended_at r s w (get_elem? s.held i) + left r (work s i w) ≤ left r s
  unfolding work worked
  left-work s i w v = elim (Option-cases (get_elem? s.held i)) [
    | inl e ↦ rw (e, worked) (omega arith)
    | inr (k, e) ↦
        rw (e, worked)
          (left-moved s i k e v r _ (advance-held s i k w e v)
            (advance-LowersIfEnds k.task _ s.dm k.channel k.phase w (tries s i k e v)))
  ]

  left-begin_add :
      (s : System L) (now : ℕ) (p : TaskParams)
      → r < s.dm.next_ref
      → left r (begin_add s now p) ≤ left r s
  unfolding begin_add make_task
  left-begin_add s now p made = elim (Bool-cases (not (is_http (to_lower (trim p.target_url))))) [
    | inl e ↦ rw e (omega arith)
    | inr e ↦ rw e (ground (arith, made))
  ]

  left-pushed :
      (s : System L) (i x : ℕ) (n : ChannelName)
      → get_elem? s.adding i ≡ some x
      → Inv s
      → left r (record s { dm = push_task s.dm n x; adding = remove_at i s.adding }) ≤ left r s
  unfolding push_task
  left-pushed s i x n e v =
      ground (arith, idle_count-push s.dm n x r, count-remove_at r x i s.adding e, v.newcomers x)

  left-push : (s : System L) (i : ℕ) → Inv s → left r (push s i) ≤ left r s
  unfolding push
  left-push s i v = elim (Option-cases (get_elem? s.adding i)) [
    | inl e ↦ rw e (omega arith)
    | inr (x, e) ↦ rw e (left-pushed s i x _ e v)
  ]

  left-took :
      (s : System L) (n : ChannelName) (now : ℕ) (popped : Option (ℕ × DownloadChannel L))
      → Pops (start_times s.dm) now (idle s.dm n) (s.dm.channel n) popped
      → left r (took s n popped) ≤ left r s
  left-took s n now none e = omega arith
  left-took s n now (some (x, dc)) (i, at, early, gone, name, limit, retries) = omega (
    arith,
    same_left r s (took s n (some (x, dc)))
        (omega (arith, idle_count-removed s.dm n i x dc at gone r)) refl,
  )

  left-poll :
      (s : System L) (n : ChannelName) (now rnd : ℕ) → Inv s → left r (poll s n now rnd) ≤ left r s
  unfolding poll
  left-poll s n now rnd v =
      elim (Bool-cases (ltb (busy n s.held) (s.dm.channel n).downloading_count_limit)) [
        | inl e ↦ rw e (
            left-took s n now _
              (pop-Pops (start_times s.dm) n now rnd (s.dm.channel n) (v.safe.sorted n)))
        | inr e ↦ rw e (omega arith)
      ]

  flagged_rank :
      (s : System L) (x : ℕ)
      → task_rank ((write_task s.dm x (cancel_download (s.dm.tasks x))).tasks r)
        ≡ task_rank (s.dm.tasks r)
  unfolding cancel_download
  flagged_rank s x = ground arith

  left-cancel : (s : System L) (x : ℕ) → left r (cancel s x) ≤ left r s
  unfolding cancel cancel_download
  left-cancel s x = elim (Bool-cases (ltb x s.dm.next_ref)) [
    | inr e ↦ rw e (omega arith)
    | inl e ↦ rw e (
        omega (
          arith,
          same_left r s (record s { dm = write_task s.dm x (cancel_download (s.dm.tasks x)) }) refl
              (flagged_rank s x),
        ))
  ]

  left-step :
      (s : System L) (e : Event)
      → Inv s
      → r < s.dm.next_ref
      → finishes r s e + left r (step s e) ≤ left r s
  unfolding step set_ignore_header
  left-step s (adds now p) v made = omega (arith, left-begin_add s now p made)
  left-step s (pushes i) v made = omega (arith, left-push s i v)
  left-step s (cancels x) v made = omega (arith, left-cancel s x)
  left-step s (ignores hs) v made = omega arith
  left-step s (polls n now rnd) v made = omega (arith, left-poll s n now rnd v)
  left-step s (works i w) v made = left-work s i w v

  left_bound : (s : System L) → left r s ≤ 8
  left_bound s = ground arith

  -- From a state where the invariant holds, for a task that has been made: over any interleaving,
  -- the number of times that a worker is done with it, whether the task then goes into an idle list
  -- again or ends, and the number of times that are left after it come to no more than were
  -- left before, which is 8 at most.
  pub left-run :
      (s : System L) (es : List Event)
      → Inv s
      → r < s.dm.next_ref
      → (finished r s es + left r (run s es) ≤ left r s) × (left r s ≤ 8)
  unfolding finished run
  left-run s [] v made = (omega arith, left_bound s)
  left-run s (e ∷ es) v made =
      let later =
        left-run (step s e) es (step-Inv s e v) (omega (arith, made, (step-next_ref s e v).0)) in
      (omega (arith, later.0, left-step s e v made), left_bound s)
