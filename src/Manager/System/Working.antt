-- ===== src/Manager/System/Working.antt =====
-- What a worker does with a task is a step of the abstract machine, or leaves the others as they are.
use downloadmgr.Prelude.{
  ℕ, count, ◌≤◌, ◌≡◌, ◌≢◌, ◌⊎◌, inl, inr, refl, sym, ap, ◌∙◌, true, false, none, some, arith,
  Bool-cases, Option-cases, get_elem?, remove_at, ltb, ◌==◌, ==_iff,
}
use downloadmgr.ArrayList.{ArrayList}
use downloadmgr.Manager.Places.{idle_count}
use downloadmgr.Manager.Classify.{Work}
use downloadmgr.Manager.Advance.{Worker, Advance, goes_on, ends, advance}
use downloadmgr.Manager.Advance.Settles.{SettlesIfEnds}
use downloadmgr.Manager.Rank.{task_rank}
use downloadmgr.Manager.Rank.Works.{LowersIfEnds, advance-LowersIfEnds}
use downloadmgr.Manager.Lifecycle.{working, returns, leaves, LivesIfGoes, advance-LivesIfGoes}
use downloadmgr.Manager.System.{System, moved, work, worked}
use downloadmgr.Manager.System.Inv.{Inv, held_count, held_count-remove_at}
use downloadmgr.Manager.System.Steps.{advance-held}
use downloadmgr.Manager.System.Bounded.{tries}
use downloadmgr.Manager.System.Holder.{
  holder, holder-none, holder_at, holder-set, holder-set_other, holder_removed,
}
use downloadmgr.Manager.System.Status.{
  status, Steps, life, same_status, held_status, gone_status, queued_status, is_made,
}

module _ {L : Type 0} ⦃al : ArrayList L⦄ (r : ℕ) where
  module _ (s : System L) (i : ℕ) (k : Worker) (e : get_elem? s.held i ≡ some k) (v : Inv s) where
    once : held_count r s.held ≤ 1
    once = omega (arith, v.placed r)

    moved_self :
        (a : Advance L)
        → k.task ≡ r
        → SettlesIfEnds s.dm k.task a
        → LowersIfEnds k.task (task_rank (s.dm.tasks k.task)) k.channel a
        → LivesIfGoes k.channel k.phase a
        → Steps r s (moved s i k a)
    moved_self (goes_on p) same st lo li = inr (
        life (held_status r s k made (holder_at r s.held i k e same once))
          (held_status r (moved s i k (goes_on p)) (record k { phase = p }) made
            (holder-set r s.held i k p e same once))
          li)
      where
        made : ltb r s.dm.next_ref ≡ true
        made = is_made r s v (ground (arith, held_count-remove_at r i s.held e, same))
    moved_self (ends dm') same st lo li = elim (Bool-cases (idle_count r dm' == 0)) [
      | inl z ↦
          inr
            (life was (gone_status r after made' no_holder none_adds z) (leaves k.channel k.phase))
      | inr z ↦ elim lo.lower [
        | inl none_left ↦ absurd (ground (arith, z, same_count same none_left))
        | inr (less, (m, c, ok)) ↦ inr (
            life was
              (queued_status r after m made' no_holder none_adds z
                (ap (λ x. (dm'.tasks x).channel) (sym same) ∙ c))
              (returns k.channel m k.phase ok))
      ]
    ]
      where
        after : System L
        after = moved s i k (ends dm')

        made : ltb r s.dm.next_ref ≡ true
        made = is_made r s v (ground (arith, held_count-remove_at r i s.held e, same))

        made' : ltb r dm'.next_ref ≡ true
        made' = ap (λ n. ltb r n) st.moves.same_next ∙ made

        no_holder : holder r (remove_at i s.held) ≡ none
        no_holder =
            holder-none r (remove_at i s.held)
              (ground (arith, held_count-remove_at r i s.held e, same, once))

        none_adds : count r s.adding ≡ 0
        none_adds = ground (arith, held_count-remove_at r i s.held e, same, v.placed r)

        was : status r s ≡ working k.channel k.phase
        was = held_status r s k made (holder_at r s.held i k e same once)

        same_count : k.task ≡ r → idle_count k.task dm' ≡ 0 → idle_count r dm' ≡ 0
        same_count q z = ap (λ x. idle_count x dm') (sym q) ∙ z

    moved_other :
        (a : Advance L)
        → k.task ≢ r
        → SettlesIfEnds s.dm k.task a
        → status r (moved s i k a) ≡ status r s
    moved_other (goes_on p) other st =
        same_status r s (moved s i k (goes_on p)) refl (holder-set_other r s.held i k p e other)
          refl refl refl
    moved_other (ends dm') other st =
        same_status r s (moved s i k (ends dm')) st.moves.same_next
          (holder_removed r s.held i k e other) refl (st.moves.elsewhere r other)
          (ap (λ t. t.channel) (st.moves.others r other))

  pub work-Steps : (s : System L) (i : ℕ) (w : Work) → Inv s → Steps r s (work s i w)
  unfolding work worked
  work-Steps s i w v = elim (Option-cases (get_elem? s.held i)) [
    | inl e ↦ rw (e, worked) (inl refl)
    | inr (k, e) ↦ rw (e, worked) (by_worker k e (Bool-cases (k.task == r)))
  ]
    where
      by_worker :
          (k : Worker)
          → get_elem? s.held i ≡ some k
          → ((k.task == r) ≡ true) ⊎ ((k.task == r) ≡ false)
          → Steps r s (moved s i k (advance k.channel k.phase s.dm k.task w))
      by_worker k e (inl same) =
          moved_self s i k e v _ ((==_iff k.task r).0 same) (advance-held s i k w e v)
            (advance-LowersIfEnds k.task _ s.dm k.channel k.phase w (tries s i k e v))
            (advance-LivesIfGoes s.dm k.task w k.channel k.phase)
      by_worker k e (inr other) =
          inl (moved_other s i k e v _ (λ q. cc ((==_iff k.task r).1 q)) (advance-held s i k w e v))
