-- ===== src/Manager/System/Map.antt =====
-- GetTaskInfo: the task map holds a task under its id while it is queued or worked on, and after a
-- panic of client.Do has taken it from its worker.
use downloadmgr.Prelude.{
  ℕ, count, suc, ◌+◌, ◌<◌, ◌≡◌, ◌≢◌, inl, inr, ap, sym, ◌∙◌, List, [], ◌∷◌, some, none, arith,
  subst, ltb→lt, ==_iff, Bool-cases, get_elem?, remove_at, ltb, ◌==◌, if◌then◌else◌,
}
use downloadmgr.ArrayList.{ArrayList}
use downloadmgr.Manager.{DownloadMgr, map_load, map_delete, map_store}
use downloadmgr.Manager.Places.{idle_count, losses, Settles}
use downloadmgr.Manager.Advance.{Worker}
use downloadmgr.Manager.System.{System}
use downloadmgr.Manager.System.Inv.{held_count, held_count-remove_at, Inv}

map_load-map_delete :
    (i j : ℕ) (m : List (ℕ × ℕ))
    → map_load j (map_delete i m) ≡ (if i == j then none else map_load j m)
unfolding map_load map_delete
map_load-map_delete i j [] = ground arith
map_load-map_delete i j ((k, r) ∷ m) = ground (arith, map_load-map_delete i j m)

pub map_load-map_store :
    (i r j : ℕ) (m : List (ℕ × ℕ))
    → map_load j (map_store i r m) ≡ (if i == j then some r else map_load j m)
unfolding map_load map_store
map_load-map_store i r j m = ground (arith, map_load-map_delete i j m)

module _ {L : Type 0} ⦃al : ArrayList L⦄ where
  -- How often `r` is queued or in the hands of a worker or of a caller who adds it.
  abbrev pub live : ℕ → System L → ℕ
  live r s = idle_count r s.dm + held_count r s.held + count r s.adding

  -- How often `r` is live, or lost to a panic of client.Do.
  abbrev pub kept : ℕ → System L → ℕ
  kept r s = live r s + losses r s.dm.calls

  -- While the ids have not run out, the task of pointer r has the id r + 1.
  pub record MapInv (s : System L) : Type 0 where
    pub current : s.dm.current_id ≡ s.dm.next_ref
    pub ids : (r : ℕ) → r < s.dm.next_ref → (s.dm.tasks r).id ≡ suc r
    pub mapped : (r : ℕ) → map_load (suc r) s.dm.task_map ≡ (if kept r s == 0 then none else some r)

  -- A step that changes no id, no task map and no count.
  pub same-MapInv :
      (s s' : System L)
      → s'.dm.current_id ≡ s.dm.current_id
      → s'.dm.next_ref ≡ s.dm.next_ref
      → s'.dm.task_map ≡ s.dm.task_map
      → ((r : ℕ) → (s'.dm.tasks r).id ≡ (s.dm.tasks r).id)
      → ((r : ℕ) → kept r s' ≡ kept r s)
      → MapInv s
      → MapInv s'
  same-MapInv s s' c n t i l v = record {
    current = c ∙ v.current ∙ sym n;
    ids = λ r h. i r ∙ v.ids r (omega (arith, n));
    mapped = λ r. rw (t, l r) (v.mapped r);
  }

  module _ (s : System L) (i : ℕ) (k : Worker) (dm' : DownloadMgr L)
      (e : get_elem? s.held i ≡ some k) (v : Inv s) (st : Settles s.dm k.task dm')
      (m : MapInv s) where
    made : k.task < s.dm.next_ref
    made = elim (Bool-cases (ltb k.task s.dm.next_ref)) [
      | inl h ↦ ltb→lt _ _ h
      | inr h ↦
          absurd
            (ground (arith, v.fresh k.task (ground arith), held_count-remove_at k.task i s.held e))
    ]

    settled_ids : (r : ℕ) → r < dm'.next_ref → (dm'.tasks r).id ≡ suc r
    settled_ids r h = elim (Bool-cases (k.task == r)) [
      | inl same ↦
          subst (λ q. (dm'.tasks q).id ≡ suc q) ((==_iff k.task r).0 same)
            (st.moves.same_id ∙ m.ids k.task made)
      | inr other ↦
          ap (λ t. t.id) (st.moves.others r (λ p. cc ((==_iff k.task r).1 p)))
          ∙ m.ids r (omega (arith, st.moves.same_next))
    ]

    settled_self : map_load (suc k.task) dm'.task_map ≡ (
        if kept k.task (record s { dm = dm'; held = remove_at i s.held }) == 0
        then none
        else some k.task)
    settled_self = elim st.moves.mapped [
      | inl (queued, unlost, same) ↦ ground (
        arith,
        ap (map_load (suc k.task)) same,
        m.mapped k.task,
        held_count-remove_at k.task i s.held e,
      )
      | inr (inl (ended, unlost, gone)) ↦ ground (
        arith,
        ap (map_load (suc k.task)) gone,
        m.ids k.task made,
        held_count-remove_at k.task i s.held e,
        v.placed k.task,
        map_load-map_delete (s.dm.tasks k.task).id (suc k.task) s.dm.task_map,
      )
      | inr (inr (out, lost, same)) ↦ ground (
        arith,
        ap (map_load (suc k.task)) same,
        m.mapped k.task,
        held_count-remove_at k.task i s.held e,
      )
    ]

    settled_other :
        (r : ℕ)
        → k.task ≢ r
        → map_load (suc r) dm'.task_map ≡ (
            if kept r (record s { dm = dm'; held = remove_at i s.held }) == 0 then none else some r)
    settled_other r h = elim st.moves.mapped [
      | inl (queued, unlost, same) ↦ ground (
        arith,
        ap (map_load (suc r)) same,
        m.mapped r,
        held_count-remove_at r i s.held e,
        st.moves.elsewhere r h,
        st.moves.lost_elsewhere r h,
      )
      | inr (inl (ended, unlost, gone)) ↦ ground (
        arith,
        ap (map_load (suc r)) gone,
        m.mapped r,
        m.ids k.task made,
        held_count-remove_at r i s.held e,
        st.moves.elsewhere r h,
        st.moves.lost_elsewhere r h,
        map_load-map_delete (s.dm.tasks k.task).id (suc r) s.dm.task_map,
      )
      | inr (inr (out, lost, same)) ↦ ground (
        arith,
        ap (map_load (suc r)) same,
        m.mapped r,
        held_count-remove_at r i s.held e,
        st.moves.elsewhere r h,
        st.moves.lost_elsewhere r h,
      )
    ]

    pub settled-MapInv : MapInv (record s { dm = dm'; held = remove_at i s.held })
    settled-MapInv = record {
      current = st.moves.same_current ∙ m.current ∙ sym st.moves.same_next;
      ids = settled_ids;
      mapped = λ r. elim (Bool-cases (k.task == r)) [
        | inl same ↦
            subst
              (λ q. map_load (suc q) dm'.task_map ≡ (
                if kept q (record s { dm = dm'; held = remove_at i s.held }) == 0
                then none
                else some q))
              ((==_iff k.task r).0 same) settled_self
        | inr other ↦ settled_other r (λ p. cc ((==_iff k.task r).1 p))
      ];
    }
