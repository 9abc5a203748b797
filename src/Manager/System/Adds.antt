-- ===== src/Manager/System/Adds.antt =====
-- addDownloadTask of downloadmgr.go in two events: up to the Store into the task map, and the push.
use downloadmgr.Prelude.{
  ℕ, ◌+◌, ◌≤◌, ◌<◌, ◌⊎◌, true, false, subst, sym, ◌≡◌, ◌≢◌, inl, inr, refl, ap, ◌∷◌, some, arith,
  Bool-cases, Option-cases, get_elem?, remove_at, count, ==_iff, ◌==◌, count-remove_at, not, trim,
  to_lower,
}
use downloadmgr.ArrayList.{ArrayList}
use downloadmgr.Task.{ChannelName, TaskParams}
use downloadmgr.Manager.{DownloadMgr, push_task}
use downloadmgr.Manager.Places.{endings, losses, panics, idle_count, Settles}
use downloadmgr.Manager.Settle.{keep-IsSafe, push_task-Settles, same_count}
use downloadmgr.Manager.Add.{add_download_task, make_task, is_http}
use downloadmgr.Manager.System.{System, begin_add, push}
use downloadmgr.Manager.System.Inv.{IsNew, Holders-congr, Inv}

module _ {L : Type 0} ⦃al : ArrayList L⦄ where
  -- A fresh task is made, in the hands of its caller.
  made-Inv :
      (s : System L) (dm : DownloadMgr L)
      → dm.channel ≡ s.dm.channel
      → dm.calls ≡ s.dm.calls
      → dm.next_ref ≡ s.dm.next_ref + 1
      → ((q : ℕ) → s.dm.next_ref ≢ q → dm.tasks q ≡ s.dm.tasks q)
      → IsNew (dm.tasks s.dm.next_ref)
      → Inv s
      → Inv (record s { dm = dm; adding = s.dm.next_ref ∷ s.adding })
  made-Inv s dm c l next others none_failed v =
      let x = s.dm.next_ref in
      let out : idle_count x s.dm ≡ 0 = omega (arith, v.fresh x) in
      record {
        safe = keep-IsSafe s.dm dm x c others (ap panics l) out v.safe;
        placed = λ r. ground (
          arith,
          same_count r s.dm dm c,
          ap (endings r) l,
          ap (losses r) l,
          v.fresh x,
          v.placed r,
        );
        fresh = λ r h.
            ground
              (arith, next, same_count r s.dm dm c, ap (endings r) l, ap (losses r) l, v.fresh r);
        newcomers = λ r h. newcomer r h (Bool-cases (x == r));
        holders = Holders-congr s.dm dm x s.held others (omega (arith, v.fresh x)) v.holders;
        crewed = v.crewed;
      }
    where
      newcomer :
          (r : ℕ)
          → 0 < count r (s.dm.next_ref ∷ s.adding)
          → ((s.dm.next_ref == r) ≡ true) ⊎ ((s.dm.next_ref == r) ≡ false)
          → IsNew (dm.tasks r)
      newcomer r h (inl same) =
          subst (λ q. IsNew (dm.tasks q)) ((==_iff s.dm.next_ref r).0 same) none_failed
      newcomer r h (inr other) =
          subst IsNew (sym (others r (λ q. cc ((==_iff s.dm.next_ref r).1 q))))
            (v.newcomers r (ground (arith, h, other)))

  pub begin_add-Inv : (s : System L) (now : ℕ) (p : TaskParams) → Inv s → Inv (begin_add s now p)
  unfolding begin_add make_task
  begin_add-Inv s now p v = elim (Bool-cases (not (is_http (to_lower (trim p.target_url))))) [
    | inl e ↦ rw e v
    | inr e ↦
        let p' = record p { save_path = trim p.save_path; target_url = trim p.target_url } in
        rw e
          (made-Inv s (make_task s.dm now p') refl refl refl (λ q h. ground arith) (ground arith) v)
  ]

  -- The push of the `i`-th caller of addDownloadTask settles its task.
  push-Settled :
      (s : System L) (i x : ℕ) (n : ChannelName)
      → get_elem? s.adding i ≡ some x
      → Inv s
      → Settles s.dm x (push_task s.dm n x)
  push-Settled s i x n e v =
      let here = count-remove_at x x i s.adding e in
      let few = v.newcomers x (ground (arith, here)) in
      push_task-Settles s.dm n x (ground (arith, v.placed x, here)) (omega (arith, few.0)) v.safe

  pushed-Inv :
      (s : System L) (i x : ℕ) (n : ChannelName)
      → get_elem? s.adding i ≡ some x
      → Inv s
      → Inv (record s { dm = push_task s.dm n x; adding = remove_at i s.adding })
  pushed-Inv s i x n e v =
      let st = push-Settled s i x n e v in
      record {
        safe = st.safe;
        placed = λ r. omega (arith, v.placed r, st.moves.total r, count-remove_at r x i s.adding e);
        fresh = λ r h.
            let old : s.dm.next_ref ≤ r = omega (arith, st.moves.same_next) in
            omega (arith, v.fresh r old, st.moves.total r, count-remove_at r x i s.adding e);
        newcomers = λ r h. newcomer r h (Bool-cases (x == r));
        holders =
            Holders-congr s.dm (push_task s.dm n x) x s.held st.moves.others
              (ground (arith, v.placed x, count-remove_at x x i s.adding e)) v.holders;
        crewed = v.crewed;
      }
    where
      newcomer :
          (r : ℕ)
          → 0 < count r (remove_at i s.adding)
          → ((x == r) ≡ true) ⊎ ((x == r) ≡ false)
          → IsNew ((push_task s.dm n x).tasks r)
      newcomer r h (inl same) =
          absurd
            (ground (arith, v.placed r, count-remove_at r x i s.adding e, (==_iff x r).0 same, h))
      newcomer r h (inr other) =
          subst IsNew (sym ((push-Settled s i x n e v).moves.others r (λ q. cc ((==_iff x r).1 q))))
            (v.newcomers r (omega (arith, h, count-remove_at r x i s.adding e)))

  pub push-Inv : (s : System L) (i : ℕ) → Inv s → Inv (push s i)
  unfolding push
  push-Inv s i v = elim (Option-cases (get_elem? s.adding i)) [
    | inl e ↦ rw e v
    | inr (x, e) ↦ rw e (pushed-Inv s i x _ e v)
  ]

  -- With no other event in between, the two events do what addDownloadTask does.
  push-begin_add :
      (s : System L) (now : ℕ) (p : TaskParams)
      → is_http (to_lower (trim p.target_url)) ≡ true
      → push (begin_add s now p) 0 ≡ record s { dm = (add_download_task s.dm now p).0 }
  unfolding push begin_add add_download_task make_task
  push-begin_add s now p h = rw h (ground arith)
