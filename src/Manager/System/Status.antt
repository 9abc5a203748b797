-- ===== src/Manager/System/Status.antt =====
-- Where a task of the running program stands in the abstract machine.
use downloadmgr.Prelude.{
  ℕ, count, ◌+◌, ◌<◌, ◌≡◌, ◌⊎◌, inl, inr, refl, sym, subst, Bool, true, false, Option, none, some,
  arith, Bool-cases, ltb, ◌==◌, if◌then◌else◌,
}
use downloadmgr.ArrayList.{ArrayList}
use downloadmgr.Task.{ChannelName}
use downloadmgr.Manager.Places.{idle, idle_count}
use downloadmgr.Manager.Advance.{Worker}
use downloadmgr.Manager.Lifecycle.{Status, unmade, stored, queued, working, gone, Life}
use downloadmgr.Manager.System.{System}
use downloadmgr.Manager.System.Inv.{Inv, held_count}
use downloadmgr.Manager.System.Holder.{holder}

abbrev pub standing : Option Worker → ℕ → ℕ → Option ChannelName → Status
standing (some k) adding idle owner = working k.channel k.phase
standing none adding idle owner =
    if adding == 0 then (if idle == 0 then gone else queued owner) else stored

abbrev pub in_manager : Bool → Status → Status
in_manager true t = t
in_manager false t = unmade

pub life : {t t' u u' : Status} → t ≡ t' → u ≡ u' → Life t' u' → Life t u
life {t = t} {u' = u'} e f l = subst (λ x. Life t x) (sym f) (subst (λ x. Life x u') (sym e) l)

pub same_standing :
    (h : Option Worker) {a b i j : ℕ} {o o' : Option ChannelName}
    → a ≡ b
    → i ≡ j
    → o ≡ o'
    → standing h a i o ≡ standing h b j o'
same_standing h d e f = rw (d, e, f) refl

module _ {L : Type 0} ⦃al : ArrayList L⦄ (r : ℕ) where
  abbrev pub status : System L → Status
  status s =
      in_manager (ltb r s.dm.next_ref)
        (standing (holder r s.held) (count r s.adding) (idle_count r s.dm) (s.dm.tasks r).channel)

  -- The task stays as it is, or does a step of the abstract machine.
  abbrev pub Steps : System L → System L → Type 0
  Steps s s' = (status s' ≡ status s) ⊎ Life (status s) (status s')

  pub same_status :
      (s s' : System L)
      → s'.dm.next_ref ≡ s.dm.next_ref
      → holder r s'.held ≡ holder r s.held
      → count r s'.adding ≡ count r s.adding
      → idle_count r s'.dm ≡ idle_count r s.dm
      → (s'.dm.tasks r).channel ≡ (s.dm.tasks r).channel
      → status s' ≡ status s
  same_status s s' n h a i c = rw (n, h, a, i, c) refl

  pub held_status :
      (s : System L) (k : Worker)
      → ltb r s.dm.next_ref ≡ true
      → holder r s.held ≡ some k
      → status s ≡ working k.channel k.phase
  held_status s k m h = rw (m, h) refl

  pub gone_status :
      (s : System L)
      → ltb r s.dm.next_ref ≡ true
      → holder r s.held ≡ none
      → count r s.adding ≡ 0
      → (idle_count r s.dm == 0) ≡ true
      → status s ≡ gone
  gone_status s m h a i = rw (m, h, a, i) refl

  pub stored_status :
      (s : System L)
      → ltb r s.dm.next_ref ≡ true
      → holder r s.held ≡ none
      → (count r s.adding == 0) ≡ false
      → status s ≡ stored
  stored_status s m h a = rw (m, h, a) refl

  pub queued_status :
      (s : System L) (n : ChannelName)
      → ltb r s.dm.next_ref ≡ true
      → holder r s.held ≡ none
      → count r s.adding ≡ 0
      → (idle_count r s.dm == 0) ≡ false
      → (s.dm.tasks r).channel ≡ some n
      → status s ≡ queued (some n)
  queued_status s n m h a i c = rw (m, h, a, i, c) refl

  pub unmade_status : (s : System L) → ltb r s.dm.next_ref ≡ false → status s ≡ unmade
  unmade_status s m = rw m refl

  pub standing_status :
      (s : System L)
      → ltb r s.dm.next_ref ≡ true
      → status s
        ≡ standing (holder r s.held) (count r s.adding) (idle_count r s.dm) (s.dm.tasks r).channel
  standing_status s m = rw m refl

  -- A task that is somewhere has been made.
  pub is_made :
      (s : System L)
      → Inv s
      → 0 < idle_count r s.dm + held_count r s.held + count r s.adding
      → ltb r s.dm.next_ref ≡ true
  is_made s v h = elim (Bool-cases (ltb r s.dm.next_ref)) [
    | inl e ↦ e
    | inr e ↦ absurd (ground (arith, h, v.fresh r))
  ]
