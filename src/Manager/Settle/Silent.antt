-- ===== src/Manager/Settle/Silent.antt =====
-- The writes of one task that task.go and channel.go make before an operation settles it.
use mathlib.Core.Path.{ap₂}
use downloadmgr.Prelude.{ℕ, ◌≡◌, inl, inr, refl, Bool, ◌∙◌, true, false, arith, if◌then◌else◌}
use downloadmgr.ArrayList.{ArrayList}
use downloadmgr.Task.{Task, ChannelName}
use downloadmgr.Manager.{DownloadMgr, write_task, map_delete}
use downloadmgr.Manager.Places.{idle_count, BelongsTo, IsSafe, Settles, Quiet, Held}
use downloadmgr.Manager.Settle.Ends.{keep-IsSafe}

module _ {L : Type 0} ⦃al : ArrayList L⦄ where
  pub same_count :
      (r : ℕ) (dm dm' : DownloadMgr L)
      → dm'.channel ≡ dm.channel
      → idle_count r dm' ≡ idle_count r dm
  same_count r dm dm' e = rw e

  -- Quiet changes before an operation that settles the task.
  pub Quiet-Settles :
      (dm dm' dm'' : DownloadMgr L) (x : ℕ)
      → Quiet dm x dm'
      → Settles dm' x dm''
      → Settles dm x dm''
  Quiet-Settles dm dm' dm'' x q s = record {
    safe = s.safe;
    moves = record {
      total = λ r. omega (
        arith,
        s.moves.total r,
        same_count r dm dm' q.same_channel,
        q.same_endings r,
        q.same_losses r,
      );
      others = λ k h. s.moves.others k h ∙ q.others k h;
      same_id = s.moves.same_id ∙ q.same_id;
      same_flag = s.moves.same_flag ∙ q.same_flag;
      same_next = s.moves.same_next ∙ q.same_next;
      same_current = s.moves.same_current ∙ q.same_current;
      elsewhere = λ r h. s.moves.elsewhere r h ∙ same_count r dm dm' q.same_channel;
      lost_elsewhere = λ r h. s.moves.lost_elsewhere r h ∙ q.same_losses r;
      mapped = elim s.moves.mapped [
        | inl (queued, unlost, m) ↦ inl (
          omega (arith, queued, same_count x dm dm' q.same_channel),
          unlost ∙ q.same_losses x,
          m ∙ q.same_map,
        )
        | inr (inl (ended, unlost, m)) ↦ inr (
            inl (
              ended ∙ same_count x dm dm' q.same_channel,
              unlost ∙ q.same_losses x,
              m ∙ ap₂ map_delete q.same_id q.same_map,
            ))
        | inr (inr (same, lost, m)) ↦ inr (
            inr (
              same ∙ same_count x dm dm' q.same_channel,
              omega (arith, lost, q.same_losses x),
              m ∙ q.same_map,
            ))
      ];
    };
  }

  pub Quiet-Held :
      (dm dm' : DownloadMgr L) (n : ChannelName) (x : ℕ)
      → Quiet dm x dm'
      → BelongsTo n (dm'.tasks x)
      → Held dm n x
      → Held dm' n x
  Quiet-Held dm dm' n x q b h = record {
    out = same_count x dm dm' q.same_channel ∙ h.out;
    belongs = b;
  }

  pub Quiet-IsSafe :
      (dm dm' : DownloadMgr L) (n : ChannelName) (x : ℕ)
      → Quiet dm x dm'
      → Held dm n x
      → IsSafe dm
      → IsSafe dm'
  Quiet-IsSafe dm dm' n x q h s = keep-IsSafe dm dm' x q.same_channel q.others q.same_panics h.out s

  pub Quiet-trans :
      {dm dm' dm'' : DownloadMgr L} {x : ℕ} → Quiet dm x dm' → Quiet dm' x dm'' → Quiet dm x dm''
  Quiet-trans p q = record {
    same_channel = q.same_channel ∙ p.same_channel;
    same_map = q.same_map ∙ p.same_map;
    same_next = q.same_next ∙ p.same_next;
    same_current = q.same_current ∙ p.same_current;
    others = λ k h. q.others k h ∙ p.others k h;
    same_id = q.same_id ∙ p.same_id;
    same_flag = q.same_flag ∙ p.same_flag;
    same_endings = λ r. q.same_endings r ∙ p.same_endings r;
    same_losses = λ r. q.same_losses r ∙ p.same_losses r;
    same_panics = q.same_panics ∙ p.same_panics;
  }

  -- A write of the task that leaves its id.
  pub write-Quiet :
      (dm : DownloadMgr L) (x : ℕ) (t : Task)
      → t.id ≡ (dm.tasks x).id
      → t.cancel_flag ≡ (dm.tasks x).cancel_flag
      → Quiet dm x (write_task dm x t)
  write-Quiet dm x t i f = record {
    same_channel = refl;
    same_map = refl;
    same_next = refl;
    same_current = refl;
    others = λ k h. ground arith;
    same_id = ground arith;
    same_flag = ground (arith, f);
    same_endings = λ r. refl;
    same_losses = λ r. refl;
    same_panics = refl;
  }

  -- A choice by a test between two managers that both settle the task.
  pub if_Settles :
      {dm : DownloadMgr L} {x : ℕ} (b : Bool) {d e : DownloadMgr L}
      → Settles dm x d
      → Settles dm x e
      → Settles dm x (if b then d else e)
  if_Settles true p q = p
  if_Settles false p q = q
