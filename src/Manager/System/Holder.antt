-- ===== src/Manager/System/Holder.antt =====
-- Which worker holds a task.
use downloadmgr.Prelude.{
  ℕ, zero, suc, ◌≤◌, ◌≡◌, ◌≢◌, refl, List, [], ◌∷◌, Option, none, some, arith, get_elem?, remove_at,
  set, ◌==◌, if◌then◌else◌,
}
use downloadmgr.Manager.Advance.{Phase, Worker}
use downloadmgr.Manager.System.Inv.{held_count, held_count-remove_at}

module _ (r : ℕ) where
  -- The worker that holds `r`.
  abbrev pub holder : List Worker → Option Worker
  holder [] = none
  holder (k ∷ held) = if k.task == r then some k else holder held

  pub holder-none : (held : List Worker) → held_count r held ≡ 0 → holder held ≡ none
  holder-none [] h = refl
  holder-none (k ∷ held) h = ground (arith, holder-none held (omega (arith, h)))

  pub holder_at :
      (held : List Worker) (i : ℕ) (k : Worker)
      → get_elem? held i ≡ some k
      → k.task ≡ r
      → held_count r held ≤ 1
      → holder held ≡ some k
  holder_at [] i k e t h = cc
  holder_at (j ∷ held) zero k e t h = ground (arith, e, t)
  holder_at (j ∷ held) (suc i) k e t h =
      ground
        (arith, held_count-remove_at r i held e, t, h, holder_at held i k e t (omega (arith, h)))

  pub holder-set :
      (held : List Worker) (i : ℕ) (k : Worker) (p : Phase)
      → get_elem? held i ≡ some k
      → k.task ≡ r
      → held_count r held ≤ 1
      → holder (set held i (record k { phase = p })) ≡ some (record k { phase = p })
  holder-set [] i k p e t h = cc
  holder-set (j ∷ held) zero k p e t h = ground (arith, t)
  holder-set (j ∷ held) (suc i) k p e t h =
      ground
        (arith, held_count-remove_at r i held e, t, h, holder-set held i k p e t (omega (arith, h)))

  pub holder-set_other :
      (held : List Worker) (i : ℕ) (k : Worker) (p : Phase)
      → get_elem? held i ≡ some k
      → k.task ≢ r
      → holder (set held i (record k { phase = p })) ≡ holder held
  holder-set_other [] i k p e t = refl
  holder-set_other (j ∷ held) zero k p e t = ground (arith, e, t)
  holder-set_other (j ∷ held) (suc i) k p e t = ground (arith, holder-set_other held i k p e t)

  pub holder_removed :
      (held : List Worker) (i : ℕ) (k : Worker)
      → get_elem? held i ≡ some k
      → k.task ≢ r
      → holder (remove_at i held) ≡ holder held
  holder_removed [] i k e t = refl
  holder_removed (j ∷ held) zero k e t = ground (arith, e, t)
  holder_removed (j ∷ held) (suc i) k e t = ground (arith, holder_removed held i k e t)
