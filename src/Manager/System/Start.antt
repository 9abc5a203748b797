-- ===== src/Manager/System/Start.antt =====
-- NewDownloadMgr: the state that the program starts in.
use mathlib.Core.Option
use downloadmgr.Prelude.{count, sym, ◌∙◌, ℕ, ◌≡◌, refl, some, arith, [], ap, suc}
use downloadmgr.ArrayList.{ArrayList}
use downloadmgr.Task.{
  Task, ChannelName, pre_handle_channel, quick_channel, random_channel, unpause_fast_channel,
  unpause_slow_channel,
}
use downloadmgr.Manager.{DownloadMgr, map_load}
use downloadmgr.Manager.Places.{idle, idle_count, endings, losses, panics, HasLimits}
use downloadmgr.Manager.Add.{new_download_mgr}
use downloadmgr.Manager.System.Inv.{Inv}
use downloadmgr.Manager.System.Map.{MapInv}

module _ {L : Type 0} ⦃al : ArrayList L⦄ where
  module _ (dm : DownloadMgr L) (empty : (n : ChannelName) → idle dm n ≡ []) where
    idle_count_empty : (r : ℕ) → idle_count r dm ≡ 0
    idle_count_empty r =
        rw
          (
            empty pre_handle_channel,
            empty quick_channel,
            empty random_channel,
            empty unpause_fast_channel,
            empty unpause_slow_channel,
          )
          refl

    pub empty-Inv :
        ((n : ChannelName) → HasLimits n (dm.channel n))
        → dm.calls ≡ []
        → Inv (record { dm = dm; held = []; adding = [] })
    empty-Inv limits none_called = record {
      safe = record {
        sorted = λ n. rw (empty n) tt;
        listed = λ n r h. absurd (omega (arith, ap (count r) (empty n)));
        limits = limits;
        calm = ap panics none_called;
      };
      placed = λ r.
          omega (arith, idle_count_empty r, ap (endings r) none_called, ap (losses r) none_called);
      fresh = λ r h.
          omega (arith, idle_count_empty r, ap (endings r) none_called, ap (losses r) none_called);
      newcomers = λ r h. absurd (omega arith);
      holders = tt;
      crewed = λ n. omega arith;
    }

    pub empty-MapInv :
        dm.calls ≡ []
        → dm.current_id ≡ 0
        → dm.next_ref ≡ 0
        → dm.task_map ≡ []
        → MapInv (record { dm = dm; held = []; adding = [] })
    unfolding map_load
    empty-MapInv l c n m = record {
      current = c ∙ sym n;
      ids = λ r h. absurd (omega (arith, n));
      mapped = λ r. ground (arith, idle_count_empty r, ap (losses r) l, ap (map_load (suc r)) m);
    }

  -- NewDownloadMgr does not panic over its dropped errors, and the state that it makes, with no
  -- worker busy, satisfies the invariants of the running program.
  pub new_download_mgr-Inv :
      (zero_task : Task)
      → (dm : DownloadMgr L) × (new_download_mgr zero_task ≡ some dm)
        × Inv (record { dm = dm; held = []; adding = [] })
        × MapInv (record { dm = dm; held = []; adding = [] })
  unfolding new_download_mgr
  new_download_mgr-Inv zero_task =
      let dm : DownloadMgr L = Option.get (new_download_mgr zero_task) tt in
      let empty : (n : ChannelName) → idle dm n ≡ [] = elim [
        | pre_handle_channel ↦ al.values-empty
        | quick_channel ↦ al.values-empty
        | random_channel ↦ al.values-empty
        | unpause_fast_channel ↦ al.values-empty
        | unpause_slow_channel ↦ al.values-empty
      ] in
      let limits : (n : ChannelName) → HasLimits n (dm.channel n) = elim [
        | pre_handle_channel ↦ (refl, refl)
        | quick_channel ↦ (refl, refl)
        | random_channel ↦ (refl, refl)
        | unpause_fast_channel ↦ (refl, refl)
        | unpause_slow_channel ↦ (refl, refl)
      ] in
      (dm, refl, empty-Inv dm empty limits refl, empty-MapInv dm empty refl refl refl refl)
