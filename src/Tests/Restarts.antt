-- ===== src/Tests/Restarts.antt =====
-- A panic of todo and the restart, step by step.
use downloadmgr.Prelude.{◌≡◌, refl, true, false, [], ◌∷◌, arith}
use downloadmgr.Restart.{
  loops, delays, InfiLoop, safe_infi_loop, Step, first_sent, spawned, panicked, woke, sent, Steps,
  here, next,
}
use downloadmgr.Restart.Single.{IsSingle, safe_infi_loop-IsSingle}
use downloadmgr.Restart.Recovery.{safe_infi_loop_recovers}

-- The state with `gs`, after one panic that was reported.
abbrev after_panic : InfiLoop
after_panic = record safe_infi_loop {
  first_send = false;
  goroutines = delays ∷ [];
  panics = 1;
  reports = 1;
}

abbrev broke : Steps true safe_infi_loop after_panic
broke = next (next (next here (first_sent _ refl refl)) (spawned _ refl)) (panicked _ 0 refl)

abbrev restarted : Steps true after_panic (record after_panic { goroutines = loops ∷ [] })
restarted = next (next (next here (woke _ 0 refl)) (sent _ 0 refl refl)) (spawned _ refl)

safe_infi_loop-IsSingle_example : IsSingle true after_panic
safe_infi_loop-IsSingle_example = safe_infi_loop-IsSingle true broke

safe_infi_loop_recovers_example :
    ((u : InfiLoop) × Step true after_panic u × (u.panics ≡ 1)) × (loops ∷ [] ≡ loops ∷ [])
safe_infi_loop_recovers_example = safe_infi_loop_recovers true broke restarted refl (omega arith)
