-- ===== src/Restart/Recovery.antt =====
-- After a panic todo runs again.
use downloadmgr.Prelude.{
  ℕ, zero, suc, ◌+◌, ◌-◌, ◌*◌, ◌≤◌, ◌≡◌, ◌⊎◌, inl, inr, refl, Bool, false, List, [], ◌∷◌, some,
  arith, get_elem?, length, if◌then◌else◌,
}
use downloadmgr.Restart.{
  Dispatcher, receives, spawns, Stage, loops, delays, sends, InfiLoop, safe_infi_loop, Step,
  first_sent, spawned, returned, panicked, woke, sent, Steps, here, next,
}
use downloadmgr.Restart.Single.{
  Steps-IsSingle, pending_send, pending_spawn, IsSingle, safe_infi_loop-IsSingle,
}

abbrev pub step_count : {p : Bool} {s t : InfiLoop} → Steps p s t → ℕ
step_count here = 0
step_count (next r st) = step_count r + 1

-- How many steps without a panic are left before todo runs.
abbrev delay : Stage → ℕ
delay loops = 0
delay delays = 3
delay sends = 2

abbrev stage_rank : List Stage → ℕ
stage_rank [] = 0
stage_rank (g ∷ gs) = delay g + stage_rank gs

abbrev rank : InfiLoop → ℕ
rank s = (if s.first_send then 2 else 0) + pending_spawn s.dispatcher + stage_rank s.goroutines

-- The one goroutine.
only :
    (gs : List Stage) (i : ℕ) {g : Stage}
    → length gs ≤ 1
    → get_elem? gs i ≡ some g
    → (gs ≡ g ∷ []) × (i ≡ 0)
only [] i h e = cc
only (x ∷ []) zero h e = (ground arith, refl)
only (x ∷ []) (suc i) h e = cc
only (x ∷ y ∷ gs) i h e = absurd (omega arith)

none_yet : (gs : List Stage) → length gs ≡ 0 → stage_rank gs ≡ 0
none_yet [] h = refl
none_yet (x ∷ gs) h = absurd (omega arith)

stage_cases : (gs : List Stage) → length gs ≤ 1 → (gs ≡ []) ⊎ ((g : Stage) × (gs ≡ g ∷ []))
stage_cases [] h = inl refl
stage_cases (g ∷ []) h = inr (g, refl)
stage_cases (g ∷ x ∷ gs) h = absurd (omega arith)

dispatcher_cases : (d : Dispatcher) → (d ≡ spawns) ⊎ (d ≡ receives)
dispatcher_cases spawns = inl refl
dispatcher_cases receives = inr refl

stage_rank_bound : (gs : List Stage) → stage_rank gs ≤ 3 * length gs
stage_rank_bound [] = omega arith
stage_rank_bound (loops ∷ gs) = omega (arith, stage_rank_bound gs)
stage_rank_bound (delays ∷ gs) = omega (arith, stage_rank_bound gs)
stage_rank_bound (sends ∷ gs) = omega (arith, stage_rank_bound gs)

module _ (p : Bool) where
  no_less_panics : {s t : InfiLoop} → Step p s t → s.panics ≤ t.panics
  no_less_panics (first_sent s f d) = omega arith
  no_less_panics (spawned s d) = omega arith
  no_less_panics (returned s i e) = omega arith
  no_less_panics (panicked s i e) = omega arith
  no_less_panics (woke s i e) = omega arith
  no_less_panics (sent s i e d) = omega arith

  never_less_panics : {s t : InfiLoop} → Steps p s t → s.panics ≤ t.panics
  never_less_panics here = omega arith
  never_less_panics (next r st) = omega (arith, never_less_panics r, no_less_panics st)

  alone :
      (s : InfiLoop) (i : ℕ) {g : Stage}
      → IsSingle p s
      → get_elem? s.goroutines i ≡ some g
      → (s.goroutines ≡ g ∷ []) × (i ≡ 0) × (s.first_send ≡ false) × (s.dispatcher ≡ receives)
  alone s i h e =
      let (gs, z) = only s.goroutines i (omega (arith, h.one)) e in
      let left : pending_send s.first_send + pending_spawn s.dispatcher ≡ 0 =
        ground (arith, h.one, gs) in
      (gs, z, ground (arith, left), ground (arith, left))

  step_rank :
      {s t : InfiLoop} → Step p s t → IsSingle p s → t.panics ≡ s.panics → rank t ≡ rank s - 1
  step_rank (first_sent s f d) h e =
      ground (arith, f, d, none_yet s.goroutines (ground (arith, h.one, f)))
  step_rank (spawned s d) h e =
      ground (arith, d, h.one, none_yet s.goroutines (ground (arith, h.one, d)))
  step_rank (returned s i at) h e = let (gs, z, f, d) = alone s i h at in ground (arith, gs, f, d)
  step_rank (panicked s i at) h e = absurd (omega (arith, e))
  step_rank (woke s i at) h e = let (gs, z, f, d) = alone s i h at in ground (arith, gs, z, f, d)
  step_rank (sent s i at d) h e = let (gs, z, f, d) = alone s i h at in ground (arith, gs, z, f, d)

  rank_runs_out :
      {s t : InfiLoop} (later : Steps p s t)
      → IsSingle p s
      → t.panics ≡ s.panics
      → rank t ≡ rank s - step_count later
  rank_runs_out here h e = omega arith
  rank_runs_out {s = s} {t = t} (next {t = m} r st) h e =
      let calm : m.panics ≡ s.panics = omega (arith, e, never_less_panics r, no_less_panics st) in
      let calm_last : t.panics ≡ m.panics =
        omega (arith, e, never_less_panics r, no_less_panics st) in
      omega (arith, rank_runs_out r h calm, step_rank st (Steps-IsSingle p h r) calm_last)

  running : (s : InfiLoop) → IsSingle p s → rank s ≡ 0 → s.goroutines ≡ loops ∷ []
  running s h e = elim (stage_cases s.goroutines (omega (arith, h.one))) [
    | inl none_there ↦ absurd (ground (arith, h.one, none_there))
    | inr (loops, gs) ↦ gs
    | inr (delays, gs) ↦ absurd (ground (arith, e, gs))
    | inr (sends, gs) ↦ absurd (ground (arith, e, gs))
  ]

  -- The sends and the receive never wait for each other in vain.
  goes_on :
      {s : InfiLoop}
      → Steps p safe_infi_loop s
      → (t : InfiLoop) × Step p s t × (t.panics ≡ s.panics)
  goes_on {s = s} before =
      let h = safe_infi_loop-IsSingle p before in
      elim (stage_cases s.goroutines (omega (arith, h.one))) [
        | inr (loops, gs) ↦ (_, returned s 0 (rw gs refl), refl)
        | inr (delays, gs) ↦ (_, woke s 0 (rw gs refl), refl)
        | inr (sends, gs) ↦ (_, sent s 0 (rw gs refl) (ground (arith, h.one, gs)), refl)
        | inl gs ↦ elim (dispatcher_cases s.dispatcher) [
          | inl d ↦ (_, spawned s d, refl)
          | inr d ↦ (_, first_sent s (ground (arith, h.one, gs, d)) d, refl)
        ]
      ]

  -- At all times after a call of safeInfiLoop: some goroutine can take a step in which todo does not
  -- panic; and after any three or more further steps during which todo does not panic, one
  -- goroutine runs todo, and no other one is left.
  pub safe_infi_loop_recovers :
      {s t : InfiLoop}
      → Steps p safe_infi_loop s
      → (later : Steps p s t) → t.panics ≡ s.panics
      → 3 ≤ step_count later
      → ((u : InfiLoop) × Step p s u × (u.panics ≡ s.panics)) × (t.goroutines ≡ loops ∷ [])
  safe_infi_loop_recovers {s = s} {t = t} before later e enough =
      let h = safe_infi_loop-IsSingle p before in
      (
        goes_on before,
        running t (Steps-IsSingle p h later)
            (ground (arith, rank_runs_out later h e, h.one, stage_rank_bound s.goroutines)),
      )
