-- ===== src/Grab/Client/Invariant.antt =====
-- grab/client.go: what the state functions keep holds of the response that a download returns.
use downloadmgr.Prelude.{ℕ, zero, suc, Bool, true, false, List, Text, if◌then◌else◌}
use downloadmgr.Grab.Response.{Request, Response}
use downloadmgr.Grab.Client.{
  Client, Answers, StateFunc, stat_file_info, copy_file, Next, goto, stop, panicked, copying,
}
use downloadmgr.Grab.Client.Machine.{
  RunResult, returned, panicking, waiting, running, round, run, new_response, enough, do_request,
  after_do, download,
}

-- `P f r` is what holds of the response `r` when the state function `f` is called. A run that stops
-- leaves a response that copyFile may be called with.
module _ (P : StateFunc → Response → Type 0) where
  abbrev pub Kept : Response × Next → Type 0
  Kept (r, goto g) = P g r
  Kept (r, stop) = P copy_file r
  Kept (r, panicked) = Unit {0}
  Kept (r, copying) = Unit {0}

  pub branch_Kept :
      (p q : Response × Next) (test : Bool) → Kept p → Kept q → Kept (if test then p else q)
  branch_Kept p q true f g = f
  branch_Kept p q false f g = g

  abbrev pub Held : RunResult → Type 0
  Held (returned r) = P copy_file r
  Held (panicking r) = Unit {0}
  Held (waiting r) = Unit {0}
  Held (running r) = Unit {0}

  module _ (encrypt : List ℕ → List ℕ) (join : Text → Text → Text) (c : Client)
      (world : ℕ → Answers)
      (round-Kept : (i : ℕ) (f : StateFunc) (r : Response)
        → P f r
        → Kept (round encrypt join c (world i) f r)) where
    after_round :
        (fuel i : ℕ) (p : Response × Next)
        → Kept p
        → ((g : StateFunc) (r : Response)
            → P g r
            → Held (run encrypt join c fuel world (suc i) g r))
        → Held (elim p.1 [
          | goto g ↦ run encrypt join c fuel world (suc i) g p.0
          | stop ↦ returned p.0
          | panicked ↦ panicking p.0
          | copying ↦ waiting p.0
        ])
    after_round fuel i (r, goto g) h ih = ih g r h
    after_round fuel i (r, stop) h ih = h
    after_round fuel i (r, panicked) h ih = tt
    after_round fuel i (r, copying) h ih = tt

    run-Held :
        (fuel i : ℕ) (f : StateFunc) (r : Response)
        → P f r
        → Held (run encrypt join c fuel world i f r)
    unfolding run
    run-Held zero i f r h = tt
    run-Held (suc fuel) i f r h =
        after_round fuel i (round encrypt join c (world i) f r) (round-Kept i f r h)
          (λ g s k. run-Held fuel (suc i) g s k)

    after_do-Held : (x : RunResult) → Held x → Held (after_do encrypt join c world x)
    after_do-Held (returned r) h = run-Held enough enough copy_file r h
    after_do-Held (panicking r) h = h
    after_do-Held (waiting r) h = h
    after_do-Held (running r) h = h

    pub download-Held :
        (now : ℕ) (req : Request)
        → P stat_file_info (new_response c req now)
        → Held (download encrypt join c world now req)
    unfolding download do_request
    download-Held now req h =
        after_do-Held _ (run-Held enough 0 stat_file_info (new_response c req now) h)
