-- ===== src/Grab/Client/Stored/Rounds.antt =====
-- grab/client.go: one round of `run` keeps what holds of a download.
use downloadmgr.Prelude.{
  ℕ, ◌<◌, ◌≡◌, ◌≢◌, inl, refl, arith, sym, subst, Bool, true, false, ◌||◌, List, some, Text,
  if◌then◌else◌,
}
use downloadmgr.Grab.Errors.{context_error}
use downloadmgr.Grab.Response.{Response}
use downloadmgr.Grab.Client.{
  Client, Answers, StateFunc, stat_file_info, validate_local, head_request, get_request,
  read_response, open_writer, copy_file, close_response, stop,
}
use downloadmgr.Grab.Client.Writing.{on_close_response, on_copy_file}
use downloadmgr.Grab.Client.Machine.{step, round, enough}
use downloadmgr.Grab.Client.Rank.{rank, IsReady, IsUsual, In}
use downloadmgr.Grab.Client.Stored.{Has, Keeps, branch}
use downloadmgr.Grab.Client.Stored.Asking.{
  stat_file_info-Keeps, validate_local-Keeps, on_head_request-Keeps, on_get_request-Keeps,
  on_read_response-Keeps,
}
use downloadmgr.Grab.Client.Stored.Opening.{on_open_writer-Keeps}
use downloadmgr.Grab.Client.Stored.Copying.{on_copy_file-Keeps, on_close_response-Keeps}

module _ (encrypt : List ℕ → List ℕ) (join : Text → Text → Text) (c : Client) (world : ℕ → Answers)
    (usual : (i : ℕ) → IsUsual encrypt (world i)) where
  -- The copy comes at this place of the stream of answers only.
  abbrev pub AtCopy : StateFunc → ℕ → Type 0
  AtCopy f i = f ≡ copy_file → i ≡ enough

  step-Keeps :
      (i : ℕ) (f : StateFunc) (r : Response)
      → AtCopy f i
      → IsReady f r
      → Has encrypt c world f r
      → Keeps encrypt c world (step encrypt join c (world i) f r)
  unfolding step
  step-Keeps i stat_file_info r p v h = stat_file_info-Keeps encrypt c world i r h
  step-Keeps i validate_local r p v h = validate_local-Keeps encrypt c world r h
  step-Keeps i head_request r p v h = on_head_request-Keeps encrypt c world (world i) r h
  step-Keeps i get_request r p v h =
      on_get_request-Keeps encrypt c world (world i) r (usual i) v.method h
  step-Keeps i read_response r p v h = on_read_response-Keeps encrypt c world join r h
  step-Keeps i open_writer r p v h = on_open_writer-Keeps encrypt c world i r h
  step-Keeps i copy_file r p v h =
      subst (λ j. Keeps encrypt c world (on_copy_file encrypt (world j) r)) (sym (p refl))
        (on_copy_file-Keeps encrypt c world r h)
  step-Keeps i close_response r p v h = on_close_response-Keeps encrypt c world (world i) r h

  pub round-Keeps :
      (i : ℕ) (f : StateFunc) (r : Response)
      → AtCopy f i
      → IsReady f r
      → Has encrypt c world f r
      → Keeps encrypt c world (round encrypt join c (world i) f r)
  unfolding round step
  round-Keeps i f r p v h =
      branch encrypt c world _ _ (r.ctx_done || (world i).cancelled)
        (unfinished r.done v.unfinished) (step-Keeps i f r p v h)
    where
      unfinished :
          (b : Bool)
          → b ≡ false
          → Keeps encrypt c world (
              if b
              then (record r { ctx_done = true }, stop)
              else on_close_response
                  (world i)
                  (record r { ctx_done = true; err = some context_error }))
      unfinished true e = absurd (ground arith)
      unfinished false e = on_close_response-Keeps encrypt c world (world i) _ (inl refl)

  -- No state function leads to the copy.
  pub not_copy :
      (b : Bool) (f g : StateFunc) (r s : Response)
      → In b f
      → In b g
      → rank g s < rank f r
      → g ≢ copy_file
  not_copy false f copy_file r s n m below = absurd m
  not_copy true copy_file copy_file r s n m below = absurd (omega arith)
  not_copy true close_response copy_file r s n m below = absurd (omega arith)
  not_copy true stat_file_info copy_file r s n m below = absurd n
  not_copy true validate_local copy_file r s n m below = absurd n
  not_copy true head_request copy_file r s n m below = absurd n
  not_copy true get_request copy_file r s n m below = absurd n
  not_copy true read_response copy_file r s n m below = absurd n
  not_copy true open_writer copy_file r s n m below = absurd n
  not_copy b f stat_file_info r s n m below = λ e. cc
  not_copy b f validate_local r s n m below = λ e. cc
  not_copy b f head_request r s n m below = λ e. cc
  not_copy b f get_request r s n m below = λ e. cc
  not_copy b f read_response r s n m below = λ e. cc
  not_copy b f open_writer r s n m below = λ e. cc
  not_copy b f close_response r s n m below = λ e. cc
