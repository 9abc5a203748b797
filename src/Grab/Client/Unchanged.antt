-- ===== src/Grab/Client/Unchanged.antt =====
-- grab/client.go: no step of a download changes whether its request is stored.
use downloadmgr.Prelude.{
  ℕ, ◌≡◌, arith, Bool, true, false, not, ◌&&◌, ◌||◌, List, Option, none, some, Text, if◌then◌else◌,
}
use downloadmgr.Transfer.{Transfer, Exit, copy}
use downloadmgr.Grab.Errors.{GrabError, context_error}
use downloadmgr.Grab.Response.{Request, Response}
use downloadmgr.Grab.Client.{
  Client, Answers, StateFunc, stat_file_info, validate_local, head_request, get_request,
  read_response, open_writer, copy_file, close_response, Next, goto, stop, panicked, copying, check,
  HttpResult, answered, http_failed, OpenResult, opened, open_failed, head_answer, get_answer,
  put_request, with_agent, on_stat_file_info, on_validate_local, on_head_request, on_get_request,
}
use downloadmgr.Grab.Client.Writing.{
  Made, made, not_made, not_a_directory, mkdirp, file_opened, folder_made, init_transfer, open_mode,
  truncated, received, copied, discover_size, copy_ended, copy_with, run_copy, modified_error,
  on_read_response, on_open_writer, on_copy_file, on_close_response,
}
use downloadmgr.Grab.Client.Machine.{RunResult, step, round, download}
use downloadmgr.Grab.Client.Invariant.{Kept, Held, download-Held}

-- The state function has left NoStore of the request as it was.
abbrev Same : Bool → Response × Next → Type 0
Same b p = p.0.request.no_store ≡ b

module _ (encrypt : List ℕ → List ℕ) (join : Text → Text → Text) (c : Client) (b : Bool) where
  branch-Same :
      (p q : Response × Next) (test : Bool) → Same b p → Same b q → Same b (if test then p else q)
  branch-Same p q true f g = f
  branch-Same p q false f g = g

  check-Same :
      (o : Option GrabError) (r : Response) (rest : Response → Response × Next)
      → r.request.no_store ≡ b
      → Same b (rest (record r { err = none }))
      → Same b (check o r rest)
  check-Same (some e) r rest h k = h
  check-Same none r rest h k = k

  answers-Same :
      (r : Response) (res : HttpResult)
      → r.request.no_store ≡ b
      → Same b (head_answer r res) × Same b (get_answer r res)
  answers-Same r (answered x) h = ground arith
  answers-Same r (http_failed o e) h = ground arith

  on_open_writer-Same :
      (a : Answers) (r : Response) → r.request.no_store ≡ b → Same b (on_open_writer c a r)
  unfolding on_open_writer
  on_open_writer-Same a r h =
      branch-Same _ _ r.request.no_store (started _ h) (folder (mkdirp a.folder a.mkdir_error))
    where
      started : (s : Response) → s.request.no_store ≡ b → Same b (init_transfer c s)
      started s k = ground arith

      file : (o : OpenResult) → Same b (file_opened c a r o)
      file (open_failed e) = h
      file (opened old) = check-Same a.seek_error _ (init_transfer c) h (started _ h)

      folder : (m : Made) → Same b (folder_made c a r m)
      folder made = file (a.open_file (open_mode r))
      folder (not_made e) = h
      folder not_a_directory = h

  copied-Same :
      (a : Answers) (n : ℕ) (r : Response) → r.request.no_store ≡ b → Same b (copied a n r)
  copied-Same a n r h =
      branch-Same _ _ (not r.request.no_store && not r.request.ignore_remote_time)
        (check-Same (modified_error a closed) closed (discover_size a n) h (sized closed h))
        (sized closed h)
    where
      closed : Response
      closed = record r { writer = none; err = none }

      sized : (s : Response) → s.request.no_store ≡ b → Same b (discover_size a n s)
      sized s k = ground arith

  on_copy_file-Same :
      (a : Answers) (r : Response) → r.request.no_store ≡ b → Same b (on_copy_file encrypt a r)
  unfolding on_copy_file
  on_copy_file-Same a r h = branch-Same _ _ r.done h (
      branch-Same _ _ r.request.before_copy
        (check-Same a.before_copy_error r (run_copy encrypt a) h (with_copy _ r.transfer h))
        (with_copy r r.transfer h))
    where
      ended :
          (s : Response) (p : Transfer × Exit) → s.request.no_store ≡ b → Same b (copy_ended a s p)
      ended s (t, none) k = k
      ended s (t, some (some e)) k = k
      ended s (t, some none) k = copied-Same a t.written (received s t) k

      with_copy :
          (s : Response) (o : Option Transfer)
          → s.request.no_store ≡ b
          → Same b (copy_with encrypt a s o)
      with_copy s none k = k
      with_copy s (some t) k = ended (truncated s) (copy encrypt t a.rounds) (ground arith)

  step-Same :
      (a : Answers) (f : StateFunc) (r : Response)
      → r.request.no_store ≡ b
      → Same b (step encrypt join c a f r)
  unfolding step on_stat_file_info on_validate_local on_head_request on_get_request on_read_response
      on_close_response
  step-Same a stat_file_info r h = ground arith
  step-Same a validate_local r h = ground arith
  step-Same a head_request r h =
      let req = with_agent c r.request.http_request in
      ground (arith, answers-Same (put_request (record r { options_known = true }) req))
  step-Same a get_request r h =
      (answers-Same (put_request r (with_agent c r.request.http_request)) _ h).1
  step-Same a read_response r h = ground arith
  step-Same a open_writer r h = on_open_writer-Same a r h
  step-Same a copy_file r h = on_copy_file-Same a r h
  step-Same a close_response r h = ground arith

  round-Same :
      (a : Answers) (f : StateFunc) (r : Response)
      → r.request.no_store ≡ b
      → Same b (round encrypt join c a f r)
  unfolding round
  round-Same a f r h =
      branch-Same _ _ (r.ctx_done || a.cancelled)
        (branch-Same _ _ r.done h
          (step-Same a close_response (record r { ctx_done = true; err = some context_error }) h))
        (step-Same a f r h)

  -- A run has left NoStore as it was.
  abbrev pub Left : RunResult → Type 0
  Left = Held (λ f r. r.request.no_store ≡ b)

  round-Kept :
      (a : Answers) (f : StateFunc) (r : Response)
      → r.request.no_store ≡ b
      → Kept (λ f r. r.request.no_store ≡ b) (round encrypt join c a f r)
  round-Kept a f r h = as_kept (round encrypt join c a f r) (round-Same a f r h)
    where
      as_kept : (p : Response × Next) → Same b p → Kept (λ f r. r.request.no_store ≡ b) p
      as_kept (s, goto g) k = k
      as_kept (s, stop) k = k
      as_kept (s, panicked) k = tt
      as_kept (s, copying) k = tt

  pub download-Left :
      (world : ℕ → Answers) (now : ℕ) (req : Request)
      → req.no_store ≡ b
      → Left (download encrypt join c world now req)
  download-Left world now req h =
      download-Held (λ f r. r.request.no_store ≡ b) encrypt join c world (λ i. round-Kept (world i))
        now req h
