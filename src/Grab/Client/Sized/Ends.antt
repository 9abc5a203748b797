-- ===== src/Grab/Client/Sized/Ends.antt =====
-- grab/client.go and grab/response.go: the size of a download that has ended.
use downloadmgr.Prelude.{
  ℕ, ◌≡◌, ◌⊎◌, inl, inr, refl, arith, Bool, true, false, ◌||◌, List, Option, none, some,
  if◌then◌else◌, ℤ, Text,
}
use downloadmgr.Transfer.{Transfer, Exit, copy}
use downloadmgr.Grab.Errors.{context_error}
use downloadmgr.Grab.Response.{Response, Request}
use downloadmgr.Grab.Client.{
  Client, Answers, StateFunc, stat_file_info, validate_local, head_request, get_request,
  read_response, open_writer, copy_file, close_response, Next, stop,
}
use downloadmgr.Grab.Client.Writing.{
  truncated, received, copy_ended, copy_with, run_copy, on_copy_file,
}
use downloadmgr.Grab.Client.Machine.{step, round, download}
use downloadmgr.Grab.Client.Sized.{IsAnnounced, Outcome, IsOpen, Closed, At, Keeps, check-Keeps}
use downloadmgr.Grab.Client.Invariant.{Held, download-Held}
use downloadmgr.Grab.Client.Sized.Asking.{
  branch, still, stat_file_info-Keeps, validate_local-Keeps, head_request-Keeps, get_request-Keeps,
  read_response-Keeps,
}
use downloadmgr.Grab.Client.Sized.Copying.{open_writer-Keeps, close_response-Keeps, copied-Keeps}

module _ (encrypt : List ℕ → List ℕ) (wanted : ℤ) where
  when_done :
      (p q : Response × Next) (b : Bool)
      → b ≡ true
      → Keeps wanted p
      → Keeps wanted (if b then p else q)
  when_done p q true e k = k
  when_done p q false e k = cc

  copy_ended-Keeps :
      (a : Answers) (r : Response) (p : Transfer × Exit)
      → IsOpen wanted r
      → IsAnnounced r
      → Keeps wanted (copy_ended a r p)
  copy_ended-Keeps a r (t, none) h n = tt
  copy_ended-Keeps a r (t, some (some e)) h n = (still wanted _ h refl refl, inl refl)
  copy_ended-Keeps a r (t, some none) h n =
      copied-Keeps wanted a (received r t) t (still wanted _ h refl refl)
        (record {
          header = n.header;
          answer = n.answer;
          announced = n.announced;
          fits_if_known = n.fits_if_known;
        })
        refl

  truncated-IsAnnounced :
      (r : Response)
      → IsOpen wanted r
      → IsAnnounced r
      → IsOpen wanted (truncated r) × IsAnnounced (truncated r)
  truncated-IsAnnounced r h n = (
    still wanted _ h (ground arith) (ground arith),
    record {
      header = n.header;
      answer = ground (arith, n.answer);
      announced = ground (arith, n.announced);
      fits_if_known = ground (arith, n.fits_if_known);
    },
  )

  copy_with-Keeps :
      (a : Answers) (r : Response) (o : Option Transfer)
      → IsOpen wanted r
      → IsAnnounced r
      → Keeps wanted (copy_with encrypt a r o)
  copy_with-Keeps a r none h n = tt
  copy_with-Keeps a r (some t) h n =
      let k = truncated-IsAnnounced r h n in
      copy_ended-Keeps a (truncated r) (copy encrypt t a.rounds) k.0 k.1

  copy_file-Keeps :
      (a : Answers) (r : Response) → At wanted copy_file r → Keeps wanted (on_copy_file encrypt a r)
  unfolding on_copy_file
  copy_file-Keeps a r (inr c) = when_done _ _ r.done c.1 (inr c)
  copy_file-Keeps a r (inl (h, n)) = branch wanted _ _ r.done (inl (h, n)) (
      branch wanted _ _ r.request.before_copy
        (check-Keeps wanted a.before_copy_error r (run_copy encrypt a) h (
          copy_with-Keeps a (record r { err = none }) r.transfer (still wanted _ h refl refl)
            (record {
              header = n.header;
              answer = n.answer;
              announced = n.announced;
              fits_if_known = n.fits_if_known;
            })))
        (copy_with-Keeps a r r.transfer h n))

  module _ (join : Text → Text → Text) (c : Client) where
    step-Keeps :
        (a : Answers) (f : StateFunc) (r : Response)
        → At wanted f r
        → Keeps wanted (step encrypt join c a f r)
    unfolding step
    step-Keeps a stat_file_info r h = stat_file_info-Keeps wanted a r h
    step-Keeps a validate_local r h = validate_local-Keeps wanted r h
    step-Keeps a head_request r h = head_request-Keeps wanted c a r h
    step-Keeps a get_request r h = get_request-Keeps wanted c a r h
    step-Keeps a read_response r h = read_response-Keeps wanted join c r h
    step-Keeps a open_writer r h = open_writer-Keeps wanted c a r h
    step-Keeps a copy_file r h = copy_file-Keeps a r h
    step-Keeps a close_response r h = close_response-Keeps wanted a r h

    status_cases :
        (f : StateFunc) (r : Response) → At wanted f r → IsOpen wanted r ⊎ Closed wanted r
    status_cases stat_file_info r h = inl h.0
    status_cases validate_local r h = inl h.0
    status_cases head_request r h = inl h.0
    status_cases get_request r h = inl h.0
    status_cases read_response r h = inl h.0
    status_cases open_writer r h = inl h.0
    status_cases copy_file r (inl h) = inl h.0
    status_cases copy_file r (inr h) = inr h
    status_cases close_response r h = inl h.0

    cancelled-Keeps :
        (a : Answers) (r : Response)
        → IsOpen wanted r ⊎ Closed wanted r
        → Keeps wanted (
            if r.done
            then (record r { ctx_done = true }, stop)
            else step encrypt join c a close_response
                (record r { ctx_done = true; err = some context_error }))
    unfolding step
    cancelled-Keeps a r (inl h) = unfinished r.done h.unfinished
      where
        stopped : Response
        stopped = record r { ctx_done = true; err = some context_error }

        unfinished :
            (b : Bool)
            → b ≡ false
            → Keeps wanted (
                if b
                then (record r { ctx_done = true }, stop)
                else step encrypt join c a close_response stopped)
        unfinished true e = absurd (ground arith)
        unfinished false e =
            close_response-Keeps wanted a stopped (still wanted stopped h refl refl, inl refl)
    cancelled-Keeps a r (inr h) = when_done _ _ r.done h.1 (inr (h.0, h.1, same h.2))
      where
        same : Outcome r → Outcome (record r { ctx_done = true })
        same (inl e) = inl e
        same (inr (inl e)) = inr (inl e)
        same (inr (inr z)) = inr (
            inr (record {
              header = z.header;
              transfer = z.transfer;
              answer = z.answer;
              copied = z.copied;
              known = z.known;
              fits = z.fits;
            }))

    round-Keeps :
        (a : Answers) (f : StateFunc) (r : Response)
        → At wanted f r
        → Keeps wanted (round encrypt join c a f r)
    unfolding round
    round-Keeps a f r h =
        branch wanted _ _ (r.ctx_done || a.cancelled) (cancelled-Keeps a r (status_cases f r h))
          (step-Keeps a f r h)

    pub download-At :
        (world : ℕ → Answers) (now : ℕ) (req : Request)
        → req.size ≡ wanted
        → Held (At wanted) (download encrypt join c world now req)
    download-At world now req e =
        download-Held (At wanted) encrypt join c world (λ i. round-Keeps (world i)) now req
          (record { same_size = e; unfinished = refl }, refl)
