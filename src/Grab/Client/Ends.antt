-- ===== src/Grab/Client/Ends.antt =====
-- grab/client.go: every run of the state machine ends, and a download closes its response once.
use downloadmgr.Prelude.{
  ℕ, zero, suc, ◌≡◌, ◌<◌, ◌≤◌, ◌⊎◌, inl, inr, refl, arith, ap, if-true, ◌∙◌, Bool, true, false,
  ◌||◌, List, some, Text,
}
use downloadmgr.Grab.Errors.{context_error}
use downloadmgr.Grab.Response.{get, Request, Response}
use downloadmgr.Grab.Client.{
  Client, Answers, StateFunc, stat_file_info, validate_local, head_request, get_request,
  read_response, open_writer, copy_file, close_response, Next, goto, stop, panicked, copying,
}
use downloadmgr.Grab.Client.Machine.{
  RunResult, returned, panicking, waiting, running, step, round, run, new_response, enough,
  do_request, after_do, download,
}
use downloadmgr.Grab.Client.Rank.{
  rank, IsReady, IsClosed, IsUsual, KeepsMethod, HasFileAsFolder, CopiesOn, Allows, Goes, In,
  branch-Goes,
}
use downloadmgr.Grab.Client.Rank.Asking.{
  stat_file_info-Goes, validate_local-Goes, on_head_request-Goes, on_get_request-Goes,
  on_read_response-Goes,
}
use downloadmgr.Grab.Client.Rank.Copying.{
  on_open_writer-Goes, on_copy_file-Goes, on_close_response-Goes,
}

-- How a run may end: in a panic only if `P`, in a wait for the copy loop only if `W`.
abbrev pub Ends : (P W : Type 0) → Bool → RunResult → Type 0
Ends P W b (returned r) = IsClosed r ⊎ ((b ≡ false) × IsReady copy_file r)
Ends P W b (waiting r) = W
Ends P W b (panicking r) = P
Ends P W b (running r) = ⊥

Goes-le :
    (P W : Type 0) (b : Bool) (k m : ℕ) (p : Response × Next)
    → k ≤ m
    → Goes P W b k p
    → Goes P W b m p
Goes-le P W b k m (r, goto g) le (ready, below, there) = (ready, omega arith, there)
Goes-le P W b k m (r, stop) le h = h
Goes-le P W b k m (r, panicked) le h = h
Goes-le P W b k m (r, copying) le h = h

rank_pos : (f : StateFunc) (r : Response) → 0 < rank f r
rank_pos stat_file_info r = ground arith
rank_pos validate_local r = ground arith
rank_pos head_request r = ground arith
rank_pos get_request r = omega arith
rank_pos read_response r = ground arith
rank_pos open_writer r = omega arith
rank_pos copy_file r = omega arith
rank_pos close_response r = omega arith

module _ (encrypt : List ℕ → List ℕ) (join : Text → Text → Text) (c : Client) where
  -- The second run on a closed response does nothing.
  pub closed_round :
      (a : Answers) (f : StateFunc) (r : Response)
      → IsClosed r
      → round encrypt join c a f r ≡ (record r { ctx_done = true }, stop)
  unfolding round
  closed_round a f r h =
      if-true _ _ (ap (λ b. b || a.cancelled) h.cancelled) ∙ if-true _ _ h.complete

  pub closed_run :
      (world : ℕ → Answers) (fuel i : ℕ) (r : Response)
      → IsClosed r
      → run encrypt join c (suc fuel) world i copy_file r ≡ returned (record r { ctx_done = true })
  unfolding run
  closed_run world fuel i r h =
      let e = closed_round (world i) copy_file r h in rw (e, run) (ap (λ p. returned p.0) e)

module _ (P W : Type 0) (encrypt : List ℕ → List ℕ) (join : Text → Text → Text) (c : Client) where
  pub step-Goes :
      (b : Bool) (a : Answers) (f : StateFunc) (r : Response)
      → In b f
      → Allows P W encrypt a
      → IsReady f r
      → Goes P W b (rank f r) (step encrypt join c a f r)
  unfolding step
  step-Goes false a stat_file_info r n u v = stat_file_info-Goes P W encrypt a r v
  step-Goes false a validate_local r n u v = validate_local-Goes P W encrypt r v
  step-Goes false a head_request r n u v = on_head_request-Goes P W encrypt c a r u v
  step-Goes false a get_request r n u v = on_get_request-Goes P W encrypt c a r u v
  step-Goes false a read_response r n u v = on_read_response-Goes P W encrypt join c r v
  step-Goes false a open_writer r n u v = on_open_writer-Goes P W encrypt c a r u v
  step-Goes true a copy_file r n u v = on_copy_file-Goes P W encrypt a r u v
  step-Goes b a close_response r n u v = on_close_response-Goes P W encrypt b 1 a r v.unfinished
  step-Goes false a copy_file r n u v = absurd n
  step-Goes true a stat_file_info r n u v = absurd n
  step-Goes true a validate_local r n u v = absurd n
  step-Goes true a head_request r n u v = absurd n
  step-Goes true a get_request r n u v = absurd n
  step-Goes true a read_response r n u v = absurd n
  step-Goes true a open_writer r n u v = absurd n

  pub round-Goes :
      (b : Bool) (a : Answers) (f : StateFunc) (r : Response)
      → In b f
      → Allows P W encrypt a
      → IsReady f r
      → Goes P W b (rank f r) (round encrypt join c a f r)
  unfolding round step
  round-Goes b a f r n u v =
      let stopped = record r { ctx_done = true; err = some context_error } in
      branch-Goes P W b _ _ _ (r.ctx_done || a.cancelled)
        (λ e.
          branch-Goes P W b _ _ _ r.done (λ d. absurd (ground (arith, v.unfinished)))
            (λ d. on_close_response-Goes P W encrypt b (rank f r) a stopped v.unfinished))
        (λ e. step-Goes b a f r n u v)

  module _ (world : ℕ → Answers) (usual : (i : ℕ) → Allows P W encrypt (world i)) where
    after_round :
        (fuel i : ℕ) (b : Bool) (p : Response × Next)
        → Goes P W b (suc fuel) p
        → ((g : StateFunc) (r : Response)
            → In b g
            → rank g r ≤ fuel
            → IsReady g r
            → Ends P W b (run encrypt join c fuel world (suc i) g r))
        → Ends P W b (elim p.1 [
          | goto g ↦ run encrypt join c fuel world (suc i) g p.0
          | stop ↦ returned p.0
          | panicked ↦ panicking p.0
          | copying ↦ waiting p.0
        ])
    after_round fuel i b (r, goto g) (ready, below, there) ih = ih g r there (omega arith) ready
    after_round fuel i b (r, stop) h ih = h
    after_round fuel i b (r, panicked) h ih = h
    after_round fuel i b (r, copying) h ih = h

    -- With as much fuel as the rank, a run ends.
    run-Ends :
        (b : Bool) (fuel i : ℕ) (f : StateFunc) (r : Response)
        → In b f
        → rank f r ≤ fuel
        → IsReady f r
        → Ends P W b (run encrypt join c fuel world i f r)
    unfolding run
    run-Ends b zero i f r n le v = absurd (omega (arith, rank_pos f r))
    run-Ends b (suc fuel) i f r n le v =
        after_round fuel i b (round encrypt join c (world i) f r)
          (Goes-le P W _ _ _ _ le (round-Goes b (world i) f r n (usual i) v))
          (λ g r' n' le' v'. run-Ends b fuel (suc i) g r' n' le' v')

    -- The run of Do returns, with a closed response or one that is ready for the copy.
    pub do_request-Ends :
        (now : ℕ) (req : Request)
        → req.http_request.method ≡ get
        → Ends P W false (do_request encrypt join c world now req)
    unfolding do_request
    do_request-Ends now req m =
        run-Ends false enough 0 stat_file_info (new_response c req now) tt (omega arith)
          (record { unfinished = refl; method = m; needs = tt })

    pub after_do-Ends :
        (x : RunResult) → Ends P W false x → Ends P W true (after_do encrypt join c world x)
    after_do-Ends (returned r) (inl h) = rw (closed_run encrypt join c world 12 enough r h) (
        inl (record {
          complete = h.complete;
          cancelled = refl;
          no_writer = h.no_writer;
          no_info = h.no_info;
        }))
    after_do-Ends (returned r) (inr (p, v)) =
        run-Ends true enough enough copy_file r tt (omega arith) v
    after_do-Ends (waiting r) h = h
    after_do-Ends (panicking r) h = h
    after_do-Ends (running r) h = h

    pub download-Ends :
        (now : ℕ) (req : Request)
        → req.http_request.method ≡ get
        → Ends P W true (download encrypt join c world now req)
    unfolding download
    download-Ends now req m =
        after_do-Ends (do_request encrypt join c world now req) (do_request-Ends now req m)

-- The end of a download: closed, in a panic that a folder has caused, or in an endless copy.
abbrev pub IsAccounted : (List ℕ → List ℕ) → (ℕ → Answers) → RunResult → Type 0
IsAccounted encrypt world (returned r) = IsClosed r
IsAccounted encrypt world (panicking r) = (i : ℕ) × HasFileAsFolder (world i)
IsAccounted encrypt world (waiting r) = (i : ℕ) × CopiesOn encrypt (world i)
IsAccounted encrypt world (running r) = ⊥

module _ (encrypt : List ℕ → List ℕ) (join : Text → Text → Text) (c : Client)
    (world : ℕ → Answers) where
  -- A download whose request is a GET request, whatever the file system, the origin, the hooks and
  -- cancellations do, as long as redirects keep the method, has done with its state machine after 13
  -- rounds in Do and 13 in the goroutine at most. It panics only if the folder of the file was found
  -- to be a file, and is still copying only if the copy loop does not end in the rounds that it is
  -- given. Else it returns, and then Done is closed, the context is cancelled, and no file is open.
  pub download-IsAccounted :
      (now : ℕ) (req : Request)
      → ((i : ℕ) → KeepsMethod (world i))
      → req.http_request.method ≡ get
      → IsAccounted encrypt world (download encrypt join c world now req)
  download-IsAccounted now req kept m = accounted (download encrypt join c world now req) (
      download-Ends _ _ encrypt join c world
        (λ i. record { method_kept = kept i; panics = λ h. (i, h); waits = λ h. (i, h) }) now req m)
    where
      accounted :
          (x : RunResult)
          → Ends ((i : ℕ) × HasFileAsFolder (world i)) ((i : ℕ) × CopiesOn encrypt (world i)) true x
          → IsAccounted encrypt world x
      accounted (returned r) (inl h) = h
      accounted (returned r) (inr h) = cc
      accounted (waiting r) h = h
      accounted (panicking r) h = h
      accounted (running r) h = h

  pub download-IsClosed :
      ((i : ℕ) → IsUsual encrypt (world i))
      → (now : ℕ) (req : Request) → req.http_request.method ≡ get
      → (r : Response) × (download encrypt join c world now req ≡ returned r) × IsClosed r
  download-IsClosed usual now req m =
      closed (download encrypt join c world now req)
        (download-IsAccounted now req (λ i. (usual i).method_kept) m)
    where
      closed :
          (x : RunResult)
          → IsAccounted encrypt world x
          → (r : Response) × (x ≡ returned r) × IsClosed r
      closed (returned r) h = (r, refl, h)
      closed (waiting r) (i, h) = absurd (ground (arith, (usual i).ends h.0, h.1))
      closed (panicking r) (i, h) = absurd ((usual i).proper h.0 h.1)
      closed (running r) h = absurd h
