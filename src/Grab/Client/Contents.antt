-- ===== src/Grab/Client/Contents.antt =====
-- grab/client.go: what a download has left in the file when it has ended.
use downloadmgr.Prelude.{
  ℕ, zero, suc, ◌≡◌, ◌⊎◌, inl, inr, refl, arith, ap, sym, subst, ◌∙◌, Bool, true, false, List, Text,
}
use downloadmgr.Transfer.{new_transfer}
use downloadmgr.Transfer.Copy.{AllHonest, body, copy_complete}
use downloadmgr.Grab.Response.{get, Request, Response}
use downloadmgr.Grab.Client.{
  Client, Answers, StateFunc, stat_file_info, copy_file, Next, goto, stop, panicked, copying,
  is_none,
}
use downloadmgr.Grab.Client.Machine.{
  RunResult, returned, panicking, waiting, running, round, run, new_response, enough, do_request,
  after_do, download,
}
use downloadmgr.Grab.Client.Rank.{rank, IsReady, IsClosed, IsUsual, usual-Allows, Goes, In}
use downloadmgr.Grab.Client.Ends.{Ends, round-Goes, closed_run, do_request-Ends, download-IsClosed}
use downloadmgr.Grab.Client.Stored.{Has, Keeps, IsEnded, IsCopied, IsKept, StoredBy, is_answered}
use downloadmgr.Grab.Client.Stored.Rounds.{AtCopy, not_copy, round-Keeps}

module _ (encrypt : List ℕ → List ℕ) (join : Text → Text → Text) (c : Client) (world : ℕ → Answers)
    (usual : (i : ℕ) → IsUsual encrypt (world i)) where
  -- What holds of the response that a run returns.
  abbrev Holds : RunResult → Type 0
  Holds (returned r) =
      ((r.done ≡ true) × IsEnded encrypt c world r) ⊎ Has encrypt c world copy_file r
  Holds (panicking r) = Unit {0}
  Holds (waiting r) = Unit {0}
  Holds (running r) = Unit {0}

  after_round :
      (fuel i : ℕ) (b : Bool) (f : StateFunc) (r : Response) (p : Response × Next)
      → In b f
      → Goes ⊥ ⊥ b (rank f r) p
      → Keeps encrypt c world p
      → ((g : StateFunc) (s : Response)
          → In b g
          → AtCopy encrypt join c world usual g (suc i)
          → IsReady g s
          → Has encrypt c world g s
          → Holds (run encrypt join c fuel world (suc i) g s))
      → Holds (elim p.1 [
        | goto g ↦ run encrypt join c fuel world (suc i) g p.0
        | stop ↦ returned p.0
        | panicked ↦ panicking p.0
        | copying ↦ waiting p.0
      ])
  after_round fuel i b f r (s, goto g) n (ready, below, there) h ih =
      ih g s there (λ e. absurd (not_copy encrypt join c world usual b f g r s n there below e))
        ready h
  after_round fuel i b f r (s, stop) n v h ih = h
  after_round fuel i b f r (s, panicked) n v h ih = tt
  after_round fuel i b f r (s, copying) n v h ih = tt

  run-Holds :
      (b : Bool) (fuel i : ℕ) (f : StateFunc) (r : Response)
      → In b f
      → AtCopy encrypt join c world usual f i
      → IsReady f r
      → Has encrypt c world f r
      → Holds (run encrypt join c fuel world i f r)
  unfolding run
  run-Holds b zero i f r n p v h = tt
  run-Holds b (suc fuel) i f r n p v h =
      after_round fuel i b f r (round encrypt join c (world i) f r) n
        (round-Goes ⊥ ⊥ encrypt join c b (world i) f r n (usual-Allows encrypt (world i) (usual i))
          v)
        (round-Keeps encrypt join c world usual i f r p v h)
        (λ g s n' p' v' h'. run-Holds b fuel (suc i) g s n' p' v' h')

  do_request-Holds :
      (now : ℕ) (req : Request)
      → req.http_request.method ≡ get
      → Holds (do_request encrypt join c world now req)
  unfolding do_request
  do_request-Holds now req m =
      run-Holds false enough 0 stat_file_info (new_response c req now) tt (λ e. cc)
        (record { unfinished = refl; method = m; needs = tt })
        (record { not_resumed = refl; no_bytes = refl; no_transfer = refl })

  after_do-Holds :
      (x : RunResult) → Ends ⊥ ⊥ false x → Holds x → Holds (after_do encrypt join c world x)
  after_do-Holds (returned r) (inr (p, v)) (inr h) =
      run-Holds true enough enough copy_file r tt (λ e. refl) v h
  after_do-Holds (returned r) (inr (p, v)) (inl (done, h)) = absurd (ground (arith, v.unfinished))
  after_do-Holds (returned r) (inl closed) h =
      subst Holds
        (sym (
          closed_run encrypt join c world 12 enough r closed
          ∙ ap (λ b. returned (record r { ctx_done = b })) (sym closed.cancelled)))
        h
  after_do-Holds (waiting r) e h = h
  after_do-Holds (panicking r) e h = h
  after_do-Holds (running r) e h = h

  -- Under the conditions under which every download ends, that of a GET request ends in one of three
  -- ways. It has an error. Or it is to be stored, a local file was found that has the size that is
  -- expected of the remote one, and nothing was copied. Or the origin has answered with an accepted
  -- status, the copy loop, which ran once, came to its end without an error, and what the loop has
  -- written is held by the buffer, if the request is not stored, and else by the file: just that if
  -- an existing file was replaced, that in place of as many bytes at the start of what the file held
  -- if it was opened as a new one, and that behind what the file held when it was opened if the
  -- download is resumed, in which case the range that was asked for begins at the size that the
  -- local file was found with.
  pub download-IsEnded :
      (now : ℕ) (req : Request)
      → req.http_request.method ≡ get
      → (r : Response) × (download encrypt join c world now req ≡ returned r)
        × IsEnded encrypt c world r
  unfolding download
  download-IsEnded now req m =
      let (r, e, closed) = download-IsClosed encrypt join c world usual now req m in
      (
        r,
        e,
        ended r closed (
            subst Holds e (
              after_do-Holds _
                (do_request-Ends ⊥ ⊥ encrypt join c world
                  (λ i. usual-Allows encrypt (world i) (usual i)) now req m)
                (do_request-Holds now req m))),
      )
    where
      ended : (r : Response) → IsClosed r → Holds (returned r) → IsEnded encrypt c world r
      ended r closed (inl (done, h)) = h
      ended r closed (inr (ans, inl v)) = absurd (ground (arith, closed.no_writer, v.2.is_written))
      ended r closed (inr (ans, inr b)) = absurd (ground (arith, closed.no_writer, b.is_buffer))

  body_stored :
      (r : Response)
      → AllHonest encrypt c.need_encrypt (world enough).rounds
      → IsCopied encrypt c world r
      → StoredBy encrypt c world r (body encrypt c.need_encrypt (world enough).rounds)
  body_stored r honest (t, e, run, stored) =
      subst (StoredBy encrypt c world r)
        (sym (ap (λ p. p.0.out) run)
          ∙ copy_complete encrypt c.need_encrypt (new_transfer c.need_encrypt) (world enough).rounds
              honest refl (ap (λ p. p.1) run))
        stored

  -- Under the conditions under which every download ends, and if the file or the buffer is written
  -- as io.Writer documents it, a download of a GET request ends with an error, or keeps a local file
  -- of the expected size, or has stored every byte that the origin's body delivered, each chunk
  -- encrypted where the client asks for it: alone in the buffer or in a file that was replaced, at the
  -- start of what a file that was opened as a new one held, or behind what a resumed file held.
  pub download-body :
      (now : ℕ) (req : Request)
      → req.http_request.method ≡ get
      → AllHonest encrypt c.need_encrypt (world enough).rounds
      → (r : Response) × (download encrypt join c world now req ≡ returned r)
        × ((is_none r.err ≡ false)
            ⊎ (IsKept world r
                ⊎ ((is_answered r ≡ true)
                    × StoredBy encrypt c world r
                        (body encrypt c.need_encrypt (world enough).rounds))))
  download-body now req m honest =
      let (r, e, h) = download-IsEnded now req m in (r, e, with_body r h)
    where
      with_body :
          (r : Response)
          → IsEnded encrypt c world r
          → (is_none r.err ≡ false)
            ⊎ (IsKept world r
                ⊎ ((is_answered r ≡ true)
                    × StoredBy encrypt c world r
                        (body encrypt c.need_encrypt (world enough).rounds)))
      with_body r (inl h) = inl h
      with_body r (inr (inl k)) = inr (inl k)
      with_body r (inr (inr (a, d))) = inr (inr (a, body_stored r honest d))
