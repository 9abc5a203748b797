-- ===== src/Grab/Client/Rank/Copying.antt =====
-- grab/client.go: the state functions from openWriter on lead nearer to the end, and none panics but at
-- a folder that is a file.
use downloadmgr.Prelude.{
  ℕ, ◌≡◌, inl, inr, refl, arith, Bool, true, false, ◌&&◌, not, Option, none, some, Text,
  Option-cases, List,
}
use downloadmgr.Grab.Response.{get, Response}
use downloadmgr.Grab.Client.{
  OpenResult, opened, open_failed, Client, Answers, FileStat, missing, directory, stat_error,
  regular, open_writer, copy_file, Next, is_none, check,
}
use downloadmgr.Transfer.{Transfer, Exit, copy}
use downloadmgr.Grab.Errors.{GrabError}
use downloadmgr.Grab.Client.Writing.{
  init_transfer, file_opened, folder_made, Made, made, not_made, not_a_directory, mkdirp, open_mode,
  after_copy, discover_size, copied, copy_ended, run_copy, copy_with, received, truncated,
  modified_error, on_open_writer, on_copy_file, on_close_response,
}
use downloadmgr.Grab.Client.Rank.{rank, IsReady, Goes, Allows, HasFileAsFolder, branch-Goes}

module _ (P W : Type 0) (encrypt : List ℕ → List ℕ) where
  -- The state in which every function behind the opening leaves a response.
  abbrev IsOpen : Response → Type 0
  IsOpen r = (r.done ≡ false) × (r.request.http_request.method ≡ get)

  check-Goes :
      (b : Bool) (o : Option GrabError) (r : Response) (rest : Response → Response × Next)
      → IsOpen r
      → Goes P W b 2 (rest (record r { err = none }))
      → Goes P W b 2 (check o r rest)
  check-Goes true (some e) r rest h k = ground arith
  check-Goes false (some e) r rest h k = ground arith
  check-Goes b none r rest h k = k

  init_transfer-Goes :
      (c : Client) (r : Response)
      → r.done ≡ false
      → r.request.http_request.method ≡ get
      → is_none r.http_response ≡ false
      → Goes P W false 2 (init_transfer c r)
  init_transfer-Goes c r open_ m here = ground arith

  file_opened-Goes :
      (c : Client) (a : Answers) (r : Response) (o : OpenResult)
      → IsReady open_writer r
      → Goes P W false 2 (file_opened c a r o)
  file_opened-Goes c a r (open_failed e) v = ground arith
  file_opened-Goes c a r (opened old) v = elim (Option-cases a.seek_error) [
    | inl e ↦ rw e (ground arith)
    | inr (t, e) ↦ rw e (ground arith)
  ]

  folder_made-Goes :
      (c : Client) (a : Answers) (r : Response) (m : Made)
      → (m ≡ not_a_directory → P)
      → IsReady open_writer r
      → Goes P W false 2 (folder_made c a r m)
  folder_made-Goes c a r not_a_directory n v = n refl
  folder_made-Goes c a r (not_made e) n v = ground arith
  folder_made-Goes c a r made n v = file_opened-Goes c a r (a.open_file (open_mode r)) v

  file_as_folder :
      (a : Answers) → mkdirp a.folder a.mkdir_error ≡ not_a_directory → HasFileAsFolder a
  unfolding mkdirp
  file_as_folder a h = by_stat a.folder a.mkdir_error h
    where
      by_stat :
          (s : FileStat) (e : Option Text)
          → mkdirp s e ≡ not_a_directory
          → (n : ℕ) × (s ≡ regular n)
      by_stat missing none h = cc
      by_stat missing (some t) h = cc
      by_stat directory e h = cc
      by_stat (stat_error t) e h = cc
      by_stat (regular n) e h = (n, refl)

  pub on_open_writer-Goes :
      (c : Client) (a : Answers) (r : Response)
      → Allows P W encrypt a
      → IsReady open_writer r
      → Goes P W false (rank open_writer r) (on_open_writer c a r)
  unfolding on_open_writer
  on_open_writer-Goes c a r u v =
      branch-Goes P W false _ _ _ r.request.no_store
        (λ e. init_transfer-Goes c _ v.unfinished v.method v.needs)
        (λ e.
          folder_made-Goes c a r (mkdirp a.folder a.mkdir_error)
            (λ h. u.panics (file_as_folder a h)) v)

  pub on_close_response-Goes :
      (b : Bool) (k : ℕ) (a : Answers) (r : Response)
      → r.done ≡ false
      → Goes P W b k (on_close_response a r)
  unfolding on_close_response
  on_close_response-Goes b k a r open_ = ground arith

  after_copy-Goes : (a : Answers) (r : Response) → IsOpen r → Goes P W true 2 (after_copy a r)
  after_copy-Goes a r h = ground arith

  discover_size-Goes :
      (a : Answers) (n : ℕ) (r : Response) → IsOpen r → Goes P W true 2 (discover_size a n r)
  discover_size-Goes a n r h = ground arith

  copied-Goes : (a : Answers) (n : ℕ) (r : Response) → IsOpen r → Goes P W true 2 (copied a n r)
  copied-Goes a n r h =
      let r' = record r { writer = none; err = none } in
      branch-Goes P W true _ _ _ (not r.request.no_store && not r.request.ignore_remote_time)
        (λ e.
          check-Goes true (modified_error a r') r' (discover_size a n) h
            (discover_size-Goes a n r' h))
        (λ e. discover_size-Goes a n r' h)

  copy_ended-Goes :
      (a : Answers) (r : Response) (p : Transfer × Exit)
      → IsOpen r
      → (is_none p.1 ≡ true → W)
      → Goes P W true 2 (copy_ended a r p)
  copy_ended-Goes a r (t, none) h ended = ended refl
  copy_ended-Goes a r (t, some (some e)) h ended = ground arith
  copy_ended-Goes a r (t, some none) h ended = copied-Goes a t.written (received r t) h

  truncated-IsOpen : (r : Response) → IsOpen r → IsOpen (truncated r)
  truncated-IsOpen r h = ground arith

  copy_with-Goes :
      (a : Answers) (r : Response) (o : Option Transfer)
      → IsOpen r
      → Allows P W encrypt a
      → is_none o ≡ false
      → Goes P W true 2 (copy_with encrypt a r o)
  copy_with-Goes a r none h u here = cc
  copy_with-Goes a r (some t) h u here =
      copy_ended-Goes a (truncated r) (copy encrypt t a.rounds) (truncated-IsOpen r h)
        (λ e. u.waits (t, e))

  pub on_copy_file-Goes :
      (a : Answers) (r : Response)
      → Allows P W encrypt a
      → IsReady copy_file r
      → Goes P W true (rank copy_file r) (on_copy_file encrypt a r)
  unfolding on_copy_file
  on_copy_file-Goes a r u v =
      branch-Goes P W true _ _ _ r.done (λ e. absurd (ground (arith, v.unfinished)))
        (λ e.
          branch-Goes P W true _ _ _ r.request.before_copy
            (λ f.
              check-Goes true a.before_copy_error r (run_copy encrypt a) (v.unfinished, v.method)
                (copy_with-Goes a _ r.transfer (v.unfinished, v.method) u v.needs))
            (λ f. copy_with-Goes a r r.transfer (v.unfinished, v.method) u v.needs))
