-- ===== src/Grab/Client/Stored/Opening.antt =====
-- grab/client.go: openWriter keeps what holds of a download.
use downloadmgr.Prelude.{
  ℕ, ◌≡◌, ◌⊎◌, inl, inr, refl, arith, true, false, List, none, some, if◌then◌else◌, length, ltb,
  pos, ltb_ℤ, [],
}
use downloadmgr.Transfer.{new_transfer}
use downloadmgr.Grab.Response.{store_buffer, file, Response}
use downloadmgr.Grab.Client.{Client, Answers, OpenResult, opened, open_failed, open_writer, is_none}
use downloadmgr.Grab.Client.Writing.{
  init_transfer, file_opened, folder_made, Made, made, not_made, not_a_directory, mkdirp, open_mode,
  on_open_writer,
}
use downloadmgr.Grab.Client.Stored.{
  is_answered, IsFresh, IsRanged, Has, Keeps, branch, branch_by, check-Keeps, InFile, IsBuffered,
}

module _ (encrypt : List ℕ → List ℕ) (c : Client) (world : ℕ → Answers) where
  -- With the transfer set.
  abbrev with_transfer : Response → Response
  with_transfer r = record r {
    buffer_size = if ltb_ℤ r.buffer_size (pos 1) then pos 32768 else r.buffer_size;
    transfer = some (new_transfer c.need_encrypt);
  }

  init_transfer-Keeps :
      (r : Response)
      → is_answered r ≡ true
      → InFile encrypt c world (with_transfer r) ⊎ IsBuffered encrypt c world (with_transfer r)
      → Keeps encrypt c world (init_transfer c r)
  init_transfer-Keeps r ans v =
      branch encrypt c world _ _ (is_none r.http_response) tt (inr (ans, v))

  -- With the file open.
  abbrev into_file : Response → List ℕ → Response
  into_file r old = record r {
    writer = some (file (open_mode r) (if ltb 0 r.bytes_resumed then length old else 0));
    saved = some old;
    err = none;
  }

  file_opened-Keeps :
      (i : ℕ) (r : Response) (o : OpenResult)
      → (world i).open_file (open_mode r) ≡ o
      → r.request.no_store ≡ false
      → Has encrypt c world open_writer r
      → Keeps encrypt c world (file_opened c (world i) r o)
  file_opened-Keeps i r (open_failed e) h s v = inl refl
  file_opened-Keeps i r (opened old) h s v =
      check-Keeps encrypt c world (world i).seek_error _ (init_transfer c) (
        init_transfer-Keeps (into_file r old) v.0
          (inl (s, found v.1, record { is_written = refl; is_new = refl; was_opened = (i, h) })))
    where
      found :
          IsFresh r ⊎ IsRanged world r
          → ((r.did_resume ≡ false) × (r.bytes_resumed ≡ 0))
            ⊎ IsRanged world (with_transfer (into_file r old))
      found x = ground arith

  folder_made-Keeps :
      (i : ℕ) (r : Response) (m : Made)
      → r.request.no_store ≡ false
      → Has encrypt c world open_writer r
      → Keeps encrypt c world (folder_made c (world i) r m)
  folder_made-Keeps i r not_a_directory s v = tt
  folder_made-Keeps i r (not_made e) s v = inl refl
  folder_made-Keeps i r made s v =
      file_opened-Keeps i r ((world i).open_file (open_mode r)) refl s v

  pub on_open_writer-Keeps :
      (i : ℕ) (r : Response)
      → Has encrypt c world open_writer r
      → Keeps encrypt c world (on_open_writer c (world i) r)
  unfolding on_open_writer
  on_open_writer-Keeps i r v =
      branch_by encrypt c world _ _ r.request.no_store
        (λ e.
          init_transfer-Keeps (record r { writer = some store_buffer; saved = some [] }) v.0
            (inr (record { not_stored = e; is_buffer = refl; is_empty_yet = refl; is_new = refl })))
        (λ e. folder_made-Keeps i r (mkdirp (world i).folder (world i).mkdir_error) e v)
