-- ===== src/Grab/Client/Stored.antt =====
-- grab/client.go: what a download stores, and what holds at every state function.
pub mod Asking
pub mod Opening
pub mod Copying
pub mod Rounds
use mathlib.Core.List.{append-nil}
use downloadmgr.Prelude.{
  ℕ, zero, suc, ◌+◌, ◌≡◌, ◌≢◌, ◌⊎◌, inl, inr, refl, arith, ap, sym, subst, ◌∙◌, Bool, true, false,
  not, ◌&&◌, ◌||◌, List, [], ◌∷◌, ◌++◌, Option, none, some, if◌then◌else◌, length, take, drop, ltb,
  pos, ltb_ℤ, Text, Bool-cases, Option-cases,
}
use downloadmgr.Transfer.{Transfer, Exit, CopyError, Round, new_transfer, copy}
use downloadmgr.Grab.Errors.{GrabError}
use downloadmgr.Grab.Response.{
  Method, get, head, HttpRequest, HttpResponse, OpenMode, create, append, overwrite, Writer, file,
  store_buffer, Response,
}
use downloadmgr.Grab.Client.{
  regular, Client, Answers, FileStat, HttpResult, answered, http_failed, OpenResult, opened,
  open_failed, StateFunc, stat_file_info, validate_local, head_request, get_request, read_response,
  open_writer, copy_file, close_response, Next, goto, stop, panicked, copying, is_none, is_success,
  expected_size, put_request, with_agent, fail, check, stat_found, validate, head_answer,
  get_answer, on_stat_file_info, on_validate_local, on_head_request, on_get_request,
}
use downloadmgr.Grab.Client.Writing.{
  init_transfer, file_opened, folder_made, Made, made, not_made, not_a_directory, mkdirp, open_mode,
  after_copy, discover_size, copied, copy_ended, copy_with, run_copy, received, truncated,
  modified_error, saved_bytes, written_to, write_at, wrong_size, on_read_response, on_open_writer,
  on_copy_file, on_close_response,
}
use downloadmgr.Grab.Client.Machine.{enough}
use downloadmgr.Grab.Client.Rank.{answers_head, IsUsual}

-- The origin has answered with a status in the 200s, unless the request ignores the status.
abbrev pub is_answered : Response → Bool
is_answered r = elim r.http_response [
  | none ↦ false
  | some h ↦ r.request.ignore_bad_status_codes || is_success h
]

-- Nothing is resumed yet.
pub record IsFresh (r : Response) : Type 0 where
  pub not_resumed : r.did_resume ≡ false
  pub no_bytes : r.bytes_resumed ≡ 0
  pub no_transfer : r.transfer ≡ none

-- os.Stat has found a file of this size.
abbrev pub WasFound : (ℕ → Answers) → ℕ → Type 0
WasFound world size = (i : ℕ) × ((world i).stat ≡ regular size)

-- What was found before the file is validated.
abbrev pub FoundIn : (ℕ → Answers) → Option ℕ → Type 0
FoundIn world none = Unit {0}
FoundIn world (some size) = WasFound world size

-- The range that was asked for begins where the local file ends.
pub record IsRanged (world : ℕ → Answers) (r : Response) : Type 0 where
  pub stored : r.request.no_store ≡ false
  pub is_resumed : r.did_resume ≡ true
  pub range_set : r.request.http_request.range ≡ some r.bytes_resumed
  pub info : r.fi ≡ some r.bytes_resumed
  pub found : WasFound world r.bytes_resumed

-- The local file has the size that is expected of the remote one, and nothing was copied.
pub record IsKept (world : ℕ → Answers) (r : Response) : Type 0 where
  pub stored : r.request.no_store ≡ false
  pub is_resumed : r.did_resume ≡ true
  pub nothing_copied : r.transfer ≡ none
  pub size_fits : expected_size r ≡ pos r.bytes_resumed
  pub found : WasFound world r.bytes_resumed

-- What a file that was opened in this mode has held then.
abbrev pub WasOpened : (ℕ → Answers) → OpenMode → List ℕ → Type 0
WasOpened world mode old = (i : ℕ) × ((world i).open_file mode ≡ opened old)

-- What the file or the buffer of a finished copy holds, by whether the download is stored and
-- resumed, from which byte on, and with which range.
pub data Stored (world : ℕ → Answers) (out : List ℕ) (saved : Option (List ℕ))
    (no_store did_resume : Bool) (from : ℕ) (range : Option ℕ) : Type 0 where
  created :
      (old : List ℕ)
      → WasOpened world create old
      → no_store ≡ false
      → did_resume ≡ false
      → saved ≡ some (out ++ drop (length out) old)
      → Stored world out saved no_store did_resume from range
  replaced :
      no_store ≡ false
      → did_resume ≡ false
      → saved ≡ some out
      → Stored world out saved no_store did_resume from range
  buffered :
      no_store ≡ true → saved ≡ some out → Stored world out saved no_store did_resume from range
  resumed :
      (old : List ℕ)
      → WasOpened world append old
      → no_store ≡ false
      → did_resume ≡ true
      → range ≡ some from
      → WasFound world from
      → saved ≡ some (old ++ out)
      → Stored world out saved no_store did_resume from range

abbrev pub offset_of : Response → ℕ
offset_of r = if ltb 0 r.bytes_resumed then length (saved_bytes r) else 0

module _ (encrypt : List ℕ → List ℕ) (c : Client) (world : ℕ → Answers) where
  abbrev pub StoredBy : Response → List ℕ → Type 0
  StoredBy r out =
      Stored world out r.saved r.request.no_store r.did_resume r.bytes_resumed
        r.request.http_request.range

  -- The copy, which is the first round of the goroutine, came to its end without an error.
  abbrev pub IsCopied : Response → Type 0
  IsCopied r =
      (t : Transfer) × (r.transfer ≡ some t)
      × (copy encrypt (new_transfer c.need_encrypt) (world enough).rounds ≡ (t, some none))
      × StoredBy r t.out

  abbrev pub IsEnded : Response → Type 0
  IsEnded r = (is_none r.err ≡ false) ⊎ (IsKept world r ⊎ ((is_answered r ≡ true) × IsCopied r))

  pub record IsOpened (r : Response) : Type 0 where
    pub is_written : r.writer ≡ some (file (open_mode r) (offset_of r))
    pub is_new : r.transfer ≡ some (new_transfer c.need_encrypt)
    pub was_opened : WasOpened world (open_mode r) (saved_bytes r)

  -- Ready to copy to the file.
  abbrev pub InFile : Response → Type 0
  InFile r =
      (r.request.no_store ≡ false)
      × (((r.did_resume ≡ false) × (r.bytes_resumed ≡ 0)) ⊎ IsRanged world r)
      × IsOpened r

  -- Ready to copy to the buffer.
  pub record IsBuffered (r : Response) : Type 0 where
    pub not_stored : r.request.no_store ≡ true
    pub is_buffer : r.writer ≡ some store_buffer
    pub is_empty_yet : r.saved ≡ some []
    pub is_new : r.transfer ≡ some (new_transfer c.need_encrypt)

  -- What holds when a state function is called.
  abbrev pub Has : StateFunc → Response → Type 0
  Has stat_file_info r = IsFresh r
  Has validate_local r = IsFresh r × (r.request.no_store ≡ false) × FoundIn world r.fi
  Has head_request r = IsFresh r
  Has get_request r = IsFresh r ⊎ IsRanged world r
  Has read_response r =
      (is_answered r ≡ true) × (IsFresh r ⊎ (IsRanged world r × (answers_head r ≡ false)))
  Has open_writer r = (is_answered r ≡ true) × (IsFresh r ⊎ IsRanged world r)
  Has copy_file r = (is_answered r ≡ true) × (InFile r ⊎ IsBuffered r)
  Has close_response r = IsEnded r

  abbrev pub Keeps : Response × Next → Type 0
  Keeps (r, goto g) = Has g r
  Keeps (r, stop) = ((r.done ≡ true) × IsEnded r) ⊎ Has copy_file r
  Keeps (r, panicked) = Unit {0}
  Keeps (r, copying) = Unit {0}

  pub branch :
      (p q : Response × Next) (test : Bool) → Keeps p → Keeps q → Keeps (if test then p else q)
  branch p q true f g = f
  branch p q false f g = g

  pub branch_by :
      (p q : Response × Next) (test : Bool)
      → (test ≡ true → Keeps p)
      → (test ≡ false → Keeps q)
      → Keeps (if test then p else q)
  branch_by p q true f g = f refl
  branch_by p q false f g = g refl

  pub check-Keeps :
      (o : Option GrabError) (r : Response) (rest : Response → Response × Next)
      → Keeps (rest (record r { err = none }))
      → Keeps (check o r rest)
  check-Keeps (some e) r rest k = inl refl
  check-Keeps none r rest k = k
