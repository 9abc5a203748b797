-- ===== src/Grab/Client/Writing.antt =====
-- grab/client.go: the state functions that read a response, open the file, copy the body into it
-- and close the response; mkdirp and setLastModified of grab/util.go.
use downloadmgr.Prelude.{
  ℕ, ◌+◌, Bool, true, not, ◌&&◌, List, [], ◌++◌, Option, none, some, ltb, if◌then◌else◌, ℤ, pos,
  ◌+ℤ◌, ltb_ℤ, leb_ℤ, eqb_ℤ, length, take, drop, Text, codes,
}
use downloadmgr.Transfer.{
  Transfer, CopyError, context_done, short_write, failed, Exit, new_transfer, copy,
}
use downloadmgr.Grab.Errors.{GrabError, err_bad_length, err_no_filename, context_error, other}
use downloadmgr.Grab.Names.{is_empty, guess_filename}
use downloadmgr.Grab.Response.{
  get, head, HttpResponse, Request, OpenMode, create, append, overwrite, Writer, store_buffer, file,
  Response,
}
use downloadmgr.Grab.Client.{
  Client, FileStat, missing, directory, stat_error, regular, OpenResult, opened, open_failed,
  Answers, stat_file_info, open_writer, close_response, Next, goto, stop, panicked, copying, fail,
  check, is_none,
}

-- The size that the headers announce does not fit the one that the request asks for.
abbrev pub wrong_size : Request → ℤ → Bool
wrong_size req size = ltb_ℤ (pos 0) req.size && not (eqb_ℤ req.size size)

abbrev pub total_size : Response → HttpResponse → ℤ
total_size r h =
    if leb_ℤ (pos 0) h.content_length
    then h.content_length +ℤ pos r.bytes_resumed
    else h.content_length

-- The end of readResponse.
abbrev pub after_name : Client → Response → HttpResponse → Response × Next
after_name c r h = elim h.request.method [
  | get ↦ (r, goto open_writer)
  | head ↦
      if not r.request.no_store
      then (record r { can_resume = c.can_resume }, goto stat_file_info)
      else (r, goto open_writer)
]

-- `join` is filepath.Join.
abbrev pub named :
    (Text → Text → Text) → Client → Response → HttpResponse → Option Text → Response × Next
named join c r h none = fail r err_no_filename
named join c r h (some name) = after_name c (record r { filename = join r.request.filename name }) h

abbrev pub read : (Text → Text → Text) → Client → Response → HttpResponse → Response × Next
read join c r h =
    let sized = record r { size = total_size r h } in
    if leb_ℤ (pos 0) h.content_length && wrong_size r.request (total_size r h)
    then fail sized err_bad_length
    else if is_empty r.filename
    then named join c sized h (guess_filename h.request.path h.disposition h.filename_param)
    else after_name c sized h

unfoldable pub on_read_response : (Text → Text → Text) → Client → Response → Response × Next
unfolding guess_filename
on_read_response join c r = elim r.http_response [ none ↦ (r, panicked) | some h ↦ read join c r h ]

-- mkdirp: an error, or a panic.
pub data Made : Type 0 where
  made not_a_directory : Made
  not_made : GrabError → Made

abbrev make_all : Option Text → Made
make_all none = made
make_all (some e) = not_made (other (codes "error creating destination directory: " ++ e))

unfoldable pub mkdirp : FileStat → Option Text → Made
mkdirp missing e = make_all e
mkdirp directory e = made
mkdirp (stat_error t) e = not_made (other (codes "error checking destination directory: " ++ t))
mkdirp (regular n) e = not_a_directory

abbrev pub open_mode : Response → OpenMode
open_mode r = elim r.fi [ none ↦ create | some size ↦ if r.did_resume then append else overwrite ]

-- From `init transfer` on. The Body of a nil response is a nil dereference.
abbrev pub init_transfer : Client → Response → Response × Next
init_transfer c r = if is_none r.http_response then (r, panicked) else (
  record r {
    buffer_size = if ltb_ℤ r.buffer_size (pos 1) then pos 32768 else r.buffer_size;
    transfer = some (new_transfer c.need_encrypt);
  },
  stop,
)

-- Seek to the start, or to the end if bytes are resumed.
abbrev pub file_opened : Client → Answers → Response → OpenResult → Response × Next
file_opened c a r (open_failed e) = fail r e
file_opened c a r (opened old) =
    let offset = if ltb 0 r.bytes_resumed then length old else 0 in
    check a.seek_error (record r { writer = some (file (open_mode r) offset); saved = some old })
      (init_transfer c)

abbrev pub folder_made : Client → Answers → Response → Made → Response × Next
folder_made c a r not_a_directory = (r, panicked)
folder_made c a r (not_made e) = fail r e
folder_made c a r made = file_opened c a r (a.open_file (open_mode r))

unfoldable pub on_open_writer : Client → Answers → Response → Response × Next
unfolding mkdirp
on_open_writer c a r =
    if r.request.no_store
    then init_transfer c (record r { writer = some store_buffer; saved = some [] })
    else folder_made c a r (mkdirp a.folder a.mkdir_error)

-- What a file holds when `out` is written at an offset.
abbrev pub write_at : ℕ → List ℕ → List ℕ → List ℕ
write_at offset old out = take offset old ++ (out ++ drop (offset + length out) old)

abbrev pub written_to : Option Writer → List ℕ → List ℕ → List ℕ
written_to none old out = old
written_to (some store_buffer) old out = old ++ out
written_to (some (file append offset)) old out = old ++ out
written_to (some (file mode offset)) old out = write_at offset old out

abbrev pub saved_bytes : Response → List ℕ
saved_bytes r = elim r.saved [ none ↦ [] | some old ↦ old ]

-- A file has the method Truncate, the buffer has none of that signature.
abbrev pub truncated : Response → Response
truncated r = elim r.writer [
  | some (file mode offset) ↦
      if not (is_none r.fi) && not r.did_resume then record r { saved = some [] } else r
  | _ ↦ r
]

abbrev copy_error : CopyError → GrabError
copy_error context_done = context_error
copy_error short_write = other (codes "short write")
copy_error (failed e) = other e

unfoldable pub set_last_modified : Option ℕ → Option GrabError → Option GrabError
set_last_modified none e = none
set_last_modified (some t) e = e

abbrev pub modified_error : Answers → Response → Option GrabError
modified_error a r = elim r.http_response [
  | none ↦ none
  | some h ↦ set_last_modified h.last_modified a.chtimes_error
]

abbrev pub after_copy : Answers → Response → Response × Next
after_copy a r =
    if r.request.after_copy
    then check a.after_copy_error r (λ r. (r, goto close_response))
    else (r, goto close_response)

-- `update transfer size if previously unknown`.
abbrev pub discover_size : Answers → ℕ → Response → Response × Next
discover_size a bytes_copied r =
    let discovered = pos (r.bytes_resumed + bytes_copied) in
    if ltb_ℤ r.size (pos 0)
    then (if wrong_size r.request discovered
        then fail (record r { size = discovered }) err_bad_length
        else after_copy a (record r { size = discovered }))
    else after_copy a r

-- From closeWriter on.
abbrev pub copied : Answers → ℕ → Response → Response × Next
copied a bytes_copied r =
    let r = record r { writer = none; err = none } in
    if not r.request.no_store && not r.request.ignore_remote_time
    then check (modified_error a r) r (discover_size a bytes_copied)
    else discover_size a bytes_copied r

-- What the copy loop leaves in the transfer and in the file.
abbrev pub received : Response → Transfer → Response
received r t = record r {
  transfer = some t;
  saved = some (written_to r.writer (saved_bytes r) t.out);
}

abbrev pub copy_ended : Answers → Response → Transfer × Exit → Response × Next
copy_ended a r (t, none) = (record r { transfer = some t }, copying)
copy_ended a r (t, some none) = copied a t.written (received r t)
copy_ended a r (t, some (some e)) = fail (received r t) (copy_error e)

module _ (encrypt : List ℕ → List ℕ) where
  -- Behind the hook. The transfer is dereferenced if it is not nil.
  abbrev pub copy_with : Answers → Response → Option Transfer → Response × Next
  copy_with a r none = (r, panicked)
  copy_with a r (some t) = copy_ended a (truncated r) (copy encrypt t a.rounds)

  abbrev pub run_copy : Answers → Response → Response × Next
  run_copy a r = copy_with a r r.transfer

  unfoldable pub on_copy_file : Answers → Response → Response × Next
  unfolding copy set_last_modified
  on_copy_file a r =
      if r.done
      then (r, stop)
      else if r.request.before_copy
      then check a.before_copy_error r (run_copy a)
      else run_copy a r

unfoldable pub on_close_response : Answers → Response → Response × Next
on_close_response a r = if r.done then (r, panicked) else (
  record r { fi = none; writer = none; end_time = a.now; done = true; ctx_done = true },
  stop,
)
