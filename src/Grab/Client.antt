-- ===== src/Grab/Client.antt =====
-- grab/client.go: the state machine that downloads one file. The environment is a stream of
-- answers, one for each round of the loop `run`.
pub mod Writing
pub mod Machine
pub mod Rank
pub mod Ends
pub mod Stored
pub mod Contents
pub mod Invariant
pub mod Sized
pub mod Unchanged
pub mod Bytes
use downloadmgr.Prelude.{
  ℕ, zero, suc, ◌+◌, Bool, true, false, not, ◌&&◌, ◌||◌, List, [], ◌∷◌, ◌++◌, Option, none, some,
  ltb, leb, ◌==◌, if◌then◌else◌, ℤ, pos, ◌+ℤ◌, ltb_ℤ, leb_ℤ, eqb_ℤ, length, take, drop, Text, codes,
}
use downloadmgr.Transfer.{
  Transfer, Round, CopyError, context_done, short_write, failed, Exit, new_transfer, copy,
}
use downloadmgr.Grab.Errors.{
  GrabError, err_bad_length, err_no_filename, err_file_exists, context_error, status_code_error,
  other,
}
use downloadmgr.Grab.Names.{is_empty, guess_filename}
use downloadmgr.Grab.Response.{
  Method, get, head, HttpRequest, HttpResponse, Request, OpenMode, create, append, overwrite,
  Writer, store_buffer, file, Response,
}

-- FolderHandleLock is not read.
pub record Client : Type 0 where
  pub user_agent : Text
  pub buffer_size : ℤ
  pub can_resume : Bool
  pub need_encrypt : Bool

unfoldable pub new_client : Client
new_client = record {
  user_agent = codes "grab";
  buffer_size = pos 0;
  can_resume = false;
  need_encrypt = false;
}

-- os.Stat of the file, and of the folder in mkdirp.
pub data FileStat : Type 0 where
  missing directory : FileStat
  stat_error : Text → FileStat
  regular : ℕ → FileStat

-- What Client.Do of net/http returns: an error may come with a response.
pub data HttpResult : Type 0 where
  answered : HttpResponse → HttpResult
  http_failed : Option HttpResponse → GrabError → HttpResult

-- os.OpenFile: what the file holds, which is nothing if it has been created.
pub data OpenResult : Type 0 where
  opened : List ℕ → OpenResult
  open_failed : GrabError → OpenResult

-- What the environment answers in one round, as far as the round asks for it.
pub record Answers : Type 0 where
  pub cancelled : Bool
  pub now : ℕ
  pub stat : FileStat
  pub http : HttpRequest → HttpResult
  pub folder : FileStat
  pub mkdir_error : Option Text
  pub open_file : OpenMode → OpenResult
  pub seek_error : Option GrabError
  pub before_copy_error : Option GrabError
  pub rounds : List Round
  pub chtimes_error : Option GrabError
  pub after_copy_error : Option GrabError

pub data StateFunc : Type 0 where
  stat_file_info validate_local head_request get_request : StateFunc
  read_response open_writer copy_file close_response : StateFunc

-- The next state function, or nil, or a panic; or the copy loop has not ended in its rounds.
pub data Next : Type 0 where
  goto : StateFunc → Next
  stop panicked copying : Next

-- `resp.err = e; return c.closeResponse`.
abbrev pub fail : Response → GrabError → Response × Next
fail r e = (record r { err = some e }, goto close_response)

-- `resp.err = e; if resp.err != nil { return c.closeResponse }`, and then the rest.
abbrev pub check : Option GrabError → Response → (Response → Response × Next) → Response × Next
check (some e) r rest = fail r e
check none r rest = rest (record r { err = none })

abbrev stat_found : Response → FileStat → Response × Next
stat_found r missing = (r, goto head_request)
stat_found r (stat_error e) = fail r (other e)
stat_found r directory = (record r { filename = [] }, goto head_request)
stat_found r (regular size) = (record r { fi = some size }, goto validate_local)

unfoldable pub on_stat_file_info : Answers → Response → Response × Next
on_stat_file_info a r =
    if r.request.no_store || is_empty r.filename
    then (r, goto head_request)
    else stat_found r a.stat

abbrev pub expected_size : Response → ℤ
expected_size r =
    if eqb_ℤ r.request.size (pos 0)
    then elim r.http_response [ none ↦ r.request.size | some h ↦ h.content_length ]
    else r.request.size

abbrev pub set_range : Response → ℕ → Response
set_range r size = record r {
  request = record (r.request) {
    http_request = record (r.request.http_request) { range = some size };
  };
}

-- With the size of the local file.
abbrev pub validate : Response → ℕ → Response × Next
validate r size =
    if r.request.skip_existing
    then fail r err_file_exists
    else if eqb_ℤ (expected_size r) (pos 0)
    then (r, goto head_request)
    else if eqb_ℤ (expected_size r) (pos size)
    then (record r { did_resume = true; bytes_resumed = size }, goto close_response)
    else if r.request.no_resume
    then (r, goto get_request)
    else if leb_ℤ (pos 0) (expected_size r) && ltb_ℤ (expected_size r) (pos size)
    then fail r err_bad_length
    else if r.can_resume
    then (record (set_range r size) { did_resume = true; bytes_resumed = size }, goto get_request)
    else (r, goto head_request)

-- A nil fi is dereferenced.
unfoldable pub on_validate_local : Response → Response × Next
on_validate_local r = elim r.fi [ none ↦ (r, panicked) | some size ↦ validate r size ]

abbrev pub is_none {ℓ} : {A : Type ℓ} → Option A → Bool
is_none none = true
is_none (some a) = false

-- doHTTPRequest, whose writes of the header reach the request that the copy for HEAD shares it with.
abbrev with_agent : Client → HttpRequest → HttpRequest
with_agent c req =
    if not (is_empty c.user_agent) && is_empty req.user_agent
    then record req { user_agent = c.user_agent }
    else req

abbrev pub put_request : Response → HttpRequest → Response
put_request r req = record r { request = record (r.request) { http_request = req } }

abbrev pub head_answer : Response → HttpResult → Response × Next
head_answer r (http_failed o e) = fail (record r { http_response = o }) e
head_answer r (answered h) =
    let r = record r { http_response = some h; err = none } in
    if not (h.status_code == 200) then (r, goto get_request) else (
      put_request r (record (r.request.http_request) {
        url = h.request.url;
        path = h.request.path;
        host = h.request.host;
      }),
      goto read_response,
    )

unfoldable pub on_head_request : Client → Answers → Response → Response × Next
on_head_request c a r =
    let known = record r { options_known = true } in
    let req = with_agent c r.request.http_request in
    if r.options_known
    then (r, goto get_request)
    else if r.request.no_resume
    then (known, goto get_request)
    else if not (is_empty r.filename) && is_none r.fi
    then (known, goto get_request)
    else head_answer (put_request known req) (a.http (record req { method = head }))

abbrev pub is_success : HttpResponse → Bool
is_success h = leb 200 h.status_code && leb h.status_code 299

abbrev pub get_answer : Response → HttpResult → Response × Next
get_answer r (http_failed o e) = fail (record r { http_response = o }) e
get_answer r (answered h) =
    let r = record r { http_response = some h; err = none } in
    if not r.request.ignore_bad_status_codes && not (is_success h)
    then fail r (status_code_error h.status_code)
    else (r, goto read_response)

unfoldable pub on_get_request : Client → Answers → Response → Response × Next
on_get_request c a r =
    let req = with_agent c r.request.http_request in get_answer (put_request r req) (a.http req)
