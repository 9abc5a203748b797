-- ===== src/Grab/Response.antt =====
-- grab/request.go and grab/response.go: a request to download a file, and the response that keeps
-- the state of the download.
use downloadmgr.Prelude.{
  ℕ, ◌+◌, ◌-◌, Bool, true, false, List, [], Option, none, some, if◌then◌else◌, ℤ, pos, leb_ℤ, ◌+ℤ◌,
  ◌-ℤ◌, Text, codes,
}
use downloadmgr.Transfer.{Transfer}
use downloadmgr.Grab.Errors.{GrabError}
use downloadmgr.Grab.Names.{is_empty}

pub data Method : Type 0 where
  get head : Method

-- What the client reads and sets of an `*http.Request`. `path` is URL.Path, `range` the offset in
-- the header `Range: bytes=offset-`.
pub record HttpRequest : Type 0 where
  pub method : Method
  pub url : Text
  pub path : Text
  pub host : Text
  pub range : Option ℕ
  pub user_agent : Text

-- What the client reads of an `*http.Response`. `request` is the request that was sent last to
-- obtain it, `filename_param` the filename that mime.ParseMediaType finds in the disposition,
-- `last_modified` the time in the header of this name, if it is there and parses.
pub record HttpResponse : Type 0 where
  pub status_code : ℕ
  pub content_length : ℤ
  pub request : HttpRequest
  pub disposition : Text
  pub filename_param : Option Text
  pub last_modified : Option ℕ

-- Label and Tag, which the package does not read, are left out. A hook is whether it is set.
pub record Request : Type 0 where
  pub http_request : HttpRequest
  pub filename : Text
  pub skip_existing : Bool
  pub no_resume : Bool
  pub no_store : Bool
  pub no_create_directories : Bool
  pub ignore_bad_status_codes : Bool
  pub ignore_remote_time : Bool
  pub size : ℤ
  pub buffer_size : ℤ
  pub before_copy : Bool
  pub after_copy : Bool
  pub hash : Bool
  pub checksum : List ℕ
  pub delete_on_error : Bool

-- `req` is what http.NewRequest("GET", urlStr, nil) returns, `none` its error.
unfoldable pub new_request : Text → Option HttpRequest → Option Request
new_request dst none = none
new_request dst (some req) = some (record {
  http_request = req;
  filename = if is_empty dst then codes "." else dst;
  skip_existing = false;
  no_resume = false;
  no_store = false;
  no_create_directories = false;
  ignore_bad_status_codes = false;
  ignore_remote_time = false;
  size = pos 0;
  buffer_size = pos 0;
  before_copy = false;
  after_copy = false;
  hash = false;
  checksum = [];
  delete_on_error = false;
})

unfoldable pub set_checksum : Request → Bool → List ℕ → Bool → Request
set_checksum r h sum delete_on_error = record r {
  hash = h;
  checksum = sum;
  delete_on_error = delete_on_error;
}

-- The flags of os.OpenFile: O_CREATE, O_APPEND or neither, each with O_WRONLY.
pub data OpenMode : Type 0 where
  create append overwrite : OpenMode

-- The buffer in memory, or a file with the offset that Seek sets.
pub data Writer : Type 0 where
  store_buffer : Writer
  file : OpenMode → ℕ → Writer

-- `done` says that Done is closed, `ctx_done` that the context is cancelled, `fi` is the size of
-- the local file that was found. `saved` is what the file or the buffer holds after the last action
-- of the client, from the opening on.
pub record Response : Type 0 where
  pub request : Request
  pub http_response : Option HttpResponse
  pub filename : Text
  pub size : ℤ
  pub start : ℕ
  pub end_time : ℕ
  pub can_resume : Bool
  pub did_resume : Bool
  pub done : Bool
  pub ctx_done : Bool
  pub fi : Option ℕ
  pub options_known : Bool
  pub writer : Option Writer
  pub saved : Option (List ℕ)
  pub bytes_resumed : ℕ
  pub transfer : Option Transfer
  pub buffer_size : ℤ
  pub err : Option GrabError

unfoldable pub is_complete : Response → Bool
is_complete r = r.done

-- Err and Wait: `none` while they block.
unfoldable pub err_of : Response → Option (Option GrabError)
unfolding is_complete
err_of r = if is_complete r then some r.err else none

-- transfer.N, which is 0 of a nil transfer.
abbrev pub transferred : Option Transfer → ℕ
transferred none = 0
transferred (some t) = t.n

unfoldable pub bytes_complete : Response → ℕ
bytes_complete r = r.bytes_resumed + transferred r.transfer

unfoldable pub duration : Response → ℕ → ℕ
duration r now = if r.done then r.end_time - r.start else now - r.start

-- Progress, BytesPerSecond and ETA are in floating point: the quotients are parameters.
unfoldable pub progress : {F : Type 0} → F → (ℤ → ℤ → F) → Response → F
unfolding bytes_complete
progress zero_rate quotient r =
    if leb_ℤ r.size (pos 0) then zero_rate else quotient (pos (bytes_complete r)) r.size

-- `rate` takes bytes and nanoseconds, `gauge` is what transfer.BPS answers.
unfoldable pub bytes_per_second : {F : Type 0} → (ℕ → ℕ → F) → F → Response → ℕ → F
unfolding is_complete duration
bytes_per_second rate gauge r now =
    if is_complete r then rate (transferred r.transfer) (duration r now) else gauge

-- `left` is how many nanoseconds so many bytes take at the speed `gauge`, none if that is 0, which
-- makes ETA answer the zero time.
unfoldable pub eta : (ℤ → Option ℤ) → Response → ℕ → Option ℤ
unfolding is_complete bytes_complete ◌-ℤ◌ ◌+ℤ◌
eta left r now =
    if is_complete r
    then some (pos r.end_time)
    else elim (left (r.size -ℤ pos (bytes_complete r))) [
      | none ↦ none
      | some t ↦ some (pos now +ℤ t)
    ]

-- Cancel cancels the context, and answers what Err does.
unfoldable pub cancel_response : Response → Response × Option (Option GrabError)
unfolding err_of
cancel_response r = let stopped = record r { ctx_done = true } in (stopped, err_of stopped)

-- requestMethod: `none` is the empty string.
abbrev pub request_method : Response → Option Method
request_method r = elim r.http_response [ none ↦ none | some h ↦ some h.request.method ]

-- Open and Bytes, behind their call of Err: `none` while they block. `read` is what os.Open and
-- ReadAll give of the file.
pub data Content : Type 0 where
  failed : GrabError → Content
  bytes : List ℕ → Content

abbrev buffered : Option (List ℕ) → List ℕ
buffered none = []
buffered (some bs) = bs

abbrev opened : Response → Content → Option GrabError → Content
opened r read (some e) = failed e
opened r read none = if r.request.no_store then bytes (buffered r.saved) else read

unfoldable pub bytes_of : Response → Content → Option Content
unfolding err_of
bytes_of r read = elim (err_of r) [ none ↦ none | some e ↦ some (opened r read e) ]
