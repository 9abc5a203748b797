-- ===== src/Grab/Client/Rank.antt =====
-- grab/client.go: a rank that every state function lowers, and what it needs not to panic.
pub mod Asking
pub mod Copying
use downloadmgr.Prelude.{
  ℕ, ◌≡◌, ◌≢◌, ◌<◌, ◌⊎◌, inl, inr, refl, arith, ◌∙◌, Bool, true, false, ◌&&◌, not, Option, none,
  some, if◌then◌else◌, Text, Option-cases, List,
}
use downloadmgr.Grab.Response.{get, head, HttpRequest, HttpResponse, Response}
use downloadmgr.Grab.Client.{
  OpenResult, opened, open_failed, Client, Answers, FileStat, missing, directory, stat_error,
  regular, HttpResult, answered, http_failed, StateFunc, stat_file_info, validate_local,
  head_request, get_request, read_response, open_writer, copy_file, close_response, Next, goto,
  stop, panicked, copying, is_none, put_request, with_agent, check, head_answer, get_answer,
  on_stat_file_info, on_validate_local, on_head_request, on_get_request,
}
use downloadmgr.Transfer.{Transfer, Exit, copy}
use downloadmgr.Grab.Errors.{GrabError}
use downloadmgr.Grab.Client.Writing.{
  init_transfer, file_opened, folder_made, Made, made, not_made, not_a_directory, mkdirp, open_mode,
  after_copy, discover_size, copied, copy_ended, run_copy, copy_with, received, truncated,
  modified_error, on_read_response, on_open_writer, on_copy_file, on_close_response,
}

-- The response in `r` answers a HEAD request.
abbrev pub answers_head : Response → Bool
answers_head r = elim r.http_response [
  | none ↦ false
  | some h ↦ elim h.request.method [ head ↦ true | get ↦ false ]
]

-- How many rounds may follow.
abbrev pub rank : StateFunc → Response → ℕ
rank close_response r = 1
rank open_writer r = 2
rank copy_file r = 2
rank get_request r = 4
rank read_response r = if answers_head r then (if r.options_known then 8 else 12) else 3
rank head_request r = if r.options_known then 5 else 9
rank validate_local r = if r.options_known then 6 else 10
rank stat_file_info r = if r.options_known then 7 else 11

-- What a state function needs of the response to run without a panic.
abbrev pub Needs : StateFunc → Response → Type 0
Needs validate_local r = is_none r.fi ≡ false
Needs read_response r = is_none r.http_response ≡ false
Needs open_writer r = is_none r.http_response ≡ false
Needs copy_file r = is_none r.transfer ≡ false
Needs _ r = Unit {0}

pub record IsReady (f : StateFunc) (r : Response) : Type 0 where
  pub unfinished : r.done ≡ false
  pub method : r.request.http_request.method ≡ get
  pub needs : Needs f r

pub record IsClosed (r : Response) : Type 0 where
  pub complete : r.done ≡ true
  pub cancelled : r.ctx_done ≡ true
  pub no_writer : r.writer ≡ none
  pub no_info : r.fi ≡ none

-- The states of the run in the goroutine (`true`) and of the run in Do.
abbrev pub In : Bool → StateFunc → Type 0
In true copy_file = Unit {0}
In true close_response = Unit {0}
In true _ = ⊥
In false copy_file = ⊥
In false _ = Unit {0}

-- How a round of the one or the other run may end, with fewer than `k` rounds to follow: in a panic
-- only if `P`, in a wait for the copy loop only if `W`.
abbrev pub Goes : (P W : Type 0) → Bool → ℕ → Response × Next → Type 0
Goes P W b k (r, goto g) = IsReady g r × (rank g r < k) × In b g
Goes P W b k (r, stop) = IsClosed r ⊎ ((b ≡ false) × IsReady copy_file r)
Goes P W b k (r, panicked) = P
Goes P W b k (r, copying) = W

-- What http.Client documents: a HEAD request is redirected as HEAD, a GET request as GET.
abbrev pub KeepsMethod : Answers → Type 0
KeepsMethod a =
    (req : HttpRequest) (h : HttpResponse) → a.http req ≡ answered h → h.request.method ≡ req.method

-- The folder of the file is itself a file, at which mkdirp panics; the copy loop does not come to an
-- end in the rounds that it is given.
abbrev pub HasFileAsFolder : Answers → Type 0
HasFileAsFolder a = (n : ℕ) × (a.folder ≡ regular n)

abbrev pub CopiesOn : (List ℕ → List ℕ) → Answers → Type 0
CopiesOn encrypt a = (t : Transfer) × (is_none (copy encrypt t a.rounds).1 ≡ true)

-- The method is kept, a folder that is a file is a case of `P`, and a copy loop that goes on one of
-- `W`.
pub record Allows (P W : Type 0) (encrypt : List ℕ → List ℕ) (a : Answers) : Type 0 where
  pub method_kept : KeepsMethod a
  pub panics : HasFileAsFolder a → P
  pub waits : CopiesOn encrypt a → W

-- What http.Client documents: a HEAD request is redirected as HEAD, a GET request as GET. The folder
-- of the file is not itself a file, at which mkdirp panics. The copy loop comes to an end.
pub record IsUsual (encrypt : List ℕ → List ℕ) (a : Answers) : Type 0 where
  pub method_kept : KeepsMethod a
  pub proper : (n : ℕ) → a.folder ≢ regular n
  pub ends : (t : Transfer) → is_none (copy encrypt t a.rounds).1 ≡ false

-- Under the usual conditions neither a panic nor an endless copy is a case.
pub usual-Allows :
    (encrypt : List ℕ → List ℕ) (a : Answers) → IsUsual encrypt a → Allows ⊥ ⊥ encrypt a
usual-Allows encrypt a u = record {
  method_kept = u.method_kept;
  panics = λ (n, e). u.proper n e;
  waits = λ (t, e). cc (u.ends t);
}

pub branch-Goes :
    (P W : Type 0) (b : Bool) (k : ℕ) (p q : Response × Next) (test : Bool)
    → (test ≡ true → Goes P W b k p)
    → (test ≡ false → Goes P W b k q)
    → Goes P W b k (if test then p else q)
branch-Goes P W b k p q true f g = f refl
branch-Goes P W b k p q false f g = g refl
