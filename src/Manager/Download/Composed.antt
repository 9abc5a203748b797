-- ===== src/Manager/Download/Composed.antt =====
-- startDownload of task.go with the client of the grab package: the client and the request that it
-- makes, and what it reads of the response.
use downloadmgr.Prelude.{
  ℕ, ◌≡◌, ◌≢◌, ◌⊎◌, inl, inr, refl, arith, ap, sym, ◌∙◌, Bool, true, false, not, List, Option, none,
  some, pos, Text, if◌then◌else◌, Bool-cases,
}
use downloadmgr.ArrayList.{ArrayList}
use downloadmgr.Task.{Task, ChannelName, success, fail, fail_request_error, fail_other}
use downloadmgr.Manager.{
  DownloadMgr, set_fail_reason, task_break_off, task_cancel, task_fail, break_off_in, push_task,
  write_task,
}
use downloadmgr.Manager.Download.{
  DoResult, returns, do_panics, Attempt, start_download, after_do, after_wait, wait,
}
use downloadmgr.Transfer.Copy.{AllHonest, body}
use downloadmgr.Grab.Errors.{GrabError}
use downloadmgr.Grab.Response.{get, HttpRequest, Request, Response, new_request}
use downloadmgr.Grab.Client.{Client, new_client, Answers, is_none}
use downloadmgr.Grab.Client.Machine.{
  RunResult, returned, panicking, waiting, running, enough, download,
}
use downloadmgr.Grab.Client.Rank.{IsUsual}
use downloadmgr.Grab.Client.Stored.{IsKept, is_answered, StoredBy}
use downloadmgr.Grab.Client.Contents.{download-body}
use downloadmgr.Task

unfoldable pub client_of : Task → Client
unfolding new_client
client_of t = record new_client { can_resume = t.can_resume; need_encrypt = t.encrypt }

module _ (text : GrabError → Text) where
  abbrev error_text : Option GrabError → Option Text
  error_text none = none
  error_text (some e) = some (text e)

  -- What startDownload reads of a response. What is read before Err waits does not change in the
  -- goroutine of the client.
  abbrev pub view : Response → downloadmgr.Task.Response
  view r = record {
    has_http_response = not (is_none r.http_response);
    complete = r.done;
    err = error_text r.err;
    content_length = elim r.http_response [ none ↦ pos 0 | some h ↦ h.content_length ];
  }

  -- The panic is that of mkdirp, before client.Do returns. While the copy loop goes on, Err waits:
  -- an attempt in which it never ends has no result, and nil stands for that here.
  abbrev pub do_result : RunResult → DoResult
  do_result (returned r) = returns (some (view r))
  do_result (panicking r) = do_panics
  do_result (waiting r) = returns none
  do_result (running r) = returns none

  module _ (encrypt : List ℕ → List ℕ) (join : Text → Text → Text) (world : ℕ → Answers)
      (now : ℕ) where
    abbrev do_made : Task → Attempt → Option Request → Attempt
    do_made t a none = record a { request_ok = false; do_result = returns none }
    do_made t a (some req) = record a {
      request_ok = true;
      do_result = do_result (download encrypt join (client_of t) world now req);
    }

    -- The attempt in which grab.NewRequest and client.Do answer what they do. `http` is what
    -- http.NewRequest returns.
    unfoldable pub do_attempt : Task → Option HttpRequest → Attempt → Attempt
    unfolding new_request download client_of
    do_attempt t http a = do_made t a (new_request t.save_path http)

module _ {L : Type 0} ⦃al : ArrayList L⦄ where
  break_off_in-status :
      (o : Option ChannelName) (dm : DownloadMgr L) (now x : ℕ)
      → (dm.tasks x).status ≡ fail
      → ((break_off_in o dm now x).tasks x).status ≡ fail
  unfolding break_off_in push_task task_fail
  break_off_in-status none dm now x h = h
  break_off_in-status (some n) dm now x h = ground arith

  task_break_off-status :
      (dm : DownloadMgr L) (now x : ℕ) → ((task_break_off dm now x).tasks x).status ≡ fail
  unfolding task_break_off
  task_break_off-status dm now x =
      let failed = write_task dm x (record (dm.tasks x) { status = fail }) in
      break_off_in-status (failed.tasks x).channel failed now x (ground arith)

  never_success :
      (dm : DownloadMgr L) (now x : ℕ) → ((task_break_off dm now x).tasks x).status ≢ success
  never_success dm now x h = absurd (ground (arith, task_break_off-status dm now x))

  task_cancel-status :
      (dm : DownloadMgr L) (x : ℕ) → ((task_cancel dm x).tasks x).status ≡ (dm.tasks x).status
  unfolding task_cancel
  task_cancel-status dm x = ground arith

  after_wait-status :
      (dm : DownloadMgr L) (x : ℕ) (a : Attempt) (resp : downloadmgr.Task.Response)
      (err : Option Text)
      → ((after_wait dm x a resp err).tasks x).status ≡ success
      → err ≡ none
  unfolding after_wait
  after_wait-status dm x a resp none h = refl
  after_wait-status dm x a resp (some e) h =
      absurd (never_success (set_fail_reason dm x fail_other) a.now x h)

  not_first :
      (x : ℕ) (b : Bool) (p q : DownloadMgr L)
      → (p.tasks x).status ≢ success
      → ((if b then p else q).tasks x).status ≡ success
      → (q.tasks x).status ≡ success
  not_first x true p q n h = absurd (n h)
  not_first x false p q n h = h

  after_do-success :
      (dm : DownloadMgr L) (x : ℕ) (a : Attempt) (o : DoResult)
      → (dm.tasks x).status ≢ success
      → ((after_do dm x a o).tasks x).status ≡ success
      → (resp : downloadmgr.Task.Response) × (o ≡ returns (some resp)) × (resp.err ≡ none)
  unfolding after_do
  after_do-success dm x a do_panics new h = absurd (new h)
  after_do-success dm x a (returns none) new h =
      absurd (never_success (set_fail_reason dm x fail_request_error) a.now x h)
  after_do-success dm x a (returns (some resp)) new h = (
    resp,
    refl,
    after_wait-status dm x a (wait resp) resp.err (
        not_first x (not resp.has_http_response) _ _
          (never_success (set_fail_reason dm x fail_request_error) a.now x) h),
  )

  -- What an attempt that ends in success has been answered.
  start_download-success :
      (dm : DownloadMgr L) (x : ℕ) (a : Attempt)
      → (dm.tasks x).status ≢ success
      → ((start_download dm x a).tasks x).status ≡ success
      → (a.request_ok ≡ true)
        × ((resp : downloadmgr.Task.Response) × (a.do_result ≡ returns (some resp))
            × (resp.err ≡ none))
  unfolding start_download after_do task_cancel
  start_download-success dm x a new h = elim (Bool-cases a.request_ok) [
    | inr e ↦ absurd (never_success (set_fail_reason dm x fail_request_error) a.now x (rw e at h))
    | inl e ↦ elim (Bool-cases (dm.tasks x).cancel_flag) [
      | inl f ↦ absurd (new (sym (task_cancel-status dm x) ∙ rw (e, f) at h))
      | inr f ↦ (e, after_do-success dm x a a.do_result new (rw (e, f) at h))
    ]
  ]

module _ (encrypt : List ℕ → List ℕ) (world : ℕ → Answers) where
  -- What a task's file holds: the size that was expected of it, or the body of the answer.
  abbrev pub HasStored : Task → Response → Type 0
  HasStored t r =
      IsKept world r
      ⊎ ((is_answered r ≡ true)
          × StoredBy encrypt (client_of t) world r (body encrypt t.encrypt (world enough).rounds))

module _ (text : GrabError → Text) (encrypt : List ℕ → List ℕ) (join : Text → Text → Text)
    (world : ℕ → Answers) (usual : (i : ℕ) → IsUsual encrypt (world i)) (now : ℕ) where
  no_error : (o : Option GrabError) → error_text text o ≡ none → o ≡ none
  no_error none e = refl
  no_error (some x) e = absurd (ground arith)

  download_stored :
      (t : Task) (req : Request)
      → req.http_request.method ≡ get
      → AllHonest encrypt t.encrypt (world enough).rounds
      → (resp : downloadmgr.Task.Response)
      → do_result text (download encrypt join (client_of t) world now req) ≡ returns (some resp)
      → resp.err ≡ none
      → (r : Response) × (download encrypt join (client_of t) world now req ≡ returned r)
        × HasStored encrypt world t r
  unfolding client_of
  download_stored t req m honest resp e fine =
      let (r, d, out) = download-body encrypt join (client_of t) world usual now req m honest in
      let seen = sym (ap (do_result text) d) ∙ e in
      (r, d, stored r (no_error r.err (ap error_of seen ∙ fine)) out)
    where
      error_of : DoResult → Option Text
      error_of do_panics = none
      error_of (returns none) = none
      error_of (returns (some x)) = x.err

      stored :
          (r : Response)
          → r.err ≡ none
          → (is_none r.err ≡ false) ⊎ HasStored encrypt world t r
          → HasStored encrypt world t r
      stored r e (inl x) = absurd (ground arith)
      stored r e (inr h) = h

  module _ {L : Type 0} ⦃al : ArrayList L⦄ where
    -- An attempt with the grab client ends in success only if NewRequest has made the request and the
    -- download of it with the task's client has returned a response by which the local file already
    -- had the expected size, or the origin's answer was accepted and the file holds every byte that
    -- its body delivered, encrypted if the task asks for it, at the place that fits how the file was
    -- opened. This is for a task that was not successful before, under the conditions under which
    -- every download ends, and with a file that is written as io.Writer documents it.
    pub start_download_stores :
        (dm : DownloadMgr L) (x : ℕ) (a : Attempt) (http : Option HttpRequest)
        → ((h : HttpRequest) → http ≡ some h → h.method ≡ get)
        → AllHonest encrypt (dm.tasks x).encrypt (world enough).rounds
        → (dm.tasks x).status ≢ success
        → ((start_download dm x (do_attempt text encrypt join world now (dm.tasks x) http a)).tasks
            x).status
          ≡ success
        → (req : Request) × (new_request (dm.tasks x).save_path http ≡ some req)
          × ((r : Response) × (download encrypt join (client_of (dm.tasks x)) world now req
                ≡ returned r)
              × HasStored encrypt world (dm.tasks x) r)
    unfolding do_attempt new_request
    start_download_stores dm x a none m honest new h = absurd (
        ground (
          arith,
          (start_download-success dm x (do_attempt text encrypt join world now (dm.tasks x) none a)
              new h).0,
        ))
    start_download_stores dm x a (some http) m honest new h =
        let (ok, (resp, e, fine)) =
          start_download-success dm x
            (do_attempt text encrypt join world now (dm.tasks x) (some http) a) new h in
        (_, refl, download_stored (dm.tasks x) _ (m http refl) honest resp e fine)
