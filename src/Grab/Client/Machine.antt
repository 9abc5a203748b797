-- ===== src/Grab/Client/Machine.antt =====
-- grab/client.go: the loop `run`, and Do.
use downloadmgr.Prelude.{
  ℕ, zero, suc, true, false, ◌||◌, List, none, some, if◌then◌else◌, pos, eqb_ℤ, Text,
}
use downloadmgr.Grab.Errors.{context_error}
use downloadmgr.Grab.Response.{Request, Response}
use downloadmgr.Grab.Client.{
  Client, Answers, StateFunc, stat_file_info, validate_local, head_request, get_request,
  read_response, open_writer, copy_file, close_response, Next, goto, stop, panicked, copying,
  on_stat_file_info, on_validate_local, on_head_request, on_get_request,
}
use downloadmgr.Grab.Client.Writing.{
  on_read_response, on_open_writer, on_copy_file, on_close_response,
}

-- How a run ends: it returns, panics or waits for the copy loop; `running` if the fuel is used up.
pub data RunResult : Type 0 where
  returned panicking waiting running : Response → RunResult

-- No run has more rounds: see Rank.
abbrev pub enough : ℕ
enough = 13

abbrev pub new_response : Client → Request → ℕ → Response
new_response c req now = record {
  request = req;
  http_response = none;
  filename = req.filename;
  size = pos 0;
  start = now;
  end_time = 0;
  can_resume = false;
  did_resume = false;
  done = false;
  ctx_done = false;
  fi = none;
  options_known = false;
  writer = none;
  saved = none;
  bytes_resumed = 0;
  transfer = none;
  buffer_size = if eqb_ℤ req.buffer_size (pos 0) then c.buffer_size else req.buffer_size;
  err = none;
}

module _ (encrypt : List ℕ → List ℕ) (join : Text → Text → Text) (c : Client) where
  unfoldable pub step : Answers → StateFunc → Response → Response × Next
  unfolding on_stat_file_info on_validate_local on_head_request on_get_request on_read_response
      on_open_writer on_copy_file on_close_response
  step a stat_file_info r = on_stat_file_info a r
  step a validate_local r = on_validate_local r
  step a head_request r = on_head_request c a r
  step a get_request r = on_get_request c a r
  step a read_response r = on_read_response join c r
  step a open_writer r = on_open_writer c a r
  step a copy_file r = on_copy_file encrypt a r
  step a close_response r = on_close_response a r

  -- One round of the loop: the select statement, then the state function. Once the context is
  -- cancelled it stays so.
  unfoldable pub round : Answers → StateFunc → Response → Response × Next
  unfolding step
  round a f r =
      if r.ctx_done || a.cancelled
      then (if r.done
          then (record r { ctx_done = true }, stop)
          else step a close_response (record r { ctx_done = true; err = some context_error }))
      else step a f r

  -- The rounds from number `i` on.
  unfoldable pub run : ℕ → (ℕ → Answers) → ℕ → StateFunc → Response → RunResult
  unfolding round
  run zero world i f r = running r
  run (suc fuel) world i f r =
      let (r', next) = round (world i) f r in
      elim next [
        | goto g ↦ run fuel world (suc i) g r'
        | stop ↦ returned r'
        | panicked ↦ panicking r'
        | copying ↦ waiting r'
      ]

  -- Do up to the start of the goroutine, and that goroutine.
  unfoldable pub do_request : (ℕ → Answers) → ℕ → Request → RunResult
  unfolding run
  do_request world now req = run enough world 0 stat_file_info (new_response c req now)

  abbrev pub after_do : (ℕ → Answers) → RunResult → RunResult
  after_do world (returned r) = run enough world enough copy_file r
  after_do world (panicking r) = panicking r
  after_do world (waiting r) = waiting r
  after_do world (running r) = running r

  unfoldable pub download : (ℕ → Answers) → ℕ → Request → RunResult
  unfolding do_request run
  download world now req = after_do world (do_request world now req)
