-- ===== src/Grab/Client/Rank/Asking.antt =====
-- grab/client.go: the state functions up to readResponse lead nearer to the end, and none panics.
use downloadmgr.Prelude.{ℕ, ◌≡◌, refl, arith, ◌∙◌, true, false, Text, List}
use downloadmgr.Grab.Response.{get, head, HttpRequest, HttpResponse, Response}
use downloadmgr.Grab.Client.{
  Client, Answers, HttpResult, answered, http_failed, stat_file_info, validate_local, head_request,
  get_request, read_response, put_request, with_agent, head_answer, get_answer, on_stat_file_info,
  on_validate_local, on_head_request, on_get_request,
}
use downloadmgr.Grab.Client.Writing.{on_read_response}
use downloadmgr.Grab.Client.Rank.{rank, IsReady, Goes, Allows}

module _ (P W : Type 0) (encrypt : List ℕ → List ℕ) where
  pub stat_file_info-Goes :
      (a : Answers) (r : Response)
      → IsReady stat_file_info r
      → Goes P W false (rank stat_file_info r) (on_stat_file_info a r)
  unfolding on_stat_file_info
  stat_file_info-Goes a r v = ground arith

  pub validate_local-Goes :
      (r : Response)
      → IsReady validate_local r
      → Goes P W false (rank validate_local r) (on_validate_local r)
  unfolding on_validate_local
  validate_local-Goes r v = ground arith

  head_answer-Goes :
      (r : Response) (res : HttpResult)
      → ((h : HttpResponse) → res ≡ answered h → h.request.method ≡ head)
      → r.done ≡ false
      → r.request.http_request.method ≡ get
      → r.options_known ≡ true
      → Goes P W false 9 (head_answer r res)
  head_answer-Goes r (http_failed o e) kept open_ m known = ground arith
  head_answer-Goes r (answered h) kept open_ m known = ground (arith, kept h refl)

  with_agent-method : (c : Client) (req : HttpRequest) → (with_agent c req).method ≡ req.method
  with_agent-method c req = ground arith

  pub on_head_request-Goes :
      (c : Client) (a : Answers) (r : Response)
      → Allows P W encrypt a
      → IsReady head_request r
      → Goes P W false (rank head_request r) (on_head_request c a r)
  unfolding on_head_request
  on_head_request-Goes c a r u v =
      let req = with_agent c r.request.http_request in
      let known = record r { options_known = true } in
      ground (
        arith,
        with_agent-method c r.request.http_request,
        head_answer-Goes (put_request known req) (a.http (record req { method = head }))
            (u.method_kept (record req { method = head })) (v.unfinished)
            (with_agent-method c r.request.http_request ∙ v.method) refl,
      )

  get_answer-Goes :
      (r : Response) (res : HttpResult)
      → ((h : HttpResponse) → res ≡ answered h → h.request.method ≡ get)
      → r.done ≡ false
      → r.request.http_request.method ≡ get
      → Goes P W false 4 (get_answer r res)
  get_answer-Goes r (http_failed o e) kept open_ m = ground arith
  get_answer-Goes r (answered h) kept open_ m = ground (arith, kept h refl)

  pub on_get_request-Goes :
      (c : Client) (a : Answers) (r : Response)
      → Allows P W encrypt a
      → IsReady get_request r
      → Goes P W false (rank get_request r) (on_get_request c a r)
  unfolding on_get_request
  on_get_request-Goes c a r u v =
      let req = with_agent c r.request.http_request in
      let m = with_agent-method c r.request.http_request ∙ v.method in
      get_answer-Goes (put_request r req) (a.http req) (λ h e. u.method_kept req h e ∙ m)
        v.unfinished m

  pub on_read_response-Goes :
      (join : Text → Text → Text) (c : Client) (r : Response)
      → IsReady read_response r
      → Goes P W false (rank read_response r) (on_read_response join c r)
  unfolding on_read_response
  on_read_response-Goes join c r v = ground arith
