-- ===== src/Grab/Client/Stored/Asking.antt =====
-- grab/client.go: the state functions up to readResponse keep what holds of a download.
use downloadmgr.Prelude.{
  Option, none, some, ℕ, ◌≡◌, ◌⊎◌, inl, inr, refl, arith, ◌∙◌, true, false, List, pos, ltb_ℤ, Text,
  eqb_ℤ, leb_ℤ, ◌&&◌, ◌||◌,
}
use downloadmgr.Grab.Names.{is_empty}
use downloadmgr.Grab.Client.{
  panicked, expected_size, set_range, FileStat, missing, directory, stat_error, regular, stat_found,
  validate, Client, Answers, HttpResult, answered, http_failed, validate_local, read_response,
  put_request, with_agent, head_answer, get_answer, on_stat_file_info, on_validate_local,
  on_head_request, on_get_request,
}
use downloadmgr.Grab.Client.Stored.{
  WasFound, FoundIn, IsEnded, IsFresh, IsRanged, Has, Keeps, branch_by,
}
use downloadmgr.Grab.Response.{get, head, HttpRequest, HttpResponse, Response}
use downloadmgr.Grab.Client.Writing.{on_read_response}
use downloadmgr.Grab.Client.Rank.{IsUsual}

module _ (encrypt : List ℕ → List ℕ) (c : Client) (world : ℕ → Answers) where
  stat_found-Keeps :
      (i : ℕ) (r : Response) (f : FileStat)
      → (world i).stat ≡ f
      → r.request.no_store ≡ false
      → IsFresh r
      → Keeps encrypt c world (stat_found r f)
  stat_found-Keeps i r missing e s v = v
  stat_found-Keeps i r (stat_error t) e s v = inl refl
  stat_found-Keeps i r directory e s v = record {
    not_resumed = v.not_resumed;
    no_bytes = v.no_bytes;
    no_transfer = v.no_transfer;
  }
  stat_found-Keeps i r (regular size) e s v = (
    record { not_resumed = v.not_resumed; no_bytes = v.no_bytes; no_transfer = v.no_transfer },
    s,
    (i, e),
  )

  pub stat_file_info-Keeps :
      (i : ℕ) (r : Response) → IsFresh r → Keeps encrypt c world (on_stat_file_info (world i) r)
  unfolding on_stat_file_info
  stat_file_info-Keeps i r v =
      branch_by encrypt c world _ _ (r.request.no_store || is_empty r.filename) (λ e. v)
        (λ e. stat_found-Keeps i r (world i).stat refl (ground arith) v)

  validate-Keeps :
      (r : Response) (size : ℕ)
      → r.fi ≡ some size
      → WasFound world size
      → r.request.no_store ≡ false
      → IsFresh r
      → Keeps encrypt c world (validate r size)
  validate-Keeps r size e w s v =
      branch_by encrypt c world _ _ r.request.skip_existing (λ _. inl refl)
        (λ _.
          branch_by encrypt c world _ _ (eqb_ℤ (expected_size r) (pos 0)) (λ _. v)
            (λ _. branch_by encrypt c world _ _ (eqb_ℤ (expected_size r) (pos size)) kept (λ _.
              branch_by encrypt c world _ _ r.request.no_resume (λ _. inl v)
                (λ _.
                  branch_by encrypt c world _ _
                    (leb_ℤ (pos 0) (expected_size r) && ltb_ℤ (expected_size r) (pos size))
                    (λ _. inl refl)
                    (λ _. branch_by encrypt c world _ _ r.can_resume ranged (λ _. v))))))
    where
      kept :
          eqb_ℤ (expected_size r) (pos size) ≡ true
          → IsEnded encrypt c world (record r { did_resume = true; bytes_resumed = size })
      kept h = inr (
          inl (record {
            stored = s;
            is_resumed = refl;
            nothing_copied = v.no_transfer;
            size_fits = ground (arith, h);
            found = w;
          }))

      ranged :
          r.can_resume ≡ true
          → IsFresh (record (set_range r size) { did_resume = true; bytes_resumed = size })
            ⊎ IsRanged world (record (set_range r size) { did_resume = true; bytes_resumed = size })
      ranged h =
          inr (record { stored = s; is_resumed = refl; range_set = refl; info = e; found = w })

  pub validate_local-Keeps :
      (r : Response)
      → Has encrypt c world validate_local r
      → Keeps encrypt c world (on_validate_local r)
  unfolding on_validate_local
  validate_local-Keeps r (v, s, w) = found_by r.fi refl w
    where
      found_by :
          (o : Option ℕ)
          → r.fi ≡ o
          → FoundIn world o
          → Keeps encrypt c world (elim o [ none ↦ (r, panicked) | some size ↦ validate r size ])
      found_by none e w = tt
      found_by (some size) e w = validate-Keeps r size e w s v

  pub head_answer-Keeps :
      (r : Response) (res : HttpResult) → IsFresh r → Keeps encrypt c world (head_answer r res)
  head_answer-Keeps r (http_failed o e) v = ground arith
  head_answer-Keeps r (answered h) v = ground arith

  pub get_answer-Keeps :
      (r : Response) (res : HttpResult)
      → ((h : HttpResponse) → res ≡ answered h → h.request.method ≡ get)
      → IsFresh r ⊎ IsRanged world r
      → Keeps encrypt c world (get_answer r res)
  get_answer-Keeps r (http_failed o e) k v = ground arith
  get_answer-Keeps r (answered h) k v = ground (arith, k h refl)

  pub on_head_request-Keeps :
      (a : Answers) (r : Response) → IsFresh r → Keeps encrypt c world (on_head_request c a r)
  unfolding on_head_request
  on_head_request-Keeps a r v =
      let req = with_agent c r.request.http_request in
      let known = record r { options_known = true } in
      ground
        (arith, head_answer-Keeps (put_request known req) (a.http (record req { method = head })))

  with_agent-same :
      (req : HttpRequest)
      → ((with_agent c req).method ≡ req.method) × ((with_agent c req).range ≡ req.range)
  with_agent-same req = ground arith

  pub on_get_request-Keeps :
      (a : Answers) (r : Response)
      → IsUsual encrypt a
      → r.request.http_request.method ≡ get
      → IsFresh r ⊎ IsRanged world r
      → Keeps encrypt c world (on_get_request c a r)
  unfolding on_get_request
  on_get_request-Keeps a r u m v =
      let req = with_agent c r.request.http_request in
      let same = with_agent-same r.request.http_request in
      get_answer-Keeps (put_request r req) (a.http req) (λ h e. u.method_kept req h e ∙ same.0 ∙ m)
        (with_request v)
    where
      with_request :
          IsFresh r ⊎ IsRanged world r
          → IsFresh (put_request r (with_agent c r.request.http_request))
            ⊎ IsRanged world (put_request r (with_agent c r.request.http_request))
      with_request (inl f) = inl (record {
        not_resumed = f.not_resumed;
        no_bytes = f.no_bytes;
        no_transfer = f.no_transfer;
      })
      with_request (inr f) = inr (record {
        stored = f.stored;
        is_resumed = f.is_resumed;
        range_set = (with_agent-same r.request.http_request).1 ∙ f.range_set;
        info = f.info;
        found = f.found;
      })

  pub on_read_response-Keeps :
      (join : Text → Text → Text) (r : Response)
      → Has encrypt c world read_response r
      → Keeps encrypt c world (on_read_response join c r)
  unfolding on_read_response
  on_read_response-Keeps join r v = ground arith
