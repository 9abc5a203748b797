-- ===== src/Grab/Client/Sized/Asking.antt =====
-- grab/client.go: the state functions up to readResponse keep what holds of the size.
use downloadmgr.Prelude.{
  ℕ, ◌≡◌, inl, inr, refl, arith, Bool, true, false, ◌&&◌, ◌||◌, not, Option, none, some,
  if◌then◌else◌, ◌==◌, ℤ, pos, leb_ℤ, ltb_ℤ, eqb_ℤ, Text,
}
use downloadmgr.Grab.Errors.{err_bad_length}
use downloadmgr.Grab.Response.{HttpResponse, Method, get, head, Response}
use downloadmgr.Grab.Names.{guess_filename, is_empty}
use downloadmgr.Grab.Client.{
  Client, Answers, stat_file_info, open_writer, Next, goto, panicked, fail, is_success, is_none,
  HttpResult, answered, http_failed, FileStat, missing, directory, stat_error, regular, stat_found,
  head_answer, get_answer, put_request, with_agent, validate, expected_size, on_stat_file_info,
  on_validate_local, on_head_request, on_get_request,
}
use downloadmgr.Grab.Client.Writing.{
  wrong_size, total_size, read, named, after_name, on_read_response,
}
use downloadmgr.Grab.Client.Invariant.{branch_Kept}
use downloadmgr.Grab.Client.Sized.{IsAnnounced, IsOpen, Fresh, At, Keeps}

module _ (wanted : ℤ) where
  pub branch :
      (p q : Response × Next) (test : Bool)
      → Keeps wanted p
      → Keeps wanted q
      → Keeps wanted (if test then p else q)
  branch = branch_Kept (At wanted)

  pub stat_file_info-Keeps :
      (a : Answers) (r : Response) → Fresh wanted r → Keeps wanted (on_stat_file_info a r)
  unfolding on_stat_file_info
  stat_file_info-Keeps a r h =
      branch _ _ (r.request.no_store || is_empty r.filename) h (found a.stat)
    where
      found : (s : FileStat) → Keeps wanted (stat_found r s)
      found missing = h
      found directory = (record { same_size = h.0.same_size; unfinished = h.0.unfinished }, h.1)
      found (stat_error e) =
          (record { same_size = h.0.same_size; unfinished = h.0.unfinished }, inl refl)
      found (regular n) = (record { same_size = h.0.same_size; unfinished = h.0.unfinished }, h.1)

  -- A response whose request asks for as much as before.
  pub still :
      {r : Response} (s : Response)
      → IsOpen wanted r
      → s.request.size ≡ r.request.size
      → s.done ≡ r.done
      → IsOpen wanted s
  still s h e d = record {
    same_size = ground (arith, h.same_size, e);
    unfinished = ground (arith, h.unfinished, d);
  }

  pub validate_local-Keeps : (r : Response) → Fresh wanted r → Keeps wanted (on_validate_local r)
  unfolding on_validate_local
  validate_local-Keeps r h = found r.fi
    where
      found :
          (o : Option ℕ)
          → Keeps wanted (elim o [ none ↦ (r, panicked) | some size ↦ validate r size ])
      found none = tt
      found (some n) =
          branch _ _ r.request.skip_existing (still _ h.0 refl refl, inl refl)
            (branch _ _ (eqb_ℤ (expected_size r) (pos 0)) h (
              branch _ _ (eqb_ℤ (expected_size r) (pos n)) (still _ h.0 refl refl, inr (inl h.1))
                (branch _ _ r.request.no_resume h (
                  branch _ _ (leb_ℤ (pos 0) (expected_size r) && ltb_ℤ (expected_size r) (pos n))
                    (still _ h.0 refl refl, inl refl)
                    (branch _ _ r.can_resume (still _ h.0 refl refl, h.1) h)))))

  answers-Keep :
      (r : Response) (res : HttpResult)
      → Fresh wanted r
      → Keeps wanted (head_answer r res) × Keeps wanted (get_answer r res)
  answers-Keep r (http_failed o e) h =
      ((still _ h.0 refl refl, inl refl), (still _ h.0 refl refl, inl refl))
  answers-Keep r (answered x) h = (
    branch _ _ (not (x.status_code == 200)) (still _ h.0 refl refl, h.1)
        (still _ h.0 refl refl, h.1),
    branch _ _ (not r.request.ignore_bad_status_codes && not (is_success x))
        (still _ h.0 refl refl, inl refl) (still _ h.0 refl refl, h.1),
  )

  pub head_request-Keeps :
      (c : Client) (a : Answers) (r : Response)
      → Fresh wanted r
      → Keeps wanted (on_head_request c a r)
  unfolding on_head_request
  head_request-Keeps c a r h =
      let known = record r { options_known = true } in
      branch _ _ r.options_known h (
        branch _ _ r.request.no_resume (still _ h.0 refl refl, h.1)
          (branch _ _ (not (is_empty r.filename) && is_none r.fi) (still _ h.0 refl refl, h.1)
            (answers-Keep (put_request known (with_agent c r.request.http_request))
              (a.http (record (with_agent c r.request.http_request) { method = head }))
              (still _ h.0 refl refl, h.1)).0))

  pub get_request-Keeps :
      (c : Client) (a : Answers) (r : Response)
      → Fresh wanted r
      → Keeps wanted (on_get_request c a r)
  unfolding on_get_request
  get_request-Keeps c a r h =
      (answers-Keep (put_request r (with_agent c r.request.http_request)) _
        (still _ h.0 refl refl, h.1)).1

  after_name-Keeps :
      (c : Client) (r : Response) (x : HttpResponse)
      → Fresh wanted r
      → IsAnnounced r
      → Keeps wanted (after_name c r x)
  after_name-Keeps c r x h a = sent x.request.method
    where
      sent :
          (m : Method)
          → Keeps wanted (elim m [
            | get ↦ (r, goto open_writer)
            | head ↦
                if not r.request.no_store
                then (record r { can_resume = c.can_resume }, goto stat_file_info)
                else (r, goto open_writer)
          ])
      sent get = (h.0, a)
      sent head = branch _ _ (not r.request.no_store) (still _ h.0 refl refl, h.1) (h.0, a)

  pub read_response-Keeps :
      (join : Text → Text → Text) (c : Client) (r : Response)
      → Fresh wanted r
      → Keeps wanted (on_read_response join c r)
  unfolding on_read_response
  read_response-Keeps join c r h = answer r.http_response refl
    where
      guessed :
          (s : Response) (x : HttpResponse) (o : Option Text)
          → Fresh wanted s
          → IsAnnounced s
          → Keeps wanted (named join c s x o)
      guessed s x none k a = (still _ k.0 refl refl, inl refl)
      guessed s x (some name) k a =
          after_name-Keeps c _ x (still _ k.0 refl refl, k.1)
            (record {
              header = a.header;
              answer = a.answer;
              announced = a.announced;
              fits_if_known = a.fits_if_known;
            })

      fitting :
          (x : HttpResponse)
          → r.http_response ≡ some x
          → (b : Bool)
          → (leb_ℤ (pos 0) x.content_length && wrong_size r.request (total_size r x)) ≡ b
          → Keeps wanted (
              let sized = record r { size = total_size r x } in
              if b
              then fail sized err_bad_length
              else if is_empty r.filename
              then named join c sized x
                  (guess_filename x.request.path x.disposition x.filename_param)
              else after_name c sized x)
      fitting x e true f = (still _ h.0 refl refl, inl refl)
      fitting x e false f =
          let sized = record r { size = total_size r x } in
          let fresh : Fresh wanted sized = (still sized h.0 refl refl, h.1) in
          let a : IsAnnounced sized = record {
            header = x;
            answer = e;
            announced = refl;
            fits_if_known = f;
          } in
          branch _ _ (is_empty r.filename) (guessed sized x _ fresh a)
            (after_name-Keeps c sized x fresh a)

      answer :
          (o : Option HttpResponse)
          → r.http_response ≡ o
          → Keeps wanted (elim o [ none ↦ (r, panicked) | some x ↦ read join c r x ])
      answer none e = tt
      answer (some x) e = fitting x e _ refl
