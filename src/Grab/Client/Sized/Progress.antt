-- ===== src/Grab/Client/Sized/Progress.antt =====
-- grab/response.go: Size and Progress of a download that has ended, and Cancel of one that has not.
use downloadmgr.Prelude.{
  ℕ, ◌+◌, ◌<◌, ◌≡◌, ◌⊎◌, inl, inr, refl, ap, sym, subst, ◌∙◌, arith, true, false, List, some,
  length, ℤ, pos, ◌+ℤ◌, ◌≤ℤ◌, leb_ℤ, eqb_ℤ, eqb_ℤ→eq, zero, suc, Text, Bool-cases,
}
use downloadmgr.Transfer.{Transfer, new_transfer}
use downloadmgr.Transfer.Copy.{Counts, copy-Counts, copy_complete, AllHonest, body}
use downloadmgr.Grab.Errors.{context_error}
use downloadmgr.Grab.Response.{
  get, HttpResponse, Request, Response, progress, bytes_complete, transferred, err_of, is_complete,
  cancel_response,
}
use downloadmgr.Grab.Client.{Client, Answers, StateFunc, copy_file, stop, is_none}
use downloadmgr.Grab.Client.Writing.{wrong_size, on_close_response}
use downloadmgr.Grab.Client.Machine.{
  RunResult, returned, panicking, waiting, running, enough, step, round, download,
}
use downloadmgr.Grab.Client.Rank.{IsUsual, IsClosed}
use downloadmgr.Grab.Client.Ends.{download-IsClosed}
use downloadmgr.Grab.Client.Stored.{IsKept, IsCopied, IsEnded}
use downloadmgr.Grab.Client.Contents.{download-IsEnded}
use downloadmgr.Grab.Client.Invariant.{Held}
use downloadmgr.Grab.Client.Sized.{final_size, IsSized, At}
use downloadmgr.Grab.Client.Sized.Ends.{download-At}

-- Whatever state function comes next: when Cancel is called before the transfer is complete, the
-- next round of the client closes the response, and Err answers the error of the context.
pub cancel_response-round :
    (encrypt : List ℕ → List ℕ) (join : Text → Text → Text) (c : Client) (a : Answers)
    (f : StateFunc) (r : Response)
    → r.done ≡ false
    → let (r', next) = round encrypt join c a f (cancel_response r).0 in
      (next ≡ stop) × (r'.done ≡ true) × (err_of r' ≡ some (some context_error))
unfolding cancel_response round step on_close_response err_of is_complete
cancel_response-round encrypt join c a f r h = ground (arith, h)

-- What holds of the response that a run returns.
abbrev Finished : (Response → Type 0) → RunResult → Type 0
Finished Q (returned r) = Q r
Finished Q (panicking r) = Unit {0}
Finished Q (waiting r) = Unit {0}
Finished Q (running r) = Unit {0}

module _ (encrypt : List ℕ → List ℕ) (join : Text → Text → Text) (c : Client) (world : ℕ → Answers)
    (usual : (i : ℕ) → IsUsual encrypt (world i)) where
  abbrev pub brought : ℕ
  brought = length (body encrypt c.need_encrypt (world enough).rounds)

  -- The size is the one that the origin has announced, or else what has come; and it fits.
  abbrev pub FitsSize : Request → Response → Type 0
  FitsSize req r =
      (h : HttpResponse) × (r.http_response ≡ some h)
      × (r.size ≡ final_size h r.bytes_resumed brought)
      × ((req.size ≤ℤ pos 0) ⊎ (r.size ≡ req.size))
      × (bytes_complete r ≡ r.bytes_resumed + brought)

  written_whole :
      (r : Response) (t : Transfer)
      → AllHonest encrypt c.need_encrypt (world enough).rounds
      → IsCopied encrypt c world r
      → r.transfer ≡ some t
      → (t.written ≡ brought) × (t.n ≡ brought)
  written_whole r t honest (t', e', run, stored) e =
      let rounds = (world enough).rounds in
      let start = new_transfer c.need_encrypt in
      let counts = subst (Counts c.need_encrypt) (ap (λ p. p.0) run) (
        copy-Counts encrypt c.need_encrypt start rounds honest
          (record { mode = refl; counted = refl; shown = refl })) in
      let whole =
        sym (ap (λ p. p.0.out) run)
        ∙ copy_complete encrypt c.need_encrypt start rounds honest refl (ap (λ p. p.1) run) in
      let long : t'.written ≡ brought = counts.counted ∙ ap length whole in
      (ground (arith, e, e', long), ground (arith, e, e', long, counts.shown))

  size_met :
      (req : Request) (n : ℤ) → wrong_size req n ≡ false → (req.size ≤ℤ pos 0) ⊎ (n ≡ req.size)
  size_met req n h = elim (Bool-cases (eqb_ℤ req.size n)) [
    | inl e ↦ inr (sym (eqb_ℤ→eq req.size n e))
    | inr e ↦ inl (ground (arith, h, e))
  ]

  sized :
      (req : Request) (r : Response)
      → AllHonest encrypt c.need_encrypt (world enough).rounds
      → r.request.size ≡ req.size
      → IsCopied encrypt c world r
      → IsSized r
      → FitsSize req r
  unfolding bytes_complete
  sized req r honest same copied z =
      let w = written_whole r z.transfer honest copied z.copied in
      (
        z.header,
        z.answer,
        z.known ∙ ap (final_size z.header r.bytes_resumed) w.0,
        size_met req r.size (ground (arith, same, z.fits)),
        ap (λ o. r.bytes_resumed + transferred o) z.copied ∙ ap (λ n. r.bytes_resumed + n) w.1,
      )

  by_outcome :
      (req : Request) (r : Response)
      → AllHonest encrypt c.need_encrypt (world enough).rounds
      → IsClosed r
      → IsEnded encrypt c world r
      → At req.size copy_file r
      → (is_none r.err ≡ false) ⊎ (IsKept world r ⊎ FitsSize req r)
  by_outcome req r honest closed e (inl h) =
      absurd (ground (arith, closed.complete, h.0.unfinished))
  by_outcome req r honest closed (inl x) (inr h) = inl x
  by_outcome req r honest closed (inr (inl k)) (inr h) = inr (inl k)
  by_outcome req r honest closed (inr (inr (a, d))) (inr (same, done, inl x)) = inl x
  by_outcome req r honest closed (inr (inr (a, d))) (inr (same, done, inr (inl x))) =
      absurd (ground (arith, d.1, x))
  by_outcome req r honest closed (inr (inr (a, d))) (inr (same, done, inr (inr z))) =
      inr (inr (sized req r honest same d z))

  -- When a download of a GET request has ended without an error and has not kept a local file of the
  -- expected size: Size is the length that the origin has announced behind the bytes that were
  -- resumed, if it has announced one, and else the number of bytes that came and were resumed;
  -- BytesComplete is the number of bytes that came and were resumed in both cases; and Size is the
  -- size that the request asks for, if that is above 0. This is under the conditions under which
  -- every download ends, and with a file or a buffer that is written as io.Writer documents it.
  pub download-FitsSize :
      (now : ℕ) (req : Request)
      → req.http_request.method ≡ get
      → AllHonest encrypt c.need_encrypt (world enough).rounds
      → (r : Response) × (download encrypt join c world now req ≡ returned r)
        × ((is_none r.err ≡ false) ⊎ (IsKept world r ⊎ FitsSize req r))
  download-FitsSize now req m honest =
      let (r, e, h) = download-IsEnded encrypt join c world usual now req m in
      let (r', e', closed) = download-IsClosed encrypt join c world usual now req m in
      (
        r',
        e',
        by_outcome req r' honest closed (subst (Finished (IsEnded encrypt c world)) (sym e ∙ e') h)
            (subst (Held (At req.size)) e'
              (download-At encrypt req.size join c world now req refl)),
      )

  module _ {F : Type 0} (zero_rate one_rate : F) (quotient : ℤ → ℤ → F)
      (same_quotient : (n : ℕ) → 0 < n → quotient (pos n) (pos n) ≡ one_rate) where
    -- The origin has announced another length than that of the body that it has delivered.
    abbrev pub Miscounted : Response → Type 0
    Miscounted r =
        (h : HttpResponse) × (r.http_response ≡ some h)
        × (leb_ℤ (pos 0) h.content_length ≡ true)
        × (eqb_ℤ h.content_length (pos brought) ≡ false)

    whole :
        (r : Response) (n : ℕ)
        → bytes_complete r ≡ n
        → r.size ≡ pos n
        → (progress zero_rate quotient r ≡ one_rate) ⊎ (bytes_complete r ≡ 0)
    unfolding progress
    whole r zero e z = inr e
    whole r (suc n) e z =
        let above : leb_ℤ (pos (suc n)) (pos 0) ≡ false = ground arith in
        inl (rw (z, e, above) (same_quotient (suc n) (omega arith)))

    announced_size : (n : ℤ) (b m : ℕ) → n ≡ pos b → n +ℤ pos m ≡ pos (m + b)
    unfolding ◌+ℤ◌
    announced_size n b m e = ground (arith, e)

    shown :
        (req : Request) (r : Response)
        → FitsSize req r
        → (progress zero_rate quotient r ≡ one_rate) ⊎ ((bytes_complete r ≡ 0) ⊎ Miscounted r)
    shown req r (h, e, size, fits, came) = elim (Bool-cases (leb_ℤ (pos 0) h.content_length)) [
      | inr p ↦ found (whole r _ came (ground (arith, size, p)))
      | inl p ↦ elim (Bool-cases (eqb_ℤ h.content_length (pos brought))) [
        | inr q ↦ inr (inr (h, e, p, q))
        | inl q ↦ found (
            whole r _ came (
              ground (
                arith,
                size,
                p,
                announced_size h.content_length brought r.bytes_resumed (eqb_ℤ→eq _ _ q),
              )))
      ]
    ]
      where
        found :
            (progress zero_rate quotient r ≡ one_rate) ⊎ (bytes_complete r ≡ 0)
            → (progress zero_rate quotient r ≡ one_rate) ⊎ ((bytes_complete r ≡ 0) ⊎ Miscounted r)
        found (inl x) = inl x
        found (inr x) = inr (inl x)

    -- When a download of a GET request has ended without an error and has not kept a local file of
    -- the expected size, Progress is 1, unless no byte came or was resumed, or the origin has announced
    -- another length than that of its body. This is under the conditions under which every
    -- download ends, with a file or a buffer that is written as io.Writer documents it, and with a
    -- quotient of floats that is 1 for equal numbers above 0.
    pub download-progress :
        (now : ℕ) (req : Request)
        → req.http_request.method ≡ get
        → AllHonest encrypt c.need_encrypt (world enough).rounds
        → (r : Response) × (download encrypt join c world now req ≡ returned r)
          × ((is_none r.err ≡ false)
              ⊎ (IsKept world r
                  ⊎ ((progress zero_rate quotient r ≡ one_rate)
                      ⊎ ((bytes_complete r ≡ 0) ⊎ Miscounted r))))
    download-progress now req m honest =
        let (r, e, h) = download-FitsSize now req m honest in (r, e, ends r h)
      where
        ends :
            (r : Response)
            → (is_none r.err ≡ false) ⊎ (IsKept world r ⊎ FitsSize req r)
            → (is_none r.err ≡ false)
              ⊎ (IsKept world r
                  ⊎ ((progress zero_rate quotient r ≡ one_rate)
                      ⊎ ((bytes_complete r ≡ 0) ⊎ Miscounted r)))
        ends r (inl x) = inl x
        ends r (inr (inl k)) = inr (inl k)
        ends r (inr (inr f)) = inr (inr (shown req r f))
