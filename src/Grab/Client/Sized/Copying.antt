-- ===== src/Grab/Client/Sized/Copying.antt =====
-- grab/client.go: the state functions from openWriter on keep what holds of the size.
use downloadmgr.Prelude.{
  ℕ, ◌+◌, ◌≡◌, ◌⊎◌, inl, inr, refl, ap, ◌∙◌, arith, true, false, ◌&&◌, not, none, some, ℤ, pos,
  ◌+ℤ◌, leb_ℤ, ltb_ℤ, Bool-cases,
}
use downloadmgr.Transfer.{Transfer}
use downloadmgr.Grab.Response.{HttpResponse, Response}
use downloadmgr.Grab.Client.{
  Client, Answers, close_response, goto, is_none, OpenResult, opened, open_failed,
}
use downloadmgr.Grab.Client.Writing.{
  wrong_size, total_size, Made, made, not_made, not_a_directory, mkdirp, file_opened, folder_made,
  init_transfer, open_mode, copied, after_copy, discover_size, modified_error, on_open_writer,
  on_close_response,
}
use downloadmgr.Grab.Client.Sized.{IsAnnounced, IsSized, Outcome, IsOpen, Keeps, check-Keeps}
use downloadmgr.Grab.Client.Sized.Asking.{branch, still}

-- The size of an announced transfer is not negative.
sum_not_negative : (n : ℤ) (m : ℕ) → leb_ℤ (pos 0) n ≡ true → ltb_ℤ (n +ℤ pos m) (pos 0) ≡ false
unfolding ◌+ℤ◌
sum_not_negative n m h = ground arith

module _ (wanted : ℤ) where
  init_transfer-Keeps :
      (c : Client) (r : Response)
      → IsOpen wanted r
      → IsAnnounced r
      → Keeps wanted (init_transfer c r)
  init_transfer-Keeps c r h a = branch wanted _ _ (is_none r.http_response) tt (
      inl (
        still wanted _ h refl refl,
        record {
          header = a.header;
          answer = a.answer;
          announced = a.announced;
          fits_if_known = a.fits_if_known;
        },
      ))

  pub open_writer-Keeps :
      (c : Client) (a : Answers) (r : Response)
      → IsOpen wanted r × IsAnnounced r
      → Keeps wanted (on_open_writer c a r)
  unfolding on_open_writer
  open_writer-Keeps c a r (h, n) =
      branch wanted _ _ r.request.no_store (started _ refl refl refl refl refl)
        (folder (mkdirp a.folder a.mkdir_error))
    where
      started :
          (s : Response)
          → s.request ≡ r.request
          → s.done ≡ r.done
          → s.http_response ≡ r.http_response
          → s.size ≡ r.size
          → s.bytes_resumed ≡ r.bytes_resumed
          → Keeps wanted (init_transfer c s)
      started s e d x z b =
          init_transfer-Keeps c s (still wanted s h (ap (λ q. q.size) e) d) (record {
            header = n.header;
            answer = x ∙ n.answer;
            announced = ground (arith, z, b, n.announced);
            fits_if_known = rw (e, z) n.fits_if_known;
          })

      opening : (o : OpenResult) → Keeps wanted (file_opened c a r o)
      opening (open_failed e) = (still wanted _ h refl refl, inl refl)
      opening (opened old) =
          check-Keeps wanted a.seek_error _ (init_transfer c) (still wanted _ h refl refl)
            (started _ refl refl refl refl refl)

      folder : (m : Made) → Keeps wanted (folder_made c a r m)
      folder made = opening (a.open_file (open_mode r))
      folder (not_made e) = (still wanted _ h refl refl, inl refl)
      folder not_a_directory = tt

  pub close_response-Keeps :
      (a : Answers) (r : Response)
      → IsOpen wanted r × Outcome r
      → Keeps wanted (on_close_response a r)
  unfolding on_close_response
  close_response-Keeps a r (h, o) = branch wanted _ _ r.done tt (inr (h.same_size, refl, same o))
    where
      same : Outcome r → Outcome (on_close_response a (record r { done = false })).0
      same (inl e) = inl e
      same (inr (inl e)) = inr (inl e)
      same (inr (inr z)) = inr (
          inr (record {
            header = z.header;
            transfer = z.transfer;
            answer = z.answer;
            copied = z.copied;
            known = z.known;
            fits = z.fits;
          }))

  after_copy-Keeps :
      (a : Answers) (r : Response) → IsOpen wanted r → IsSized r → Keeps wanted (after_copy a r)
  after_copy-Keeps a r h z =
      branch wanted _ _ r.request.after_copy
        (check-Keeps wanted a.after_copy_error r (λ r. (r, goto close_response)) h
          (
            still wanted _ h refl refl,
            inr (
                inr (record {
                  header = z.header;
                  transfer = z.transfer;
                  answer = z.answer;
                  copied = z.copied;
                  known = z.known;
                  fits = z.fits;
                })),
          ))
        (h, inr (inr z))

  -- The size is known before the copy exactly if the origin has announced it.
  known_size :
      (r : Response) (x : HttpResponse)
      → r.size ≡ total_size r x
      → ltb_ℤ r.size (pos 0) ≡ not (leb_ℤ (pos 0) x.content_length)
  known_size r x e = elim (Bool-cases (leb_ℤ (pos 0) x.content_length)) [
    | inl p ↦ ground (arith, e, p, sum_not_negative x.content_length r.bytes_resumed p)
    | inr p ↦ ground (arith, e, p)
  ]

  discover_size-Keeps :
      (a : Answers) (r : Response) (t : Transfer)
      → IsOpen wanted r
      → IsAnnounced r
      → r.transfer ≡ some t
      → Keeps wanted (discover_size a t.written r)
  discover_size-Keeps a r t h n e = by_size (Bool-cases (leb_ℤ (pos 0) n.header.content_length))
    where
      discovered : Response
      discovered = record r { size = pos (r.bytes_resumed + t.written) }

      by_size :
          ((leb_ℤ (pos 0) n.header.content_length ≡ true)
            ⊎ (leb_ℤ (pos 0) n.header.content_length ≡ false))
          → Keeps wanted (discover_size a t.written r)
      by_size (inl p) =
          rw (known_size r n.header n.announced, p)
            (after_copy-Keeps a r h (record {
              header = n.header;
              transfer = t;
              answer = n.answer;
              copied = e;
              known = ground (arith, n.announced, p);
              fits = ground (arith, n.fits_if_known, p);
            }))
      by_size (inr p) =
          rw (known_size r n.header n.announced, p)
            (elim (Bool-cases (wrong_size r.request discovered.size)) [
              | inl w ↦ rw w (still wanted _ h refl refl, inl refl)
              | inr w ↦ rw w (
                  after_copy-Keeps a discovered (still wanted discovered h refl refl) (record {
                    header = n.header;
                    transfer = t;
                    answer = n.answer;
                    copied = e;
                    known = ground (arith, p);
                    fits = w;
                  }))
            ])

  pub copied-Keeps :
      (a : Answers) (r : Response) (t : Transfer)
      → IsOpen wanted r
      → IsAnnounced r
      → r.transfer ≡ some t
      → Keeps wanted (copied a t.written r)
  copied-Keeps a r t h n e =
      branch wanted _ _ (not r.request.no_store && not r.request.ignore_remote_time)
        (check-Keeps wanted (modified_error a closed) closed (discover_size a t.written)
          (still wanted closed h refl refl)
          (discover_size-Keeps a closed t (still wanted closed h refl refl) still_announced e))
        (discover_size-Keeps a closed t (still wanted closed h refl refl) still_announced e)
    where
      closed : Response
      closed = record r { writer = none; err = none }

      still_announced : IsAnnounced closed
      still_announced = record {
        header = n.header;
        answer = n.answer;
        announced = n.announced;
        fits_if_known = n.fits_if_known;
      }
