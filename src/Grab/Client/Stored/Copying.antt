-- ===== src/Grab/Client/Stored/Copying.antt =====
-- grab/client.go: copyFile and closeResponse keep what holds of a download.
use mathlib.Core.List.{append-nil}
use downloadmgr.Prelude.{
  ℕ, zero, suc, ◌+◌, ◌≡◌, ◌⊎◌, inl, inr, refl, arith, ap, sym, subst, ◌∙◌, true, false, not, ◌&&◌,
  List, [], ◌++◌, Option, none, some, length, drop, pos, ltb_ℤ,
}
use downloadmgr.Transfer.{Transfer, Exit, new_transfer, copy}
use downloadmgr.Grab.Response.{OpenMode, create, append, overwrite, file, Response, store_buffer}
use downloadmgr.Grab.Client.{Client, Answers, copy_file, close_response, goto, is_none}
use downloadmgr.Grab.Client.Writing.{
  open_mode, after_copy, discover_size, copied, copy_ended, copy_with, run_copy, received,
  truncated, modified_error, saved_bytes, written_to, wrong_size, on_copy_file, on_close_response,
}
use downloadmgr.Grab.Client.Machine.{enough}
use downloadmgr.Grab.Client.Stored.{
  InFile, IsBuffered, buffered, is_answered, IsRanged, WasOpened, created, replaced, resumed,
  offset_of, StoredBy, IsCopied, IsEnded, IsOpened, Has, Keeps, branch, check-Keeps,
}

drop-nil : (n : ℕ) → drop {A = ℕ} n [] ≡ []
drop-nil zero = refl
drop-nil (suc n) = refl

-- What the write of a copy does, by the mode in which the file is open.
written_to-create :
    (old out : List ℕ) → written_to (some (file create 0)) old out ≡ out ++ drop (length out) old
written_to-create old out = ap (λ n. out ++ drop n old) (omega arith)

written_to-overwrite : (out : List ℕ) → written_to (some (file overwrite 0)) [] out ≡ out
written_to-overwrite out = ap (λ s. out ++ s) (drop-nil (0 + length out)) ∙ append-nil out

-- The file is emptied exactly if it was found before and is not resumed.
truncated_cases :
    (r : Response) (mode : OpenMode) (offset : ℕ)
    → r.writer ≡ some (file mode offset)
    → ((truncated r ≡ record r { saved = some [] })
        × (is_none r.fi ≡ false)
        × (r.did_resume ≡ false))
      ⊎ ((truncated r ≡ r) × ((is_none r.fi ≡ true) ⊎ (r.did_resume ≡ true)))
truncated_cases r mode offset e = ground arith

truncated_buffer : (r : Response) → r.writer ≡ some store_buffer → truncated r ≡ r
truncated_buffer r e = ground arith

ranged-append : (world : ℕ → Answers) (r : Response) → IsRanged world r → open_mode r ≡ append
ranged-append world r v = ground arith

module _ (encrypt : List ℕ → List ℕ) (c : Client) (world : ℕ → Answers) where
  pub on_close_response-Keeps :
      (a : Answers) (r : Response)
      → IsEnded encrypt c world r
      → Keeps encrypt c world (on_close_response a r)
  unfolding on_close_response
  on_close_response-Keeps a r v = branch encrypt c world _ _ r.done tt (inl (refl, same v))
    where
      same :
          IsEnded encrypt c world r
          → IsEnded encrypt c world (on_close_response a (record r { done = false })).0
      same (inl e) = inl e
      same (inr (inl k)) = inr (
          inl (record {
            stored = k.stored;
            is_resumed = k.is_resumed;
            nothing_copied = k.nothing_copied;
            size_fits = k.size_fits;
            found = k.found;
          }))
      same (inr (inr d)) = inr (inr d)

  -- An answer has been copied.
  abbrev pub IsDone : Response → Type 0
  IsDone r = (is_answered r ≡ true) × IsCopied encrypt c world r

  pub after_copy-Keeps :
      (a : Answers) (r : Response) → IsDone r → Keeps encrypt c world (after_copy a r)
  after_copy-Keeps a r d =
      branch encrypt c world _ _ r.request.after_copy
        (check-Keeps encrypt c world a.after_copy_error r (λ r. (r, goto close_response))
          (inr (inr d)))
        (inr (inr d))

  pub discover_size-Keeps :
      (a : Answers) (n : ℕ) (r : Response) → IsDone r → Keeps encrypt c world (discover_size a n r)
  discover_size-Keeps a n r d =
      let discovered = pos (r.bytes_resumed + n) in
      let sized = record r { size = discovered } in
      branch encrypt c world _ _ (ltb_ℤ r.size (pos 0))
        (branch encrypt c world _ _ (wrong_size r.request discovered) (inl refl)
          (after_copy-Keeps a sized d))
        (after_copy-Keeps a r d)

  pub copied-Keeps :
      (a : Answers) (n : ℕ) (r : Response) → IsDone r → Keeps encrypt c world (copied a n r)
  copied-Keeps a n r d =
      let closed = record r { writer = none; err = none } in
      branch encrypt c world _ _ (not r.request.no_store && not r.request.ignore_remote_time)
        (check-Keeps encrypt c world (modified_error a closed) closed (discover_size a n)
          (discover_size-Keeps a n closed d))
        (discover_size-Keeps a n closed d)

  -- Where a copy has written, as long as the file is not emptied.
  abbrev pub IsWritten : Response → Type 0
  IsWritten r =
      (t : Transfer) → (is_answered r ≡ true) × StoredBy encrypt c world (received r t) t.out

  written_at :
      (r : Response) (mode : OpenMode) (old out : List ℕ)
      → IsOpened encrypt c world r
      → open_mode r ≡ mode
      → offset_of r ≡ 0
      → written_to r.writer old out ≡ written_to (some (file mode 0)) old out
  written_at r mode old out o e z =
      ap (λ w. written_to w old out) o.is_written
      ∙ ap (λ m. written_to (some (file m (offset_of r))) old out) e
      ∙ ap (λ n. written_to (some (file mode n)) old out) z

  emptied-IsWritten :
      (r : Response)
      → is_answered r ≡ true
      → InFile encrypt c world r
      → is_none r.fi ≡ false
      → r.did_resume ≡ false
      → IsWritten (record r { saved = some [] })
  emptied-IsWritten r ans (s, inr v, o) here fresh = λ t. absurd (ground (arith, v.is_resumed))
  emptied-IsWritten r ans (s, inl (_, none_yet), o) here fresh = λ t. (
    ans,
    replaced s fresh (
        ap some (
          written_at r overwrite [] t.out o (ground arith) (ground arith)
          ∙ written_to-overwrite t.out)),
  )

  kept-IsWritten :
      (r : Response)
      → is_answered r ≡ true
      → InFile encrypt c world r
      → (is_none r.fi ≡ true) ⊎ (r.did_resume ≡ true)
      → IsWritten r
  kept-IsWritten r ans (s, inl (fresh, none_yet), o) (inl new) = λ t. (
    ans,
    created (saved_bytes r)
        (subst (λ m. WasOpened world m (saved_bytes r)) (ground arith) o.was_opened) s fresh
        (ap some (
          written_at r create (saved_bytes r) t.out o (ground arith) (ground arith)
          ∙ written_to-create (saved_bytes r) t.out)),
  )
  kept-IsWritten r ans (s, inl (fresh, none_yet), o) (inr did) = λ t. absurd (ground arith)
  kept-IsWritten r ans (s, inr v, o) (inl new) = λ t. absurd (ground (arith, v.info))
  kept-IsWritten r ans (s, inr v, o) (inr did) = λ t. (
    ans,
    resumed (saved_bytes r)
        (subst (λ m. WasOpened world m (saved_bytes r)) (ranged-append world r v) o.was_opened) s
        did v.range_set v.found
        (ap some (
          ap (λ w. written_to w (saved_bytes r) t.out) o.is_written
          ∙ ap (λ m. written_to (some (file m (offset_of r))) (saved_bytes r) t.out)
              (ranged-append world r v))),
  )

  buffered-IsWritten :
      (r : Response) → is_answered r ≡ true → IsBuffered encrypt c world r → IsWritten r
  buffered-IsWritten r ans b = λ t. (
    ans,
    buffered b.not_stored (
        ap some (
          ap (λ w. written_to w (saved_bytes r) t.out) b.is_buffer
          ∙ ap (λ s. elim s as (λ x. List ℕ) [ none ↦ [] | some old ↦ old ] ++ t.out)
              b.is_empty_yet)),
  )

  truncated-IsWritten : (r : Response) → Has encrypt c world copy_file r → IsWritten (truncated r)
  truncated-IsWritten r (ans, inl v) =
      elim (truncated_cases r (open_mode r) (offset_of r) v.2.is_written) [
        | inl (e, here, fresh) ↦ subst IsWritten (sym e) (emptied-IsWritten r ans v here fresh)
        | inr (e, which) ↦ subst IsWritten (sym e) (kept-IsWritten r ans v which)
      ]
  truncated-IsWritten r (ans, inr b) =
      subst IsWritten (sym (truncated_buffer r b.is_buffer)) (buffered-IsWritten r ans b)

  copy_transfer :
      (r : Response)
      → Has encrypt c world copy_file r
      → r.transfer ≡ some (new_transfer c.need_encrypt)
  copy_transfer r (ans, inl v) = v.2.is_new
  copy_transfer r (ans, inr b) = b.is_new

  pub copy_ended-Keeps :
      (r : Response) (p : Transfer × Exit)
      → IsWritten r
      → copy encrypt (new_transfer c.need_encrypt) (world enough).rounds ≡ p
      → Keeps encrypt c world (copy_ended (world enough) r p)
  copy_ended-Keeps r (t, none) w e = tt
  copy_ended-Keeps r (t, some (some x)) w e = inl refl
  copy_ended-Keeps r (t, some none) w e =
      copied-Keeps (world enough) t.written (received r t) ((w t).0, (t, refl, e, (w t).1))

  pub copy_with-Keeps :
      (r : Response) (o : Option Transfer)
      → o ≡ some (new_transfer c.need_encrypt)
      → Has encrypt c world copy_file r
      → Keeps encrypt c world (copy_with encrypt (world enough) r o)
  copy_with-Keeps r o e v =
      subst (λ x. Keeps encrypt c world (copy_with encrypt (world enough) r x)) (sym e)
        (copy_ended-Keeps (truncated r)
          (copy encrypt (new_transfer c.need_encrypt) (world enough).rounds)
          (truncated-IsWritten r v) refl)

  pub on_copy_file-Keeps :
      (r : Response)
      → Has encrypt c world copy_file r
      → Keeps encrypt c world (on_copy_file encrypt (world enough) r)
  unfolding on_copy_file
  on_copy_file-Keeps r v = branch encrypt c world _ _ r.done (inr v) (
      branch encrypt c world _ _ r.request.before_copy
        (check-Keeps encrypt c world (world enough).before_copy_error r
          (run_copy encrypt (world enough)) (run_keeps (record r { err = none }) (same v)))
        (run_keeps r v))
    where
      run_keeps :
          (s : Response)
          → Has encrypt c world copy_file s
          → Keeps encrypt c world (run_copy encrypt (world enough) s)
      run_keeps s h = copy_with-Keeps s s.transfer (copy_transfer s h) h

      same :
          Has encrypt c world copy_file r → Has encrypt c world copy_file (record r { err = none })
      same h = ground arith
