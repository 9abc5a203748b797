-- ===== src/Transfer/Copy.antt =====
-- The copy loop of grab/transfer.go: what it counts, what it stores, and when it ends.
use downloadmgr.Prelude.{
  ℕ, zero, suc, ◌≡◌, ◌≤◌, refl, arith, Bool, false, List, [], ◌∷◌, ◌++◌, Option, none, some, length,
  take, length-append, ap, ◌∙◌, sym, Bool-cases, Option-cases, inl, inr, ◌⊎◌, ==_iff, ltb,
  if◌then◌else◌, ◌==◌,
}
use downloadmgr.Transfer.{
  Transfer, Round, Exit, CopyError, ReadError, eof, read_failed, coded, write, copy_round, copy,
  after_read,
}

length-take_le : (k : ℕ) (xs : List ℕ) → k ≤ length xs → length (take k xs) ≡ k
length-take_le zero xs h = refl
length-take_le (suc k) [] h = absurd (omega arith)
length-take_le (suc k) (x ∷ xs) h = ap suc (length-take_le k xs (omega arith))

take-length : (xs : List ℕ) → take (length xs) xs ≡ xs
take-length [] = refl
take-length (x ∷ xs) = ap (λ ys. x ∷ ys) (take-length xs)

append_nil : (xs : List ℕ) → xs ++ [] ≡ xs
append_nil [] = refl
append_nil (x ∷ xs) = ap (λ ys. x ∷ ys) (append_nil xs)

append_assoc : (xs ys zs : List ℕ) → (xs ++ ys) ++ zs ≡ xs ++ (ys ++ zs)
append_assoc [] ys zs = refl
append_assoc (x ∷ xs) ys zs = ap (λ us. x ∷ us) (append_assoc xs ys zs)

unread : (e : Option ReadError) → after_read e ≡ none → e ≡ none
unread none p = refl
unread (some eof) p = cc
unread (some (read_failed t)) p = cc

ended : (e : Option ReadError) → after_read e ≡ some none → e ≡ some eof
ended none p = cc
ended (some eof) p = refl
ended (some (read_failed t)) p = cc

not_good : (e : CopyError) (x : Exit) → (some (some e) ≡ x) → (x ≡ none) ⊎ (x ≡ some none) → ⊥
not_good e x p (inl q) = cc
not_good e x p (inr q) = cc

-- The counts of a transfer agree with what its writer has taken.
pub record Counts (key : Bool) (c : Transfer) : Type 0 where
  pub mode : c.need_encrypt ≡ key
  pub counted : c.written ≡ length c.out
  pub shown : c.n ≡ c.written

module _ (encrypt : List ℕ → List ℕ) (key : Bool) where
  -- What io.Writer documents: Write takes no more than it is given, and answers an error if it
  -- takes less.
  abbrev pub IsHonest : Round → Type 0
  IsHonest r =
      (r.taken ≤ length (coded encrypt key r.chunk))
      × (r.write_error ≡ none → r.taken ≡ length (coded encrypt key r.chunk))

  abbrev pub AllHonest : List Round → Type 0
  AllHonest [] = Unit {0}
  AllHonest (r ∷ rs) = IsHonest r × AllHonest rs

  -- What one round adds to the file.
  abbrev pub piece : Round → List ℕ
  piece r = if ltb 0 (length r.chunk) then coded encrypt key r.chunk else []

  -- What the reader delivers up to its first end or error, as it is to be stored.
  abbrev pub body : List Round → List ℕ
  body [] = []
  body (r ∷ rs) = elim r.read_error [ none ↦ piece r ++ body rs | some e ↦ piece r ]

  write-Counts :
      (c : Transfer) (r : Round) → IsHonest r → Counts key c → Counts key (write encrypt c r)
  write-Counts c r h v = record {
    mode = v.mode;
    counted = ground (
      arith,
      v.counted,
      v.mode,
      h.0,
      length-append c.out (take r.taken (coded encrypt c.need_encrypt r.chunk)),
      length-take_le r.taken (coded encrypt c.need_encrypt r.chunk) (rw v.mode h.0),
    );
    shown = ground (arith, v.shown);
  }

  copy_round-Counts :
      (c : Transfer) (r : Round) → IsHonest r → Counts key c → Counts key (copy_round encrypt c r).0
  unfolding copy_round
  copy_round-Counts c r h v = elim (Bool-cases r.context_is_done) [
    | inl e ↦ rw e v
    | inr e ↦ elim (Bool-cases (ltb 0 (length r.chunk))) [
      | inl f ↦ rw (e, f) (write-Counts c r h v)
      | inr f ↦ rw (e, f) v
    ]
  ]

  -- With a writer as io.Writer documents it, and if they do so before: wherever the loop stands or
  -- stops, cancelled, failed or at the end, the count that it returns and the one that the progress
  -- shows are the number of bytes that the writer has taken.
  pub copy-Counts :
      (c : Transfer) (rs : List Round)
      → AllHonest rs
      → Counts key c
      → Counts key (copy encrypt c rs).0
  unfolding copy
  copy-Counts c [] h v = v
  copy-Counts c (r ∷ rs) h v = elim (Option-cases (copy_round encrypt c r).1) [
    | inl e ↦
        rw (e, copy) (copy-Counts (copy_round encrypt c r).0 rs h.1 (copy_round-Counts c r h.0 v))
    | inr (o, e) ↦ rw (e, copy) (copy_round-Counts c r h.0 v)
  ]

  -- A round that does not leave the loop with an error has stored its piece whole.
  module _ (c : Transfer) (r : Round) (h : IsHonest r) (mode : c.need_encrypt ≡ key) where
    whole :
        r.write_error ≡ none
        → take r.taken (coded encrypt c.need_encrypt r.chunk) ≡ coded encrypt key r.chunk
    whole e = rw (mode, h.1 e) (take-length (coded encrypt key r.chunk))

    passes :
        (x : Exit)
        → (copy_round encrypt c r).1 ≡ x
        → (x ≡ none) ⊎ (x ≡ some none)
        → (after_read r.read_error ≡ x)
          × ((copy_round encrypt c r).0.out ≡ c.out ++ piece r)
          × ((copy_round encrypt c r).0.need_encrypt ≡ key)
    unfolding copy_round
    passes x e good = elim (Bool-cases r.context_is_done) [
      | inl f ↦ absurd (not_good _ x (rw f at e) good)
      | inr f ↦ elim (Bool-cases (ltb 0 (length r.chunk))) [
        | inr g ↦ rw (f, g) (rw (f, g) at e, sym (append_nil c.out), mode)
        | inl g ↦ elim (Option-cases r.write_error) [
          | inr (t, w) ↦ absurd (not_good _ x (rw (f, g, w) at e) good)
          | inl w ↦ elim (Bool-cases (length r.chunk == r.taken)) [
            | inr k ↦ absurd (not_good _ x (rw (f, g, w, k) at e) good)
            | inl k ↦ rw (f, g) (rw (f, g, w, k) at e, ap (λ d. c.out ++ d) (whole w), mode)
          ]
        ]
      ]
    ]

  copy-goes :
      (c : Transfer) (r : Round) (rs : List Round)
      → (copy_round encrypt c r).1 ≡ none
      → copy encrypt c (r ∷ rs) ≡ copy encrypt (copy_round encrypt c r).0 rs
  unfolding copy
  copy-goes c r rs e = rw (e, copy) refl

  copy-stops :
      (c : Transfer) (r : Round) (rs : List Round) (o : Option CopyError)
      → (copy_round encrypt c r).1 ≡ some o
      → copy encrypt c (r ∷ rs) ≡ ((copy_round encrypt c r).0, some o)
  unfolding copy
  copy-stops c r rs o e = rw (e, copy) refl

  body-stops : (r : Round) (rs : List Round) → r.read_error ≡ some eof → body (r ∷ rs) ≡ piece r
  body-stops r rs e = rw e refl

  still :
      (c : Transfer) → (copy encrypt c []).1 ≡ some none → (copy encrypt c []).0.out ≡ c.out ++ []
  unfolding copy
  still c e = cc

  body-goes :
      (r : Round) (rs : List Round) → r.read_error ≡ none → body (r ∷ rs) ≡ piece r ++ body rs
  body-goes r rs e = rw e refl

  -- With a writer as io.Writer documents it, when the loop ends without an error, the file has got
  -- everything that the reader delivered up to its end, each chunk encrypted where encryption is
  -- asked for, in order and without a gap.
  pub copy_complete :
      (c : Transfer) (rs : List Round)
      → AllHonest rs
      → c.need_encrypt ≡ key
      → (copy encrypt c rs).1 ≡ some none
      → (copy encrypt c rs).0.out ≡ c.out ++ body rs
  copy_complete c [] h mode e = still c e
  copy_complete c (r ∷ rs) h mode e = elim (Option-cases (copy_round encrypt c r).1) [
    | inl f ↦
        let (back, stored, m) = passes c r h.0 mode none f (inl refl) in
        ap (λ p. p.0.out) (copy-goes c r rs f)
        ∙ copy_complete (copy_round encrypt c r).0 rs h.1 m
            (sym (ap (λ p. p.1) (copy-goes c r rs f)) ∙ e)
        ∙ ap (λ d. d ++ body rs) stored
        ∙ append_assoc c.out (piece r) (body rs)
        ∙ ap (λ d. c.out ++ d) (sym (body-goes r rs (unread r.read_error back)))
    | inr (o, f) ↦
        let left = ap (λ p. p.1) (copy-stops c r rs o f) in
        let (back, stored, m) = passes c r h.0 mode (some none) (f ∙ sym left ∙ e) (inr refl) in
        ap (λ p. p.0.out) (copy-stops c r rs o f)
        ∙ stored
        ∙ ap (λ d. c.out ++ d) (sym (body-stops r rs (ended r.read_error back)))
  ]

  -- Rounds in which nothing fails: the context is not done, the writer takes the whole chunk, and
  -- the reader gives no error but its end, in the last round.
  abbrev pub IsSmooth : Round → Type 0
  IsSmooth r = (r.context_is_done ≡ false) × (r.taken ≡ length r.chunk) × (r.write_error ≡ none)

  abbrev pub AllSmooth : List Round → Type 0
  AllSmooth [] = ⊥
  AllSmooth (r ∷ []) = IsSmooth r × (r.read_error ≡ some eof)
  AllSmooth (r ∷ s ∷ rs) = IsSmooth r × (r.read_error ≡ none) × AllSmooth (s ∷ rs)

  smooth :
      (c : Transfer) (r : Round) → IsSmooth r → (copy_round encrypt c r).1 ≡ after_read r.read_error
  unfolding copy_round
  smooth c r (go, full, fine) = elim (Bool-cases (ltb 0 (length r.chunk))) [
    | inl f ↦ rw (go, f, fine, (==_iff (length r.chunk) r.taken).1 (sym full)) refl
    | inr f ↦ rw (go, f) refl
  ]

  -- The loop ends without an error when the context is not done, every write takes its chunk whole
  -- and the reader comes to its end: it neither goes on past the end nor reports it as an error.
  pub copy_ends :
      (c : Transfer) (rs : List Round) → AllSmooth rs → (copy encrypt c rs).1 ≡ some none
  unfolding copy
  copy_ends c [] h = absurd h
  copy_ends c (r ∷ []) h =
      let e : (copy_round encrypt c r).1 ≡ some none = smooth c r h.0 ∙ ap after_read h.1 in
      rw (e, copy) refl
  copy_ends c (r ∷ s ∷ rs) h =
      let e : (copy_round encrypt c r).1 ≡ none = smooth c r h.0 ∙ ap after_read h.1 in
      rw (e, copy) (copy_ends (copy_round encrypt c r).0 (s ∷ rs) h.2)
