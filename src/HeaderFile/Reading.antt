-- ===== src/HeaderFile/Reading.antt =====
-- The file that saveHeader of header.go writes can be read back.
use downloadmgr.Prelude.{
  ℕ, suc, ◌≡◌, refl, true, false, not, ◌&&◌, List, [], ◌∷◌, ◌++◌, map, Option, some, length, Text,
  codes, Bool-cases, inl, inr, ap, sym, ◌∙◌, text_eq, contains,
}
use downloadmgr.HeaderFile.{
  Headers, line, listed, disposition, has_disposition, is_empty, quoted, with_name, values_text,
  header_text, last_text, save_header,
}
use downloadmgr.HeaderFile.Lines.{
  has_feed, lines, append_assoc, lines-line, lines_last, has_feed-append, at_key, at_number,
  at_values, number_state, entry, read, read_done,
}
use downloadmgr.HeaderFile.Restored.{Restores, Adds, kept, added, kept-Restores, added-Adds}

-- No value, and no key, has a line feed in it.
abbrev pub AllLines : List Text → Type 0
AllLines [] = Unit {0}
AllLines (v ∷ vs) = (has_feed v ≡ false) × AllLines vs

abbrev pub AreLines : Headers → Type 0
AreLines [] = Unit {0}
AreLines ((k, va) ∷ hs) = (has_feed k ≡ false) × AllLines va × AreLines hs

-- What fmt documents of `%d`: a line that can be parsed again, and 1 is written "1".
pub record IsDecimal (show : ℕ → Text) (parse : Text → Option ℕ) : Type 0 where
  pub parsed : (n : ℕ) → parse (show n) ≡ some n
  pub on_line : (n : ℕ) → has_feed (show n) ≡ false
  pub shows_one : show 1 ≡ codes "1"

append_one : (xs : List Text) (y : Text) (ys : List Text) → (xs ++ y ∷ []) ++ ys ≡ xs ++ y ∷ ys
append_one [] y ys = refl
append_one (x ∷ xs) y ys = ap (λ l. x ∷ l) (append_one xs y ys)

regroup : (s t u v w : Text) → (s ++ (t ++ (u ++ v))) ++ w ≡ s ++ (t ++ (u ++ (v ++ w)))
regroup s t u v w =
    append_assoc s (t ++ (u ++ v)) w
    ∙ ap (λ l. s ++ l) (append_assoc t (u ++ v) w ∙ ap (λ l. t ++ l) (append_assoc u v w))

module _ (show : ℕ → Text) (parse : Text → Option ℕ) (decimal : IsDecimal show parse)
    (ignored : List Text) (name : Text) (name_line : has_feed name ≡ false) where
  quoted-line : has_feed (quoted name) ≡ false
  quoted-line =
      has_feed-append (codes "filename=\"") (name ++ codes "\"") refl
        (has_feed-append name (codes "\"") name_line refl)

  with_name-line : (k v : Text) → has_feed v ≡ false → has_feed (with_name name k v) ≡ false
  with_name-line k v h =
      elim (Bool-cases
        (not (is_empty name) && (text_eq k disposition && not (contains (codes "filename=") v)))) [
          | inl e ↦ rw e (
              has_feed-append v (codes "; " ++ quoted name) h
                (has_feed-append (codes "; ") (quoted name) refl quoted-line))
          | inr e ↦ rw e h
        ]

  read_values :
      (k : Text) (va vs : List Text) (rest : Text)
      → AllLines vs
      → read parse (at_values k (length vs) va) (lines (values_text show ignored name k vs ++ rest))
        ≡ entry parse k (va ++ map (with_name name k) vs) (read parse at_key (lines rest))
  unfolding values_text read
  read_values k va [] rest h =
      read_done parse k va (lines rest)
      ∙ ap (λ l. entry parse k l (read parse at_key (lines rest))) (sym (append_nil va))
    where
      append_nil : (xs : List Text) → xs ++ [] ≡ xs
      append_nil [] = refl
      append_nil (x ∷ xs) = ap (λ l. x ∷ l) (append_nil xs)
  read_values k va (v ∷ vs) rest h =
      let w = with_name name k v in
      ap (λ t. read parse (at_values k (suc (length vs)) va) (lines t))
        (append_assoc (line w) (values_text show ignored name k vs) rest)
      ∙ ap (read parse (at_values k (suc (length vs)) va))
          (lines-line w (values_text show ignored name k vs ++ rest) (with_name-line k v h.0))
      ∙ read_values k (va ++ w ∷ []) vs rest h.1
      ∙ ap (λ l. entry parse k l (read parse at_key (lines rest))) (append_one va w _)

  read-entry :
      (k : Text) (va : List Text) (rest : Text)
      → has_feed k ≡ false
      → AllLines va
      → read parse at_key (
          lines
            (line k ++ (line (show (length va)) ++ (values_text show ignored name k va ++ rest))))
        ≡ entry parse k (map (with_name name k) va) (read parse at_key (lines rest))
  unfolding read
  read-entry k va rest h a =
      let n = length va in
      let values = values_text show ignored name k va ++ rest in
      ap (read parse at_key) (lines-line k (line (show n) ++ values) h)
      ∙ ap (read parse (at_number k)) (lines-line (show n) values (decimal.on_line n))
      ∙ ap (λ o. read parse (number_state parse k o) (lines values)) (decimal.parsed n)
      ∙ read_values k [] va rest a

  read-header_text :
      (hs : Headers) (rest : Text) (end : Headers)
      → AreLines hs
      → read parse at_key (lines rest) ≡ some end
      → read parse at_key (lines (header_text show ignored name hs ++ rest))
        ≡ some (kept ignored name hs ++ end)
  unfolding read header_text
  read-header_text [] rest end h e = e
  read-header_text ((k, va) ∷ hs) rest end h e = elim (Bool-cases (listed ignored k)) [
    | inl i ↦ rw i (read-header_text hs rest end h.2 e)
    | inr i ↦ rw i (
        ap (λ t. read parse at_key (lines t))
          (regroup (line k) (line (show (length va))) (values_text show ignored name k va)
            (header_text show ignored name hs) rest)
        ∙ read-entry k va _ h.0 h.1
        ∙ ap (entry parse k (map (with_name name k) va)) (read-header_text hs rest end h.2 e))
  ]

  one : parse (codes "1") ≡ some 1
  one = ap parse (sym decimal.shows_one) ∙ decimal.parsed 1

  read-last_text :
      (hs : Headers)
      → read parse at_key (lines (last_text show ignored name hs)) ≡ some (added ignored name hs)
  unfolding read lines
  read-last_text hs = elim (Bool-cases (not (is_empty name) && not (has_disposition hs))) [
    | inl h ↦ rw h (
        ap (read parse at_key) (lines-line disposition (line (codes "1") ++ quoted name) refl)
        ∙ ap (read parse (at_number disposition)) (lines-line (codes "1") (quoted name) refl)
        ∙ ap (λ o. read parse (number_state parse disposition o) (lines (quoted name))) one
        ∙ ap (read parse (at_values disposition 1 [])) (lines_last _ _ quoted-line))
    | inr h ↦ rw h refl
  ]

  -- When the file can be made and written, and the file name, the keys and the values have no line
  -- feed in them, the lines of the file that saveHeader has written read as entries of a key, the
  -- number of its values and the values: first those of the origin's headers whose key is not
  -- ignored, in their order, each with its values in their order, where a value of Content-Disposition
  -- without "filename=" has the file name added, if there is one, and every other value is unchanged;
  -- and then the file name in an entry Content-Disposition of its own, if there is one and the origin
  -- has sent no such key. This is for a decimal notation that can be parsed.
  pub read-save_header :
      (hs : Headers)
      → AreLines hs
      → (file : Text) × (save_header show ignored name true true hs ≡ some file)
        × ((entries : Headers) × ((more : Headers) × (read parse at_key (lines file)
                ≡ some (entries ++ more))
              × Restores ignored name hs entries
              × Adds name hs more))
  unfolding save_header
  read-save_header hs h = (
    _,
    refl,
    (
      kept ignored name hs,
      (
        added ignored name hs,
        read-header_text hs _ _ h (read-last_text hs),
        kept-Restores name ignored hs,
        added-Adds name ignored hs,
      ),
    ),
  )
