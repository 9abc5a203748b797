-- ===== src/HeaderFile/Lines.antt =====
-- A reader of the file that saveHeader of header.go writes: its lines, then keys, numbers and values.
use downloadmgr.Prelude.{
  ℕ, zero, suc, ◌≡◌, refl, ap, Bool, false, ◌||◌, List, [], ◌∷◌, ◌++◌, Option, none, some, arith,
  ◌==◌, if◌then◌else◌, Text,
}
use downloadmgr.HeaderFile.{Headers, line, line_feed}

-- Whether a text has a line feed in it.
abbrev pub has_feed : Text → Bool
has_feed [] = false
has_feed (c ∷ s) = c == line_feed || has_feed s

abbrev pub put_first : ℕ → List Text → List Text
put_first c [] = (c ∷ []) ∷ []
put_first c (l ∷ ls) = (c ∷ l) ∷ ls

-- The lines of a text; the last one need not end in a line feed.
unfoldable pub lines : Text → List Text
lines [] = []
lines (c ∷ s) = if c == line_feed then [] ∷ lines s else put_first c (lines s)

pub append_assoc : (s t u : Text) → (s ++ t) ++ u ≡ s ++ (t ++ u)
append_assoc [] t u = refl
append_assoc (c ∷ s) t u = ap (λ l. c ∷ l) (append_assoc s t u)

pub lines-line : (t s : Text) → has_feed t ≡ false → lines (line t ++ s) ≡ t ∷ lines s
unfolding lines
lines-line [] s h = refl
lines-line (c ∷ t) s h = ground (arith, lines-line t s (ground (arith, h)))

pub lines_last : (c : ℕ) (t : Text) → has_feed (c ∷ t) ≡ false → lines (c ∷ t) ≡ (c ∷ t) ∷ []
unfolding lines
lines_last c [] h = ground (arith, h)
lines_last c (d ∷ t) h = ground (arith, h, lines_last d t (ground (arith, h)))

pub has_feed-append :
    (s t : Text) → has_feed s ≡ false → has_feed t ≡ false → has_feed (s ++ t) ≡ false
has_feed-append [] t h k = k
has_feed-append (c ∷ s) t h k = ground (arith, h, has_feed-append s t (ground (arith, h)) k)

-- Where the reader stands: before a key, before the number of its values, before a value with how many
-- are to follow, or behind a line that should have been a number.
pub data State : Type 0 where
  at_key : State
  at_number : Text → State
  at_values : Text → ℕ → List Text → State
  lost : State

module _ (parse : Text → Option ℕ) where
  abbrev pub number_state : Text → Option ℕ → State
  number_state k none = lost
  number_state k (some n) = at_values k n []

  abbrev pub entry : Text → List Text → Option Headers → Option Headers
  entry k va none = none
  entry k va (some hs) = some ((k, va) ∷ hs)

  unfoldable pub read : State → List Text → Option Headers
  read lost ls = none
  read at_key [] = some []
  read at_key (k ∷ ls) = read (at_number k) ls
  read (at_number k) [] = none
  read (at_number k) (d ∷ ls) = read (number_state k (parse d)) ls
  read (at_values k zero va) [] = some ((k, va) ∷ [])
  read (at_values k zero va) (l ∷ ls) = entry k va (read (at_number l) ls)
  read (at_values k (suc n) va) [] = none
  read (at_values k (suc n) va) (v ∷ ls) = read (at_values k n (va ++ v ∷ [])) ls

  pub read_done :
      (k : Text) (va : List Text) (ls : List Text)
      → read (at_values k zero va) ls ≡ entry k va (read at_key ls)
  unfolding read
  read_done k va [] = refl
  read_done k va (l ∷ ls) = refl
