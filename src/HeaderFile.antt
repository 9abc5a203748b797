-- ===== src/HeaderFile.antt =====
-- header.go: the file with the headers of the origin's response that saveHeader writes beside a
-- download. `show` is the decimal notation that fmt.Sprintf makes for `%d`.
pub mod Lines
pub mod Restored
pub mod Reading
use downloadmgr.Prelude.{
  ℕ, Bool, true, false, not, ◌&&◌, ◌||◌, List, [], ◌∷◌, ◌++◌, map, Option, none, some,
  if◌then◌else◌, length, Text, codes, text_eq, contains,
}

abbrev pub line_feed : ℕ
line_feed = 10

-- fmt.Sprintf("%s\n", t)
abbrev pub line : Text → Text
line t = t ++ line_feed ∷ []

-- A lookup in the map of ignored headers.
abbrev pub listed : List Text → Text → Bool
listed [] k = false
listed (i ∷ is) k = text_eq i k || listed is k

abbrev pub disposition : Text
disposition = codes "Content-Disposition"

-- http.Header in the order in which the range loop meets it.
abbrev pub Headers : Type 0
Headers = List (Text × List Text)

-- Whether `_, ok := originHeader["Content-Disposition"]` finds the key.
abbrev pub has_disposition : Headers → Bool
has_disposition [] = false
has_disposition ((k, va) ∷ hs) = text_eq k disposition || has_disposition hs

abbrev pub is_empty : Text → Bool
is_empty [] = true
is_empty (c ∷ cs) = false

abbrev pub quoted : Text → Text
quoted name = codes "filename=\"" ++ name ++ codes "\""

-- The value that the inner loop writes.
abbrev pub with_name : Text → Text → Text → Text
with_name name k v =
    if not (is_empty name) && (text_eq k disposition && not (contains (codes "filename=") v))
    then v ++ (codes "; " ++ quoted name)
    else v

module _ (show : ℕ → Text) (ignored : List Text) (name : Text) where
  -- The inner loop, over the values of the key `k`.
  unfoldable pub values_text : Text → List Text → Text
  values_text k [] = []
  values_text k (v ∷ vs) = line (with_name name k v) ++ values_text k vs

  -- The loop over the header.
  unfoldable pub header_text : Headers → Text
  unfolding values_text
  header_text [] = []
  header_text ((k, va) ∷ hs) =
      if listed ignored k
      then header_text hs
      else line k ++ (line (show (length va)) ++ (values_text k va ++ header_text hs))

  -- What is written behind the loop.
  abbrev pub last_text : Headers → Text
  last_text hs =
      if not (is_empty name) && not (has_disposition hs)
      then line disposition ++ (line (codes "1") ++ quoted name)
      else []

  -- What saveHeader leaves on the disk: `created` says that the file could be made, `written` that
  -- every write and the flush succeed; else the file is removed and the error returned.
  unfoldable pub save_header : Bool → Bool → Headers → Option Text
  unfolding header_text
  save_header created written hs =
      if created && written then some (header_text hs ++ last_text hs) else none
