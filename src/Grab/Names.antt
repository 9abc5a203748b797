-- ===== src/Grab/Names.antt =====
-- GuessFilename of grab/util.go: the name of the file that a response is stored under.
pub mod Plain
use downloadmgr.Prelude.{
  ℕ, Bool, true, false, ◌||◌, List, [], ◌∷◌, ◌++◌, Option, none, some, ◌==◌, if◌then◌else◌, Text,
  codes, text_eq, contains,
}

abbrev pub is_empty : Text → Bool
is_empty [] = true
is_empty (c ∷ cs) = false

-- strings.HasSuffix(s, "/").
unfoldable pub ends_with_slash : Text → Bool
ends_with_slash [] = false
ends_with_slash (c ∷ []) = c == b'/'
ends_with_slash (c ∷ d ∷ s) = ends_with_slash (d ∷ s)

abbrev pub before : ℕ → List Text → List Text
before c [] = (c ∷ []) ∷ []
before c (e ∷ es) = (c ∷ e) ∷ es

-- The elements of a path between its slashes.
unfoldable pub elements : Text → List Text
elements [] = [] ∷ []
elements (c ∷ s) = let rest = elements s in if c == b'/' then [] ∷ rest else before c rest

abbrev pub parent : List Text → List Text
parent [] = []
parent (e ∷ es) = es

-- filepath.Clean of a path that begins with a slash, as its elements, the last one first: empty
-- elements and "." are dropped, ".." drops the element before it.
abbrev pub enter : List Text → Text → List Text
enter above e =
    if is_empty e || text_eq e (codes ".")
    then above
    else if text_eq e (codes "..")
    then parent above
    else e ∷ above

unfoldable pub clean : List Text → List Text → List Text
clean above [] = above
clean above (e ∷ es) = clean (enter above e) es

-- filepath.Base of such a path.
abbrev pub base : List Text → Text
base [] = codes "/"
base (e ∷ es) = e

-- From the sanitation on. `none` is ErrNoFilename.
unfoldable pub sanitize : Text → Option Text
unfolding ends_with_slash elements clean
sanitize filename =
    let name = base (clean [] (elements (b'/' ∷ filename))) in
    if is_empty filename || (ends_with_slash filename || contains (0 ∷ []) filename)
    then none
    else if is_empty name || (text_eq name (codes ".") || text_eq name (codes "/"))
    then none
    else some name

-- `path` is the path of the url, `disposition` the header Content-Disposition, `param` the filename
-- that mime.ParseMediaType finds in it.
unfoldable pub guess_filename : Text → Text → Option Text → Option Text
unfolding sanitize
guess_filename path disposition none = sanitize path
guess_filename path disposition (some val) =
    if is_empty disposition then sanitize path else sanitize val
