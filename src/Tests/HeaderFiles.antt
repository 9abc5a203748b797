-- ===== src/Tests/HeaderFiles.antt =====
-- A header file of a concrete response.
use downloadmgr.Prelude.{
  ℕ, ◌+◌, ◌-◌, arith, ◌≡◌, refl, true, [], ◌∷◌, ◌++◌, Option, none, some, codes, Text,
}
use downloadmgr.HeaderFile.{Headers, save_header}
use downloadmgr.HeaderFile.Lines.{lines, at_key, read}
use downloadmgr.HeaderFile.Restored.{Restores, Adds}
use downloadmgr.HeaderFile.Reading.{IsDecimal, read-save_header}

abbrev sent : Headers
sent =
    (codes "Etag", codes "x" ∷ [])
    ∷ (codes "Cookie", codes "c" ∷ [])
    ∷ (codes "Vary", codes "a" ∷ codes "b" ∷ [])
    ∷ []

-- A decimal notation of numbers below ten, carried on above them.
abbrev digit : ℕ → Text
digit n = (n + 48) ∷ []

abbrev digit_of : Text → Option ℕ
digit_of (c ∷ []) = some (c - 48)
digit_of _ = none

digit-IsDecimal : IsDecimal digit digit_of
digit-IsDecimal = record {
  parsed = λ n. ground arith;
  on_line = λ n. ground arith;
  shows_one = refl;
}

saved_text :
    save_header digit (codes "Cookie" ∷ []) (codes "f") true true sent
    ≡ some (codes "Etag\n1\nx\nVary\n2\na\nb\nContent-Disposition\n1\nfilename=\"f\"")
unfolding save_header
saved_text = refl

read-save_header_example :
    (file : Text) × (save_header digit (codes "Cookie" ∷ []) (codes "f.txt") true true sent
      ≡ some file)
    × ((entries : Headers) × ((more : Headers) × (read digit_of at_key (lines file)
            ≡ some (entries ++ more))
          × Restores (codes "Cookie" ∷ []) (codes "f.txt") sent entries
          × Adds (codes "f.txt") sent more))
read-save_header_example =
    read-save_header digit digit_of digit-IsDecimal (codes "Cookie" ∷ []) (codes "f.txt") refl sent
      (refl, (refl, tt), (refl, (refl, tt), (refl, (refl, (refl, tt)), tt)))
