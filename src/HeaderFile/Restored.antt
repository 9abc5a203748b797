-- ===== src/HeaderFile/Restored.antt =====
-- What of the origin's headers the file of saveHeader is to hold, stated apart from the loops of
-- header.go.
use downloadmgr.Prelude.{
  ℕ, zero, suc, ◌≡◌, ◌≢◌, ◌⊎◌, refl, ap, sym, ◌∙◌, Bool, arith, true, false, not, ◌&&◌, List, [],
  ◌∷◌, ◌++◌, map, some, get_elem?, if◌then◌else◌, Text, codes, text_eq, contains, Bool-cases, inl,
  inr, text_eq→eq, text_eq_refl,
}
use downloadmgr.HeaderFile.{
  Headers, listed, disposition, has_disposition, is_empty, quoted, with_name,
}

abbrev pub IsIn : Text → List Text → Type 0
IsIn k ks = (i : ℕ) × (get_elem? ks i ≡ some k)

abbrev pub keys : Headers → List Text
keys [] = []
keys ((k, va) ∷ hs) = k ∷ keys hs

-- The file name is added to a Content-Disposition that has none.
abbrev pub Needs : Text → Text → Text → Type 0
Needs name k v =
    (name ≢ []) × (k ≡ codes "Content-Disposition") × (contains (codes "filename=") v ≡ false)

abbrev pub Named : Text → Text → Text → Text → Type 0
Named name k v w =
    (Needs name k v × (w ≡ v ++ (codes "; filename=\"" ++ name ++ codes "\"")))
    ⊎ ((¬ Needs name k v) × (w ≡ v))

pub data AllNamed (name k : Text) : List Text → List Text → Type 0 where
  no_values : AllNamed name k [] []
  one_more :
      {v w : Text} {vs ws : List Text}
      → Named name k v w
      → AllNamed name k vs ws
      → AllNamed name k (v ∷ vs) (w ∷ ws)

-- The entries of `hs` in their order, without the ignored keys.
pub data Restores (ignored : List Text) (name : Text) : Headers → Headers → Type 0 where
  no_entries : Restores ignored name [] []
  drops :
      {k : Text} {va : List Text} {hs rest : Headers}
      → IsIn k ignored
      → Restores ignored name hs rest
      → Restores ignored name ((k, va) ∷ hs) rest
  keeps :
      {k : Text} {va wa : List Text} {hs rest : Headers}
      → ¬ IsIn k ignored
      → AllNamed name k va wa
      → Restores ignored name hs rest
      → Restores ignored name ((k, va) ∷ hs) ((k, wa) ∷ rest)

-- The entry of its own that the file name gets if the origin has sent no Content-Disposition.
abbrev pub Adds : Text → Headers → Headers → Type 0
Adds name hs more =
    ((name ≢ [])
      × (¬ IsIn (codes "Content-Disposition") (keys hs))
      × (more
          ≡ (codes "Content-Disposition", (codes "filename=\"" ++ name ++ codes "\"") ∷ []) ∷ []))
    ⊎ (((name ≡ []) ⊎ IsIn (codes "Content-Disposition") (keys hs)) × (more ≡ []))

module _ (ignored : List Text) (name : Text) where
  abbrev pub kept : Headers → Headers
  kept [] = []
  kept ((k, va) ∷ hs) =
      if listed ignored k then kept hs else (k, map (with_name name k) va) ∷ kept hs

  abbrev pub added : Headers → Headers
  added hs =
      if not (is_empty name) && not (has_disposition hs)
      then (disposition, quoted name ∷ []) ∷ []
      else []

not_both : (b : Bool) → b ≡ true → b ≡ false → ⊥
not_both true h k = cc
not_both false h k = cc

listed_at : (is : List Text) (k : Text) → listed is k ≡ true → IsIn k is
listed_at [] k h = cc
listed_at (i ∷ is) k h = elim (Bool-cases (text_eq i k)) [
  | inl e ↦ (0, ap some (text_eq→eq i k e))
  | inr e ↦ let (j, at) = listed_at is k (rw e at h) in (suc j, at)
]

listed_of : (is : List Text) (k : Text) (i : ℕ) → get_elem? is i ≡ some k → listed is k ≡ true
listed_of [] k i h = cc
listed_of (x ∷ is) k zero h = let same : x ≡ k = ground (arith, h) in rw (same, text_eq_refl k) refl
listed_of (x ∷ is) k (suc i) h = ground (arith, listed_of is k i h)

disposition_listed : (hs : Headers) → has_disposition hs ≡ listed (keys hs) disposition
disposition_listed [] = refl
disposition_listed ((k, va) ∷ hs) = ground (arith, disposition_listed hs)

is_empty→eq : (t : Text) → is_empty t ≡ true → t ≡ []
is_empty→eq [] h = refl
is_empty→eq (c ∷ t) h = cc

module _ (name : Text) where
  with_name-Named : (k v : Text) → Named name k v (with_name name k v)
  with_name-Named k v = elim (Bool-cases (is_empty name)) [
    | inl e ↦ rw e (inr ((λ h. h.0 (is_empty→eq name e)), refl))
    | inr e ↦ elim (Bool-cases (text_eq k disposition)) [
      | inr f ↦
          rw (e, f)
            (inr (
              (λ h. not_both _ (ap (λ t. text_eq t disposition) h.1 ∙ text_eq_refl disposition) f),
              refl,
            ))
      | inl f ↦ elim (Bool-cases (contains (codes "filename=") v)) [
        | inl g ↦ rw (e, f, g) (inr ((λ h. not_both true refl h.2), refl))
        | inr g ↦
            rw (e, f, g)
              (inl (((λ h. not_both _ (ap is_empty h) e), text_eq→eq k disposition f, refl), refl))
      ]
    ]
  ]

  map-AllNamed : (k : Text) (va : List Text) → AllNamed name k va (map (with_name name k) va)
  map-AllNamed k [] = no_values
  map-AllNamed k (v ∷ va) = one_more (with_name-Named k v) (map-AllNamed k va)

  pub kept-Restores :
      (ignored : List Text) (hs : Headers) → Restores ignored name hs (kept ignored name hs)
  kept-Restores ignored [] = no_entries
  kept-Restores ignored ((k, va) ∷ hs) = elim (Bool-cases (listed ignored k)) [
    | inl e ↦ rw e (drops (listed_at ignored k e) (kept-Restores ignored hs))
    | inr e ↦ rw e (
        keeps (λ (i, h). not_both _ (listed_of ignored k i h) e) (map-AllNamed k va)
          (kept-Restores ignored hs))
  ]

  pub added-Adds : (ignored : List Text) (hs : Headers) → Adds name hs (added ignored name hs)
  added-Adds ignored hs = elim (Bool-cases (is_empty name)) [
    | inl e ↦ rw e (inr (inl (is_empty→eq name e), refl))
    | inr e ↦ elim (Bool-cases (has_disposition hs)) [
      | inl f ↦
          rw (e, f)
            (inr (inr (listed_at (keys hs) disposition (sym (disposition_listed hs) ∙ f)), refl))
      | inr f ↦
          rw (e, f)
            (inl (
              (λ h. not_both _ (ap is_empty h) e),
              (λ (i, h).
                  not_both _ (disposition_listed hs ∙ listed_of (keys hs) disposition i h) f),
              refl,
            ))
    ]
  ]
