-- ===== src/Grab/Names/Plain.antt =====
-- GuessFilename: the name never leads out of the folder that it is joined to.
use downloadmgr.Prelude.{
  ℕ, ◌≡◌, ◌≢◌, refl, arith, Bool, true, false, ◌||◌, List, [], ◌∷◌, Option, none, some, ◌==◌, Text,
  codes, text_eq, contains, ap, sym, ◌∙◌, subst, Bool-cases, inl, inr,
}
use downloadmgr.Grab.Names.{
  enter, is_empty, ends_with_slash, before, elements, parent, clean, base, sanitize, guess_filename,
}

-- No byte of the text is a slash or a NUL.
abbrev pub IsClear : Text → Type 0
IsClear [] = Unit {0}
IsClear (c ∷ s) = (c ≢ b'/') × (c ≢ 0) × IsClear s

abbrev HasNoNul : Text → Type 0
HasNoNul [] = Unit {0}
HasNoNul (c ∷ s) = (c ≢ 0) × HasNoNul s

-- One element of a path that is a proper name.
pub record IsPlain (s : Text) : Type 0 where
  pub clear : IsClear s
  pub filled : is_empty s ≡ false
  pub not_here : text_eq s (codes ".") ≡ false
  pub not_parent : text_eq s (codes "..") ≡ false

abbrev AllClear : List Text → Type 0
AllClear [] = Unit {0}
AllClear (e ∷ es) = IsClear e × AllClear es

abbrev AllPlain : List Text → Type 0
AllPlain [] = Unit {0}
AllPlain (e ∷ es) = IsPlain e × AllPlain es

no_nul : (s : Text) → contains (0 ∷ []) s ≡ false → HasNoNul s
no_nul [] h = tt
no_nul (c ∷ s) h = (ground (arith), no_nul s (ground arith))

slash_visible : ◌≢◌ {A = ℕ} b'/' 0
slash_visible = omega arith

some_inj : {s t : Text} → some s ≡ some t → s ≡ t
some_inj h = cc

not-none-some : (t : Text) → none ≡ some t → ⊥
not-none-some t h = cc

||-left : (a b : Bool) → (a || b) ≡ false → a ≡ false
||-left false b h = refl
||-left true b h = h

||-right : (a b : Bool) → (a || b) ≡ false → b ≡ false
||-right false b h = h
||-right true b h = cc

before-AllClear : (c : ℕ) (es : List Text) → c ≢ b'/' → c ≢ 0 → AllClear es → AllClear (before c es)
before-AllClear c [] a b h = ((a, b, tt), tt)
before-AllClear c (e ∷ es) a b h = ((a, b, h.0), h.1)

elements-AllClear : (s : Text) → HasNoNul s → AllClear (elements s)
unfolding elements
elements-AllClear [] h = (tt, tt)
elements-AllClear (c ∷ s) h = elim (Bool-cases (c == b'/')) [
  | inl e ↦ rw e (tt, elements-AllClear s h.1)
  | inr e ↦ rw e (before-AllClear c (elements s) (ground arith) h.0 (elements-AllClear s h.1))
]

parent-AllPlain : (es : List Text) → AllPlain es → AllPlain (parent es)
parent-AllPlain [] h = tt
parent-AllPlain (e ∷ es) h = h.1

enter-AllPlain :
    (above : List Text) (e : Text) → AllPlain above → IsClear e → AllPlain (enter above e)
enter-AllPlain above e h k = elim (Bool-cases (is_empty e || text_eq e (codes "."))) [
  | inl skip ↦ rw skip h
  | inr real ↦ elim (Bool-cases (text_eq e (codes ".."))) [
    | inl up ↦ rw (real, up) (parent-AllPlain above h)
    | inr down ↦
        rw (real, down)
          (
            record {
              clear = k;
              filled = ||-left _ _ real;
              not_here = ||-right _ _ real;
              not_parent = down;
            },
            h,
          )
  ]
]

clean-AllPlain : (above es : List Text) → AllPlain above → AllClear es → AllPlain (clean above es)
unfolding clean
clean-AllPlain above [] h k = h
clean-AllPlain above (e ∷ es) h k =
    clean-AllPlain (enter above e) es (enter-AllPlain above e h k.0) k.1

-- The name of a cleaned path is a slash or plain.
base-IsPlain :
    (es : List Text) (name : Text)
    → AllPlain es
    → base es ≡ name
    → text_eq name (codes "/") ≡ false
    → IsPlain name
base-IsPlain [] name h e other = absurd (ground (arith, ap (λ s. text_eq s (codes "/")) e))
base-IsPlain (x ∷ es) name h e other = subst IsPlain e h.0

sanitize-IsPlain : (filename name : Text) → sanitize filename ≡ some name → IsPlain name
unfolding sanitize
sanitize-IsPlain filename name h =
    let found = base (clean [] (elements (b'/' ∷ filename))) in
    elim (Bool-cases
      (is_empty filename || (ends_with_slash filename || contains (0 ∷ []) filename))) [
        | inl bad ↦ absurd (not-none-some _ (rw bad at h))
        | inr good ↦
            elim (Bool-cases
              (is_empty found || (text_eq found (codes ".") || text_eq found (codes "/")))) [
                | inl bad ↦ absurd (not-none-some _ (rw (good, bad) at h))
                | inr fine ↦
                    let e : found ≡ name = some_inj (rw (good, fine) at h) in
                    let clear : HasNoNul filename =
                      no_nul filename (||-right _ _ (||-right _ _ good)) in
                    base-IsPlain (clean [] (elements (b'/' ∷ filename))) name
                      (clean-AllPlain [] (elements (b'/' ∷ filename)) tt
                        (elements-AllClear (b'/' ∷ filename) (slash_visible, clear)))
                      e (ap (λ s. text_eq s (codes "/")) (sym e) ∙ ||-right _ _ (||-right _ _ fine))
              ]
      ]

-- Whatever the url's path, the Content-Disposition header and its filename are, a name that
-- GuessFilename returns is one proper element of a path: it is not empty, not "." and not "..", and
-- it holds no slash and no NUL byte.
pub guess_filename-IsPlain :
    (path disposition : Text) (param : Option Text) (name : Text)
    → guess_filename path disposition param ≡ some name
    → IsPlain name
unfolding guess_filename
guess_filename-IsPlain path disposition none name h = sanitize-IsPlain path name h
guess_filename-IsPlain path disposition (some val) name h =
    elim (Bool-cases (is_empty disposition)) [
      | inl e ↦ sanitize-IsPlain path name (rw e at h)
      | inr e ↦ sanitize-IsPlain val name (rw e at h)
    ]
