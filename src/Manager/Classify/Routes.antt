-- ===== src/Manager/Classify/Routes.antt =====
-- checkOriginResumeSupport and classify of downloadmgr.go: which channel a new task goes to.
use downloadmgr.Prelude.{
  ◌≡◌, ◌≤◌, ◌⊎◌, ◌↔◌, inl, inr, refl, true, false, Bool, ◌||◌, List, Option, some, none, arith,
  Bool-cases, Text, ℕ, zero, suc, [], ◌∷◌, get_elem?, codes, text_eq, ap, text_eq→eq, text_eq_refl,
}
use downloadmgr.Manager.Classify.{
  OriginResponse, CopyResult, copied_eof, copied_all, copied_error, check_origin_resume_support,
  has_bytes, accepts_bytes, one_byte,
}

-- The status is in the 200s.
abbrev pub IsSuccess : OriginResponse → Type 0
IsSuccess resp = (200 ≤ resp.status_code) × (resp.status_code ≤ 299)

-- The origin shows that it serves ranges: by a header, or by a body of the one byte asked for.
abbrev pub ShowsRanges : OriginResponse → Type 0
ShowsRanges resp =
    ((vs : List Text) × (resp.accept_ranges ≡ some vs)
      × ((i : ℕ) × (get_elem? vs i ≡ some (codes "bytes"))))
    ⊎ (resp.copied ≡ copied_eof 1)

-- The loop finds the value where it stands.
has_bytes_at :
    (vs : List Text) → has_bytes vs ≡ true → (i : ℕ) × (get_elem? vs i ≡ some (codes "bytes"))
has_bytes_at [] h = cc
has_bytes_at (v ∷ vs) h = elim (Bool-cases (text_eq v (codes "bytes"))) [
  | inl e ↦ (0, ap some (text_eq→eq v (codes "bytes") e))
  | inr e ↦ let (i, at) = has_bytes_at vs (rw e at h) in (suc i, at)
]

has_bytes_of :
    (vs : List Text) (i : ℕ) → get_elem? vs i ≡ some (codes "bytes") → has_bytes vs ≡ true
has_bytes_of [] i h = cc
has_bytes_of (v ∷ vs) zero h =
    let same : v ≡ codes "bytes" = ground (arith, h) in rw (same, text_eq_refl (codes "bytes")) refl
has_bytes_of (v ∷ vs) (suc i) h = ground (arith, has_bytes_of vs i h)

one_byte_iff : (c : CopyResult) → (one_byte c ≡ true) ↔ (c ≡ copied_eof 1)
one_byte_iff copied_all = (λ h. cc, λ h. cc)
one_byte_iff (copied_eof n) = (λ h. ground arith, λ h. ground arith)
one_byte_iff (copied_error n) = (λ h. cc, λ h. cc)

shown :
    (ranges : Option (List Text)) (copied : CopyResult)
    → ((accepts_bytes ranges || one_byte copied) ≡ true) ↔ (
        ((vs : List Text) × (ranges ≡ some vs)
          × ((i : ℕ) × (get_elem? vs i ≡ some (codes "bytes"))))
        ⊎ (copied ≡ copied_eof 1))
shown none copied_all = (λ h. cc, λ h. ground arith)
shown none (copied_eof n) = (λ h. inr (ground arith), λ h. ground arith)
shown none (copied_error n) = (λ h. cc, λ h. ground arith)
shown (some vs) copied = elim (Bool-cases (has_bytes vs)) [
  | inl e ↦ (λ h. inl (vs, refl, has_bytes_at vs e), λ h. rw e refl)
  | inr e ↦ (
    λ h. inr ((one_byte_iff copied).0 (rw e at h)),
    λ h. elim h [
      | inl (us, p, at) ↦ absurd (ground (arith, e, p, has_bytes_of us at.0 at.1))
      | inr p ↦ rw e ((one_byte_iff copied).1 p)
    ],
  )
]

-- When the origin answers the request, checkOriginResumeSupport returns an error exactly when the
-- url does not parse or the status is not in the 200s, and true exactly when the url parses, the
-- status is in the 200s, and a value of the Accept-Ranges header is "bytes" or the body is one byte
-- long.
pub check_origin_resume_support_lem :
    (url_ok : Bool) (resp : OriginResponse)
    → ((check_origin_resume_support url_ok (some resp) ≡ some true)
        ↔ ((url_ok ≡ true) × IsSuccess resp × ShowsRanges resp))
      × ((check_origin_resume_support url_ok (some resp) ≡ none)
          ↔ ((url_ok ≡ false) ⊎ (¬ IsSuccess resp)))
unfolding check_origin_resume_support
check_origin_resume_support_lem url_ok resp =
    let s = shown resp.accept_ranges resp.copied in
    (
      (λ h. (ground arith, ground arith, s.0 (ground arith)), λ (a, b, c). ground (arith, s.1 c)),
      (λ h. ground arith, λ h. ground arith),
    )
