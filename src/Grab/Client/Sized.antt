-- ===== src/Grab/Client/Sized.antt =====
-- grab/client.go: the size that a download announces, and the one that it ends with.
pub mod Asking
pub mod Copying
pub mod Ends
pub mod Progress
use downloadmgr.Prelude.{
  ℕ, ◌+◌, ◌≡◌, ◌⊎◌, inl, inr, refl, arith, Bool, true, false, ◌&&◌, not, Option, none, some,
  if◌then◌else◌, ℤ, pos, ◌+ℤ◌, leb_ℤ, ltb_ℤ, eqb_ℤ,
}
use downloadmgr.Transfer.{Transfer}
use downloadmgr.Grab.Errors.{GrabError}
use downloadmgr.Grab.Response.{HttpResponse, Response}
use downloadmgr.Grab.Client.{
  StateFunc, stat_file_info, validate_local, head_request, get_request, read_response, open_writer,
  copy_file, close_response, Next, check, is_none,
}
use downloadmgr.Grab.Client.Writing.{wrong_size, total_size}
use downloadmgr.Grab.Client.Invariant.{Kept}

-- The size of a transfer that has brought so many bytes behind the ones that it resumed at: as the
-- origin has announced it, or as it turned out.
abbrev pub final_size : HttpResponse → ℕ → ℕ → ℤ
final_size h resumed brought =
    if leb_ℤ (pos 0) h.content_length
    then h.content_length +ℤ pos resumed
    else pos (resumed + brought)

-- The size follows from the headers, and fits the one that the request asks for if it is known.
pub record IsAnnounced (r : Response) : Type 0 where
  pub header : HttpResponse
  pub answer : r.http_response ≡ some header
  pub announced : r.size ≡ total_size r header
  pub fits_if_known : (leb_ℤ (pos 0) header.content_length && wrong_size r.request r.size) ≡ false

-- The size after the copy.
pub record IsSized (r : Response) : Type 0 where
  pub header : HttpResponse
  pub transfer : Transfer
  pub answer : r.http_response ≡ some header
  pub copied : r.transfer ≡ some transfer
  pub known : r.size ≡ final_size header r.bytes_resumed transfer.written
  pub fits : wrong_size r.request r.size ≡ false

-- How a download ends: with an error, without a copy, or with a size that fits.
abbrev pub Outcome : Response → Type 0
Outcome r = (is_none r.err ≡ false) ⊎ ((r.transfer ≡ none) ⊎ IsSized r)

-- The request asks for the size `wanted`.
module _ (wanted : ℤ) where
  pub record IsOpen (r : Response) : Type 0 where
    pub same_size : r.request.size ≡ wanted
    pub unfinished : r.done ≡ false

  abbrev pub Fresh : Response → Type 0
  Fresh r = IsOpen r × (r.transfer ≡ none)

  abbrev pub Closed : Response → Type 0
  Closed r = (r.request.size ≡ wanted) × (r.done ≡ true) × Outcome r

  -- What holds when a state function is called.
  abbrev pub At : StateFunc → Response → Type 0
  At open_writer r = IsOpen r × IsAnnounced r
  At copy_file r = (IsOpen r × IsAnnounced r) ⊎ Closed r
  At close_response r = IsOpen r × Outcome r
  At _ r = Fresh r

  abbrev pub Keeps : Response × Next → Type 0
  Keeps = Kept At

  pub check-Keeps :
      (o : Option GrabError) (r : Response) (rest : Response → Response × Next)
      → IsOpen r
      → Keeps (rest (record r { err = none }))
      → Keeps (check o r rest)
  check-Keeps (some e) r rest h k =
      (record { same_size = h.same_size; unfinished = h.unfinished }, inl refl)
  check-Keeps none r rest h k = k
