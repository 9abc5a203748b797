-- ===== src/Tests/Sizes.antt =====
-- Size, Progress and Cancel at a concrete origin.
use native.Mathlib.Nat.{div_self}
use downloadmgr.Prelude.{ℕ, ◌<◌, ◌/◌, ◌≡◌, ◌⊎◌, refl, arith, true, false, some, ℤ, pos, pos_part}
use downloadmgr.Grab.Errors.{context_error}
use downloadmgr.Grab.Response.{Response, progress, bytes_complete, err_of, cancel_response}
use downloadmgr.Grab.Client.{copy_file, stop, is_none}
use downloadmgr.Grab.Client.Machine.{returned, new_response, round, download}
use downloadmgr.Grab.Client.Stored.{IsKept}
use downloadmgr.Grab.Client.Sized.Progress.{
  FitsSize, Miscounted, download-FitsSize, download-progress, cancel_response-round,
}
use downloadmgr.Tests.Grabs.{plus_one, join, client, request, world, world-IsUsual}

download-FitsSize_example :
    (r : Response) × (download plus_one join client world 0 request ≡ returned r)
    × ((is_none r.err ≡ false)
        ⊎ (IsKept world r ⊎ FitsSize plus_one join client world world-IsUsual request r))
download-FitsSize_example =
    download-FitsSize plus_one join client world world-IsUsual 0 request refl
      ((omega arith, λ e. refl), tt)

-- The quotient, rounded down.
abbrev ratio : ℤ → ℤ → ℕ
ratio a b = pos_part a / pos_part b

ratio_whole : (n : ℕ) → 0 < n → ratio (pos n) (pos n) ≡ 1
ratio_whole n h = div_self h

download-progress_example :
    (r : Response) × (download plus_one join client world 0 request ≡ returned r)
    × ((is_none r.err ≡ false)
        ⊎ (IsKept world r
            ⊎ ((progress 0 ratio r ≡ 1)
                ⊎ ((bytes_complete r ≡ 0)
                    ⊎ Miscounted plus_one join client world world-IsUsual 0 1 ratio ratio_whole
                        r))))
download-progress_example =
    download-progress plus_one join client world world-IsUsual 0 1 ratio ratio_whole 0 request refl
      ((omega arith, λ e. refl), tt)

-- Cancel while the copy is to come.
abbrev waiting_copy : Response
waiting_copy = new_response client request 0

cancel_response-round_example :
    let (r', next) =
      round plus_one join client (world 0) copy_file (cancel_response waiting_copy).0 in
    (next ≡ stop) × (r'.done ≡ true) × (err_of r' ≡ some (some context_error))
cancel_response-round_example =
    cancel_response-round plus_one join client (world 0) copy_file waiting_copy refl
