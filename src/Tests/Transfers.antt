-- ===== src/Tests/Transfers.antt =====
-- The copy loop at concrete rounds.
use downloadmgr.Prelude.{
  ℕ, ◌≡◌, ◌++◌, ◌+◌, ◌%◌, refl, List, [], ◌∷◌, map, Option, none, some, arith, true, false,
}
use downloadmgr.Transfer.{Round, new_transfer, copy, eof, ReadError}
use downloadmgr.Transfer.Copy.{AllHonest, Counts, body, copy-Counts, copy_complete, copy_ends}

abbrev shift : List ℕ → List ℕ
shift = map (λ b. (b + 1) % 256)

abbrev full_round : List ℕ → Option ReadError → ℕ → Round
full_round chunk e taken = record {
  context_is_done = false;
  chunk = chunk;
  read_error = e;
  taken = taken;
  write_error = none;
}

-- Two chunks, the second together with the end.
abbrev rounds : List Round
rounds = full_round (7 ∷ 255 ∷ []) none 2 ∷ full_round (9 ∷ []) (some eof) 1 ∷ []

rounds-AllHonest : AllHonest shift true rounds
rounds-AllHonest = ((omega arith, λ e. refl), ((omega arith, λ e. refl), tt))

copied : (copy shift (new_transfer true) rounds).0.out ≡ 8 ∷ 0 ∷ 10 ∷ []
unfolding copy
copied = refl

ended_well : (copy shift (new_transfer true) rounds).1 ≡ some none
unfolding copy
ended_well = refl

copy-Counts_example : Counts true (copy shift (new_transfer true) rounds).0
copy-Counts_example =
    copy-Counts shift true (new_transfer true) rounds rounds-AllHonest
      (record { mode = refl; counted = refl; shown = refl })

copy_ends_example : (copy shift (new_transfer true) rounds).1 ≡ some none
copy_ends_example =
    copy_ends shift true (new_transfer true) rounds
      ((refl, refl, refl), refl, ((refl, refl, refl), refl))

copy_complete_example : (copy shift (new_transfer true) rounds).0.out ≡ [] ++ body shift true rounds
copy_complete_example =
    copy_complete shift true (new_transfer true) rounds rounds-AllHonest refl ended_well
