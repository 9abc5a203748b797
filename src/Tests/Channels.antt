-- ===== src/Tests/Channels.antt =====
-- The channel's operations at concrete lists.
use downloadmgr.Prelude.{ℕ, false, ◌≡◌, refl, List, [], ◌∷◌, some, arith, ◌*◌, remove_at}
use downloadmgr.ArrayList.{list_array}
use downloadmgr.Task.{normal_task, random_channel, unpause_fast_channel, broken_pause}
use downloadmgr.Channel.{
  DownloadChannel, scan_back, push_task_to_idle_list, scan_ready, pop_random_task,
  pop_task_form_idle_list,
}
use downloadmgr.Channel.Order.{IsSorted, insert_stable, push-insert_stable}
use downloadmgr.Channel.Pop.{Pops, pop-Pops, pop_random_any}
use downloadmgr.Channel.Check.{check_downloading_state, break_off}
use downloadmgr.Channel.Check.Reasons.{IsSound, check-IsSound}
use downloadmgr.Tests.Fixtures.{idle_channel, task_of, progress}

-- Task r may start at 10 r.
abbrev tens : ℕ → ℕ
tens r = 10 * r

abbrev filled : DownloadChannel (List ℕ)
filled = idle_channel random_channel (1 ∷ 3 ∷ 4 ∷ [])

push_in_order : (push_task_to_idle_list tens 2 filled).idle_list ≡ 1 ∷ 2 ∷ 3 ∷ 4 ∷ []
unfolding push_task_to_idle_list scan_back
push_in_order = refl

-- At time 35 the tasks 1 and 3 may start; a random number 5 takes the one at index 1.
pop_one : pop_random_task tens 35 5 filled ≡ some (3, idle_channel random_channel (1 ∷ 4 ∷ []))
unfolding pop_random_task scan_ready
pop_one = refl

push-insert_stable_example :
    let after = (push_task_to_idle_list tens 2 filled).idle_list in
    (after ≡ insert_stable tens 2 (1 ∷ 3 ∷ 4 ∷ [])) × IsSorted tens after
push-insert_stable_example = push-insert_stable tens 2 filled (omega arith)

pop-Pops_example :
    Pops tens 35
      (1 ∷ 3 ∷ 4 ∷ [])
      filled
      (pop_task_form_idle_list tens unpause_fast_channel 35 5 filled)
pop-Pops_example = pop-Pops tens unpause_fast_channel 35 5 filled (omega arith)

pop_random_any_example :
    (rnd : ℕ) × (pop_random_task tens 35 rnd filled
      ≡ some (3, record filled { idle_list = remove_at 1 filled.idle_list }))
pop_random_any_example = pop_random_any tens 35 1 filled {r = 3} (omega arith) refl (omega arith)

check-IsSound_example :
    IsSound random_channel
      (task_of normal_task (some random_channel) 1 0 0)
      1
      (record progress { speed_below = λ limit. false })
      9
      (break_off broken_pause)
unfolding check_downloading_state
check-IsSound_example =
    check-IsSound random_channel (task_of normal_task (some random_channel) 1 0 0) 1
      (record progress { speed_below = λ limit. false }) 9 (break_off broken_pause) refl
