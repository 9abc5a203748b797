-- ===== src/Tests/Systems.antt =====
-- The running program at a concrete interleaving.
use downloadmgr.Prelude.{
  ℕ, pos, ◌+◌, ◌≤◌, ◌≡◌, refl, none, some, true, List, [], ◌∷◌, arith, if◌then◌else◌, ◌==◌, trim,
  to_lower,
}
use downloadmgr.ArrayList.{list_array}
use downloadmgr.Task.{quick_task, normal_task, quick_channel, pre_handle_channel}
use downloadmgr.Channel.{push_task_to_idle_list, scan_back}
use downloadmgr.Manager.{DownloadMgr}
use downloadmgr.Manager.Places.{endings}
use downloadmgr.Manager.Add.{get_task_info, new_download_mgr, add_download_task, task}
use downloadmgr.Manager.Add.Accepts.{IsAccepted, add_download_task-IsAccepted}
use downloadmgr.Manager.Classify.{Work}
use downloadmgr.Manager.Download.{do_panics}
use downloadmgr.Manager.System.{System, Event, adds, pushes, cancels, polls, works, run}
use downloadmgr.Manager.System.Inv.{Inv}
use downloadmgr.Manager.System.Steps.{run-Inv}
use downloadmgr.Manager.System.Map.{MapInv, live, kept}
use downloadmgr.Manager.System.Lookup.{get_task_info-run, get_task_info-ended}
use downloadmgr.Manager.System.Start.{empty-Inv, empty-MapInv, new_download_mgr-Inv}
use downloadmgr.Manager.System.Cancelled.{IsStopped, StaysStopped, run-StaysStopped}
use downloadmgr.Manager.System.Bounded.{finished, left, left-run}
use downloadmgr.Manager.Lifecycle.{queued, Lives, IsOffSlow}
use downloadmgr.Manager.System.Status.{status}
use downloadmgr.Manager.System.Lifecycle.{run-Lives}
use downloadmgr.Tests.Fixtures.{start_mgr, params, task_of, attempt_with}

abbrev start : System (List ℕ)
start = record { dm = start_mgr; held = []; adding = [] }

abbrev done_work : Work
done_work = record {
  began = 9000;
  ended = 9000;
  url_ok = true;
  answer = none;
  attempt = attempt_with none;
}

-- Two tasks are stored, then pushed, the first before the second; a quick worker takes the first; a caller cancels it; the worker is done.
abbrev events : List Event
events =
    adds 1000 (params quick_task)
    ∷ adds 2000 (params normal_task)
    ∷ pushes 1
    ∷ pushes 0
    ∷ polls quick_channel 3000 7
    ∷ cancels 0
    ∷ works 0 done_work
    ∷ []

start-Inv : Inv start
start-Inv = empty-Inv start_mgr (λ n. refl) (λ n. (refl, refl)) refl

start-MapInv : MapInv start
start-MapInv = empty-MapInv start_mgr (λ n. refl) refl refl refl refl

run-Inv_example : Inv (run start events)
run-Inv_example = run-Inv start events start-Inv

two_made : (run start events).dm.next_ref ≡ 2
unfolding run push_task_to_idle_list scan_back
two_made = refl

-- The cancelled task has been forgotten, the other one is queued.
cancelled_gone : get_task_info (run start events).dm 1 ≡ none
unfolding run get_task_info push_task_to_idle_list scan_back
cancelled_gone = refl

other_there : get_task_info (run start events).dm 2 ≡ some 1
unfolding run get_task_info push_task_to_idle_list scan_back
other_there = refl

-- client.Do panics in the first attempt.
abbrev lost_work : Work
lost_work = record done_work { attempt = record (attempt_with none) { do_result = do_panics } }

abbrev lost_events : List Event
lost_events =
    adds 1000 (record (params quick_task) { expire_time = pos 50 })
    ∷ pushes 0
    ∷ polls quick_channel 3000 7
    ∷ works 0 lost_work
    ∷ works 0 lost_work
    ∷ works 0 lost_work
    ∷ []

lost_made : (run start lost_events).dm.next_ref ≡ 1
unfolding run push_task_to_idle_list scan_back
lost_made = refl

-- The task is in no list and with no worker, and the manager still has it.
lost_stays :
    (live 0 (run start lost_events) ≡ 0) × (get_task_info (run start lost_events).dm 1 ≡ some 0)
unfolding run get_task_info push_task_to_idle_list scan_back
lost_stays = (refl, refl)

get_task_info-run_example :
    get_task_info (run start lost_events).dm ((run start lost_events).dm.tasks 0).id
    ≡ (if kept 0 (run start lost_events) == 0 then none else some 0)
get_task_info-run_example =
    get_task_info-run start lost_events 0 (omega arith) start-Inv start-MapInv
      (omega (arith, lost_made))

new_download_mgr-Inv_example :
    (dm : DownloadMgr (List ℕ)) × (new_download_mgr (task_of normal_task none 0 0 0) ≡ some dm)
    × Inv (record { dm = dm; held = []; adding = [] })
    × MapInv (record { dm = dm; held = []; adding = [] })
new_download_mgr-Inv_example = new_download_mgr-Inv (task_of normal_task none 0 0 0)

cancelled_once : endings 0 (run start events).dm.calls ≡ 1
unfolding run push_task_to_idle_list scan_back
cancelled_once = refl

get_task_info-ended_example :
    (endings 0 (run start events).dm.calls ≡ 1)
    × (live 0 (run start events) ≡ 0)
    × (get_task_info (run start events).dm ((run start events).dm.tasks 0).id ≡ none)
get_task_info-ended_example =
    get_task_info-ended start events 0 (omega arith) start-Inv start-MapInv
      (omega (arith, two_made)) (omega (arith, cancelled_once))

add_download_task-IsAccepted_example :
    let added = add_download_task start_mgr 1000 (params quick_task) in
    (added.1 ≡ task 0) × IsAccepted start_mgr 1000 (params quick_task) 0 added.0
unfolding trim to_lower
add_download_task-IsAccepted_example =
    add_download_task-IsAccepted start_mgr 1000 (params quick_task) refl

-- A quick worker has taken the first task, and a caller cancels it; no worker is at client.Do.
abbrev cancelled : System (List ℕ)
cancelled =
    run start
      (adds 1000 (params quick_task) ∷ pushes 0 ∷ polls quick_channel 3000 7 ∷ cancels 0 ∷ [])

-- With the first task in a worker's hands.
abbrev one_taken : System (List ℕ)
one_taken = run start (adds 1000 (params quick_task) ∷ pushes 0 ∷ polls quick_channel 3000 7 ∷ [])

one_taken_made : one_taken.dm.next_ref ≡ 1
unfolding run push_task_to_idle_list scan_back
one_taken_made = refl

cancelled-IsStopped : IsStopped 0 cancelled
unfolding run push_task_to_idle_list scan_back
cancelled-IsStopped = record { made = omega arith; flagged = refl; unrequested = (λ e. cc, tt) }

run-StaysStopped_example :
    StaysStopped 0 cancelled (run cancelled (works 0 done_work ∷ works 0 done_work ∷ []))
run-StaysStopped_example =
    run-StaysStopped 0 cancelled (works 0 done_work ∷ works 0 done_work ∷ [])
      (run-Inv start _ start-Inv) cancelled-IsStopped

left-run_example :
    (finished 0 one_taken (works 0 done_work ∷ []) + left 0 (run one_taken (works 0 done_work ∷ []))
      ≤ left 0 one_taken)
    × (left 0 one_taken ≤ 8)
left-run_example =
    left-run 0 one_taken (works 0 done_work ∷ []) (run-Inv start _ start-Inv)
      (omega (arith, one_taken_made))

run-Lives_example :
    Lives (status 1 start) (status 1 (run start events)) × IsOffSlow (status 1 (run start events))
run-Lives_example = run-Lives 1 start events start-Inv tt

-- The second task of the events waits to be classified.
waits_to_classify : status 1 (run start events) ≡ queued (some pre_handle_channel)
unfolding run push_task_to_idle_list scan_back
waits_to_classify = refl
