-- ===== src/Tests/Managers.antt =====
-- What one worker does with one task, at concrete managers.
use downloadmgr.Prelude.{◌↔◌, ◌⊎◌, ◌≡◌, refl, none, some, true, false, [], arith}
use downloadmgr.ArrayList.{list_array}
use downloadmgr.Task.{random_channel, broken_low_speed, fail_expire, fail_other}
use downloadmgr.Manager.{handle_broken_task, task_break_off, set_fail_reason}
use downloadmgr.Manager.Places.{IsSafe, Held, Settles}
use downloadmgr.Manager.Broken.{GoesTo, handle_broken_task-Settles}
use downloadmgr.Manager.Download.{start_download}
use downloadmgr.Manager.Download.Outcomes.{Agree, start_download_ignores_ticks}
use downloadmgr.Manager.Download.Retry.{
  IsQueuedAgain, IsFailed, task_break_off-IsQueuedAgain, task_break_off-IsFailed,
  start_download_error-IsQueuedAgain, start_download_error-IsFailed,
}
use downloadmgr.Manager.Classify.{
  Work, OriginResponse, copied_eof, check_origin_resume_support, run_task, work_on,
}
use downloadmgr.Manager.Classify.Settles.{work_on-Settles}
use downloadmgr.Manager.Classify.Expiry.{run_task_expired}
use downloadmgr.Manager.Classify.Routes.{IsSuccess, ShowsRanges, check_origin_resume_support_lem}
use downloadmgr.Manager.System.Start.{empty-Inv}
use downloadmgr.Tests.Fixtures.{
  working_mgr, worn_mgr, quick_mgr, attempt_with, response_with, full_disk,
}

working_mgr-IsSafe : IsSafe working_mgr
working_mgr-IsSafe = (empty-Inv working_mgr (λ n. refl) (λ n. (refl, refl)) refl).safe

working_mgr-Held : Held working_mgr random_channel 0
working_mgr-Held = record { out = refl; belongs = (refl, omega arith) }

abbrev origin : OriginResponse
origin = record { status_code = 206; accept_ranges = none; copied = copied_eof 1 }

abbrev some_work : Work
some_work = record {
  began = 4000;
  ended = 6000;
  url_ok = true;
  answer = some origin;
  attempt = attempt_with none;
}

handle_broken_task-Settles_example :
    let after = handle_broken_task random_channel working_mgr 5000 0 broken_low_speed in
    Settles working_mgr 0 after × GoesTo random_channel working_mgr 5000 0 broken_low_speed after
handle_broken_task-Settles_example =
    handle_broken_task-Settles random_channel working_mgr 5000 0 working_mgr-Held working_mgr-IsSafe
      broken_low_speed (λ e. cc)

work_on-Settles_example : Settles working_mgr 0 (work_on random_channel working_mgr 0 some_work)
work_on-Settles_example =
    work_on-Settles working_mgr 0 working_mgr-IsSafe random_channel some_work working_mgr-Held

start_download_ignores_ticks_example :
    Agree
      (start_download working_mgr 0 (attempt_with none))
      (start_download working_mgr 0 (record (attempt_with none) { ticks = [] }))
start_download_ignores_ticks_example =
    start_download_ignores_ticks random_channel 0 (λ e. cc) working_mgr (attempt_with none) [] refl

task_break_off-IsQueuedAgain_example :
    IsQueuedAgain working_mgr 7000 0 (task_break_off working_mgr 7000 0)
task_break_off-IsQueuedAgain_example =
    task_break_off-IsQueuedAgain working_mgr random_channel 7000 0 refl (omega arith)

task_break_off-IsFailed_example : IsFailed worn_mgr 0 (task_break_off worn_mgr 7000 0)
task_break_off-IsFailed_example =
    task_break_off-IsFailed worn_mgr random_channel 7000 0 refl (omega arith)

start_download_error-IsQueuedAgain_example :
    IsQueuedAgain working_mgr 7000 0 (start_download working_mgr 0 (attempt_with (some full_disk)))
start_download_error-IsQueuedAgain_example =
    start_download_error-IsQueuedAgain working_mgr random_channel 0 (attempt_with (some full_disk))
      (response_with (some full_disk)) full_disk refl refl refl refl refl refl (omega arith)

start_download_error-IsFailed_example :
    IsFailed
      (set_fail_reason worn_mgr 0 fail_other)
      0
      (start_download worn_mgr 0 (attempt_with (some full_disk)))
start_download_error-IsFailed_example =
    start_download_error-IsFailed worn_mgr random_channel 0 (attempt_with (some full_disk))
      (response_with (some full_disk)) full_disk refl refl refl refl refl refl (omega arith)

run_task_expired_example :
    IsFailed (set_fail_reason quick_mgr 0 fail_expire) 0 (run_task quick_mgr 0 some_work)
run_task_expired_example = run_task_expired quick_mgr 0 some_work refl refl (ground arith)

check_origin_resume_support_lem_example :
    ((check_origin_resume_support true (some origin) ≡ some true)
      ↔ ((true ≡ true) × IsSuccess origin × ShowsRanges origin))
    × ((check_origin_resume_support true (some origin) ≡ none)
        ↔ ((true ≡ false) ⊎ (¬ IsSuccess origin)))
check_origin_resume_support_lem_example = check_origin_resume_support_lem true origin
