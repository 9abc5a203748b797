-- ===== src/Tests/Fixtures.antt =====
-- Managers, tasks and attempts that the tests run on.
use downloadmgr.Prelude.{ℕ, true, false, List, [], ◌∷◌, Option, none, some, codes, pos, Text}
use downloadmgr.ArrayList.{list_array}
use downloadmgr.Task.{
  Task, TaskParams, TaskType, quick_task, normal_task, Response, new, no_fail, ChannelName,
  quick_channel, random_channel,
}
use downloadmgr.Channel.{DownloadChannel}
use downloadmgr.Channel.Check.{Progress}
use downloadmgr.Manager.{DownloadMgr}
use downloadmgr.Manager.Places.{retry_limit, worker_limit}
use downloadmgr.Manager.Download.{Attempt, returns}

abbrev pub params : TaskType → TaskParams
params kind = record {
  name_hash = codes "hash";
  folder_id = 1;
  save_path = codes " ./a ";
  target_url = codes "HTTP://h/a";
  task_type = kind;
  expire_time = pos 0;
  need_encrypt = false;
  size_limit = pos 0;
  on_success = true;
  on_fail = true;
  on_cancel = true;
  on_downloading = true;
  on_slow_speed = false;
}

-- A task of channel `n` that may start at `start` and has failed `fails` times.
abbrev pub task_of : TaskType → Option ChannelName → ℕ → ℕ → ℕ → Task
task_of kind n id start fails = record {
  id = id;
  name_hash = codes "hash";
  folder_id = 1;
  target_url = codes "http://h/a";
  save_path = codes "./a";
  task_type = kind;
  expire_time = pos 0;
  encrypt = false;
  size_limit = pos 100;
  response = none;
  status = new;
  fail_reason = no_fail;
  fail_times = fails;
  allow_start_time = start;
  can_resume = false;
  channel = n;
  on_success = true;
  on_fail = true;
  on_cancel = true;
  on_downloading = true;
  on_slow_speed = true;
  cancel_flag = false;
}

abbrev pub idle_channel : ChannelName → List ℕ → DownloadChannel (List ℕ)
idle_channel n refs = record {
  name = n;
  downloading_count_limit = worker_limit n;
  retry_times_limit = retry_limit n;
  idle_list = refs;
}

abbrev pub start_mgr : DownloadMgr (List ℕ)
start_mgr = record {
  current_id = 0;
  channel = λ n. idle_channel n [];
  ignore_header_map = [];
  task_map = [];
  tasks = λ _. task_of normal_task none 0 0 0;
  next_ref = 0;
  calls = [];
}

-- One task, which a worker of the random channel holds.
abbrev pub working_mgr : DownloadMgr (List ℕ)
working_mgr = record start_mgr {
  current_id = 1;
  task_map = (1, 0) ∷ [];
  tasks = λ _. task_of normal_task (some random_channel) 1 10 0;
  next_ref = 1;
}

-- The same when the task has used up its retries.
abbrev pub worn_mgr : DownloadMgr (List ℕ)
worn_mgr = record working_mgr {
  tasks = λ _. task_of normal_task (some random_channel) 1 10 (retry_limit random_channel);
}

-- The same in the quick channel.
abbrev pub quick_mgr : DownloadMgr (List ℕ)
quick_mgr = record working_mgr { tasks = λ _. task_of quick_task (some quick_channel) 1 10 0 }

abbrev pub progress : Progress
progress = record {
  bytes_complete = pos 50;
  duration = 400_000_000_000;
  speed_below = λ limit. true;
}

abbrev pub full_disk : Text
full_disk = codes "write ./a: no space left on device"

abbrev pub response_with : Option Text → Response
response_with e = record {
  has_http_response = true;
  complete = false;
  err = e;
  content_length = pos 50;
}

abbrev pub attempt_with : Option Text → Attempt
attempt_with e = record {
  request_ok = true;
  do_result = returns (some (response_with e));
  header_saved = true;
  ticks = record { now = 5000; progress = progress } ∷ [];
  stat = some (pos 50);
  now = 7000;
}
