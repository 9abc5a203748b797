-- ===== src/Task.antt =====
-- task.go: the task's data, its construction and CancelDownload. A task is shared between the task
-- map, the idle lists and the workers; what these hold is its reference, and Manager keeps the
-- store from references to these records.
use downloadmgr.Prelude.{ℕ, Bool, true, false, Option, none, ℤ, Text}

pub data TaskStatus : Type 0 where
  new pause downloading success fail : TaskStatus

pub data FailReasonType : Type 0 where
  no_fail fail_no_space fail_expire fail_size_limit fail_request_error fail_other : FailReasonType

pub data TaskType : Type 0 where
  quick_task normal_task : TaskType

pub data BrokenType : Type 0 where
  no_broken broken_expire broken_size_limit broken_no_speed broken_pause : BrokenType
  broken_low_speed broken_cancel : BrokenType

-- The names of the channels, which are also the keys of the manager's map.
pub data ChannelName : Type 0 where
  pre_handle_channel quick_channel random_channel : ChannelName
  unpause_fast_channel unpause_slow_channel : ChannelName

-- What a task reads of a `*grab.Response`: whether the HTTP response is there, the error that
-- the transfer ends with, and parts of the HTTP response.
pub record Response : Type 0 where
  pub has_http_response : Bool
  pub complete : Bool
  pub err : Option Text
  pub content_length : ℤ

-- `on_…` says whether the callback is not nil. Times are milliseconds, `expire_time` is seconds.
pub record Task : Type 0 where
  pub id : ℕ
  pub name_hash : Text
  pub folder_id : ℕ
  pub target_url : Text
  pub save_path : Text
  pub task_type : TaskType
  pub expire_time : ℤ
  pub encrypt : Bool
  pub size_limit : ℤ
  pub response : Option Response
  pub status : TaskStatus
  pub fail_reason : FailReasonType
  pub fail_times : ℕ
  pub allow_start_time : ℕ
  pub can_resume : Bool
  pub channel : Option ChannelName
  pub on_success : Bool
  pub on_fail : Bool
  pub on_cancel : Bool
  pub on_downloading : Bool
  pub on_slow_speed : Bool
  pub cancel_flag : Bool

-- What the caller of an Add…DownloadTask method hands over.
pub record TaskParams : Type 0 where
  pub name_hash : Text
  pub folder_id : ℕ
  pub save_path : Text
  pub target_url : Text
  pub task_type : TaskType
  pub expire_time : ℤ
  pub need_encrypt : Bool
  pub size_limit : ℤ
  pub on_success : Bool
  pub on_fail : Bool
  pub on_cancel : Bool
  pub on_downloading : Bool
  pub on_slow_speed : Bool

-- `now` is time.Now().UnixMilli(). Fields that the literal leaves out are Go's zero values.
unfoldable pub new_task : ℕ → ℕ → TaskParams → Task
new_task now id p = record {
  id = id;
  name_hash = p.name_hash;
  folder_id = p.folder_id;
  target_url = p.target_url;
  save_path = p.save_path;
  task_type = p.task_type;
  expire_time = p.expire_time;
  encrypt = p.need_encrypt;
  size_limit = p.size_limit;
  response = none;
  status = new;
  fail_reason = no_fail;
  fail_times = 0;
  allow_start_time = now;
  can_resume = false;
  channel = none;
  on_success = p.on_success;
  on_fail = p.on_fail;
  on_cancel = p.on_cancel;
  on_downloading = p.on_downloading;
  on_slow_speed = p.on_slow_speed;
  cancel_flag = false;
}

unfoldable pub cancel_download : Task → Task
cancel_download t = record t { cancel_flag = true }
