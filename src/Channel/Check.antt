-- ===== src/Channel/Check.antt =====
-- channel.go: the functions checkDownloadingStateFunc that the init functions store. Each says
-- whether a download is to be broken off and why, and whether it calls onSlowSpeed.
pub mod Reasons
use downloadmgr.Prelude.{
  ℕ, ◌*◌, Bool, true, false, ◌&&◌, not, Option, none, some, ltb, ◌==◌, if◌then◌else◌, ℤ, pos, ltb_ℤ,
}
use downloadmgr.Task.{
  Task, BrokenType, no_broken, broken_expire, broken_size_limit, broken_no_speed, broken_pause,
  broken_low_speed, broken_cancel, ChannelName, pre_handle_channel, quick_channel, random_channel,
  unpause_fast_channel, unpause_slow_channel,
}

abbrev pub random_downloading_time_sec : ℕ
random_downloading_time_sec = 300

abbrev pub unpause_fast_channel_speed_limit : ℕ
unpause_fast_channel_speed_limit = 500 * 1024

abbrev pub slow_alert_time : ℕ
slow_alert_time = 200

abbrev pub slow_alert_speed : ℕ
slow_alert_speed = 100 * 1024

-- What a check reads of the running transfer. `duration` is in nanoseconds, as time.Duration, and
-- `speed_below k` is the outcome of the float test `BytesPerSecond() < k`.
pub record Progress : Type 0 where
  pub bytes_complete : ℤ
  pub duration : ℕ
  pub speed_below : ℕ → Bool

-- Duration().Seconds() > s
abbrev pub longer_than : ℕ → Progress → Bool
longer_than s p = ltb (s * 1_000_000_000) p.duration

-- The two results of the function, and whether onSlowSpeed was called.
pub record Verdict : Type 0 where
  pub need_broken : Bool
  pub broken_type : BrokenType
  pub slow_speed_called : Bool

abbrev pub go_on : Verdict
go_on = record { need_broken = false; broken_type = no_broken; slow_speed_called = false }

abbrev pub break_off : BrokenType → Verdict
break_off b = record { need_broken = true; broken_type = b; slow_speed_called = false }

abbrev pub over_size_limit : Task → Progress → Bool
over_size_limit t p = ltb_ℤ (pos 0) t.size_limit && ltb_ℤ t.size_limit p.bytes_complete

-- The deferred call of the random and the slow channel.
unfoldable pub alert_slow_speed : Task → Progress → Verdict → Verdict
alert_slow_speed t p v = record v {
  slow_speed_called =
      not v.need_broken
      && (t.on_slow_speed && (longer_than slow_alert_time p && p.speed_below slow_alert_speed));
}

-- `idle` is task.channel.idleSize(), `now_sec` is time.Now().Unix().
unfoldable pub check_quick : Task → ℕ → Progress → ℕ → Verdict
check_quick t idle p now_sec =
    if t.cancel_flag
    then break_off broken_cancel
    else if over_size_limit t p
    then break_off broken_size_limit
    else if ltb_ℤ t.expire_time (pos now_sec)
    then break_off broken_expire
    else if idle == 0
    then go_on
    else if longer_than 5 p && p.speed_below 1
    then break_off broken_no_speed
    else go_on

random_verdict : Task → ℕ → Progress → Verdict
random_verdict t idle p =
    if t.cancel_flag
    then break_off broken_cancel
    else if over_size_limit t p
    then break_off broken_size_limit
    else if idle == 0
    then go_on
    else if longer_than 5 p && p.speed_below 1
    then break_off broken_no_speed
    else if longer_than random_downloading_time_sec p
    then break_off broken_pause
    else go_on

unfoldable pub check_random : Task → ℕ → Progress → Verdict
unfolding random_verdict alert_slow_speed
check_random t idle p = alert_slow_speed t p (random_verdict t idle p)

unfoldable pub check_unpause_fast : ℕ → Task → Progress → Verdict
check_unpause_fast speed_limit_bps t p =
    if t.cancel_flag
    then break_off broken_cancel
    else if over_size_limit t p
    then break_off broken_size_limit
    else if longer_than 5 p && p.speed_below 1
    then break_off broken_no_speed
    else if longer_than 15 p && p.speed_below speed_limit_bps
    then break_off broken_low_speed
    else go_on

unpause_slow_verdict : Task → ℕ → Progress → Verdict
unpause_slow_verdict t idle p =
    if t.cancel_flag
    then break_off broken_cancel
    else if over_size_limit t p
    then break_off broken_size_limit
    else if idle == 0
    then go_on
    else if longer_than 15 p && p.speed_below 1
    then break_off broken_no_speed
    else go_on

unfoldable pub check_unpause_slow : Task → ℕ → Progress → Verdict
unfolding unpause_slow_verdict alert_slow_speed
check_unpause_slow t idle p = alert_slow_speed t p (unpause_slow_verdict t idle p)

-- The function of the named channel. The prehandle channel has none: there the field is nil.
unfoldable pub check_downloading_state : ChannelName → Task → ℕ → Progress → ℕ → Option Verdict
unfolding check_quick check_random check_unpause_fast check_unpause_slow
check_downloading_state pre_handle_channel t idle p now_sec = none
check_downloading_state quick_channel t idle p now_sec = some (check_quick t idle p now_sec)
check_downloading_state random_channel t idle p now_sec = some (check_random t idle p)
check_downloading_state unpause_fast_channel t idle p now_sec =
    some (check_unpause_fast unpause_fast_channel_speed_limit t p)
check_downloading_state unpause_slow_channel t idle p now_sec = some (check_unpause_slow t idle p)
