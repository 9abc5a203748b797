-- ===== src/Channel/Check/Reasons.antt =====
-- channel.go: why each channel breaks a download off, stated apart from the order of the tests.
use downloadmgr.Prelude.{ℕ, ◌*◌, ◌<◌, ◌≡◌, ◌≢◌, true, false, some, arith, pos, ◌<ℤ◌, ◌⊎◌, ◌↔◌}
use downloadmgr.Task.{
  Task, BrokenType, no_broken, broken_expire, broken_size_limit, broken_no_speed, broken_pause,
  broken_low_speed, broken_cancel, ChannelName, pre_handle_channel, quick_channel, random_channel,
  unpause_fast_channel, unpause_slow_channel,
}
use downloadmgr.Channel.Check.{Progress, Verdict, check_downloading_state}

abbrev second : ℕ
second = 1_000_000_000

-- The seconds without a byte after which a channel gives a download up.
abbrev patience : ChannelName → ℕ
patience unpause_slow_channel = 15
patience _ = 5

-- What must hold for channel `n` to break off the download of `t` for the given reason.
abbrev pub Reason : ChannelName → Task → ℕ → Progress → ℕ → BrokenType → Type 0
Reason n t idle p now no_broken = Unit {0}
Reason n t idle p now broken_cancel = t.cancel_flag ≡ true
Reason n t idle p now broken_size_limit =
    (pos 0 <ℤ t.size_limit) × (t.size_limit <ℤ p.bytes_complete)
Reason n t idle p now broken_expire = (n ≡ quick_channel) × (t.expire_time <ℤ pos now)
Reason n t idle p now broken_no_speed =
    (patience n * second < p.duration)
    × (p.speed_below 1 ≡ true)
    × ((n ≡ unpause_fast_channel) ⊎ (idle ≢ 0))
Reason n t idle p now broken_pause = (n ≡ random_channel) × (300 * second < p.duration) × (idle ≢ 0)
Reason n t idle p now broken_low_speed =
    (n ≡ unpause_fast_channel) × (15 * second < p.duration) × (p.speed_below (500 * 1024) ≡ true)

-- A reason holds, or the download goes on and none does.
abbrev pub Justified : ChannelName → Task → ℕ → Progress → ℕ → BrokenType → Type 0
Justified n t idle p now no_broken =
    ¬ Reason n t idle p now broken_cancel
    × ¬ Reason n t idle p now broken_size_limit
    × ¬ Reason n t idle p now broken_expire
    × ¬ Reason n t idle p now broken_no_speed
    × ¬ Reason n t idle p now broken_pause
    × ¬ Reason n t idle p now broken_low_speed
Justified n t idle p now b = Reason n t idle p now b

-- The download is slow, and it is one of the channels that tell the caller so.
abbrev pub Alerts : ChannelName → Task → Progress → Type 0
Alerts n t p =
    ((n ≡ random_channel) ⊎ (n ≡ unpause_slow_channel))
    × (t.on_slow_speed ≡ true)
    × (200 * second < p.duration)
    × (p.speed_below (100 * 1024) ≡ true)

-- Whether the download is broken off agrees with the reason, and when onSlowSpeed is called.
pub record IsSound (n : ChannelName) (t : Task) (idle : ℕ) (p : Progress) (now : ℕ) (v : Verdict)
    : Type 0 where
  pub justified : Justified n t idle p now v.broken_type
  pub breaks : (v.need_broken ≡ true) ↔ (v.broken_type ≢ no_broken)
  pub alert : (v.slow_speed_called ≡ true) ↔ ((v.need_broken ≡ false) × Alerts n t p)

-- Whatever a channel's check answers about a running download is justified. It breaks the download
-- off exactly when it names a reason, and the reason then holds of the task and of the transfer: a
-- set cancel flag; more bytes than a size limit that is above 0; in the quick channel only, an expire
-- time that is over; no speed for longer than 5 s, or 15 s in the slow channel, while other tasks
-- wait, or in the fast channel in any case; in the random channel only, more than 300 s while other
-- tasks wait; in the fast channel only, a speed below 500 KB/s after 15 s. It lets the download go on
-- only when none of these reasons holds. It calls onSlowSpeed exactly when the download goes on, the
-- channel is the random or the slow one, the callback is set, and the speed is below 100 KB/s after
-- 200 s.
pub check-IsSound :
    (n : ChannelName) (t : Task) (idle : ℕ) (p : Progress) (now : ℕ) (v : Verdict)
    → check_downloading_state n t idle p now ≡ some v
    → IsSound n t idle p now v
unfolding check_downloading_state
check-IsSound pre_handle_channel t idle p now v e = cc
check-IsSound quick_channel t idle p now v e = ground arith
check-IsSound random_channel t idle p now v e = ground arith
check-IsSound unpause_fast_channel t idle p now v e = ground arith
check-IsSound unpause_slow_channel t idle p now v e = ground arith
