-- ===== src/Clock.antt =====
-- src/utils/time_util.h: the wall clock.
use bitchat_meshtastic.Prelude.{ℕ, ◌+◌, ◌*◌, ◌/◌, ltb, leb, if◌then◌else◌, Bool, Option, none, some}

-- 2020-01-01
abbrev pub first_second : ℕ
first_second = 1577836800

-- `clock` is `tv_sec` of `gettimeofday`, `usec` is its `tv_usec`, and `now` is `millis()`.
abbrev pub time_is_synced : ℕ → Bool
time_is_synced clock = leb first_second clock

unfoldable pub bitchat_epoch_ms : ℕ → ℕ → ℕ → ℕ
bitchat_epoch_ms clock usec now = if ltb clock first_second then now else clock * 1000 + usec / 1000

-- The seconds that the clock is set to.
unfoldable pub time_sync_from_epoch : ℕ → ℕ → Option ℕ
time_sync_from_epoch clock unix_seconds =
    if time_is_synced clock
    then none
    else if ltb unix_seconds first_second
    then none
    else some unix_seconds
