-- ===== src/Limiter.antt =====
-- internal/auth/ratelimit.go: the limiter of failed sign-ins. The map of windows is a function from
-- keys; the mutex makes each method one step.
pub mod Sweeps
pub mod Lockout
use yaadegar.Base.{String, Bool, true, ◌==◌, Option, none, some, if◌then◌else◌}
use yaadegar.Base.Int.{ℤ, pos, ◌+ℤ◌, ltb_ℤ, leb_ℤ}
use yaadegar.Base.Int64.{add64, sub_time}
use yaadegar.Storage.{Time, Duration}

pub record FailureWindow : Type 0 where
  pub failures : ℤ
  pub window_end : Time

abbrev pub Entries : Type 0
Entries = String → Option FailureWindow

pub record InMemoryLimiter : Type 0 where
  pub max_failures : ℤ
  pub window : Duration
  pub entries : Entries
  pub last_sweep : Time

-- `!ok || now.After(e.windowEnd)`
abbrev pub lapsed : Time → Option FailureWindow → Bool
lapsed now none = true
lapsed now (some e) = ltb_ℤ e.window_end now

abbrev pub allowed : ℤ → Time → Option FailureWindow → Bool
allowed max now none = true
allowed max now (some e) = if ltb_ℤ e.window_end now then true else ltb_ℤ e.failures max

unfoldable pub allow : InMemoryLimiter → Time → String → Bool
allow l now key =
    if leb_ℤ l.max_failures (pos 0) then true else allowed l.max_failures now (l.entries key)

-- The window that a failure falls into, a fresh one if none is active.
abbrev pub opened : Duration → Time → Option FailureWindow → FailureWindow
opened window now none = record { failures = pos 0; window_end = now +ℤ window }
opened window now (some e) =
    if ltb_ℤ e.window_end now then record { failures = pos 0; window_end = now +ℤ window } else e

abbrev pub bump : FailureWindow → FailureWindow
bump e = record e { failures = add64 e.failures (pos 1) }

-- `l.entries[key] = e`, and `delete(l.entries, key)`.
unfoldable pub put : String → Option FailureWindow → Entries → Entries
put key e entries = λ k. if k == key then e else entries k

abbrev pub live : Time → Option FailureWindow → Option FailureWindow
live now e = if lapsed now e then none else e

unfoldable pub sweep_locked : Time → InMemoryLimiter → InMemoryLimiter
sweep_locked now l =
    if ltb_ℤ (sub_time now l.last_sweep) l.window
    then l
    else record l { last_sweep = now; entries = λ k. live now (l.entries k) }

-- The failure alone, without the sweep that follows it.
unfoldable pub note_failure : Duration → Time → String → Entries → Entries
unfolding put
note_failure window now key entries =
    put key (some (bump (opened window now (entries key)))) entries

unfoldable pub record_failure : Time → String → InMemoryLimiter → InMemoryLimiter
unfolding sweep_locked note_failure
record_failure now key l =
    if leb_ℤ l.max_failures (pos 0)
    then l
    else sweep_locked now (record l { entries = note_failure l.window now key l.entries })

unfoldable pub record_success : String → InMemoryLimiter → InMemoryLimiter
unfolding put
record_success key l = record l { entries = put key none l.entries }
