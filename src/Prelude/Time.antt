-- ===== src/Prelude/Time.antt =====
-- Durations and instants. A `std::time::Duration` is its nanoseconds, at most `max_duration`; a
-- `DateTime<Utc>` is its signed nanoseconds from the epoch.
use Prim.Native.Nat.{ℕ, ◌-◌, ◌*◌, ◌/◌, ◌^◌, min}
use mathlib.Core.Option.{Option, none, some}
use k_url.Prelude.Tests.{if◌then◌else◌}
use k_url.Prelude.Int.{ℤ, pos_part, ◌-ℤ◌, ltb_ℤ}

abbrev pub Duration : Type 0
Duration = ℕ

abbrev pub DateTime : Type 0
DateTime = ℤ

abbrev pub nanos_per_sec : ℕ
nanos_per_sec = 1_000_000_000

abbrev pub nanos_per_milli : ℕ
nanos_per_milli = 1_000_000

-- Duration::MAX: u64::MAX seconds and 999 999 999 nanoseconds.
abbrev pub max_duration : ℕ
max_duration = 2 ^ 64 * nanos_per_sec - 1

abbrev pub from_secs : ℕ → Duration
from_secs s = s * nanos_per_sec

abbrev pub from_millis : ℕ → Duration
from_millis m = m * nanos_per_milli

abbrev pub as_secs : Duration → ℕ
as_secs d = d / nanos_per_sec

abbrev pub as_millis : Duration → ℕ
as_millis d = d / nanos_per_milli

-- Duration::saturating_mul
abbrev pub saturating_mul : Duration → ℕ → Duration
saturating_mul d n = min (d * n) max_duration

-- `(at - now).to_std().ok()`: none if `at` is before `now`.
unfoldable pub time_left : DateTime → DateTime → Option Duration
time_left at now = if ltb_ℤ at now then none else some (pos_part (at -ℤ now))
