-- ===== src/Entities/Datetime.antt =====
-- Python's `datetime`, as the entities use it: microseconds since the epoch, and whether the value
-- carries a time zone. Every aware value of the program is in UTC; a database may hand back a
-- naive one, which stands for the same instant.
use video_site.Common.{ℕ, ◌+◌, ◌*◌, ◌/◌, Bool, true, if◌then◌else◌, ltb}

pub record Datetime : Type 0 where
  pub micros : ℕ
  pub has_tz : Bool

-- A reading of the clock: `datetime.now(UTC)`.
abbrev pub utc : ℕ → Datetime
utc t = record { micros = t; has_tz = true }

-- `if d.tzinfo is None: d = d.replace(tzinfo=UTC)`.
abbrev pub as_utc : Datetime → Datetime
as_utc d = if d.has_tz then d else record d { has_tz = true }

-- `moment < d` of two aware values.
abbrev pub is_before : Datetime → Datetime → Bool
is_before moment d = ltb moment.micros d.micros

-- `d + timedelta(minutes=n)`.
abbrev pub add_minutes : Datetime → ℕ → Datetime
add_minutes d n = record d { micros = d.micros + n * 60 * 1_000_000 }

-- `d + timedelta(hours=n)`.
abbrev pub add_hours : Datetime → ℕ → Datetime
add_hours d n = record d { micros = d.micros + n * 3_600 * 1_000_000 }

-- `int(d.timestamp())`, whole seconds.
abbrev pub timestamp : Datetime → ℕ
timestamp d = d.micros / 1_000_000
