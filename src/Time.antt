-- ===== src/Time.antt =====
-- Python's datetimes. An instant is a number of microseconds since the first of January of the
-- year 1, in UTC for an aware datetime; the offset that an aware one carries never matters to the
-- comparisons and differences modelled here.
use lanrouge_nails_bot.Base.{ℕ, ◌*◌}
use lanrouge_nails_bot.Errors.{Result, ok, err, value_error}

pub data Datetime : Type 0 where
  naive : ℕ → Datetime
  aware : ℕ → Datetime

-- `timedelta(minutes=n)`, `timedelta(hours=n)` and `timedelta(days=n)`
abbrev pub minutes : ℕ → ℕ
minutes n = n * 60_000_000

abbrev pub hours : ℕ → ℕ
hours n = n * 3_600_000_000

abbrev pub days : ℕ → ℕ
days n = n * 86_400_000_000

-- The instant of an aware datetime; `ValueError` for a naive one.
abbrev pub require_aware : Datetime → Result ℕ
require_aware (aware t) = ok t
require_aware (naive _) = err value_error
