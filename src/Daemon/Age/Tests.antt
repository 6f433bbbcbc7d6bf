-- ===== src/Daemon/Age/Tests.antt =====
-- The ages of the source's tests.
use hytch.Common.{◌≡◌, refl}
use hytch.Common.Text.{codes}
use hytch.Common.Decimal.{digits}
use hytch.Daemon.Age.{format_age}
use hytch.Daemon.Age.Reading.{read_age, read-format_age}

seconds_only : format_age 45 ≡ codes "45s"
unfolding format_age digits
seconds_only = refl

hours_minutes_seconds : format_age 86399 ≡ codes "23h 59m 59s"
unfolding format_age digits
hours_minutes_seconds = refl

days_hours_minutes_seconds : format_age 90065 ≡ codes "1d 1h 1m 5s"
unfolding format_age digits
days_hours_minutes_seconds = refl

read-format_age_example : read_age (format_age 90065) ≡ 90065
read-format_age_example = read-format_age 90065
