-- ===== src/Web/Util/Durations.antt =====
-- The durations that `seconds_to_duration` shows.
use miningpool_observer.Prelude.{◌≡◌, ℕ, ◌+◌, ◌*◌, ◌<◌, arith}
use miningpool_observer.Web.Util.{duration_of}

-- The parts of a duration are in their ranges, and together they are the seconds.
duration_of-sum :
    (v : ℕ)
    → let d = duration_of v in
      (d.seconds < 60)
      × (d.minutes < 60)
      × (d.hours < 24)
      × (d.seconds + 60 * (d.minutes + 60 * (d.hours + 24 * d.days)) ≡ v)
unfolding duration_of
duration_of-sum v = (omega arith, omega arith, omega arith, omega arith)
