-- ===== src/Examples/Upkeep.antt =====
-- The retention job on the small database.
use sl_open_bark.Common.{ℕ, String, Option, none, ◌-◌}
use sl_open_bark.Common.Int.{ℤ}
use sl_open_bark.Store.Retention.{main}
use sl_open_bark.Store.Retention.Retained.{Stopped, cutoff_at, main-Stopped}
use sl_open_bark.Examples.{db}

-- Every variable is set, to no number; a year is 365 ticks of the clock.
abbrev environment : String → String
environment name = name

abbrev no_number : String → Option ℤ
no_number text = none

abbrev year_before : ℤ → ℕ → ℕ
year_before days now = now - 365

main-Stopped_example :
    Stopped 400
      (cutoff_at environment no_number year_before 400)
      db.tables
      (main environment no_number year_before (λ dsn. none) 400 db)
main-Stopped_example = main-Stopped environment no_number year_before (λ dsn. none) 400 db
