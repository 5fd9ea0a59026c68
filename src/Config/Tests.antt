-- ===== src/Config/Tests.antt =====
-- tests/test_app_config.c, and the theorems at concrete command lines.
use browser_guard.Prelude.{
  ℕ, ◌-◌, ◌≡◌, ◌≢◌, ◌↔◌, refl, false, some, List, [], ◌∷◌, arith, Text, codes, text_eq, dword_mod,
}
use browser_guard.Config.{
  minimized_only, init_app_config, parse_app_config, heartbeat_interval, trim_interval, min_value,
  max_value,
}
use browser_guard.Config.Number.{parse_dword_arg}
use browser_guard.Config.Number.Decimal.{parse_dword_arg-negative}
use browser_guard.Prelude.{numeral, value_from}
use browser_guard.Config.Bounds.{InRange, parse_app_config-InRange}
use browser_guard.Config.Conservative.{suspend_policy-parse_app_config}
use browser_guard.Config.Options.{
  CommandOption, render, meanings, parse_app_config-render, be_verbose, set,
}

abbrev program : Text
program = codes "browser_guard.exe"

parse_app_config-InRange_example :
    InRange (parse_app_config init_app_config (program ∷ codes "--interval-ms" ∷ codes "99" ∷ [])).1
parse_app_config-InRange_example =
    parse_app_config-InRange (program ∷ codes "--interval-ms" ∷ codes "99" ∷ [])

suspend_policy-parse_app_config_example :
    (parse_app_config init_app_config
      (program ∷ codes "--aggressive-memory" ∷ codes "--nonsense" ∷ [])).1.suspend_policy
    ≡ minimized_only
unfolding text_eq
suspend_policy-parse_app_config_example =
    suspend_policy-parse_app_config program (codes "--aggressive-memory" ∷ codes "--nonsense" ∷ [])
      (refl, (refl, tt))

-- `--verbose --heartbeat-interval-ms 2000 --trim-interval-ms 1000`, without trimming.
abbrev options : List CommandOption
options =
    be_verbose
    ∷ set heartbeat_interval 2 (0 ∷ 0 ∷ 0 ∷ [])
    ∷ set trim_interval 1 (0 ∷ 0 ∷ 0 ∷ [])
    ∷ []

parse_app_config-render_example :
    ((parse_app_config init_app_config (program ∷ render options)).1
      ≡ meanings options init_app_config)
    × (((parse_app_config init_app_config (program ∷ render options)).0 ≡ false) ↔ (
        ((meanings options init_app_config).trim_working_set ≡ false)
        × ((meanings options init_app_config).trim_interval_ms ≢ 5000)))
unfolding value_from min_value max_value
parse_app_config-render_example =
    parse_app_config-render program options init_app_config (tt, (omega arith, (omega arith, tt)))

-- 2 ^ 32 - 100.
abbrev nearly_all : List ℕ
nearly_all = 2 ∷ 9 ∷ 4 ∷ 9 ∷ 6 ∷ 7 ∷ 1 ∷ 9 ∷ 6 ∷ []

parse_dword_arg-negative_example :
    parse_dword_arg (b'-' ∷ numeral (4 ∷ nearly_all)) 100 60000
    ≡ some (dword_mod - value_from 0 (4 ∷ nearly_all))
unfolding value_from
parse_dword_arg-negative_example =
    parse_dword_arg-negative 4 nearly_all 100 60000 (omega arith) (omega arith) (omega arith)
      (omega arith) (omega arith)
