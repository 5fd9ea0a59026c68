-- ===== src/Config/Bounds.antt =====
-- The ranges of the numbers in the settings of src/app_config.c.
use browser_guard.Prelude.{ℕ, ◌≤◌, ◌≡◌, some, List, [], ◌∷◌, arith, All, Text}
use browser_guard.Config.Keeps.{parse_args_keeps}
use browser_guard.Config.{
  AppConfig, DwordField, init_app_config, flag_option, min_value, max_value, store_value,
  parse_args, parse_app_config,
}

-- The ranges of the usage text.
pub record InRange (c : AppConfig) : Type 0 where
  pub interval : (100 ≤ c.interval_ms) × (c.interval_ms ≤ 60000)
  pub trim_interval : (1000 ≤ c.trim_interval_ms) × (c.trim_interval_ms ≤ 60000)
  pub background_grace : (250 ≤ c.background_grace_ms) × (c.background_grace_ms ≤ 60000)
  pub manual_resume_grace : (500 ≤ c.manual_resume_grace_ms) × (c.manual_resume_grace_ms ≤ 60000)
  pub heartbeat_interval : (1000 ≤ c.heartbeat_interval_ms) × (c.heartbeat_interval_ms ≤ 60000)
  pub window_probe_timeout : (100 ≤ c.window_probe_timeout_ms) × (c.window_probe_timeout_ms ≤ 5000)

pub init_app_config-InRange : InRange init_app_config
unfolding init_app_config
init_app_config-InRange = omega arith

flag_option-InRange :
    (arg : Text) (c c' : AppConfig)
    → Unit {0}
    → InRange c
    → flag_option arg c ≡ some c'
    → InRange c'
unfolding flag_option
flag_option-InRange arg c c' _ h e = ground arith

store_value-InRange :
    (f : DwordField) (n : ℕ) (c : AppConfig)
    → InRange c
    → min_value f ≤ n
    → n ≤ max_value f
    → InRange (store_value f n c)
unfolding store_value min_value max_value
store_value-InRange DwordField.interval n c h lo hi = omega arith
store_value-InRange _ n c h lo hi = omega arith

every : (args : List Text) → All (λ _. Unit {0}) args
every [] = tt
every (a ∷ args) = (tt, every args)

parse_args-InRange : (args : List Text) (c : AppConfig) → InRange c → InRange (parse_args args c).1
parse_args-InRange args c h =
    parse_args_keeps InRange (λ _. Unit {0}) flag_option-InRange store_value-InRange args c
      (every args) h

-- Whatever the command line, each number that it leaves in the settings lies in its range.
pub parse_app_config-InRange :
    (argv : List Text) → InRange (parse_app_config init_app_config argv).1
unfolding parse_app_config
parse_app_config-InRange [] = parse_args-InRange [] init_app_config init_app_config-InRange
parse_app_config-InRange (_ ∷ args) =
    parse_args-InRange args init_app_config init_app_config-InRange
