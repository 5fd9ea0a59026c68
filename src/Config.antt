-- ===== src/Config.antt =====
-- src/app_config.c and include/app_config.h: the settings and the command line. A text is a list of
-- the argument's bytes. What `print_usage` and the last test print to stderr is not modelled.
pub mod Number
pub mod Keeps
pub mod Bounds
pub mod Conservative
pub mod Options
mod Tests
use browser_guard.Prelude.{
  ℕ, Bool, true, false, not, ◌&&◌, Option, none, some, List, [], ◌∷◌, ◌==◌, if◌then◌else◌, Text,
  codes, text_eq,
}
use Number.{parse_dword_arg}

pub data SuspendPolicy : Type 0 where
  minimized_only all_background : SuspendPolicy

pub record AppConfig : Type 0 where
  pub interval_ms : ℕ
  pub trim_interval_ms : ℕ
  pub background_grace_ms : ℕ
  pub manual_resume_grace_ms : ℕ
  pub heartbeat_interval_ms : ℕ
  pub window_probe_timeout_ms : ℕ
  pub suspend_policy : SuspendPolicy
  pub trim_working_set : Bool
  pub lower_memory_priority : Bool
  pub enable_power_throttling : Bool
  pub verbose : Bool

unfoldable pub init_app_config : AppConfig
init_app_config = record {
  interval_ms = 1000;
  trim_interval_ms = 5000;
  background_grace_ms = 60000;
  manual_resume_grace_ms = 5000;
  heartbeat_interval_ms = 5000;
  window_probe_timeout_ms = 750;
  suspend_policy = minimized_only;
  trim_working_set = false;
  lower_memory_priority = false;
  enable_power_throttling = false;
  verbose = false;
}

-- The options with no value: `none` if the argument is none of them.
pub flag_option : Text → AppConfig → Option AppConfig
flag_option arg c =
    if text_eq arg (codes "--trim-working-set")
    then some (record c { trim_working_set = true })
    else if text_eq arg (codes "--lower-memory-priority")
    then some (record c { lower_memory_priority = true })
    else if text_eq arg (codes "--eco-qos")
    then some (record c { enable_power_throttling = true })
    else if text_eq arg (codes "--aggressive-memory")
    then some (record c {
      trim_working_set = true;
      lower_memory_priority = true;
      enable_power_throttling = true;
    })
    else if text_eq arg (codes "--verbose")
    then some (record c { verbose = true })
    else if text_eq arg (codes "--aggressive-suspend")
    then some (record c { suspend_policy = all_background })
    else if text_eq arg (codes "--minimized-only")
    then some (record c { suspend_policy = minimized_only })
    else none

-- The fields that an option with a value sets.
pub data DwordField : Type 0 where
  interval trim_interval background_grace manual_resume_grace : DwordField
  heartbeat_interval window_probe_timeout : DwordField

pub value_option : Text → Option DwordField
value_option arg =
    if text_eq arg (codes "--interval-ms")
    then some interval
    else if text_eq arg (codes "--trim-interval-ms")
    then some trim_interval
    else if text_eq arg (codes "--background-grace-ms")
    then some background_grace
    else if text_eq arg (codes "--manual-resume-grace-ms")
    then some manual_resume_grace
    else if text_eq arg (codes "--heartbeat-interval-ms")
    then some heartbeat_interval
    else if text_eq arg (codes "--window-probe-timeout-ms")
    then some window_probe_timeout
    else none

unfoldable pub min_value : DwordField → ℕ
min_value interval = 100
min_value trim_interval = 1000
min_value background_grace = 250
min_value manual_resume_grace = 500
min_value heartbeat_interval = 1000
min_value window_probe_timeout = 100

unfoldable pub max_value : DwordField → ℕ
max_value window_probe_timeout = 5000
max_value _ = 60000

unfoldable pub store_value : DwordField → ℕ → AppConfig → AppConfig
store_value interval n c = record c { interval_ms = n }
store_value trim_interval n c = record c { trim_interval_ms = n }
store_value background_grace n c = record c { background_grace_ms = n }
store_value manual_resume_grace n c = record c { manual_resume_grace_ms = n }
store_value heartbeat_interval n c = record c { heartbeat_interval_ms = n }
store_value window_probe_timeout n c = record c { window_probe_timeout_ms = n }

-- The test after the loop.
pub finish_parse : AppConfig → Bool × AppConfig
finish_parse c =
    if not c.trim_working_set && not (c.trim_interval_ms == 5000) then (false, c) else (true, c)

-- The loop over the arguments. It returns the result and the settings as they stand then.
pub parse_args : List Text → AppConfig → Bool × AppConfig
parse_args [] c = finish_parse c
parse_args (arg ∷ []) c = elim (flag_option arg c) [ some c' ↦ finish_parse c' | none ↦ (false, c) ]
parse_args (arg ∷ value ∷ rest) c = elim (flag_option arg c) [
  | some c' ↦ parse_args (value ∷ rest) c'
  | none ↦ elim (value_option arg) [
    | none ↦ (false, c)
    | some f ↦ elim (parse_dword_arg value (min_value f) (max_value f)) [
      | none ↦ (false, c)
      | some n ↦ parse_args rest (store_value f n c)
    ]
  ]
]

-- `argv` with the program's name first.
unfoldable pub parse_app_config : AppConfig → List Text → Bool × AppConfig
unfolding parse_args finish_parse flag_option value_option
parse_app_config c [] = parse_args [] c
parse_app_config c (program ∷ args) = parse_args args c
