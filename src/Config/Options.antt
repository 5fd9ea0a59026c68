-- ===== src/Config/Options.antt =====
-- The command line of src/app_config.c as a list of options.
use browser_guard.Prelude.{
  ℕ, ◌≤◌, ◌≡◌, ◌≢◌, ◌↔◌, refl, ◌∙◌, true, false, none, some, List, [], ◌∷◌, ◌++◌, arith, All, Text,
  codes, text_eq, dword_mod, ◌<◌, ◌-◌,
}
use browser_guard.Config.Number.{parse_dword_arg}
use browser_guard.Config.Number.Decimal.{parse_dword_arg-numeral}
use browser_guard.Prelude.{numeral, value_from, AreDigits}
use browser_guard.Config.{
  AppConfig, minimized_only, all_background, DwordField, interval, trim_interval, background_grace,
  manual_resume_grace, heartbeat_interval, window_probe_timeout, flag_option, value_option,
  min_value, max_value, store_value, finish_parse, parse_args, parse_app_config,
}

-- An option; `set f d ds` sets the field `f` to the number with the digits `d ∷ ds`.
pub data CommandOption : Type 0 where
  trim lower eco aggressive_memory be_verbose aggressive_suspend minimized : CommandOption
  set : DwordField → ℕ → List ℕ → CommandOption

pub field_name : DwordField → Text
field_name interval = codes "--interval-ms"
field_name trim_interval = codes "--trim-interval-ms"
field_name background_grace = codes "--background-grace-ms"
field_name manual_resume_grace = codes "--manual-resume-grace-ms"
field_name heartbeat_interval = codes "--heartbeat-interval-ms"
field_name window_probe_timeout = codes "--window-probe-timeout-ms"

-- The arguments by which an option is given.
pub arguments : CommandOption → List Text
unfolding field_name
arguments trim = codes "--trim-working-set" ∷ []
arguments lower = codes "--lower-memory-priority" ∷ []
arguments eco = codes "--eco-qos" ∷ []
arguments aggressive_memory = codes "--aggressive-memory" ∷ []
arguments be_verbose = codes "--verbose" ∷ []
arguments aggressive_suspend = codes "--aggressive-suspend" ∷ []
arguments minimized = codes "--minimized-only" ∷ []
arguments (set f d ds) = field_name f ∷ numeral (d ∷ ds) ∷ []

pub render : List CommandOption → List Text
unfolding arguments
render [] = []
render (o ∷ os) = arguments o ++ render os

-- What an option asks for.
pub meaning : CommandOption → AppConfig → AppConfig
unfolding store_value value_from
meaning trim c = record c { trim_working_set = true }
meaning lower c = record c { lower_memory_priority = true }
meaning eco c = record c { enable_power_throttling = true }
meaning aggressive_memory c = record c {
  trim_working_set = true;
  lower_memory_priority = true;
  enable_power_throttling = true;
}
meaning be_verbose c = record c { verbose = true }
meaning aggressive_suspend c = record c { suspend_policy = all_background }
meaning minimized c = record c { suspend_policy = minimized_only }
meaning (set f d ds) c = store_value f (value_from 0 (d ∷ ds)) c

pub meanings : List CommandOption → AppConfig → AppConfig
meanings [] c = c
meanings (o ∷ os) c = meanings os (meaning o c)

-- The numbers are written in digits and lie in their ranges.
abbrev pub IsAccepted : CommandOption → Type 0
IsAccepted (set f d ds) =
    AreDigits (d ∷ ds)
    × (min_value f ≤ value_from 0 (d ∷ ds))
    × (value_from 0 (d ∷ ds) ≤ max_value f)
IsAccepted _ = Unit {0}

parse_args-flag :
    (arg : Text) (rest : List Text) (c c' : AppConfig)
    → flag_option arg c ≡ some c'
    → parse_args (arg ∷ rest) c ≡ parse_args rest c'
unfolding parse_args
parse_args-flag arg [] c c' e = rw (e, parse_args)
parse_args-flag arg (value ∷ rest) c c' e = rw (e, parse_args)

parse_args-value :
    (arg value : Text) (rest : List Text) (c : AppConfig) (f : DwordField) (n : ℕ)
    → flag_option arg c ≡ none
    → value_option arg ≡ some f
    → parse_dword_arg value (min_value f) (max_value f) ≡ some n
    → parse_args (arg ∷ value ∷ rest) c ≡ parse_args rest (store_value f n c)
unfolding parse_args
parse_args-value arg value rest c f n e e' e'' = rw (e, parse_args) (rw e' (rw e''))

max_value-lt : (f : DwordField) → max_value f < dword_mod - 1
unfolding max_value
max_value-lt window_probe_timeout = omega arith
max_value-lt _ = omega arith

parse_dword_arg-accepted :
    (f : DwordField) (d : ℕ) (ds : List ℕ)
    → IsAccepted (set f d ds)
    → parse_dword_arg (numeral (d ∷ ds)) (min_value f) (max_value f) ≡ some (value_from 0 (d ∷ ds))
parse_dword_arg-accepted f d ds h =
    ground (arith, parse_dword_arg-numeral d ds (min_value f) (max_value f) h.0 (max_value-lt f))

field_name-flag : (f : DwordField) (c : AppConfig) → flag_option (field_name f) c ≡ none
unfolding flag_option field_name text_eq
field_name-flag interval c = refl
field_name-flag _ c = refl

field_name-value : (f : DwordField) → value_option (field_name f) ≡ some f
unfolding value_option field_name text_eq
field_name-value interval = refl
field_name-value _ = refl

parse_args-arguments :
    (o : CommandOption) (rest : List Text) (c : AppConfig)
    → IsAccepted o
    → parse_args (arguments o ++ rest) c ≡ parse_args rest (meaning o c)
unfolding arguments meaning flag_option text_eq
parse_args-arguments (set f d ds) rest c h =
    parse_args-value (field_name f) (numeral (d ∷ ds)) rest c f (value_from 0 (d ∷ ds))
      (field_name-flag f c) (field_name-value f) (parse_dword_arg-accepted f d ds h)
parse_args-arguments trim rest c h = parse_args-flag _ rest c _ refl
parse_args-arguments _ rest c h = parse_args-flag _ rest c _ refl

parse_args-render :
    (os : List CommandOption) (c : AppConfig)
    → All IsAccepted os
    → parse_args (render os) c ≡ finish_parse (meanings os c)
unfolding render meanings
parse_args-render [] c h = unfold parse_args in refl
parse_args-render (o ∷ os) c h =
    parse_args-arguments o (render os) c h.0 ∙ parse_args-render os (meaning o c) h.1

pub parse_app_config-render :
    (program : Text) (os : List CommandOption) (c : AppConfig)
    → All IsAccepted os
    → ((parse_app_config c (program ∷ render os)).1 ≡ meanings os c)
      × (((parse_app_config c (program ∷ render os)).0 ≡ false) ↔ (
          ((meanings os c).trim_working_set ≡ false) × ((meanings os c).trim_interval_ms ≢ 5000)))
unfolding parse_app_config
parse_app_config-render program os c h =
    rw (parse_args-render os c h) (ground arith, (λ e. ground arith, λ e. ground arith))
