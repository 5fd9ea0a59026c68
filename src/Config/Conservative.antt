-- ===== src/Config/Conservative.antt =====
-- The suspension policy in the settings of src/app_config.c.
use browser_guard.Prelude.{
  ℕ, ◌≤◌, ◌≡◌, refl, false, some, List, ◌∷◌, arith, All, Text, codes, text_eq,
}
use browser_guard.Config.Keeps.{parse_args_keeps}
use browser_guard.Config.{
  AppConfig, minimized_only, DwordField, init_app_config, flag_option, min_value, max_value,
  store_value, parse_app_config,
}

abbrev pub IsOther : Text → Type 0
IsOther arg = text_eq arg (codes "--aggressive-suspend") ≡ false

abbrev IsMinimizedOnly : AppConfig → Type 0
IsMinimizedOnly c = c.suspend_policy ≡ minimized_only

flag_option-IsMinimizedOnly :
    (arg : Text) (c c' : AppConfig)
    → IsOther arg
    → IsMinimizedOnly c
    → flag_option arg c ≡ some c'
    → IsMinimizedOnly c'
unfolding flag_option
flag_option-IsMinimizedOnly arg c c' other h e = ground arith

store_value-IsMinimizedOnly :
    (f : DwordField) (n : ℕ) (c : AppConfig)
    → IsMinimizedOnly c
    → min_value f ≤ n
    → n ≤ max_value f
    → IsMinimizedOnly (store_value f n c)
unfolding store_value
store_value-IsMinimizedOnly DwordField.interval n c h lo hi = h
store_value-IsMinimizedOnly _ n c h lo hi = h

-- Where no argument is `--aggressive-suspend`, the settings that the command line leaves have the
-- minimized-only policy, whatever else it asks for and whether it is accepted or not.
pub suspend_policy-parse_app_config :
    (program : Text) (args : List Text)
    → All IsOther args
    → (parse_app_config init_app_config (program ∷ args)).1.suspend_policy ≡ minimized_only
unfolding parse_app_config init_app_config
suspend_policy-parse_app_config program args others =
    parse_args_keeps IsMinimizedOnly IsOther flag_option-IsMinimizedOnly store_value-IsMinimizedOnly
      args init_app_config others refl
