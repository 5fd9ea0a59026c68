-- ===== src/Config/Keeps.antt =====
-- The induction over the argument loop of src/app_config.c.
use browser_guard.Prelude.{
  ℕ, ◌≤◌, ◌≡◌, some, List, [], ◌∷◌, inl, inr, arith, All, Text, Option-cases,
}
use browser_guard.Config.Number.{parse_dword_arg}
use browser_guard.Config.Number.Decimal.{parse_dword_arg_bounds}
use browser_guard.Config.{
  AppConfig, DwordField, flag_option, value_option, min_value, max_value, store_value, finish_parse,
  parse_args,
}

pub finish_parse-config : (c : AppConfig) → (finish_parse c).1 ≡ c
unfolding finish_parse
finish_parse-config c = ground arith

-- A predicate of the settings that every option with an argument in `Q` keeps holds after the loop,
-- whether it succeeds or not.
module _ (P : AppConfig → Type 0) (Q : Text → Type 0)
    (flag_keeps : (arg : Text) (c c' : AppConfig)
      → Q arg
      → P c
      → flag_option arg c ≡ some c'
      → P c')
    (store_keeps : (f : DwordField) (n : ℕ) (c : AppConfig)
      → P c
      → min_value f ≤ n
      → n ≤ max_value f
      → P (store_value f n c)) where
  finish_keeps : (c : AppConfig) → P c → P (finish_parse c).1
  finish_keeps c h = rw (finish_parse-config c) h

  pub parse_args_keeps :
      (args : List Text) (c : AppConfig) → All Q args → P c → P (parse_args args c).1
  unfolding parse_args
  parse_args_keeps [] c q h = finish_keeps c h
  parse_args_keeps (arg ∷ []) c q h = elim (Option-cases (flag_option arg c)) [
    | inl e ↦ rw (e, parse_args) h
    | inr (c', e) ↦ rw (e, parse_args) (finish_keeps c' (flag_keeps arg c c' q.0 h e))
  ]
  parse_args_keeps (arg ∷ value ∷ rest) c q h = elim (Option-cases (flag_option arg c)) [
    | inr (c', e) ↦
        rw (e, parse_args) (parse_args_keeps (value ∷ rest) c' q.1 (flag_keeps arg c c' q.0 h e))
    | inl e ↦
        rw (e, parse_args)
          (elim (Option-cases (value_option arg)) [
            | inl e' ↦ rw e' h
            | inr (f, e') ↦
                rw e' (elim (Option-cases (parse_dword_arg value (min_value f) (max_value f))) [
                  | inl e'' ↦ rw e'' h
                  | inr (n, e'') ↦
                      let b = parse_dword_arg_bounds value (min_value f) (max_value f) n e'' in
                      rw e'' (
                        parse_args_keeps rest (store_value f n c) q.1.1
                          (store_keeps f n c h b.0 b.1))
                ])
          ])
  ]
