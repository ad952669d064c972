-- ===== src/Rpc/Positionals.antt =====
-- firstRPCPositionalArg and extractRPCPositionals, and the whole of ExtractRPCParamsFromArgs.
mod Claims
mod Fields
mod Tests
pub mod Bridge
use sitectl.Prelude.{
  ℕ, suc, Bool, true, false, not, ◌&&◌, ◌||◌, Option, none, some, List, [], ◌∷◌, ◌++◌,
  if◌then◌else◌, is_empty, set,
}
use sitectl.Result.{Result, ok, err, ◌>>=◌}
use sitectl.Text.{
  Text, codes, ◌==◌, trim_space, trim_prefix, has_prefix, contains, strip_prefix, cut,
}
use sitectl.Rpc.{
  FieldKind, bool_kind, string_kind, other_kind, Value, flag, text, other, Spec, Error, FieldType,
  positional_not_string, dashes, rpc_param_specs, claim_flags,
}
use sitectl.Rpc.Args.{
  Extracted, ready, extract_loop, classify, lookup_flag, token_of, set_field, positional_specs,
}

-- A positional argument, trimmed, and the arguments without it
pub record Positional : Type 0 where
  pub arg : Text
  pub others : List Text

-- An argument that the search passes over: blank, a help flag, or a long flag with its value
is_skipped : Text → Bool
unfolding ◌==◌ has_prefix contains trim_prefix
is_skipped arg =
    is_empty arg
    || not (arg == dashes)
      && (arg == codes "-h"
          || arg == codes "--help"
          || has_prefix arg dashes && contains (trim_prefix arg dashes) (b'=' ∷ []))

-- firstRPCPositionalArg, with the removal at its index
pub first_positional : List Text → Option Positional
unfolding is_skipped trim_space has_prefix
first_positional [] = none
first_positional (raw ∷ args) =
    let later = first_positional args in
    let arg = trim_space raw in
    if is_skipped arg
    then elim later [ none ↦ none | some p ↦ some (record p { others = raw ∷ p.others }) ]
    else if has_prefix arg (b'-' ∷ [])
    then none
    else some (record { arg = arg; others = args })

-- extractRPCPositionals
pub extract_positionals : List Spec → Extracted → Result Error Extracted
unfolding first_positional
extract_positionals [] e = ok e
extract_positionals (s ∷ ss) e = elim s.kind [
  | string_kind ↦ elim (first_positional e.passthrough) [
    | none ↦ extract_positionals ss e
    | some p ↦
        extract_positionals ss
          (record { values = set e.values s.field_index (text p.arg); passthrough = p.others })
  ]
  | _ ↦ err (positional_not_string s.field_name)
]

pub zero_value : FieldKind → Value
zero_value bool_kind = flag false
zero_value string_kind = text []
zero_value other_kind = other

-- The zero value of the struct
pub zeros : List FieldType → List Value
unfolding zero_value
zeros [] = []
zeros (f ∷ fs) = zero_value f.kind ∷ zeros fs

-- The flags of all specs, each declared once
pub all_flags : List Spec → List Text
all_flags [] = []
all_flags (s ∷ ss) = s.flags ++ all_flags ss

-- ExtractRPCParamsFromArgs
pub extract_rpc_params : List FieldType → List Text → Result Error Extracted
extract_rpc_params fields args = do
  specs ← rpc_param_specs fields
  _ ← claim_flags [] (all_flags specs)
  e ← extract_loop specs (zeros fields) ready args
  extract_positionals (positional_specs specs) e
