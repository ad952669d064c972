-- ===== src/Rpc/Args.antt =====
-- Params to argv and back: appendRPCParamPositionals, appendRPCParamFlagsForMethod,
-- ExtractRPCParamsFromArgs, and the checks of both sides.
pub mod RoundTrip
use sitectl.Prelude.{
  ℕ, suc, Bool, true, false, not, ◌&&◌, ◌||◌, Option, none, some, List, [], ◌∷◌, ◌++◌,
  if◌then◌else◌, is_empty, any, get_elem?, set, ltb,
}
use sitectl.Result.{Result, ok, err, ◌>>=◌}
use sitectl.Text.{
  Text, codes, ◌==◌, trim_space, trim_prefix, strip_prefix, has_prefix, contains, cut, Cut,
}
use sitectl.Text.Number.{parse_bool}
use sitectl.Rpc.{
  FieldKind, bool_kind, string_kind, other_kind, Value, flag, text, other, Spec, Error,
  duplicate_flag, value_required, not_boolean, unsupported_kind, positional_not_string, blank_value,
  dashed_positional, not_for_method, FieldType, dashes, member, has_position, rpc_param_specs,
  claim_flags,
}

-- A flag that a cobra command declares, and whether it is annotated as the codebase rootfs flag.
pub record CommandFlag : Type 0 where
  pub name : Text
  pub is_rootfs : Bool
  pub value_type : Text

-- rpcCodebaseRootfsFlagName: the first annotated flag in the order of the visit
unfoldable pub rootfs_flag_name : List CommandFlag → Text
rootfs_flag_name [] = []
rootfs_flag_name (f ∷ fs) = let later = rootfs_flag_name fs in if f.is_rootfs then f.name else later

unfoldable pub first_flag : List Text → Text
first_flag [] = []
first_flag (f ∷ fs) = f

-- rpcParamFlag, without its dashes
unfoldable pub param_flag : List CommandFlag → Spec → Text
unfolding rootfs_flag_name first_flag
param_flag command s =
    if s.rootfs && not (is_empty (rootfs_flag_name command))
    then rootfs_flag_name command
    else first_flag s.flags

-- rpcParamSpecAppliesToMethod
unfoldable pub applies_to : Spec → Text → Bool
unfolding ◌==◌ trim_space
applies_to s method = is_empty (trim_space method) || is_empty s.methods || member method s.methods

-- rpcParamFieldIsSet
unfoldable pub is_set : Option Value → Bool
is_set (some (flag b)) = b
is_set (some (text t)) = not (is_empty t)
is_set _ = false

-- validateRPCParamStringValue
unfoldable pub validate_string : Spec → Text → Bool → Result Error (Unit {0})
unfolding trim_space has_prefix
validate_string s v positional =
    if is_empty (trim_space v)
    then err (blank_value s.field_name)
    else if positional && has_prefix v (b'-' ∷ [])
    then err (dashed_positional s.field_name)
    else ok tt

-- validateRPCParamSpecsForMethod
unfoldable pub validate_for_method : Text → List Value → List Spec → Result Error (Unit {0})
unfolding applies_to is_set
validate_for_method method values [] = ok tt
validate_for_method method values (s ∷ ss) =
    let rest = validate_for_method method values ss in
    if not (applies_to s method) && is_set (get_elem? values s.field_index)
    then err (not_for_method method s.field_name)
    else rest

-- What the loop of appendRPCParamFlagsForMethod appends for one spec
unfoldable pub flag_args : List CommandFlag → Text → List Value → Spec → Result Error (List Text)
flag_args command method values s =
    if not (applies_to s method) || is_empty s.flags
    then ok []
    else elim (get_elem? values s.field_index) [
      | some (flag b) ↦ ok (if b then (dashes ++ param_flag command s) ∷ [] else [])
      | some (text t) ↦
          if is_empty t
          then ok []
          else validate_string s t false >>= λ _. ok ((dashes ++ param_flag command s) ∷ t ∷ [])
      | _ ↦ ok []
    ]

unfoldable pub append_flags_loop :
    List CommandFlag → Text → List Value → List Spec → List Text → Result Error (List Text)
append_flags_loop command method values [] args = ok args
append_flags_loop command method values (s ∷ ss) args = do
  piece ← flag_args command method values s
  append_flags_loop command method values ss (args ++ piece)

-- appendRPCParamFlagsForMethod
unfoldable pub append_flags :
    List CommandFlag → Text → List Value → List Spec → List Text → Result Error (List Text)
unfolding validate_for_method append_flags_loop flag_args applies_to param_flag validate_string
append_flags command method values specs args = validate_for_method method values specs >>= λ _.
    append_flags_loop command method values specs args

-- sort.Slice by position; specs without a position are left out
insert_spec : Spec → List Spec → List Spec
insert_spec s [] = s ∷ []
insert_spec s (t ∷ ts) =
    let later = insert_spec s ts in if before s.position t.position then s ∷ t ∷ ts else t ∷ later
  where
    before : Option ℕ → Option ℕ → Bool
    before (some p) (some q) = ltb p q
    before _ _ = false

-- rpcPositionalSpecs
unfoldable pub positional_specs : List Spec → List Spec
unfolding insert_spec
positional_specs [] = []
positional_specs (s ∷ ss) =
    let rest = positional_specs ss in if has_position s then insert_spec s rest else rest

-- appendRPCParamPositionals
unfoldable pub append_positionals : List Value → List Spec → List Text → Result Error (List Text)
unfolding validate_string
append_positionals values [] args = ok args
append_positionals values (s ∷ ss) args = elim (get_elem? values s.field_index) [
  | some (text t) ↦
      if is_empty t
      then append_positionals values ss args
      else validate_string s t true >>= λ _. append_positionals values ss (args ++ t ∷ [])
  | _ ↦ append_positionals values ss args
]

-- setRPCParamField
unfoldable pub set_field : List Value → Spec → Text → Result Error (List Value)
unfolding parse_bool
set_field values s raw = elim s.kind [
  | bool_kind ↦ elim (parse_bool raw) [
    | none ↦ err (not_boolean s.flags)
    | some b ↦ ok (set values s.field_index (flag b))
  ]
  | string_kind ↦ ok (set values s.field_index (text raw))
  | other_kind ↦ err (unsupported_kind s.field_name)
]

-- byFlag[name], for specs that declare no flag twice
unfoldable pub lookup_flag : List Spec → Text → Option Spec
unfolding ◌==◌
lookup_flag [] name = none
lookup_flag (s ∷ ss) name =
    let later = lookup_flag ss name in if member name s.flags then some s else later

-- What one argument is to the loop of ExtractRPCParamsFromArgs
pub data Token : Type 0 where
  stop pass : Token
  assign : Spec → Text → Token
  wait : Spec → Text → Token

unfoldable pub token_of : Spec → Cut → Token
token_of s c = elim s.kind [
  | bool_kind ↦ assign s (if c.found then c.after else codes "true")
  | _ ↦ if c.found then assign s c.after else wait s c.before
]

unfoldable pub classify : List Spec → Text → Token
classify specs arg = if arg == dashes then stop else elim (strip_prefix dashes arg) [
  | none ↦ pass
  | some raw ↦ elim (lookup_flag specs (cut raw b'=').before) [
    | none ↦ pass
    | some s ↦ token_of s (cut raw b'=')
  ]
]

pub record Extracted : Type 0 where
  pub values : List Value
  pub passthrough : List Text

-- A spec that waits for its value, which is the next argument, and the flag as it was written
pub data Pending : Type 0 where
  ready : Pending
  waiting : Spec → Text → Pending

-- The loop of ExtractRPCParamsFromArgs
unfoldable pub extract_loop : List Spec → List Value → Pending → List Text → Result Error Extracted
extract_loop specs values ready [] = ok (record { values = values; passthrough = [] })
extract_loop specs values (waiting s name) [] = err (value_required name)
extract_loop specs values (waiting s name) (arg ∷ args) =
    set_field values s arg >>= λ values'. extract_loop specs values' ready args
extract_loop specs values ready (arg ∷ args) = elim (classify specs arg) [
  | stop ↦ ok (record { values = values; passthrough = arg ∷ args })
  | pass ↦ extract_loop specs values ready args >>= λ r.
      ok (record { values = r.values; passthrough = arg ∷ r.passthrough })
  | assign s v ↦ set_field values s v >>= λ values'. extract_loop specs values' ready args
  | wait s name ↦ extract_loop specs values (waiting s name) args
]
