-- ===== src/Rpc.antt =====
-- pkg/plugin/rpc_param_args.go: the bridge between the typed params of an RPC call and the argv of a
-- plugin command. A struct type is the list of its fields with their tags, a struct is the list of
-- its fields' values; reflection reads no more of them.
pub mod Args
pub mod Positionals
use sitectl.Prelude.{
  ℕ, suc, Bool, true, false, not, ◌&&◌, ◌||◌, Option, none, some, List, [], ◌∷◌, ◌++◌,
  if◌then◌else◌, is_empty, any, get_elem?, set, nat_eq, leb, ltb,
}
use sitectl.Result.{Result, ok, err, ◌>>=◌}
use sitectl.Text.{
  Text, codes, ◌==◌, split, trim_space, trim_prefix, strip_prefix, has_prefix, contains, cut, Cut,
}
use sitectl.Text.Number.{ℤ, pos, negsuc, atoi, parse_bool}

-- reflect.Kind, as far as it is told apart
pub data FieldKind : Type 0 where
  bool_kind string_kind other_kind : FieldKind

pub record FieldType : Type 0 where
  pub name : Text
  pub exported : Bool
  pub kind : FieldKind
  pub flags_tag : Text
  pub position_tag : Text
  pub rootfs_tag : Text
  pub methods_tag : Text

pub data Value : Type 0 where
  flag : Bool → Value
  text : Text → Value
  other : Value

pub record Spec : Type 0 where
  pub field_index : ℕ
  pub field_name : Text
  pub flags : List Text
  pub position : Option ℕ
  pub rootfs : Bool
  pub kind : FieldKind
  pub methods : List Text

pub data Error : Type 0 where
  duplicate_flag : Text → Error
  duplicate_position : ℕ → Error
  invalid_position : Text → Text → Error
  unsupported_kind : Text → Error
  value_required : Text → Error
  not_boolean : List Text → Error
  positional_not_string : Text → Error
  blank_value : Text → Error
  dashed_positional : Text → Error
  not_for_method : Text → Text → Error

abbrev pub dashes : Text
dashes = b'-' ∷ b'-' ∷ []

abbrev pub member : Text → List Text → Bool
member s ts = any (λ t. t == s) ts

-- parseRPCParamList
unfoldable pub list_items : List Text → List Text
unfolding trim_prefix trim_space
list_items [] = []
list_items (part ∷ parts) =
    let rest = list_items parts in
    let item = trim_prefix (trim_space part) dashes in if is_empty item then rest else item ∷ rest

unfoldable pub parse_list : Text → List Text
unfolding list_items split
parse_list raw = list_items (split (λ c. nat_eq c b',') raw)

-- The flags of a spec are claimed one by one.
unfoldable pub claim_flags : List Text → List Text → Result Error (List Text)
unfolding ◌==◌
claim_flags seen [] = ok seen
claim_flags seen (f ∷ fs) =
    let rest = claim_flags (f ∷ seen) fs in if member f seen then err (duplicate_flag f) else rest

unfoldable pub claim_position : List ℕ → Option ℕ → Result Error (List ℕ)
claim_position seen none = ok seen
claim_position seen (some p) =
    if any (λ q. nat_eq q p) seen then err (duplicate_position p) else ok (p ∷ seen)

unfoldable pub position_of : FieldType → Result Error (Option ℕ)
unfolding trim_space atoi
position_of f =
    let raw = trim_space f.position_tag in
    if is_empty raw then ok none else elim (atoi raw) [
      | none ↦ err (invalid_position f.name raw)
      | some (pos p) ↦ ok (some p)
      | some (negsuc p) ↦ err (invalid_position f.name raw)
    ]

abbrev pub is_supported : FieldKind → Bool
is_supported other_kind = false
is_supported _ = true

abbrev pub has_position : Spec → Bool
has_position s = elim s.position [ none ↦ false | some p ↦ true ]

abbrev pub spec_of : ℕ → FieldType → Option ℕ → Spec
spec_of i f position = record {
  field_index = i;
  field_name = f.name;
  flags = parse_list f.flags_tag;
  position = position;
  rootfs = f.rootfs_tag == codes "true";
  kind = f.kind;
  methods = parse_list f.methods_tag;
}

-- The loop of rpcParamSpecs from the field of index i on
unfoldable pub specs_from : ℕ → List FieldType → List Text → List ℕ → Result Error (List Spec)
specs_from i [] seen_flags seen_positions = ok []
specs_from i (f ∷ fs) seen_flags seen_positions =
    let skip = specs_from (suc i) fs seen_flags seen_positions in
    let next = λ (flags : List Text) (positions : List ℕ). specs_from (suc i) fs flags positions in
    if not f.exported then skip else do
      position ← position_of f
      let spec = spec_of i f position
      if is_empty spec.flags && not (has_position spec)
          then skip
          else if not (is_supported f.kind)
          then err (unsupported_kind f.name)
          else do
            flags ← claim_flags seen_flags spec.flags
            positions ← claim_position seen_positions position
            rest ← next flags positions
            ok (spec ∷ rest)

unfoldable pub rpc_param_specs : List FieldType → Result Error (List Spec)
unfolding specs_from ◌==◌ parse_list position_of claim_flags claim_position
rpc_param_specs fields = specs_from 0 fields [] []
