-- ===== src/Rpc/Positionals/Bridge.antt =====
-- A struct that is sent as flags arrives as it was: appendRPCParamFlagsForMethod on one side and
-- ExtractRPCParamsFromArgs on the other.
use sitectl.Prelude.{
  true, false, is_empty, some, List, [], ◌∷◌, ◌≡◌, refl, sym, ap, ◌∙◌, arith, get_elem?, All,
  append-nil, subst,
}
use sitectl.Result.{ok, >>=-eq-ok}
use sitectl.Text.{Text}
use sitectl.Rpc.{Value, Spec, FieldType, claim_flags, rpc_param_specs, has_position}
use sitectl.Rpc.Args.{
  CommandFlag, append_flags, validate_for_method, Extracted, ready, extract_loop, positional_specs,
}
use sitectl.Rpc.Args.RoundTrip.{Fits, is_sent, filled_all, read_flags}
use sitectl.Rpc.Positionals.{all_flags, zero_value, zeros, extract_positionals, extract_rpc_params}
use sitectl.Rpc.Positionals.Claims.{Finds-All, IsPlain, bridged}
use sitectl.Rpc.Positionals.Fields.{
  StandsFor, specs_from-Sound, validate_for_method-IsZero, filled_all-get,
}

zeros_there :
    (fields : List FieldType) (ss : List Spec)
    → All (StandsFor 0 fields) ss
    → All (λ s. get_elem? (zeros fields) s.field_index ≡ some (zero_value s.kind)) ss
zeros_there fields [] h = tt
zeros_there fields (s ∷ ss) (h, hs) = (
  subst (λ i. get_elem? (zeros fields) i ≡ some (zero_value s.kind)) (omega (arith, h.index))
      h.zero_there,
  zeros_there fields ss hs,
)

no_positionals : (ss : List Spec) → All (λ s. has_position s ≡ false) ss → positional_specs ss ≡ []
unfolding positional_specs
no_positionals [] h = refl
no_positionals (s ∷ ss) (h, hs) = rw (no_positionals ss hs) (ground arith)

run :
    (fields : List FieldType) (specs : List Spec) (claimed args : List Text) (e : Extracted)
    → rpc_param_specs fields ≡ ok specs
    → claim_flags [] (all_flags specs) ≡ ok claimed
    → extract_loop specs (zeros fields) ready args ≡ ok e
    → positional_specs specs ≡ []
    → extract_rpc_params fields args ≡ ok e
unfolding extract_rpc_params extract_positionals
run fields specs claimed args e parsed once read nothing = rw (parsed, once, read, nothing)

-- A struct type whose fields are flags, no two the same and none of them positional, a struct with
-- a value of the right kind in each field, and a command and a method, which may be empty, such that
-- each field that is sent is given to the command under a flag of the field itself, which is neither
-- empty nor has a "=" in it: if the struct's flags are written for that command and method, reading
-- the arguments back succeeds, leaves no argument over, and every field holds the value of the struct
-- (a field that is not sent for the method is one that has its zero value).
pub extract-append_flags :
    (command : List CommandFlag) (method : Text) (fields : List FieldType) (specs : List Spec)
    (claimed : List Text) (values : List Value) (args : List Text)
    → rpc_param_specs fields ≡ ok specs
    → claim_flags [] (all_flags specs) ≡ ok claimed
    → All (λ s. is_sent method s ≡ true → IsPlain command s) specs
    → All (λ s. has_position s ≡ false) specs
    → All (λ s. is_empty s.flags ≡ false) specs
    → All (λ s. Fits s.kind (get_elem? values s.field_index)) specs
    → append_flags command method values specs [] ≡ ok args
    → (e : Extracted) × (extract_rpc_params fields args ≡ ok e)
      × (e.passthrough ≡ [])
      × All (λ s. get_elem? e.values s.field_index ≡ get_elem? values s.field_index) specs
unfolding append_flags
extract-append_flags command method fields specs claimed values args parsed once plain flags_only
      flags fits sent =
    let (sound, ascending) =
      specs_from-Sound 0 fields [] [] specs (unfold rpc_param_specs in parsed) in
    let (u, valid, looped) = >>=-eq-ok (validate_for_method method values specs) _ sent in
    let (written, same, reads) =
      read_flags command method specs values (zeros fields) specs [] args
        (bridged command method specs specs (Finds-All [] specs claimed once) plain) fits looped in
    (
      record { values = filled_all method values (zeros fields) specs; passthrough = [] },
      run fields specs claimed args _ parsed once
          (ap (extract_loop specs (zeros fields) ready) (same ∙ sym (append-nil written))
            ∙ reads []
            ∙ (unfold extract_loop in refl))
          (no_positionals specs flags_only),
      refl,
      filled_all-get method values (zeros fields) specs ascending fits
          (validate_for_method-IsZero method values specs u valid flags fits)
          (zeros_there fields specs sound),
    )
