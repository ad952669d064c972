-- ===== src/Rpc/Positionals/Tests.antt =====
-- The parameters of converge.run (pkg/plugin/rpc.go, ConvergeRunParams), sent and read back.
use sitectl.Prelude.{ℕ, Bool, true, false, none, List, [], ◌∷◌, ◌≡◌, refl, get_elem?, All}
use sitectl.Result.{ok}
use sitectl.Text.{Text, codes}
use sitectl.Rpc.{
  FieldKind, bool_kind, string_kind, FieldType, Value, flag, text, Spec, rpc_param_specs,
  claim_flags,
}
use sitectl.Rpc.Args.{CommandFlag, append_flags, Extracted}
use sitectl.Rpc.Positionals.{all_flags, extract_rpc_params}
use sitectl.Rpc.Positionals.Bridge.{extract-append_flags}

abbrev field : Text → FieldKind → Text → Text → FieldType
field name kind flags rootfs = record {
  name = name;
  exported = true;
  kind = kind;
  flags_tag = flags;
  position_tag = [];
  rootfs_tag = rootfs;
  methods_tag = [];
}

abbrev converge : List FieldType
converge =
    field (codes "Path") string_kind (codes "path") []
    ∷ field (codes "CodebaseRootfs") string_kind (codes "codebase-rootfs,drupal-rootfs")
        (codes "true")
    ∷ field (codes "Report") bool_kind (codes "report") []
    ∷ field (codes "Verbose") bool_kind (codes "verbose") []
    ∷ field (codes "Format") string_kind (codes "format") []
    ∷ []

abbrev sent : List Value
sent = text (codes "/srv/site") ∷ text (codes "web") ∷ flag true ∷ flag false ∷ text [] ∷ []

abbrev spec : Text → FieldKind → List Text → Bool → ℕ → Spec
spec name kind flags rootfs i = record {
  field_index = i;
  field_name = name;
  flags = flags;
  position = none;
  rootfs = rootfs;
  kind = kind;
  methods = [];
}

abbrev specs : List Spec
specs =
    spec (codes "Path") string_kind (codes "path" ∷ []) false 0
    ∷ spec (codes "CodebaseRootfs") string_kind
        (codes "codebase-rootfs" ∷ codes "drupal-rootfs" ∷ []) true 1
    ∷ spec (codes "Report") bool_kind (codes "report" ∷ []) false 2
    ∷ spec (codes "Verbose") bool_kind (codes "verbose" ∷ []) false 3
    ∷ spec (codes "Format") string_kind (codes "format" ∷ []) false 4
    ∷ []

abbrev claimed : List Text
claimed =
    codes "format"
    ∷ codes "verbose"
    ∷ codes "report"
    ∷ codes "drupal-rootfs"
    ∷ codes "codebase-rootfs"
    ∷ codes "path"
    ∷ []

abbrev args : List Text
args =
    codes "--path"
    ∷ codes "/srv/site"
    ∷ codes "--drupal-rootfs"
    ∷ codes "web"
    ∷ codes "--report"
    ∷ []

parsed : rpc_param_specs converge ≡ ok specs
unfolding rpc_param_specs
parsed = refl

claims : claim_flags [] (all_flags specs) ≡ ok claimed
unfolding claim_flags all_flags
claims = refl

-- The command declares its rootfs flag under the other name.
abbrev command : List CommandFlag
command =
    record { name = codes "drupal-rootfs"; is_rootfs = true; value_type = codes "string" } ∷ []

abbrev converge_run : Text
converge_run = codes "converge.run"

written : append_flags command converge_run sent specs [] ≡ ok args
unfolding append_flags
written = refl

extract-append_flags_example :
    (e : Extracted) × (extract_rpc_params converge args ≡ ok e)
    × (e.passthrough ≡ [])
    × All (λ s. get_elem? e.values s.field_index ≡ get_elem? sent s.field_index) specs
unfolding sitectl.Rpc.Args.param_flag sitectl.Text.contains_any sitectl.Rpc.Args.applies_to
extract-append_flags_example =
    extract-append_flags command converge_run converge specs claimed sent args parsed claims
      (
        (λ _. (refl, refl, refl)),
        (
          (λ _. (refl, refl, refl)),
          ((λ _. (refl, refl, refl)), ((λ _. (refl, refl, refl)), ((λ _. (refl, refl, refl)), tt))),
        ),
      )
      (refl, (refl, (refl, (refl, (refl, tt))))) (refl, (refl, (refl, (refl, (refl, tt)))))
      (tt, (tt, (tt, (tt, (tt, tt))))) written
