-- ===== src/ComposeFile/Build.antt =====
-- pkg/component/compose_file.go: the keys of a service at any indentation, and its build arguments.
-- `quote` is fmt's %q.
use sitectl.Prelude.{
  ℕ, suc, ◌+◌, Bool, true, false, not, Option, none, some, [], ◌∷◌, ◌++◌, if◌then◌else◌, is_empty,
  length,
}
use sitectl.Result.{ok}
use sitectl.Text.{Text, codes, trim_space}
use sitectl.ComposeFile.{
  service_missing, service_empty, in_build, in_build_args, Lines, Edit, spaces, with_colon,
  find_map_key, find_block_end, splice, insert_lines, line_at,
}
use sitectl.ComposeFile.Flexible.{
  Location, ◌>>=◌, done, fail, with_lines, write, wrapping, behind, flexible_direct_child_indent,
  flexible_child_step, normalize_flexible_mapping_parent, flexible_mapping_child,
  flexible_mapping_line_can_have_children, set_flexible_mapping_scalar,
  delete_flexible_mapping_child, flexible_mapping_has_content,
}

abbrev services : Text
services = codes "services"

-- The key of a new mapping, put behind the content of its parent
abbrev insert_key : Location → Text → Lines → Lines
insert_key parent key lines =
    let indent = flexible_direct_child_indent lines parent.index parent.indent parent.step in
    insert_lines lines (behind lines parent.index parent.indent)
      ((spaces indent ++ with_colon key) ∷ [])

abbrev services_location : Lines → ℕ → Location
services_location lines index = record {
  index = index;
  indent = 0;
  step = flexible_child_step lines index 0 2;
  key = services;
}

-- flexibleServiceLocation: the section, made if it is missing and `create` says so
unfoldable pub ensure_services : Bool → Edit (Option Location)
unfolding flexible_child_step
ensure_services create lines = elim (find_map_key lines 0 services 0) [
  | some i ↦ (lines, ok (some (services_location lines i)))
  | none ↦
      let longer = lines ++ with_colon services ∷ [] in
      if create
      then (longer, ok (some (services_location longer (length lines))))
      else (lines, ok none)
]

abbrev service_location : Location → Text → ℕ → Lines → ℕ → Location
service_location section service indent lines index = record {
  index = index;
  indent = indent;
  step = flexible_child_step lines index indent section.step;
  key = service;
}

-- The service below it, in the same way
unfoldable pub ensure_service : Bool → Text → Location → Edit (Option Location)
unfolding flexible_direct_child_indent flexible_child_step
ensure_service create service section lines =
    let indent = flexible_direct_child_indent lines section.index 0 section.step in
    elim (find_map_key lines (suc section.index) service indent) [
      | some i ↦ (lines, ok (some (service_location section service indent lines i)))
      | none ↦
          let longer = insert_key section service lines in
          if create
          then (
            longer,
            ok (
                some
                  (service_location section service indent longer (behind lines section.index 0))),
          )
          else (lines, ok none)
    ]

-- A mapping that was found has to be one.
abbrev checked : Option Location → Edit (Option Location)
checked none = done none
checked (some l) = do _ ← normalize_flexible_mapping_parent l false; done (some l)

abbrev below_section : Bool → Text → Option Location → Edit (Option Location)
below_section create service none = done none
below_section create service (some section) = do
  found ← ensure_service create service section
  checked found

-- flexibleServiceLocation behind its trimming
unfoldable pub locate_service : Bool → Text → Edit (Option Location)
unfolding ensure_services ensure_service normalize_flexible_mapping_parent
locate_service create service = do
  section ← ensure_services create
  section' ← checked section
  below_section create service section'

-- flexibleServiceLocation
unfoldable pub flexible_service_location : Bool → Text → Edit (Option Location)
unfolding locate_service
flexible_service_location create service =
    if is_empty (trim_space service)
    then fail service_empty
    else locate_service create (trim_space service)

-- ensureFlexibleMappingChild where the key is there: a scalar becomes the mapping's context.
unfoldable pub reuse_child : Location → Bool → Edit Location
unfolding normalize_flexible_mapping_parent flexible_child_step
reuse_child l allow_scalar = do
  scalar ← normalize_flexible_mapping_parent l allow_scalar
  _ ← write (λ lines.
      if is_empty scalar
      then lines
      else insert_lines lines (suc l.index)
          ((spaces (l.indent + l.step) ++ (codes "context: " ++ scalar)) ∷ []))
  with_lines (λ lines. done (record l { step = flexible_child_step lines l.index l.indent l.step }))

-- ensureFlexibleMappingChild where it is not
unfoldable pub new_child : Location → Text → Edit Location
unfolding flexible_direct_child_indent
new_child parent key lines = (
  insert_key parent key lines,
  ok (record {
    index = behind lines parent.index parent.indent;
    indent = flexible_direct_child_indent lines parent.index parent.indent parent.step;
    step = parent.step;
    key = key;
  }),
)

-- ensureFlexibleMappingChild
unfoldable pub ensure_flexible_mapping_child : Location → Text → Bool → Edit Location
unfolding reuse_child new_child flexible_mapping_child normalize_flexible_mapping_parent
ensure_flexible_mapping_child parent key allow_scalar = do
  _ ← normalize_flexible_mapping_parent parent false
  with_lines (λ lines. elim (flexible_mapping_child lines parent key) [
    | some l ↦ reuse_child l allow_scalar
    | none ↦ new_child parent key
  ])

-- What is done at a service, and what if there is none
abbrev pub at_service : {A : Type 0} → Bool → Text → (Location → Edit A) → Edit A → Edit A
at_service create service f otherwise = do
  found ← flexible_service_location create service
  elim found [ none ↦ otherwise | some l ↦ f l ]

-- DeleteServiceKey
unfoldable pub delete_service_key : Text → Text → Edit (Unit {0})
unfolding flexible_service_location
delete_service_key service key =
    at_service false service (λ l. write (λ lines. (delete_flexible_mapping_child l key lines).0))
      (done tt)

-- SetServiceScalar
unfoldable pub set_service_scalar : Text → Text → Text → Edit (Unit {0})
unfolding flexible_service_location
set_service_scalar service key value =
    at_service false service (λ l. set_flexible_mapping_scalar l key value)
      (fail (service_missing service))

-- SetServiceOverrideScalar, where the location is always some
unfoldable pub set_service_override_scalar : Text → Text → Text → Edit (Unit {0})
unfolding flexible_service_location
set_service_override_scalar service key value =
    at_service true service (λ l. set_flexible_mapping_scalar l key value)
      (fail (service_missing service))

module _ (quote : Text → Text) where
  -- SetServiceBuildArg
  unfoldable pub set_service_build_arg : Text → Text → Text → Edit (Unit {0})
  unfolding flexible_service_location
  set_service_build_arg service name value =
      at_service true service
        (λ l. do
          build ← wrapping (in_build service) (ensure_flexible_mapping_child l (codes "build") true)
          args ←
              wrapping (in_build_args service)
                (ensure_flexible_mapping_child build (codes "args") false)
          set_flexible_mapping_scalar args name (quote value))
        (fail (service_missing service))

-- DeleteServiceBuildArgs at a build that can have arguments
unfoldable pub delete_args : Location → Location → Lines → Lines
unfolding delete_flexible_mapping_child flexible_mapping_has_content
delete_args service build lines =
    let (lines', deleted) = delete_flexible_mapping_child build (codes "args") lines in
    if not deleted
    then lines'
    else if flexible_mapping_has_content lines' build
    then lines'
    else (delete_flexible_mapping_child service (codes "build") lines').0

-- DeleteServiceBuildArgs
unfoldable pub delete_service_build_args : Text → Edit (Unit {0})
unfolding flexible_service_location delete_args
delete_service_build_args service =
    at_service false service
      (λ l. write (λ lines. elim (flexible_mapping_child lines l (codes "build")) [
        | none ↦ lines
        | some build ↦
            if flexible_mapping_line_can_have_children (line_at lines build.index) (codes "build")
            then delete_args l build lines
            else lines
      ]))
      (done tt)

abbrev without_block : Location → Lines → Lines
without_block l lines = splice lines l.index (find_block_end lines l.index l.indent) []

-- PruneEmptyService behind the removal of the service: the section goes with its last entry.
unfoldable pub prune_empty_services : Lines → Lines
unfolding flexible_mapping_has_content
prune_empty_services lines = elim (find_map_key lines 0 services 0) [
  | none ↦ lines
  | some i ↦
      let section = services_location lines i in
      if flexible_mapping_has_content lines section then lines else without_block section lines
]

-- PruneEmptyService
unfoldable pub prune_empty_service : Text → Edit (Unit {0})
unfolding flexible_service_location prune_empty_services
prune_empty_service service =
    at_service false service
      (λ l. write (λ lines.
        if flexible_mapping_has_content lines l
        then lines
        else prune_empty_services (without_block l lines)))
      (done tt)
