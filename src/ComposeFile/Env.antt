-- ===== src/ComposeFile/Env.antt =====
-- pkg/component/compose_file.go: the environment of a service. `quote` is fmt's %q.
use sitectl.Prelude.{ℕ, suc, ◌+◌, Option, none, some, [], ◌∷◌, ◌++◌, if◌then◌else◌}
use sitectl.Result.{ok, err}
use sitectl.Text.{Text, codes, ◌==◌, trim_space}
use sitectl.ComposeFile.{
  service_missing, Lines, Edit, spaces, with_colon, find_map_key, find_block_end, slice, splice,
  insert_lines,
}
use sitectl.ComposeFile.Sections.{find_service}

-- envBlockStyle
pub data EnvStyle : Type 0 where
  env_block env_inline_empty : EnvStyle

pub record EnvAt : Type 0 where
  pub index : ℕ
  pub style : EnvStyle

abbrev one_further : Option EnvAt → Option EnvAt
one_further none = none
one_further (some e) = some (record e { index = suc e.index })

-- The loop of findEnvironmentBlock, over the lines of the service
unfoldable pub env_offset : Lines → Option EnvAt
unfolding ◌==◌ trim_space
env_offset [] = none
env_offset (line ∷ lines) =
    let rest = one_further (env_offset lines) in
    if trim_space line == codes "environment:"
    then some (record { index = 0; style = env_block })
    else if trim_space line == codes "environment: {}"
    then some (record { index = 0; style = env_inline_empty })
    else rest

-- findEnvironmentBlock
unfoldable pub find_environment_block : Lines → ℕ → Option EnvAt
unfolding env_offset
find_environment_block lines service =
    elim (env_offset (slice lines (suc service) (find_block_end lines service 2))) [
      | none ↦ none
      | some e ↦ some (record e { index = suc service + e.index })
    ]

abbrev env_key_line : Text
env_key_line = codes "    environment:"

module _ (quote : Text → Text) where
  abbrev pub env_line : Text → Text → Text
  env_line key value = spaces 6 ++ (with_colon key ++ b' ' ∷ quote value)

  -- SetServiceEnv in an environment that was found
  unfoldable pub set_env_in : Text → Text → EnvAt → Lines → Lines
  set_env_in key value e lines = elim e.style [
    | env_inline_empty ↦ splice lines e.index (suc e.index) (env_key_line ∷ env_line key value ∷ [])
    | env_block ↦ elim (find_map_key lines (suc e.index) key 6) [
      | some k ↦ splice lines k (suc k) (env_line key value ∷ [])
      | none ↦ insert_lines lines (find_block_end lines e.index 4) (env_line key value ∷ [])
    ]
  ]

  -- SetServiceEnv
  unfoldable pub set_service_env : Text → Text → Text → Edit (Unit {0})
  unfolding set_env_in find_environment_block
  set_service_env service key value lines = elim (find_service lines service) [
    | none ↦ (lines, err (service_missing service))
    | some s ↦ elim (find_environment_block lines s) [
      | none ↦ (
        insert_lines lines (find_block_end lines s 2) (env_key_line ∷ env_line key value ∷ []),
        ok tt,
      )
      | some e ↦ (set_env_in key value e lines, ok tt)
    ]
  ]

-- DeleteServiceEnv in an environment that was found
unfoldable pub delete_env_in : Text → EnvAt → Lines → Lines
delete_env_in key e lines = elim e.style [
  | env_inline_empty ↦ lines
  | env_block ↦ elim (find_map_key lines (suc e.index) key 6) [
    | none ↦ lines
    | some k ↦ splice lines k (find_block_end lines k 6) []
  ]
]

-- DeleteServiceEnv
unfoldable pub delete_service_env : Text → Text → Lines → Lines
unfolding delete_env_in find_environment_block
delete_service_env service key lines = elim (find_service lines service) [
  | none ↦ lines
  | some s ↦ elim (find_environment_block lines s) [
    | none ↦ lines
    | some e ↦ delete_env_in key e lines
  ]
]
