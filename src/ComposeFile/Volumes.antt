-- ===== src/ComposeFile/Volumes.antt =====
-- pkg/component/compose_file.go: the volumes of a service, removed by their source. `decode` is the
-- YAML decoder at a list of entries and `clean` is path.Clean. The item's indent is cut off by code
-- points.
use sitectl.Prelude.{
  ℕ, suc, Bool, false, ◌&&◌, ◌||◌, Option, none, some, List, [], ◌∷◌, ◌++◌, if◌then◌else◌, is_empty,
  nat_eq, leb, length, drop, map,
}
use sitectl.Text.{Text, codes, ◌==◌, trim_space, has_prefix, join, cut}
use sitectl.ComposeFile.{Lines, Edit, leading_spaces, find_block_end, slice, splice, line_at}
use sitectl.ComposeFile.Flexible.{
  Location, done, write, flexible_direct_child_indent, flexible_mapping_child,
  flexible_mapping_line_can_have_children,
}
use sitectl.ComposeFile.Build.{flexible_service_location, at_service}

-- A decoded entry: a string, a mapping with those of its values that are strings, or another one
pub data Entry : Type 0 where
  string : Text → Entry
  mapping : List (Text × Text) → Entry
  other : Entry

-- composeSequenceItemAtIndent
unfoldable pub compose_sequence_item_at_indent : Text → ℕ → Bool
unfolding leading_spaces
compose_sequence_item_at_indent line indent =
    nat_eq (leading_spaces line) indent
    && (trim_space line == codes "-" || has_prefix (trim_space line) (codes "- "))

-- The value of a key, or no text
abbrev value_of : Text → List (Text × Text) → Text
value_of key [] = []
value_of key ((k, v) ∷ kvs) = let rest = value_of key kvs in if k == key then v else rest

unfoldable pub entry_source : Entry → Text
unfolding cut
entry_source (string s) =
    let parts = cut s b':' in if parts.found then trim_space parts.before else []
entry_source (mapping kvs) = trim_space (value_of (codes "source") kvs)
entry_source other = []

module _ (decode : Text → Option (List Entry)) (clean : Text → Text) where
  -- composeVolumeSource
  unfoldable pub compose_volume_source : Lines → Text
  unfolding entry_source leading_spaces
  compose_volume_source [] = []
  compose_volume_source (first ∷ lines) =
      let indent = leading_spaces first in
      let fragment =
        map (λ l. if leb indent (length l) then drop indent l else l) (first ∷ lines) in
      elim (decode (join fragment (b'\n' ∷ []))) [
        | none ↦ []
        | some entries ↦ elim entries [ [] ↦ [] | (e ∷ []) ↦ entry_source e | (e ∷ _ ∷ _) ↦ [] ]
      ]

  -- The loop of RemoveServiceVolumesBySource. The lines are read from the end: the second part is
  -- the run of lines, not yet decided on, that belongs to an item above it if there is one.
  unfoldable pub filter_items : Text → ℕ → Lines → Lines × Lines
  unfolding compose_volume_source compose_sequence_item_at_indent
  filter_items source indent [] = ([], [])
  filter_items source indent (line ∷ lines) =
      let (filtered, run) = filter_items source indent lines in
      if compose_sequence_item_at_indent line indent
      then if clean (compose_volume_source (line ∷ run)) == clean source
        then (filtered, [])
        else (line ∷ run ++ filtered, [])
      else (filtered, line ∷ run)

  abbrev pub without_items : Text → ℕ → Lines → Lines
  without_items source indent lines =
      let (filtered, run) = filter_items source indent lines in run ++ filtered

  -- RemoveServiceVolumesBySource at the key of the volumes
  unfoldable pub remove_volumes_at : Text → Location → Lines → Lines
  unfolding filter_items flexible_direct_child_indent
  remove_volumes_at source l lines =
      let end = find_block_end lines l.index l.indent in
      let indent = flexible_direct_child_indent lines l.index l.indent l.step in
      splice lines (suc l.index) end (without_items source indent (slice lines (suc l.index) end))

  unfoldable pub remove_volumes_below : Text → Location → Lines → Lines
  unfolding remove_volumes_at flexible_mapping_child flexible_mapping_line_can_have_children
  remove_volumes_below source service lines =
      elim (flexible_mapping_child lines service (codes "volumes")) [
        | none ↦ lines
        | some l ↦
            if flexible_mapping_line_can_have_children (line_at lines l.index) (codes "volumes")
            then remove_volumes_at source l lines
            else lines
      ]

  -- RemoveServiceVolumesBySource
  unfoldable pub remove_service_volumes_by_source : Text → Text → Edit (Unit {0})
  unfolding flexible_service_location remove_volumes_below
  remove_service_volumes_by_source service source_path =
      if is_empty (trim_space source_path)
      then done tt
      else at_service false service (λ l. write (remove_volumes_below (trim_space source_path) l))
          (done tt)
