-- ===== src/Document/Scalar.antt =====
-- The edits of a block scalar's text: scalarStringContains, appendScalarString,
-- removeScalarString and removeScalarStringsMatching.
use sitectl.Prelude.{
  ℕ, Bool, true, false, not, ◌&&◌, ◌||◌, List, [], ◌∷◌, ◌++◌, if◌then◌else◌, is_empty, nat_eq, any,
}
use sitectl.Text.{
  Text, ◌==◌, trim_space, trim_right, contains, contains_any, replace_first, fields, split, join,
}

abbrev pub lf : ℕ
lf = 10

abbrev pub cr : ℕ
cr = 13

-- The test of strings.ContainsAny(value, " \t\r\n")
abbrev pub is_blank : ℕ → Bool
is_blank c = nat_eq c 32 || nat_eq c 9 || nat_eq c cr || nat_eq c lf

-- The test of the cutset "\r\n"
abbrev pub is_line_end : ℕ → Bool
is_line_end c = nat_eq c cr || nat_eq c lf

unfoldable pub scalar_string_contains : Text → Text → Bool
unfolding ◌==◌ trim_space contains contains_any fields
scalar_string_contains existing value =
    let wanted = trim_space value in
    if is_empty wanted
    then true
    else if contains_any wanted is_blank
    then contains existing wanted
    else any (λ field. field == wanted) (fields existing)

unfoldable pub append_scalar_string : Text → Text → Text
unfolding trim_right trim_space
append_scalar_string existing value =
    let kept = trim_right is_line_end existing in
    if is_empty (trim_space kept) then trim_space value else kept ++ lf ∷ trim_space value

pub record Replacement : Type 0 where
  pub old : Text
  pub new : Text

unfoldable pub replacements : Text → List Replacement
replacements value =
    record { old = lf ∷ value ++ lf ∷ []; new = lf ∷ [] }
    ∷ record { old = cr ∷ lf ∷ value ++ cr ∷ lf ∷ []; new = cr ∷ lf ∷ [] }
    ∷ record { old = lf ∷ value; new = [] }
    ∷ record { old = cr ∷ lf ∷ value; new = [] }
    ∷ record { old = value ++ lf ∷ []; new = [] }
    ∷ record { old = value ++ cr ∷ lf ∷ []; new = [] }
    ∷ record { old = b' ' ∷ value ++ b' ' ∷ []; new = b' ' ∷ [] }
    ∷ record { old = b' ' ∷ value; new = [] }
    ∷ record { old = value ++ b' ' ∷ []; new = [] }
    ∷ []

-- A text and whether it changed
unfoldable pub apply_first : List Replacement → Text → Text × Bool
unfolding contains replace_first
apply_first [] existing = (existing, false)
apply_first (r ∷ rs) existing =
    let later = apply_first rs existing in
    if contains existing r.old then (replace_first existing r.old r.new, true) else later

unfoldable pub remove_scalar_string : Text → Text → Text × Bool
unfolding ◌==◌ trim_space replacements apply_first
remove_scalar_string existing value =
    let wanted = trim_space value in
    if is_empty wanted
    then (existing, false)
    else if trim_space existing == wanted
    then ([], true)
    else apply_first (replacements wanted) existing

-- strings.ReplaceAll(existing, "\r\n", "\n")
unfoldable pub unix_lines : Text → Text
unix_lines [] = []
unix_lines (c ∷ []) = c ∷ []
unix_lines (c ∷ d ∷ s) =
    let rest = unix_lines (d ∷ s) in if nat_eq c cr && nat_eq d lf then rest else c ∷ rest

unfoldable pub has_lines : Text → Bool
unfolding contains_any
has_lines existing = contains_any existing is_line_end

unfoldable pub parts_of : Text → List Text
unfolding has_lines fields split unix_lines
parts_of existing =
    if has_lines existing then split (λ c. nat_eq c lf) (unix_lines existing) else fields existing

unfoldable pub separator_of : Text → Text
unfolding has_lines
separator_of existing = if has_lines existing then lf ∷ [] else b' ' ∷ []

-- The parts that are kept, trimmed; and whether one was dropped
unfoldable pub filter_parts : (Text → Bool) → List Text → List Text
unfolding trim_space
filter_parts match [] = []
filter_parts match (part ∷ rest) =
    let later = filter_parts match rest in
    if is_empty (trim_space part)
    then later
    else if match (trim_space part)
    then later
    else trim_space part ∷ later

unfoldable pub drops_part : (Text → Bool) → List Text → Bool
unfolding trim_space
drops_part match [] = false
drops_part match (part ∷ rest) =
    not (is_empty (trim_space part)) && match (trim_space part) || drops_part match rest

unfoldable pub remove_scalar_strings_matching : Text → (Text → Bool) → Text × Bool
unfolding trim_space parts_of separator_of filter_parts drops_part join
remove_scalar_strings_matching existing match =
    if is_empty (trim_space existing)
    then (existing, false)
    else if drops_part match (parts_of existing)
    then (join (filter_parts match (parts_of existing)) (separator_of existing), true)
    else (existing, false)
