-- ===== src/Rules/Tests.antt =====
-- A rule on a JSON file with a small codec, and the detection of a component by one rule.
use sitectl.Prelude.{
  ◌∙◌, nat_eq, Option-cases, refl, ◌≡◌, ◌+◌, Bool, true, false, ◌&&◌, Bool-cases, inl, inr, Option,
  none, some, List, [], ◌∷◌, ◌++◌, if◌then◌else◌, length, sym, ap,
}
use sitectl.Result.{Result, ok}
use sitectl.Text.{Text, codes, ◌==◌}
use sitectl.Rules.{
  file_missing, check, Value, null, boolean, number, sequence, text, object, Fields, no_fields,
  field, Error, op_set, op_restore, op_other, FileRule, YamlRule, member, match_rule_files,
}
use sitectl.Rules.Json.{get_field, walk}
use sitectl.Rules.Blocks.{newline}
use sitectl.Rules.Files.{Change, write_file, is_json_file_rule, apply_file_rule, evaluate_file_rule}
use sitectl.Rules.Files.Applied.{value_of, after, passes, read_as, some_is, passes-apply_file_rule}
use sitectl.Rules.State.{evaluate_file_state}
use sitectl.Rules.State.Cached.{direct_rules, evaluate_file_state-direct_rules}
use sitectl.Rules.Detect.{detected_on, DomainSpec, ComponentStatus, detect_component_status}
use sitectl.Rules.Detect.Counts.{state_by, all_match, detect_component_status-all_match}
use sitectl.Rules.Matching.{is_selected, are_distinct, match_rule_files-is_selected}

-- A codec of the objects with one field, of a name of one code point, that is a text or a number; a
-- number is read as a float.
unfoldable mutual
  as_float : Value → Value
  as_float (number n) = number (if n == codes "1000000" then codes "1e+06" else n)
  as_float (object fs) = object (as_floats fs)
  as_float v = v

  as_floats : Fields → Fields
  as_floats no_fields = no_fields
  as_floats (field k v fs) = field k (as_float v) (as_floats fs)

unfoldable encode : Option Fields → Option Text
encode (some (field (c ∷ []) (text v) no_fields)) = some (b't' ∷ c ∷ v)
encode (some (field (c ∷ []) (number n) no_fields)) = some (b'n' ∷ c ∷ n)
encode root = none

abbrev printed : Text
printed = codes "ta1"

abbrev but_last : Text → Text
but_last [] = []
but_last (c ∷ []) = []
but_last (c ∷ d ∷ s) = c ∷ but_last (d ∷ s)

unfoldable decode : Text → Option Value
unfolding as_float
decode (k ∷ c ∷ s) =
    let v = but_last s in
    some (object (field (c ∷ []) (if nat_eq k b't' then text v else as_float (number v)) no_fields))
decode s = none

abbrev sprint : Value → Text
sprint (text s) = s
sprint _ = []

abbrev rule : FileRule
rule = record {
  files = codes "composer.json" ∷ [];
  op = op_set;
  path = codes ".a";
  value = text (codes "1");
  start_marker = [];
  end_marker = [];
  content = [];
}

without_newline : (s : Text) → but_last (s ++ newline) ≡ s
without_newline [] = refl
without_newline (c ∷ []) = refl
without_newline (c ∷ d ∷ s) = ap (λ t. c ∷ t) (without_newline (d ∷ s))

decode-encode :
    (root : Option Fields) (s : Text)
    → encode root ≡ some s
    → decode (s ++ newline) ≡ some (as_float (value_of root))
unfolding encode decode as_float as_floats
decode-encode none s h = cc
decode-encode (some no_fields) s h = cc
decode-encode (some (field [] v fs)) s h = cc
decode-encode (some (field (c ∷ d ∷ k) v fs)) s h = cc
decode-encode (some (field (c ∷ []) null fs)) s h = cc
decode-encode (some (field (c ∷ []) (boolean b) fs)) s h = cc
decode-encode (some (field (c ∷ []) (sequence vs) fs)) s h = cc
decode-encode (some (field (c ∷ []) (object o) fs)) s h = cc
decode-encode (some (field (c ∷ []) (text v) (field k w fs))) s h = cc
decode-encode (some (field (c ∷ []) (number n) (field k w fs))) s h = cc
decode-encode (some (field (c ∷ []) (text v) no_fields)) s h =
    ap (λ t. decode (t ++ newline)) (sym (some_is h))
    ∙ ap (λ t. some (object (field (c ∷ []) (text t) no_fields))) (without_newline v)
decode-encode (some (field (c ∷ []) (number n) no_fields)) s h =
    ap (λ t. decode (t ++ newline)) (sym (some_is h))
    ∙ ap (λ t. some (object (field (c ∷ []) (as_float (number t)) no_fields))) (without_newline n)

get_field-as_floats :
    (key : Text) (fs : Fields) → get_field key (as_floats fs) ≡ read_as as_float (get_field key fs)
unfolding get_field as_floats
get_field-as_floats key no_fields = refl
get_field-as_floats key (field k v fs) = elim (Bool-cases (k == key)) [
  | inl e ↦ rw e refl
  | inr e ↦ rw e (get_field-as_floats key fs)
]

walk-none :
    (key : Text) (path : List Text) (fs : Fields)
    → get_field key fs ≡ none
    → walk (key ∷ path) (object fs) ≡ none
unfolding walk
walk-none key path fs e = rw (e, walk) refl

walk-some :
    (key : Text) (path : List Text) (fs : Fields) (v : Value)
    → get_field key fs ≡ some v
    → walk (key ∷ path) (object fs) ≡ walk path v
unfolding walk
walk-some key path fs v e = rw (e, walk) refl

walk-as_float :
    (path : List Text) (v : Value) → walk path (as_float v) ≡ read_as as_float (walk path v)
unfolding walk as_float
walk-as_float [] v = refl
walk-as_float (key ∷ path) null = refl
walk-as_float (key ∷ path) (boolean b) = refl
walk-as_float (key ∷ path) (number n) = refl
walk-as_float (key ∷ path) (text t) = refl
walk-as_float (key ∷ path) (sequence vs) = refl
walk-as_float (key ∷ path) (object fs) = elim (Option-cases (get_field key fs)) [
  | inl e ↦
      walk-none key path (as_floats fs) (get_field-as_floats key fs ∙ ap (read_as as_float) e)
      ∙ ap (read_as as_float) (sym (walk-none key path fs e))
  | inr (v, e) ↦
      walk-some key path (as_floats fs) (as_float v)
        (get_field-as_floats key fs ∙ ap (read_as as_float) e)
      ∙ walk-as_float path v
      ∙ ap (read_as as_float) (sym (walk-some key path fs v e))
]

-- What the rule makes of a file that is empty
abbrev made : Change
made = write_file (printed ++ newline)

rule_is_json : is_json_file_rule rule ≡ true
unfolding sitectl.Text.trim_space
rule_is_json = refl

rule_applies : apply_file_rule decode encode (some []) rule ≡ ok made
unfolding apply_file_rule encode sitectl.Text.trim_space sitectl.Rules.Json.get_field
    sitectl.Rules.Json.put_field sitectl.Rules.Json.child_object
rule_applies = refl

passes-apply_file_rule_example :
    passes (evaluate_file_rule decode sprint (after (some []) made) rule) ≡ true
unfolding as_float
passes-apply_file_rule_example =
    passes-apply_file_rule decode encode sprint as_float (some []) rule made decode-encode
      (λ path root. walk-as_float path (value_of root)) refl rule_is_json rule_applies

abbrev glob : Text → Text → Bool
glob pattern name = pattern == name

abbrev target : Text → Text
target rel = b'/' ∷ rel

abbrev read_file : Text → Result Error (Option Text)
read_file path = ok (if path == codes "/composer.json" then some (printed ++ newline) else none)

abbrev listed : Result Error (List Text)
listed = ok (codes "composer.json" ∷ [])

evaluate_file_state-direct_rules_example :
    evaluate_file_state decode sprint glob target listed read_file (rule ∷ rule ∷ [])
    ≡ direct_rules decode sprint glob target read_file listed (rule ∷ rule ∷ [])
evaluate_file_state-direct_rules_example =
    evaluate_file_state-direct_rules decode sprint glob target read_file listed (rule ∷ rule ∷ [])

abbrev available : List Text
available = codes "a.yml" ∷ codes "a.yml" ∷ codes "b.yml" ∷ []

abbrev patterns : List Text
patterns = codes "a.yml" ∷ []

match_rule_files-is_selected_example :
    (member (codes "a.yml") (match_rule_files glob available patterns [])
      ≡ (member (codes "a.yml") available && is_selected glob patterns [] (codes "a.yml")))
    × (are_distinct (match_rule_files glob available patterns []) ≡ true)
match_rule_files-is_selected_example =
    match_rule_files-is_selected glob patterns [] (codes "a.yml") available

abbrev override_rule : YamlRule
override_rule = record {
  files = codes "x.yml" ∷ [];
  exclude = [];
  op = op_restore;
  path = codes ".";
  value = text [];
  old = text [];
}

abbrev nothing : DomainSpec
nothing = record { compose = []; drupal = []; files = [] }

abbrev needs_file : DomainSpec
needs_file = record { compose = override_rule ∷ []; drupal = []; files = [] }

abbrev path_of : Text → Text → Text
path_of root rel = root ++ b'/' ∷ rel

abbrev list_files : Text → Result Error (List Text)
list_files root = listed

abbrev sort : {A : Type 0} → A → A
sort a = a

abbrev status : Result Error ComponentStatus
status =
    detect_component_status decode decode sprint glob path_of list_files read_file sort [] []
      (codes "solr") nothing needs_file

abbrev detected : ComponentStatus
detected = record {
  name = codes "solr";
  state = detected_on;
  on = record { passed = 0; failed = 0; results = [] };
  off = record {
    passed = 0;
    failed = 1;
    results =
        record {
          domain = codes "compose";
          file = codes "x.yml";
          op = op_restore;
          path = codes ".";
          result = check false file_missing;
        }
        ∷ [];
  };
}

status_is : status ≡ ok detected
unfolding detect_component_status
status_is = refl

detect_component_status-all_match_example :
    (detected_on ≡ state_by (all_match detected.on.results) (all_match detected.off.results))
    × (0 + 0 ≡ length detected.on.results)
    × (0 + 1 ≡ length detected.off.results)
detect_component_status-all_match_example =
    detect_component_status-all_match decode decode sprint glob path_of list_files read_file sort []
      [] (codes "solr") nothing needs_file detected status_is
