-- ===== src/Rules/Files/Applied.antt =====
-- pkg/component/file_rules.go: a JSON rule that was applied to a file passes its evaluation.
use sitectl.Prelude.{
  ◌≡◌, refl, sym, ap, ◌∙◌, subst, Bool, true, false, not, ◌&&◌, Bool-cases, inl, inr, Option, none,
  some, is_some, List, [], ◌∷◌, ◌++◌, is_empty,
}
use sitectl.Result.{Result, ok, err, >>=-eq-ok, ok-injective}
use sitectl.Text.{Text, ◌==◌}
use sitectl.Text.Equality.{eq_refl, eq_sound}
use sitectl.Rules.{
  RuleOp, op_set, op_delete, op_restore, op_replace, op_contains, op_not_contains, op_other, Value,
  null, object, Fields, Error, encode_failed, FileRule, Check,
}
use sitectl.Rules.Json.{parse_file_rule_path, walk, set_json_object_path}
use sitectl.Rules.Json.Paths.{walk-set_json_object_path, walk-delete_json_object_path}
use sitectl.Rules.Blocks.{newline}
use sitectl.Rules.Files.{
  Change, keep_file, write_file, is_json_file_rule, is_delete, not_empty, json_path, edit_object,
  check_found, change_to, data_of, or_failed, read_object, apply_json_file_rule, apply_file_rule,
  updated_text, evaluate_file_rule, json_file_rule_value,
}

-- The value that a map is encoded as
abbrev pub value_of : Option Fields → Value
value_of none = null
value_of (some fs) = object fs

-- The file behind a change
abbrev pub after : Option Text → Change → Option Text
after contents keep_file = contents
after contents (write_file t) = some t

abbrev pub passes : Result Error Check → Bool
passes (ok c) = c.match
passes (err e) = false

walk-null : (key : Text) (path : List Text) → walk (key ∷ path) null ≡ none
unfolding walk
walk-null key path = refl

pub some_is : {A : Type 0} {a b : A} → Path (Option A) (some a) (some b) → a ≡ b
some_is {A} {a} {b} h = ap (from_some a) h
  where
    from_some : A → Option A → A
    from_some a (some b) = b
    from_some a none = a

-- What JSON makes of a value that is found
abbrev pub read_as : (Value → Value) → Option Value → Option Value
read_as as_read none = none
read_as as_read (some v) = some (as_read v)

-- The value of a rule that sets it prints alike before and behind JSON.
abbrev pub PrintsAlike : (Value → Value) → (Value → Text) → RuleOp → Value → Type 0
PrintsAlike as_read sprint op_set v = sprint (as_read v) ≡ sprint v
PrintsAlike as_read sprint _ v = Unit

-- What is found at the path behind an edit and JSON passes the check of the rule's operation.
check_found-edit_object :
    (as_read : Value → Value) (sprint : Value → Text) (op : RuleOp) (key : Text) (path : List Text)
    (v : Value) (root root' : Option Fields)
    → PrintsAlike as_read sprint op v
    → edit_object op (key ∷ path) v root ≡ ok root'
    → (check_found sprint op v (read_as as_read (walk (key ∷ path) (value_of root')))).match ≡ true
unfolding edit_object check_found
check_found-edit_object as_read sprint op_set key path v none root' alike h = cc
check_found-edit_object as_read sprint op_restore key path v none root' alike h = cc
check_found-edit_object as_read sprint op_delete key path v none root' alike h =
    rw (sym (ok-injective h)) (rw (walk-null key path) refl)
check_found-edit_object as_read sprint op_set key path v (some fs) root' alike h =
    let (fs', set, done) =
      >>=-eq-ok (set_json_object_path (key ∷ path) v fs) (λ f. ok (some f)) h in
    rw (sym (ok-injective done)) (
      rw (walk-set_json_object_path (key ∷ path) v fs fs' set)
        (rw (alike, eq_refl (sprint v)) refl))
check_found-edit_object as_read sprint op_restore key path v (some fs) root' alike h =
    let (fs', set, done) =
      >>=-eq-ok (set_json_object_path (key ∷ path) v fs) (λ f. ok (some f)) h in
    rw (sym (ok-injective done)) (rw (walk-set_json_object_path (key ∷ path) v fs fs' set) refl)
check_found-edit_object as_read sprint op_delete key path v (some fs) root' alike h =
    rw (sym (ok-injective h)) (rw (walk-delete_json_object_path key path fs) refl)
check_found-edit_object as_read sprint op_replace key path v root root' alike h = cc
check_found-edit_object as_read sprint op_contains key path v root root' alike h = cc
check_found-edit_object as_read sprint op_not_contains key path v root root' alike h = cc
check_found-edit_object as_read sprint (op_other s) key path v root root' alike h = cc

not_empty-segments :
    (path segments : List Text)
    → not_empty path ≡ ok segments
    → (key : Text) × (rest : List Text) × (segments ≡ key ∷ rest)
not_empty-segments [] segments h = cc
not_empty-segments (key ∷ path) segments h = (key, path, sym (ok-injective h))

-- The path of a JSON rule has a segment.
json_path-segments :
    (path : Text) (segments : List Text)
    → json_path path ≡ ok segments
    → (key : Text) × (rest : List Text) × (segments ≡ key ∷ rest)
unfolding json_path
json_path-segments path segments h =
    let (parsed, _, some_left) = >>=-eq-ok (parse_file_rule_path path) not_empty h in
    not_empty-segments parsed segments some_left

after-change_to :
    (contents : Option Text) (t : Text)
    → is_empty t ≡ false
    → after contents (change_to (data_of contents) t) ≡ some t
unfolding ◌==◌
after-change_to none [] h = cc
after-change_to none (c ∷ t) h = refl
after-change_to (some body) t h = elim (Bool-cases (body == t)) [
  | inl e ↦ rw e (ap some (eq_sound body t e))
  | inr e ↦ rw e refl
]

append-newline : (t : Text) → is_empty (t ++ newline) ≡ false
append-newline [] = refl
append-newline (c ∷ t) = refl

or_failed-some : {A : Type 0} (e : Error) (o : Option A) (a : A) → or_failed e o ≡ ok a → o ≡ some a
or_failed-some e none a h = cc
or_failed-some e (some b) a h = ap some (ok-injective h)

module _ (decode : Text → Option Value) (encode : Option Fields → Option Text)
    (sprint : Value → Text) where
  -- The steps of a JSON rule that was applied
  apply_json_file_rule-steps :
      (body t : Text) (rule : FileRule)
      → apply_json_file_rule decode encode body rule ≡ ok t
      → (key : Text) × (path : List Text) × (root : Option Fields) × (root' : Option Fields)
        × (s : Text) × (json_path rule.path ≡ ok (key ∷ path))
        × (edit_object rule.op (key ∷ path) rule.value root ≡ ok root')
        × (encode root' ≡ some s)
        × (s ++ newline ≡ t)
  unfolding apply_json_file_rule
  apply_json_file_rule-steps body t rule h =
      let (p, parsed, h₁) = >>=-eq-ok (json_path rule.path) _ h in
      let (root, _, h₂) = >>=-eq-ok (read_object decode encode body) _ h₁ in
      let (root', edited, h₃) = >>=-eq-ok (edit_object rule.op p rule.value root) _ h₂ in
      let (s, encoded, h₄) = >>=-eq-ok (or_failed encode_failed (encode root')) _ h₃ in
      let (key, path, e) = json_path-segments rule.path p parsed in
      (
        key,
        path,
        root,
        root',
        s,
        parsed ∙ ap ok e,
        subst (λ q. edit_object rule.op q rule.value root ≡ ok root') e edited,
        or_failed-some encode_failed (encode root') s encoded,
        ok-injective h₄,
      )

  -- The evaluation of a JSON rule on a file that decodes
  passes-evaluate_file_rule :
      (body : Text) (rule : FileRule) (segments : List Text) (v : Value)
      → is_json_file_rule rule ≡ true
      → json_path rule.path ≡ ok segments
      → decode body ≡ some v
      → passes (evaluate_file_rule decode sprint (some body) rule)
        ≡ (check_found sprint rule.op rule.value (walk segments v)).match
  unfolding evaluate_file_rule json_file_rule_value
  passes-evaluate_file_rule body rule segments v json parsed decoded =
      rw (json, parsed, decoded) refl

  apply_file_rule-json :
      (contents : Option Text) (rule : FileRule) (c : Change)
      → is_json_file_rule rule ≡ true
      → not (is_some contents) && is_delete rule.op ≡ false
      → apply_file_rule decode encode contents rule ≡ ok c
      → (t : Text) × (apply_json_file_rule decode encode (data_of contents) rule ≡ ok t)
        × (change_to (data_of contents) t ≡ c)
  unfolding apply_file_rule updated_text
  apply_file_rule-json contents rule c json reads h =
      let h' = rw (reads, json) at h in
      let (t, applied, changed) =
        >>=-eq-ok (apply_json_file_rule decode encode (data_of contents) rule) _ h' in
      (t, applied, ok-injective changed)

  absent_and_deleted :
      (contents : Option Text) (rule : FileRule) (c : Change)
      → not (is_some contents) && is_delete rule.op ≡ true
      → apply_file_rule decode encode contents rule ≡ ok c
      → passes (evaluate_file_rule decode sprint (after contents c) rule) ≡ true
  unfolding apply_file_rule evaluate_file_rule
  absent_and_deleted none rule c d h = let e = ok-injective (rw d at h) in rw (sym e) (rw d refl)
  absent_and_deleted (some body) rule c d h = cc

  -- A JSON rule that was applied to a file without an error passes its evaluation on the file as it is
  -- then. The conditions are on the codec and the rule: what is written for an object, with the newline
  -- behind it, decodes to the object as JSON reads it (`as_read`, which may sort keys and turn numbers
  -- into floats); what is found at a path in it is what was found there, as JSON reads it; and a rule
  -- that sets a value has one that prints alike before and behind JSON.
  pub passes-apply_file_rule :
      (as_read : Value → Value) (contents : Option Text) (rule : FileRule) (c : Change)
      → ((root : Option Fields) (s : Text)
          → encode root ≡ some s
          → decode (s ++ newline) ≡ some (as_read (value_of root)))
      → ((path : List Text) (root : Option Fields)
          → walk path (as_read (value_of root)) ≡ read_as as_read (walk path (value_of root)))
      → PrintsAlike as_read sprint rule.op rule.value
      → is_json_file_rule rule ≡ true
      → apply_file_rule decode encode contents rule ≡ ok c
      → passes (evaluate_file_rule decode sprint (after contents c) rule) ≡ true
  passes-apply_file_rule as_read contents rule c codec found alike json h =
      elim (Bool-cases (not (is_some contents) && is_delete rule.op)) [
        | inl d ↦ absent_and_deleted contents rule c d h
        | inr reads ↦
            let (t, applied, changed) = apply_file_rule-json contents rule c json reads h in
            let (key, path, root, root', s, parsed, edited, encoded, written) =
              apply_json_file_rule-steps (data_of contents) t rule applied in
            let now = after-change_to contents t (ap is_empty (sym written) ∙ append-newline s) in
            ap (λ ch. passes (evaluate_file_rule decode sprint (after contents ch) rule))
              (sym changed)
            ∙ ap (λ f. passes (evaluate_file_rule decode sprint f rule))
                (now ∙ ap some (sym written))
            ∙ passes-evaluate_file_rule (s ++ newline) rule (key ∷ path) (as_read (value_of root'))
                json parsed (codec root' s encoded)
            ∙ ap (λ o. (check_found sprint rule.op rule.value o).match) (found (key ∷ path) root')
            ∙ check_found-edit_object as_read sprint rule.op key path rule.value root root' alike
                edited
      ]
