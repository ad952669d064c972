-- ===== src/Rules/Json/Paths.antt =====
-- pkg/component/file_rules.go: what is found at a path after it was set or deleted.
use sitectl.Prelude.{◌≡◌, refl, sym, Bool-cases, inl, inr, Option-cases, none, some, List, [], ◌∷◌}
use sitectl.Result.{ok, ◌>>=◌, >>=-eq-ok, ok-injective}
use sitectl.Text.{Text, ◌==◌}
use sitectl.Text.Equality.{eq_refl}
use sitectl.Rules.{Value, object, Fields, no_fields, field}
use sitectl.Rules.Json.{
  get_field, put_field, drop_field, child_object, fields_of, set_json_object_path,
  delete_json_object_path, walk,
}

pub get_field-put_field :
    (key : Text) (v : Value) (fs : Fields) → get_field key (put_field key v fs) ≡ some v
unfolding get_field put_field
get_field-put_field key v no_fields = rw (eq_refl key) refl
get_field-put_field key v (field k old fs) = elim (Bool-cases (k == key)) [
  | inl e ↦ rw e (rw e refl)
  | inr e ↦ rw e (rw e (get_field-put_field key v fs))
]

pub get_field-drop_field : (key : Text) (fs : Fields) → get_field key (drop_field key fs) ≡ none
unfolding get_field drop_field
get_field-drop_field key no_fields = refl
get_field-drop_field key (field k v fs) = elim (Bool-cases (k == key)) [
  | inl e ↦ rw e (get_field-drop_field key fs)
  | inr e ↦ rw e (rw e (get_field-drop_field key fs))
]

-- A value that is set at a path is found there.
pub walk-set_json_object_path :
    (path : List Text) (v : Value) (root root' : Fields)
    → set_json_object_path path v root ≡ ok root'
    → walk path (object root') ≡ some v
unfolding walk set_json_object_path
walk-set_json_object_path [] v root root' h = cc
walk-set_json_object_path (key ∷ []) v root root' h =
    rw (sym (ok-injective h)) (rw (get_field-put_field key v root, walk) refl)
walk-set_json_object_path (key ∷ next ∷ path) v root root' h =
    let (child', made, put) =
      >>=-eq-ok
        (child_object key (get_field key root)
          >>= (λ child. set_json_object_path (next ∷ path) v child))
        (λ child'. ok (put_field key (object child') root)) h in
    let (child, _, set) =
      >>=-eq-ok (child_object key (get_field key root))
        (λ child. set_json_object_path (next ∷ path) v child) made in
    rw (sym (ok-injective put)) (
      rw (get_field-put_field key (object child') root, walk)
        (walk-set_json_object_path (next ∷ path) v child child' set))

walk-no_fields :
    (key next : Text) (path : List Text) (root : Fields)
    → fields_of (get_field key root) ≡ none
    → walk (key ∷ next ∷ path) (object root) ≡ none
unfolding walk
walk-no_fields key next path root h = elim (Option-cases (get_field key root)) [
  | inl e ↦ rw (e, walk) refl
  | inr (v, e) ↦ rw (e, walk) (rw (rw e at h, walk) refl)
]

-- Nothing is found at a path that was deleted.
pub walk-delete_json_object_path :
    (key : Text) (path : List Text) (root : Fields)
    → walk (key ∷ path) (object (delete_json_object_path (key ∷ path) root)) ≡ none
unfolding walk delete_json_object_path
walk-delete_json_object_path key [] root = rw (get_field-drop_field key root, walk) refl
walk-delete_json_object_path key (next ∷ path) root =
    elim (Option-cases (fields_of (get_field key root))) [
      | inl e ↦ rw (e, delete_json_object_path) (walk-no_fields key next path root e)
      | inr (child, e) ↦
          rw (e, delete_json_object_path)
            (rw
              (
                get_field-put_field key (object (delete_json_object_path (next ∷ path) child)) root,
                walk,
              )
              (walk-delete_json_object_path next path child))
    ]
