-- ===== src/Project/Entries.antt =====
-- pkg/component/compose.go: what the deletion of an entry of a section leaves of a document.
use sitectl.Prelude.{
  ◌≡◌, refl, sym, ap, ap₂, ◌∙◌, subst, Bool, true, false, not, ◌&&◌, ◌||◌, Bool-cases, inl, inr,
  Option, Option-cases, none, some, is_some, if◌then◌else◌, is_empty, arith,
}
use sitectl.Text.{Text, ◌==◌, trim_space}
use sitectl.Text.Equality.{eq_iff, Text-cases, ne→eq_false}
use sitectl.Yaml.{
  mapping, Node, mk, nil, cons, lookup_pairs, is_mapping, mapping_value, delete_mapping_key,
}
use sitectl.Yaml.Mapping.{IsMap}
use sitectl.Yaml.Update.{
  mapping_value-set, mapping_value-delete, IsMap-set, IsMap-delete, is_mapping-IsMap,
}
use sitectl.Document.{mapping_root, with_root}
use sitectl.Project.{has_entries, without_entry, delete_entry, delete_document_section_entry}

-- The entry of a name in a section
abbrev value_in : Option Node → Text → Option Node
value_in none name = none
value_in (some t) name = mapping_value t name

abbrev entry : Text → Text → Node → Option Node
entry section name root = value_in (mapping_value root section) name

no_value : (n : Node) (name : Text) → has_entries n ≡ false → mapping_value n name ≡ none
unfolding mapping_value lookup_pairs
no_value (mk mapping t v s nil) name h = refl
no_value (mk mapping t v s (cons m ms)) name h = cc
no_value (mk _ t v s c) name h = refl

-- A section that was found, without an entry
entry-without_entry :
    (s' n' s n : Text) (root target : Node)
    → IsMap root
    → mapping_value root s' ≡ some target
    → entry s n (without_entry s' n' root target)
      ≡ (if s' == s && n' == n then none else entry s n root)
entry-without_entry s' n' s n root target m found =
    let e = mapping_value-set root s' s (delete_mapping_key target n') m in
    let d = mapping_value-delete root s' s in
    let t = mapping_value-delete target n' n in
    let gone = no_value (delete_mapping_key target n') n in
    elim (Text-cases s' s) [
      | inr ne ↦
          let f = ne→eq_false s' s ne in
          elim (Bool-cases (has_entries (delete_mapping_key target n'))) [
            | inl h ↦ rw h (rw e (rw f refl))
            | inr h ↦ rw h (rw d (rw f refl))
          ]
      | inl same ↦
          let f = (eq_iff s' s).1 same in
          let here = subst (λ x. mapping_value root x ≡ some target) same found in
          elim (Bool-cases (has_entries (delete_mapping_key target n'))) [
            | inl h ↦ rw h (rw e (rw (f, here) t))
            | inr h ↦ rw h (rw d (rw (f, here) (sym (gone h) ∙ t)))
          ]
    ]

IsMap-without_entry :
    (s n : Text) (root target : Node) → IsMap root → IsMap (without_entry s n root target)
IsMap-without_entry s n root target m =
    elim (Bool-cases (has_entries (delete_mapping_key target n))) [
      | inl h ↦ rw h (IsMap-set root s (delete_mapping_key target n) m)
      | inr h ↦ rw h (IsMap-delete root s m)
    ]

-- A mapping that has the value of a key is a mapping.
is_mapping-value : (t : Node) (n : Text) → is_some (mapping_value t n) ≡ true → is_mapping t ≡ true
unfolding mapping_value
is_mapping-value (mk mapping t v s c) n h = refl
is_mapping-value (mk _ t v s c) n h = cc

value-absent :
    (t : Node) (n : Text)
    → is_mapping t && is_some (mapping_value t n) ≡ false
    → mapping_value t n ≡ none
value-absent t n h = elim (Option-cases (mapping_value t n)) [
  | inl e ↦ e
  | inr (v, e) ↦
      let there = is_mapping-value t n (ap is_some e) in
      let some_there = ap is_some e in absurd (apart h there some_there)
]
  where
    apart : {a b : Bool} → a && b ≡ false → a ≡ true → b ≡ true → ⊥
    apart h p q = ground arith

-- An entry that is not there can be left out.
entry-absent :
    (s' n' s n : Text) (root : Node)
    → entry s' n' root ≡ none
    → entry s n root ≡ (if s' == s && n' == n then none else entry s n root)
entry-absent s' n' s n root h = elim (Text-cases s' s) [
  | inr ne ↦ let f = ne→eq_false s' s ne in rw f refl
  | inl same ↦ elim (Text-cases n' n) [
    | inr ne ↦ let f = ne→eq_false n' n ne in rw ((eq_iff s' s).1 same, f) refl
    | inl same' ↦
        rw ((eq_iff s' s).1 same, (eq_iff n' n).1 same')
          (ap₂ (λ x y. entry x y root) (sym same) (sym same') ∙ h)
  ]
]

-- The entries of a root behind a deletion
entry-delete_entry :
    (s' n' s n : Text) (root : Node)
    → IsMap root
    → (entry s n (delete_entry s' n' root).0
        ≡ (if s' == s && n' == n then none else entry s n root))
      × IsMap (delete_entry s' n' root).0
unfolding delete_entry
entry-delete_entry s' n' s n root m = elim (Option-cases (mapping_value root s')) [
  | inl e ↦ rw (e, delete_entry) (entry-absent s' n' s n root (ap (λ o. value_in o n') e), m)
  | inr (target, e) ↦ elim (Bool-cases (is_mapping target && is_some (mapping_value target n'))) [
    | inl h ↦
        rw (e, h, delete_entry)
          (entry-without_entry s' n' s n root target m e, IsMap-without_entry s' n' root target m)
    | inr h ↦
        rw (e, h, delete_entry)
          (entry-absent s' n' s n root (ap (λ o. value_in o n') e ∙ value-absent target n' h), m)
  ]
]

-- The entry of a name in a section of a document whose root is a mapping
abbrev entry_in : Option Node → Text → Text → Option Node
entry_in none section name = none
entry_in (some root) section name = entry section name root

abbrev pub doc_entry : Text → Text → Node → Option Node
doc_entry section name doc = entry_in (mapping_root doc) section name

-- The document's root has whole pairs, where it is a mapping.
abbrev RootIsMap : Option Node → Type 0
RootIsMap none = Unit
RootIsMap (some root) = IsMap root

abbrev pub HasMapRoot : Node → Type 0
HasMapRoot doc = RootIsMap (mapping_root doc)

abbrev pub has_text : Text → Bool
has_text s = not (is_empty (trim_space s))

blank_names :
    (a b : Text) (c : Bool) (o : Option Node)
    → is_empty a || is_empty b ≡ true
    → o ≡ (if (not (is_empty a) && not (is_empty b)) && c then none else o)
blank_names a b c o h = ground arith

nothing : (c : Bool) → Path (Option Node) none (if c then none else none)
nothing c = ground arith

mapping_root-with_root :
    (doc root root' : Node)
    → mapping_root doc ≡ some root
    → IsMap root'
    → mapping_root (with_root doc root') ≡ some root'
unfolding mapping_root
mapping_root-with_root (mk k t v s nil) root root' h m = cc
mapping_root-with_root (mk k t v s (cons old rest)) root root' h m =
    rw (is_mapping-IsMap root' m) refl

deleted_at_root :
    (s' n' : Text) (doc root : Node)
    → is_empty (trim_space s') || is_empty (trim_space n') ≡ false
    → mapping_root doc ≡ some root
    → (delete_document_section_entry s' n' doc).0 ≡ with_root doc (delete_entry s' n' root).0
unfolding delete_document_section_entry
deleted_at_root s' n' doc root h e =
    rw (h, delete_document_section_entry) (rw (e, delete_document_section_entry) refl)

named :
    (a b : Text) (c : Bool) (o : Option Node)
    → is_empty a || is_empty b ≡ false
    → (if c then none else o) ≡ (if (not (is_empty a) && not (is_empty b)) && c then none else o)
named a b c o h = ground arith

at_root :
    (s' n' s n : Text) (doc root : Node)
    → HasMapRoot doc
    → is_empty (trim_space s') || is_empty (trim_space n') ≡ false
    → mapping_root doc ≡ some root
    → (doc_entry s n (delete_document_section_entry s' n' doc).0 ≡ (
        if (has_text s' && has_text n') && (s' == s && n' == n) then none else doc_entry s n doc))
      × HasMapRoot (delete_document_section_entry s' n' doc).0
at_root s' n' s n doc root m h e =
    let (law, m') = entry-delete_entry s' n' s n root (subst RootIsMap e m) in
    let root' = (delete_entry s' n' root).0 in
    let now : mapping_root (delete_document_section_entry s' n' doc).0 ≡ some root' =
      ap mapping_root (deleted_at_root s' n' doc root h e)
      ∙ mapping_root-with_root doc root root' e m' in
    (
      ap (λ o. entry_in o s n) now
          ∙ law
          ∙ named (trim_space s') (trim_space n') (s' == s && n' == n) (entry s n root) h
          ∙ ap
              (λ o.
                if (has_text s' && has_text n') && (s' == s && n' == n)
                then none
                else entry_in o s n)
              (sym e),
      subst RootIsMap (sym now) m',
    )

pub entry-delete_document :
    (s' n' s n : Text) (doc : Node)
    → HasMapRoot doc
    → (doc_entry s n (delete_document_section_entry s' n' doc).0 ≡ (
        if (has_text s' && has_text n') && (s' == s && n' == n) then none else doc_entry s n doc))
      × HasMapRoot (delete_document_section_entry s' n' doc).0
unfolding delete_document_section_entry
entry-delete_document s' n' s n doc m =
    elim (Bool-cases (is_empty (trim_space s') || is_empty (trim_space n'))) [
      | inl h ↦
          rw (h, delete_document_section_entry)
            (
              blank_names (trim_space s') (trim_space n') (s' == s && n' == n) (doc_entry s n doc)
                  h,
              m,
            )
      | inr h ↦ elim (Option-cases (mapping_root doc)) [
        | inl e ↦
            rw (h, delete_document_section_entry)
              (rw (e, delete_document_section_entry)
                (rw e (nothing (has_text s' && has_text n' && (s' == s && n' == n))), rw e tt))
        | inr (root, e) ↦ at_root s' n' s n doc root m h e
      ]
    ]
