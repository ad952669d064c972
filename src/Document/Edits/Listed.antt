-- ===== src/Document/Edits/Listed.antt =====
-- AppendUniqueString, RemoveString and RemoveMatchingString on sequences: a sequence of strings is
-- used as a set.
use sitectl.Prelude.{
  ℕ, Bool, false, Option, none, some, List, ◌∷◌, ◌≡◌, refl, ap, ◌∙◌, arith, inl, inr, Bool-cases,
  ◌||◌, ◌&&◌, not,
}
use sitectl.Result.{ok}
use sitectl.Text.{Text, ◌==◌}
use sitectl.Text.Equality.{eq_refl, eq_iff, eq_sound}
use sitectl.Yaml.{
  scalar, sequence, Node, Nodes, mk, nil, cons, mapping_value, append_nodes, str_scalar, value,
}
use sitectl.Yaml.Mapping.{IsMap}
use sitectl.Yaml.Update.{mapping_value-set, mapping_value-delete}
use sitectl.Document.{Document, last}
use sitectl.Document.Path.{parse_yaml_path}
use sitectl.Document.Edits.{
  holds, append_to, append_unique_string, any_item, drop_items, put_items, remove_value,
  remove_string, remove_matches, remove_matching_string,
}
use sitectl.Document.Edits.Access.{at, IsDocument}
use sitectl.Document.Edits.Local.{remove_value-IsLocal, remove_matches-IsLocal}
use sitectl.Document.Edits.Inside.{inside_makes}
use sitectl.Document.Edits.Writes.{at-append_unique_string}

-- The value is missing or a sequence, and the strings in it.
abbrev pub IsListed : Option Node → Type 0
IsListed none = Unit
IsListed (some (mk sequence t u s c)) = Unit
IsListed (some (mk _ t u s c)) = ⊥

unfoldable pub listed : Text → Option Node → Bool
unfolding holds
listed w none = false
listed w (some (mk sequence t u s c)) = holds w c
listed w (some (mk _ t u s c)) = false

holds-append :
    (w v : Text) (c : Nodes)
    → holds w (append_nodes c (cons (str_scalar v) nil)) ≡ (v == w || holds w c)
unfolding holds
holds-append w v nil = ground arith
holds-append w v (cons n ns) = ground (arith, holds-append w v ns)

holds-drop :
    (w : Text) (match : Text → Bool) (c : Nodes)
    → holds w (drop_items match c) ≡ (not (match w) && holds w c)
unfolding holds drop_items
holds-drop w match nil = ground arith
holds-drop w match (cons n ns) = elim (Bool-cases (value n == w)) [
  | inl e ↦ ground (arith, holds-drop w match ns, ap match (eq_sound (value n) w e))
  | inr e ↦ ground (arith, holds-drop w match ns)
]

holds-any :
    (w : Text) (match : Text → Bool) (c : Nodes)
    → any_item match c ≡ false
    → holds w c ≡ (not (match w) && holds w c)
unfolding holds any_item
holds-any w match nil e = ground arith
holds-any w match (cons n ns) e = elim (Bool-cases (value n == w)) [
  | inl p ↦ ground (arith, holds-any w match ns, ap match (eq_sound (value n) w p))
  | inr p ↦ ground (arith, holds-any w match ns)
]

listed-append_to :
    (w v : Text) (old : Option Node)
    → IsListed old
    → listed w (append_to v old) ≡ (v == w || listed w old)
unfolding listed append_to
listed-append_to w v none h = ground arith
listed-append_to w v (some (mk sequence t u s c)) h = ground (arith, holds-append w v c, eq_iff v w)
listed-append_to w v (some (mk _ t u s c)) h = elim h [ ]

-- In a well-formed document and for a path of at least one segment, where nothing or a sequence
-- stands: if AppendUniqueString succeeds, the string is listed afterwards, and the others are
-- listed as they were.
pub listed-append_unique_string :
    (d : Document) (path v first : Text) (rest : List Text) (w : Text)
    → parse_yaml_path path ≡ ok (first ∷ rest)
    → IsDocument d.node
    → IsListed (at d (first ∷ rest))
    → (append_unique_string d path v).1 ≡ ok tt
    → listed w (at (append_unique_string d path v).0 (first ∷ rest))
      ≡ (v == w || listed w (at d (first ∷ rest)))
listed-append_unique_string d path v first rest w parsed well h done =
    ap (listed w) (at-append_unique_string d path v first rest parsed well done)
    ∙ listed-append_to w v (at d (first ∷ rest)) h

listed-put_items :
    (w key : Text) (n : Node) (t u : Text) (s : ℕ) (c items : Nodes)
    → IsMap n
    → listed w (mapping_value (put_items key n (mk sequence t u s c) items) key) ≡ holds w items
unfolding listed put_items
listed-put_items w key n t u s c nil m = ground (arith, mapping_value-delete n key key, eq_refl key)
listed-put_items w key n t u s c (cons i is) m =
    ground (arith, mapping_value-set n key key (mk sequence t u s (cons i is)) m, eq_refl key)

listed-remove_value :
    (w v key : Text) (n : Node) (old : Option Node)
    → IsMap n
    → mapping_value n key ≡ old
    → IsListed old
    → listed w (mapping_value (remove_value v key n old) key) ≡ (not (w == v) && listed w old)
unfolding remove_value
listed-remove_value w v key n none m p h = rw p (unfold listed in ground arith)
listed-remove_value w v key n (some (mk sequence t u s c)) m p h =
    listed-put_items w key n t u s c (drop_items (λ item. item == v) c) m
    ∙ (unfold listed in holds-drop w (λ item. item == v) c)
listed-remove_value w v key n (some (mk _ t u s c)) m p h = elim h [ ]

-- In a well-formed document and for a path of at least one segment, where nothing or a sequence
-- stands: if RemoveString succeeds, the removed string is listed no more, and the others are
-- listed as they were.
pub listed-remove_string :
    (d : Document) (path v first : Text) (rest : List Text) (w : Text)
    → parse_yaml_path path ≡ ok (first ∷ rest)
    → IsDocument d.node
    → IsListed (at d (first ∷ rest))
    → (remove_string d path v).1 ≡ ok tt
    → listed w (at (remove_string d path v).0 (first ∷ rest))
      ≡ (not (w == v) && listed w (at d (first ∷ rest)))
unfolding remove_string
listed-remove_string d path v first rest w parsed well h done =
    inside_makes (λ key parent. (remove_value v key parent (mapping_value parent key), tt)) tt d
      path first rest parsed (remove_value-IsLocal v (last first rest)) well
      (λ old new _. IsListed old → listed w new ≡ (not (w == v) && listed w old)) tt
      (λ _. unfold listed in ground arith)
      (λ n m _ listed_old.
        listed-remove_value w v (last first rest) n (mapping_value n (last first rest)) m refl
          listed_old)
      done h

listed-remove_matches :
    (w : Text) (match : Text → Bool) (key : Text) (n : Node) (old : Option Node)
    → IsMap n
    → mapping_value n key ≡ old
    → IsListed old
    → listed w (mapping_value (remove_matches match key n old).0 key)
      ≡ (not (match w) && listed w old)
unfolding remove_matches
listed-remove_matches w match key n none m p h = rw p (unfold listed in ground arith)
listed-remove_matches w match key n (some (mk sequence t u s c)) m p h =
    elim (Bool-cases (any_item match c)) [
      | inl e ↦ rw e (
          listed-put_items w key n t u s c (drop_items match c) m
          ∙ (unfold listed in holds-drop w match c))
      | inr e ↦ rw (e, p) (unfold listed in holds-any w match c e)
    ]
listed-remove_matches w match key n (some (mk _ t u s c)) m p h = elim h [ ]

remove_matches-false :
    (match : Text → Bool) (key : Text) (n : Node) (old : Option Node)
    → (remove_matches match key n old).1 ≡ false
    → (remove_matches match key n old).0 ≡ n
unfolding remove_matches
remove_matches-false match key n none r = refl
remove_matches-false match key n (some (mk scalar t u s c)) r = ground arith
remove_matches-false match key n (some (mk sequence t u s c)) r = ground arith
remove_matches-false match key n (some (mk _ t u s c)) r = refl

matching_both :
    (d : Document) (path first : Text) (rest : List Text) (match : Text → Bool) (changed : Bool)
    → parse_yaml_path path ≡ ok (first ∷ rest)
    → IsDocument d.node
    → (remove_matching_string d path (some match)).1 ≡ ok changed
    → (IsListed (at d (first ∷ rest))
        → (w : Text)
        → listed w (at (remove_matching_string d path (some match)).0 (first ∷ rest))
          ≡ (not (match w) && listed w (at d (first ∷ rest))))
      × (changed ≡ false
          → at (remove_matching_string d path (some match)).0 (first ∷ rest) ≡ at d (first ∷ rest))
unfolding remove_matching_string
matching_both d path first rest match changed parsed well done =
    inside_makes (λ key parent. remove_matches match key parent (mapping_value parent key)) false d
      path first rest parsed (remove_matches-IsLocal match (last first rest)) well
      (λ old new r.
        (IsListed old → (w : Text) → listed w new ≡ (not (match w) && listed w old))
        × (r ≡ false → new ≡ old))
      changed ((λ _ w. unfold listed in ground arith), (λ _. refl))
      (λ n m _. (
        (λ h w.
            listed-remove_matches w match (last first rest) n (mapping_value n (last first rest)) m
              refl h),
        (λ r.
            ap (λ k. mapping_value k (last first rest))
              (remove_matches-false match (last first rest) n (mapping_value n (last first rest))
                r)),
      ))
      done

-- In a well-formed document and for a path of at least one segment, where nothing or a sequence
-- stands: if RemoveMatchingString succeeds, no matching string is listed afterwards, and the
-- others are listed as they were.
pub listed-remove_matching_string :
    (d : Document) (path first : Text) (rest : List Text) (match : Text → Bool) (changed : Bool)
    (w : Text)
    → parse_yaml_path path ≡ ok (first ∷ rest)
    → IsDocument d.node
    → IsListed (at d (first ∷ rest))
    → (remove_matching_string d path (some match)).1 ≡ ok changed
    → listed w (at (remove_matching_string d path (some match)).0 (first ∷ rest))
      ≡ (not (match w) && listed w (at d (first ∷ rest)))
listed-remove_matching_string d path first rest match changed w parsed well h done =
    (matching_both d path first rest match changed parsed well done).0 h w

-- In a well-formed document and for a path of at least one segment: if RemoveMatchingString
-- answers that nothing changed, what stands at the path is as it was, whatever it is.
pub remove_matching_string-unchanged :
    (d : Document) (path first : Text) (rest : List Text) (match : Text → Bool)
    → parse_yaml_path path ≡ ok (first ∷ rest)
    → IsDocument d.node
    → (remove_matching_string d path (some match)).1 ≡ ok false
    → at (remove_matching_string d path (some match)).0 (first ∷ rest) ≡ at d (first ∷ rest)
remove_matching_string-unchanged d path first rest match parsed well done =
    (matching_both d path first rest match false parsed well done).1 refl
