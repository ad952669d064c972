-- ===== src/Document/Edits/Script.antt =====
-- Sequences of operations on one document: each keeps the tree well formed, and what no path leads to
-- stays.
use sitectl.Prelude.{
  Bool, true, false, Option, none, some, List, [], ◌∷◌, ◌≡◌, refl, ◌∙◌, inl, inr, All,
}
use sitectl.Result.{ok, err}
use sitectl.Text.{Text}
use sitectl.Yaml.{Node, mapping_value}
use sitectl.Document.{Document, Edit, last}
use sitectl.Document.Path.{parse_yaml_path}
use sitectl.Document.Touch.{IsLocal}
use sitectl.Document.Find.{diverges}
use sitectl.Document.Edits.{
  edit_below, edit_within, put_string, set_string, put_value, set_value, remove_key, delete_path,
  put_unique, append_unique_string, remove_value, remove_string, remove_matches,
  remove_matching_string,
}
use sitectl.Document.Edits.Access.{at, IsDocument}
use sitectl.Document.Edits.Local.{
  IsValue, put_string-IsLocal, put_value-IsLocal, remove_key-IsLocal, put_unique-IsLocal,
  remove_value-IsLocal, remove_matches-IsLocal,
}
use sitectl.Document.Edits.Below.{parse_cases, unnamed, below-IsDocument, below_frame}
use sitectl.Document.Edits.Inside.{inside-IsDocument, inside_frame}

-- One call of an operation
pub data Command : Type 0 where
  set_text : Text → Text → Command
  set_node : Text → Option Node → Command
  delete : Text → Command
  append_unique : Text → Text → Command
  remove : Text → Text → Command
  remove_matching : Text → Option (Text → Bool) → Command

unfoldable pub path_of_command : Command → Text
path_of_command (set_text p v) = p
path_of_command (set_node p v) = p
path_of_command (delete p) = p
path_of_command (append_unique p v) = p
path_of_command (remove p v) = p
path_of_command (remove_matching p m) = p

-- The document after the call, whatever its result
unfoldable pub perform : Document → Command → Document
perform d (set_text p v) = (set_string d p v).0
perform d (set_node p v) = (set_value d p v).0
perform d (delete p) = (delete_path d p).0
perform d (append_unique p v) = (append_unique_string d p v).0
perform d (remove p v) = (remove_string d p v).0
perform d (remove_matching p m) = (remove_matching_string d p m).0

unfoldable pub perform_all : Document → List Command → Document
unfolding perform
perform_all d [] = d
perform_all d (c ∷ cs) = perform_all (perform d c) cs

abbrev pub HasValue : Command → Type 0
HasValue (set_node p v) = IsValue v
HasValue _ = Unit

-- The command's path names no node, or parts from q.
unfoldable pub spares : List Text → Command → Bool
spares q c = elim (parse_yaml_path (path_of_command c)) [
  | err f ↦ true
  | ok [] ↦ true
  | ok (first ∷ rest) ↦ diverges (first ∷ rest) q
]

spares-diverges :
    (q : List Text) (c : Command) (first : Text) (rest : List Text)
    → parse_yaml_path (path_of_command c) ≡ ok (first ∷ rest)
    → spares q c ≡ true
    → diverges (first ∷ rest) q ≡ true
unfolding spares
spares-diverges q c first rest p h = rw (p, spares) at h

abbrev Keeps : Document → Document → Command → List Text → Type 0
Keeps d d' c q = IsDocument d'.node × (spares q c ≡ true → at d' q ≡ at d q)

module _ (d : Document) (well : IsDocument d.node) (q : List Text) where
  still : (d' : Document) (c : Command) → d' ≡ d → Keeps d d' c q
  still d' c e = (rw e well, (λ _. rw e))

  below-Keeps :
      {A : Type 0} (edit : Text → Edit A) (c : Command)
      → ((key : Text) → IsLocal key (λ n. (edit key n).0))
      → Keeps d (edit_below edit d (path_of_command c)).0 c q
  below-Keeps edit c local = elim (parse_cases (parse_yaml_path (path_of_command c))) [
    | inl p ↦ still _ c (unfold edit_below in unnamed d (path_of_command c) _ (inl p))
    | inr (inl p) ↦ still _ c (unfold edit_below in unnamed d (path_of_command c) _ (inr p))
    | inr (inr (first, rest, p)) ↦ (
      below-IsDocument edit d (path_of_command c) first rest p (local (last first rest)) well,
      (λ clear.
          below_frame edit d (path_of_command c) first rest p (local (last first rest)) well q
            (spares-diverges q c first rest p clear)),
    )
  ]

  within-Keeps :
      {A : Type 0} (edit : Text → Node → Node × A) (missing : A) (c : Command)
      → ((key : Text) → IsLocal key (λ n. (edit key n).0))
      → Keeps d (edit_within edit missing d (path_of_command c)).0 c q
  within-Keeps edit missing c local = elim (parse_cases (parse_yaml_path (path_of_command c))) [
    | inl p ↦ still _ c (unfold edit_within in unnamed d (path_of_command c) _ (inl p))
    | inr (inl p) ↦ still _ c (unfold edit_within in unnamed d (path_of_command c) _ (inr p))
    | inr (inr (first, rest, p)) ↦ (
      inside-IsDocument edit missing d (path_of_command c) first rest p (local (last first rest))
          well,
      (λ clear.
          inside_frame edit missing d (path_of_command c) first rest p (local (last first rest))
            well q (spares-diverges q c first rest p clear)),
    )
  ]

  perform-Keeps : (c : Command) → HasValue c → Keeps d (perform d c) c q
  unfolding perform set_string set_value delete_path append_unique_string remove_string
      remove_matching_string path_of_command
  perform-Keeps (set_text p v) h = below-Keeps (put_string v) (set_text p v) (put_string-IsLocal v)
  perform-Keeps (set_node p v) h =
      below-Keeps (put_value v p) (set_node p v) (λ key. put_value-IsLocal v p key h)
  perform-Keeps (delete p) h = within-Keeps remove_key tt (delete p) remove_key-IsLocal
  perform-Keeps (append_unique p v) h =
      below-Keeps (put_unique v p) (append_unique p v) (put_unique-IsLocal v p)
  perform-Keeps (remove p v) h =
      within-Keeps (λ key n. (remove_value v key n (mapping_value n key), tt)) tt (remove p v)
        (remove_value-IsLocal v)
  perform-Keeps (remove_matching p none) h = still d (remove_matching p none) refl
  perform-Keeps (remove_matching p (some m)) h =
      within-Keeps (λ key n. remove_matches m key n (mapping_value n key)) false
        (remove_matching p (some m)) (remove_matches-IsLocal m)

perform_all-Keeps :
    (d : Document) (cs : List Command) (q : List Text)
    → IsDocument d.node
    → All HasValue cs
    → IsDocument (perform_all d cs).node
      × (All (λ c. spares q c ≡ true) cs → at (perform_all d cs) q ≡ at d q)
unfolding perform_all
perform_all-Keeps d [] q well h = (well, (λ _. refl))
perform_all-Keeps d (c ∷ cs) q well (hc, h) =
    let (well', frame) = perform-Keeps d well q c hc in
    let (last_well, last_frame) = perform_all-Keeps (perform d c) cs q well' h in
    (last_well, (λ clear. last_frame clear.1 ∙ frame clear.0))

-- Any sequence of operations on a well-formed document, each successful or not, keeps it well
-- formed, if the values that SetValue sets are.
pub perform_all-IsDocument :
    (d : Document) (cs : List Command)
    → IsDocument d.node
    → All HasValue cs
    → IsDocument (perform_all d cs).node
perform_all-IsDocument d cs well h = (perform_all-Keeps d cs [] well h).0

-- Any sequence of operations on a well-formed document, each successful or not, leaves what
-- stands at q as it was, if the path of each operation names no node or parts from q, and the
-- values that SetValue sets are well formed.
pub at-perform_all :
    (d : Document) (cs : List Command) (q : List Text)
    → IsDocument d.node
    → All HasValue cs
    → All (λ c. spares q c ≡ true) cs
    → at (perform_all d cs) q ≡ at d q
at-perform_all d cs q well h clear = (perform_all-Keeps d cs q well h).1 clear
