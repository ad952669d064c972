-- ===== src/Document/Edits/Local.antt =====
-- Each edit of the operations touches its own key alone and keeps trees well formed.
use sitectl.Document.{is_block}
use sitectl.Prelude.{◌&&◌, Bool, Option, none, some, is_empty, inl, inr, Bool-cases, Option-cases}
use sitectl.Text.{Text, ◌==◌, trim_space}
use sitectl.Yaml.{
  scalar, sequence, mapping, document, alias, Node, mk, Nodes, nil, cons, mapping_value,
  append_nodes, str_scalar, with_content, with_value, is_scalar, value,
}
use sitectl.Yaml.Mapping.{IsWellFormed, AllWellFormed}
use sitectl.Yaml.Update.{IsWellFormed-mapping_value}
use sitectl.Document.Touch.{Touches, left, deleted, written, IsLocal}
use sitectl.Document.Scalar.{remove_scalar_string, remove_scalar_strings_matching}
use sitectl.Document.Edits.{
  put_string, string_node, put_value, remove_key, holds, append_to, put_unique, drop_items,
  put_items, put_text, remove_value, remove_matches, any_item,
}

pub put_string-IsLocal : (v key : Text) → IsLocal key (λ n. (put_string v key n).0)
unfolding put_string string_node
put_string-IsLocal v key = record { touches = λ n m w. written _ (tt, tt) }

-- The value that is set is a well-formed tree.
abbrev pub IsValue : Option Node → Type 0
IsValue none = Unit
IsValue (some v) = IsWellFormed v

pub put_value-IsLocal :
    (encoded : Option Node) (path key : Text)
    → IsValue encoded
    → IsLocal key (λ n. (put_value encoded path key n).0)
unfolding put_value
put_value-IsLocal none path key wv = record { touches = λ n m w. left }
put_value-IsLocal (some v) path key wv = record { touches = λ n m w. written v wv }

pub remove_key-IsLocal : (key : Text) → IsLocal key (λ n. (remove_key key n).0)
unfolding remove_key
remove_key-IsLocal key = record { touches = λ n m w. deleted }

AllWellFormed-append :
    (c d : Nodes) → AllWellFormed c → AllWellFormed d → AllWellFormed (append_nodes c d)
AllWellFormed-append nil d wc wd = wd
AllWellFormed-append (cons n ns) d (wn, wc) wd = (wn, AllWellFormed-append ns d wc wd)

append_to-IsValue : (v : Text) (old : Option Node) → IsValue old → IsValue (append_to v old)
unfolding append_to
append_to-IsValue v none w = (tt, ((tt, tt), tt))
append_to-IsValue v (some (mk scalar t u s c)) w = elim (Bool-cases (u == v)) [
  | inl e ↦ rw e w
  | inr e ↦ elim (Bool-cases (is_block s)) [
    | inl b ↦ rw (e, b) w
    | inr b ↦ rw (e, b) (tt, ((tt, tt), ((tt, tt), tt)))
  ]
]
append_to-IsValue v (some (mk sequence t u s c)) w = elim (Bool-cases (holds v c)) [
  | inl e ↦ rw e w
  | inr e ↦ rw e (tt, AllWellFormed-append c (cons (str_scalar v) nil) w.1 ((tt, tt), tt))
]
append_to-IsValue v (some (mk mapping t u s c)) w = tt
append_to-IsValue v (some (mk document t u s c)) w = tt
append_to-IsValue v (some (mk alias t u s c)) w = tt

mapping_value-IsValue : (n : Node) (key : Text) → IsWellFormed n → IsValue (mapping_value n key)
mapping_value-IsValue n key w = elim (Option-cases (mapping_value n key)) [
  | inl e ↦ rw e tt
  | inr (v, e) ↦ rw e (IsWellFormed-mapping_value n key v w e)
]

put_unique-Touches :
    (v path key : Text) (n : Node) → IsWellFormed n → Touches key n (put_unique v path key n).0
unfolding put_unique
put_unique-Touches v path key n w = elim (Option-cases (append_to v (mapping_value n key))) [
  | inl e ↦ rw (e, put_unique) left
  | inr (new, e) ↦
      rw (e, put_unique)
        (written new
          (rw e at (append_to-IsValue v (mapping_value n key) (mapping_value-IsValue n key w))))
]

pub put_unique-IsLocal : (v path key : Text) → IsLocal key (λ n. (put_unique v path key n).0)
put_unique-IsLocal v path key = record { touches = λ n m w. put_unique-Touches v path key n w }

AllWellFormed-drop :
    (match : Text → Bool) (c : Nodes) → AllWellFormed c → AllWellFormed (drop_items match c)
unfolding drop_items
AllWellFormed-drop match nil w = tt
AllWellFormed-drop match (cons n ns) (wn, w) = elim (Bool-cases (is_scalar n && match (value n))) [
  | inl e ↦ rw e (AllWellFormed-drop match ns w)
  | inr e ↦ rw e (wn, AllWellFormed-drop match ns w)
]

put_items-Touches :
    (key : Text) (n target : Node) (items : Nodes)
    → IsWellFormed (with_content target items)
    → Touches key n (put_items key n target items)
unfolding put_items
put_items-Touches key n target nil w = deleted
put_items-Touches key n target (cons i is) w = written (with_content target (cons i is)) w

put_text-Touches :
    (key updated : Text) (n target : Node)
    → IsWellFormed (with_value target updated)
    → Touches key n (put_text key n target updated)
unfolding put_text
put_text-Touches key updated n target w = elim (Bool-cases (is_empty (trim_space updated))) [
  | inl e ↦ rw e deleted
  | inr e ↦ rw e (written (with_value target updated) w)
]

remove_value-Touches :
    (v key : Text) (n : Node) (target : Option Node)
    → IsValue target
    → Touches key n (remove_value v key n target)
unfolding remove_value
remove_value-Touches v key n none w = left
remove_value-Touches v key n (some (mk scalar t u s c)) w = elim (Bool-cases (u == v)) [
  | inl e ↦ rw e deleted
  | inr e ↦ elim (Bool-cases (is_block s && (remove_scalar_string u v).1)) [
    | inl b ↦ rw (e, b) (put_text-Touches key (remove_scalar_string u v).0 n (mk scalar t u s c) w)
    | inr b ↦ rw (e, b) left
  ]
]
remove_value-Touches v key n (some (mk sequence t u s c)) w =
    put_items-Touches key n (mk sequence t u s c) (drop_items (λ item. item == v) c)
      (tt, AllWellFormed-drop (λ item. item == v) c w.1)
remove_value-Touches v key n (some (mk mapping t u s c)) w = left
remove_value-Touches v key n (some (mk document t u s c)) w = left
remove_value-Touches v key n (some (mk alias t u s c)) w = left

remove_matches-Touches :
    (match : Text → Bool) (key : Text) (n : Node) (target : Option Node)
    → IsValue target
    → Touches key n (remove_matches match key n target).0
unfolding remove_matches
remove_matches-Touches match key n none w = left
remove_matches-Touches match key n (some (mk scalar t u s c)) w = elim (Bool-cases (match u)) [
  | inl e ↦ rw e deleted
  | inr e ↦ elim (Bool-cases (remove_scalar_strings_matching u match).1) [
    | inl b ↦
        rw (e, b)
          (put_text-Touches key (remove_scalar_strings_matching u match).0 n (mk scalar t u s c) w)
    | inr b ↦ rw (e, b) left
  ]
]
remove_matches-Touches match key n (some (mk sequence t u s c)) w =
    elim (Bool-cases (any_item match c)) [
      | inl e ↦ rw e (
          put_items-Touches key n (mk sequence t u s c) (drop_items match c)
            (tt, AllWellFormed-drop match c w.1))
      | inr e ↦ rw e left
    ]
remove_matches-Touches match key n (some (mk mapping t u s c)) w = left
remove_matches-Touches match key n (some (mk document t u s c)) w = left
remove_matches-Touches match key n (some (mk alias t u s c)) w = left

pub remove_value-IsLocal :
    (v key : Text) → IsLocal key (λ n. remove_value v key n (mapping_value n key))
remove_value-IsLocal v key = record {
  touches =
      λ n m w. remove_value-Touches v key n (mapping_value n key) (mapping_value-IsValue n key w);
}

pub remove_matches-IsLocal :
    (match : Text → Bool) (key : Text)
    → IsLocal key (λ n. (remove_matches match key n (mapping_value n key)).0)
remove_matches-IsLocal match key = record {
  touches = λ n m w.
      remove_matches-Touches match key n (mapping_value n key) (mapping_value-IsValue n key w);
}
