-- ===== src/Yaml/Mapping.antt =====
-- The laws of lookup, set and delete in a mapping, and the trees whose mappings hold whole pairs.
use sitectl.Prelude.{◌≡◌, refl, some, none, arith, if◌then◌else◌}
use sitectl.Text.{Text, ◌==◌}
use sitectl.Text.Equality.{eq_iff}
use sitectl.Yaml.{mapping, Node, mk, Nodes, nil, cons, value, lookup_pairs, delete_pairs, set_pairs}

-- A mapping's content is whole pairs.
abbrev pub IsPaired : Nodes → Type 0
IsPaired nil = Unit
IsPaired (cons k nil) = ⊥
IsPaired (cons k (cons v rest)) = IsPaired rest

-- A node at which a key can be looked up and set.
abbrev pub IsMap : Node → Type 0
IsMap (mk mapping t v s c) = IsPaired c
IsMap (mk _ t v s c) = ⊥

abbrev pub PairedIf : Node → Type 0
PairedIf (mk mapping t v s c) = IsPaired c
PairedIf (mk _ t v s c) = Unit

-- Every mapping of the tree holds whole pairs, as in every tree that a YAML parser returns.
abbrev mutual
  pub IsWellFormed : Node → Type 0
  IsWellFormed (mk k t v s c) = PairedIf (mk k t v s c) × AllWellFormed c

  pub AllWellFormed : Nodes → Type 0
  AllWellFormed nil = Unit
  AllWellFormed (cons n ns) = IsWellFormed n × AllWellFormed ns

pub lookup-delete_pairs :
    (c : Nodes) (key other : Text)
    → lookup_pairs (delete_pairs c key) other
      ≡ (if key == other then none else lookup_pairs c other)
unfolding lookup_pairs delete_pairs
lookup-delete_pairs nil key other = ground arith
lookup-delete_pairs (cons k nil) key other = ground arith
lookup-delete_pairs (cons k (cons v rest)) key other = ground (
  arith,
  lookup-delete_pairs rest key other,
  eq_iff (value k) key,
  eq_iff (value k) other,
  eq_iff key other,
)

pub lookup-set_pairs :
    (c : Nodes) (key other : Text) (new : Node)
    → IsPaired c
    → lookup_pairs (set_pairs c key new) other
      ≡ (if key == other then some new else lookup_pairs c other)
unfolding lookup_pairs set_pairs
lookup-set_pairs nil key other new h = refl
lookup-set_pairs (cons k nil) key other new h = elim h [ ]
lookup-set_pairs (cons k (cons v rest)) key other new h = ground (
  arith,
  lookup-set_pairs rest key other new h,
  eq_iff (value k) key,
  eq_iff (value k) other,
  eq_iff key other,
)

pub set_pairs_self :
    (c : Nodes) (key : Text) (v : Node) → lookup_pairs c key ≡ some v → set_pairs c key v ≡ c
unfolding lookup_pairs set_pairs
set_pairs_self nil key v h = cc
set_pairs_self (cons k nil) key v h = cc
set_pairs_self (cons k (cons w rest)) key v h = ground (arith, set_pairs_self rest key v)

pub set_pairs_set :
    (c : Nodes) (key : Text) (v w : Node)
    → IsPaired c
    → set_pairs (set_pairs c key v) key w ≡ set_pairs c key w
unfolding set_pairs
set_pairs_set nil key v w h = ground (arith, eq_iff key key)
set_pairs_set (cons k nil) key v w h = elim h [ ]
set_pairs_set (cons k (cons u rest)) key v w h = ground (arith, set_pairs_set rest key v w h)

pub IsPaired-delete_pairs : (c : Nodes) (key : Text) → IsPaired (delete_pairs c key)
unfolding delete_pairs
IsPaired-delete_pairs nil key = tt
IsPaired-delete_pairs (cons k nil) key = tt
IsPaired-delete_pairs (cons k (cons v rest)) key = ground (arith, IsPaired-delete_pairs rest key)

pub IsPaired-set_pairs :
    (c : Nodes) (key : Text) (new : Node) → IsPaired c → IsPaired (set_pairs c key new)
unfolding set_pairs
IsPaired-set_pairs nil key new h = tt
IsPaired-set_pairs (cons k nil) key new h = elim h [ ]
IsPaired-set_pairs (cons k (cons v rest)) key new h =
    ground (arith, IsPaired-set_pairs rest key new h)
