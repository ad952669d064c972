-- ===== src/Yaml/Update.antt =====
-- The laws of MappingValue, SetMappingValue and DeleteMappingKey at a node, and that the edits keep
-- a tree well formed.
use sitectl.Prelude.{
  ◌≡◌, refl, ap, some, none, true, arith, Bool-cases, inl, inr, subst, if◌then◌else◌,
}
use sitectl.Text.Equality.{eq_refl}
use sitectl.Text.{Text, ◌==◌}
use sitectl.Yaml.{
  mapping, Node, mk, Nodes, nil, cons, value, is_mapping, lookup_pairs, mapping_value, delete_pairs,
  delete_mapping_key, set_pairs, set_mapping_value, as_mapping,
}
use sitectl.Yaml.Mapping.{
  IsMap, IsWellFormed, AllWellFormed, lookup-delete_pairs, lookup-set_pairs, set_pairs_self,
  set_pairs_set, IsPaired-delete_pairs, IsPaired-set_pairs,
}

pub mapping_value-set :
    (n : Node) (key other : Text) (new : Node)
    → IsMap n
    → mapping_value (set_mapping_value n key new) other
      ≡ (if key == other then some new else mapping_value n other)
unfolding mapping_value set_mapping_value
mapping_value-set (mk mapping t v s c) key other new h = lookup-set_pairs c key other new h
mapping_value-set (mk _ t v s c) key other new h = elim h [ ]

pub mapping_value-delete :
    (n : Node) (key other : Text)
    → mapping_value (delete_mapping_key n key) other
      ≡ (if key == other then none else mapping_value n other)
unfolding mapping_value delete_mapping_key
mapping_value-delete (mk mapping t v s c) key other = lookup-delete_pairs c key other
mapping_value-delete (mk _ t v s c) key other = ground arith

-- Writing back what is read changes nothing.
pub set_mapping_value_self :
    (n : Node) (key : Text) (v : Node)
    → mapping_value n key ≡ some v
    → set_mapping_value n key v ≡ n
unfolding mapping_value set_mapping_value
set_mapping_value_self (mk mapping t u s c) key v h =
    ap (mk mapping t u s) (set_pairs_self c key v h)
set_mapping_value_self (mk _ t u s c) key v h = cc

pub set_mapping_value_set :
    (n : Node) (key : Text) (v w : Node)
    → IsMap n
    → set_mapping_value (set_mapping_value n key v) key w ≡ set_mapping_value n key w
unfolding set_mapping_value
set_mapping_value_set (mk mapping t u s c) key v w h =
    ap (mk mapping t u s) (set_pairs_set c key v w h)
set_mapping_value_set (mk _ t u s c) key v w h = elim h [ ]

pub IsMap-set : (n : Node) (key : Text) (v : Node) → IsMap n → IsMap (set_mapping_value n key v)
unfolding set_mapping_value
IsMap-set (mk mapping t u s c) key v h = IsPaired-set_pairs c key v h
IsMap-set (mk _ t u s c) key v h = elim h [ ]

pub IsMap-delete : (n : Node) (key : Text) → IsMap n → IsMap (delete_mapping_key n key)
unfolding delete_mapping_key
IsMap-delete (mk mapping t u s c) key h = IsPaired-delete_pairs c key
IsMap-delete (mk _ t u s c) key h = elim h [ ]

pub IsMap-is_mapping : (n : Node) → IsWellFormed n → is_mapping n ≡ true → IsMap n
IsMap-is_mapping (mk mapping t u s c) w h = w.0
IsMap-is_mapping (mk _ t u s c) w h = cc

pub is_mapping-IsMap : (n : Node) → IsMap n → is_mapping n ≡ true
is_mapping-IsMap (mk mapping t u s c) h = refl
is_mapping-IsMap (mk _ t u s c) h = elim h [ ]

pub IsMap-as_mapping : (n : Node) → IsWellFormed n → IsMap (as_mapping n)
unfolding as_mapping
IsMap-as_mapping (mk mapping t u s c) w = w.0
IsMap-as_mapping (mk _ t u s c) w = tt

some_inj : {u v : Node} → some u ≡ some v → u ≡ v
some_inj h = cc

AllWellFormed-lookup :
    (c : Nodes) (key : Text) (v : Node)
    → AllWellFormed c
    → lookup_pairs c key ≡ some v
    → IsWellFormed v
unfolding lookup_pairs
AllWellFormed-lookup nil key v w h = cc
AllWellFormed-lookup (cons k nil) key v w h = cc
AllWellFormed-lookup (cons k (cons u rest)) key v (wk, (wu, wr)) h =
    elim (Bool-cases (value k == key)) [
      | inl e ↦ subst IsWellFormed (some_inj (rw e at h)) wu
      | inr e ↦ AllWellFormed-lookup rest key v wr (rw e at h)
    ]

pub IsWellFormed-mapping_value :
    (n : Node) (key : Text) (v : Node)
    → IsWellFormed n
    → mapping_value n key ≡ some v
    → IsWellFormed v
unfolding mapping_value
IsWellFormed-mapping_value (mk mapping t u s c) key v w h = AllWellFormed-lookup c key v w.1 h
IsWellFormed-mapping_value (mk _ t u s c) key v w h = cc

AllWellFormed-delete :
    (c : Nodes) (key : Text) → AllWellFormed c → AllWellFormed (delete_pairs c key)
unfolding delete_pairs
AllWellFormed-delete nil key w = tt
AllWellFormed-delete (cons k nil) key w = tt
AllWellFormed-delete (cons k (cons v rest)) key (wk, (wv, wr)) =
    elim (Bool-cases (value k == key)) [
      | inl e ↦ rw e (AllWellFormed-delete rest key wr)
      | inr e ↦ rw e (wk, (wv, AllWellFormed-delete rest key wr))
    ]

AllWellFormed-set :
    (c : Nodes) (key : Text) (new : Node)
    → AllWellFormed c
    → IsWellFormed new
    → AllWellFormed (set_pairs c key new)
unfolding set_pairs
AllWellFormed-set nil key new w wn = ((tt, tt), (wn, tt))
AllWellFormed-set (cons k nil) key new (wk, _) wn = (wk, ((tt, tt), (wn, tt)))
AllWellFormed-set (cons k (cons v rest)) key new (wk, (wv, wr)) wn =
    elim (Bool-cases (value k == key)) [
      | inl e ↦ rw e (wk, (wn, wr))
      | inr e ↦ rw e (wk, (wv, AllWellFormed-set rest key new wr wn))
    ]

pub IsWellFormed-delete :
    (n : Node) (key : Text) → IsWellFormed n → IsWellFormed (delete_mapping_key n key)
unfolding delete_mapping_key
IsWellFormed-delete (mk mapping t u s c) key w =
    (IsPaired-delete_pairs c key, AllWellFormed-delete c key w.1)
IsWellFormed-delete (mk _ t u s c) key w = w

pub IsWellFormed-set :
    (n : Node) (key : Text) (v : Node)
    → IsWellFormed n
    → IsWellFormed v
    → IsWellFormed (set_mapping_value n key v)
unfolding set_mapping_value
IsWellFormed-set (mk mapping t u s c) key v w wv =
    (IsPaired-set_pairs c key v w.0, AllWellFormed-set c key v w.1 wv)
IsWellFormed-set (mk _ t u s c) key v w wv = (tt, AllWellFormed-set c key v w.1 wv)

pub IsWellFormed-as_mapping : (n : Node) → IsWellFormed n → IsWellFormed (as_mapping n)
unfolding as_mapping
IsWellFormed-as_mapping (mk mapping t u s c) w = w
IsWellFormed-as_mapping (mk _ t u s c) w = (tt, tt)

-- A value that was set is found.
pub mapping_value-set_self :
    (n : Node) (key : Text) (new : Node)
    → IsMap n
    → mapping_value (set_mapping_value n key new) key ≡ some new
mapping_value-set_self n key new m = ground (arith, mapping_value-set n key key new m, eq_refl key)
