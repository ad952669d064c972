-- ===== src/Document/Touch.antt =====
-- Updates of a mapping at one key.
use sitectl.Prelude.{◌≡◌, ◌≢◌, refl, arith}
use sitectl.Text.{Text}
use sitectl.Text.Equality.{eq_iff}
use sitectl.Yaml.{Node, mapping_value, set_mapping_value, delete_mapping_key}
use sitectl.Yaml.Mapping.{IsMap, IsWellFormed}
use sitectl.Yaml.Update.{
  mapping_value-set, mapping_value-delete, IsMap-set, IsMap-delete, IsWellFormed-set,
  IsWellFormed-delete,
}

-- A write of one key
set_others :
    (n v : Node) (key other : Text)
    → IsMap n
    → key ≢ other
    → mapping_value (set_mapping_value n key v) other ≡ mapping_value n other
set_others n v key other m ne = ground (arith, mapping_value-set n key other v m, eq_iff key other)

delete_others :
    (n : Node) (key other : Text)
    → key ≢ other
    → mapping_value (delete_mapping_key n key) other ≡ mapping_value n other
delete_others n key other ne = ground (arith, mapping_value-delete n key other, eq_iff key other)

-- An update that deletes the key, sets it to a well-formed value, or leaves the mapping alone
pub data Touches (key : Text) (n : Node) : Node → Type 0 where
  left : Touches key n n
  deleted : Touches key n (delete_mapping_key n key)
  written : (v : Node) → IsWellFormed v → Touches key n (set_mapping_value n key v)

pub Touches-IsMap : {key : Text} {n n' : Node} → Touches key n n' → IsMap n → IsMap n'
Touches-IsMap left m = m
Touches-IsMap {key} {n} deleted m = IsMap-delete n key m
Touches-IsMap {key} {n} (written v wv) m = IsMap-set n key v m

pub Touches-IsWellFormed :
    {key : Text} {n n' : Node} → Touches key n n' → IsWellFormed n → IsWellFormed n'
Touches-IsWellFormed left w = w
Touches-IsWellFormed {key} {n} deleted w = IsWellFormed-delete n key w
Touches-IsWellFormed {key} {n} (written v wv) w = IsWellFormed-set n key v w wv

pub Touches-others :
    {key : Text} {n n' : Node}
    → Touches key n n'
    → (other : Text) → IsMap n
    → key ≢ other
    → mapping_value n' other ≡ mapping_value n other
Touches-others left other m ne = refl
Touches-others {key} {n} deleted other m ne = delete_others n key other ne
Touches-others {key} {n} (written v wv) other m ne = set_others n v key other m ne

pub record IsLocal (key : Text) (update : Node → Node) : Type 0 where
  pub touches : (n : Node) → IsMap n → IsWellFormed n → Touches key n (update n)

module _ {key : Text} {update : Node → Node} (local : IsLocal key update) (n : Node) where
  pub IsLocal-IsMap : IsMap n → IsWellFormed n → IsMap (update n)
  IsLocal-IsMap m w = Touches-IsMap (local.touches n m w) m

  pub IsLocal-IsWellFormed : IsMap n → IsWellFormed n → IsWellFormed (update n)
  IsLocal-IsWellFormed m w = Touches-IsWellFormed (local.touches n m w) w

  pub IsLocal-others :
      (other : Text)
      → IsMap n
      → IsWellFormed n
      → key ≢ other
      → mapping_value (update n) other ≡ mapping_value n other
  IsLocal-others other m w ne = Touches-others (local.touches n m w) other m ne
