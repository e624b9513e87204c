-- ===== src/Region.antt =====
-- region/info.go (the immutable part of info), rpc.go (createRegionSearchKey, fullyQualifiedTable,
-- probeKey) and caches.go (isRegionOverlap): the key range of a region and the keys made from it.
pub mod SearchKey
mod Examples
pub mod Overlap
use gohbase.Prelude.{
  ℕ, zero, suc, ◌+◌, ◌-◌, ◌^◌, Bool, ◌&&◌, ◌||◌, Option, none, some, [], ◌∷◌, ◌++◌, ltb, ◌==◌,
  if◌then◌else◌, length, replicate,
}
use gohbase.Bytes.{Bytes}
use gohbase.Bytes.Compare.{equal, bytes_lt, bytes_gt}
use gohbase.RegionName.{comma}

-- A nil namespace is `none`.
pub record Region : Type 0 where
  pub id : ℕ
  pub namespace : Option Bytes
  pub table : Bytes
  pub name : Bytes
  pub start_key : Bytes
  pub stop_key : Bytes

-- The bytes of a slice that may be nil.
abbrev pub bytes_of : Option Bytes → Bytes
bytes_of none = []
bytes_of (some b) = b

abbrev pub colon : ℕ
colon = b':'

abbrev pub max_int16 : ℕ
max_int16 = 2 ^ 15 - 1

pub take : ℕ → Bytes → Bytes
take zero b = []
take (suc n) [] = []
take (suc n) (x ∷ b) = x ∷ take n b

-- `none` is the panic of `key[:keylen]` where the table's name makes `keylen` negative.
pub create_region_search_key : Bytes → Bytes → Option Bytes
create_region_search_key table key =
    let room = max_int16 - length table - 3 in
    let keylen = if ltb (length key) room then length key else room in
    if ltb max_int16 (length table + 3)
    then none
    else some (table ++ (comma ∷ (take keylen key ++ (comma ∷ colon ∷ []))))

unfoldable pub fully_qualified_table : Region → Bytes
fully_qualified_table reg = elim reg.namespace [
  | none ↦ reg.table
  | some namespace ↦ namespace ++ (colon ∷ reg.table)
]

pub probe_key : Region → Bytes
probe_key reg = reg.start_key ++ replicate 17 0

unfoldable pub is_region_overlap : Region → Region → Bool
is_region_overlap reg_a reg_b =
    equal (bytes_of reg_a.namespace) (bytes_of reg_b.namespace)
    && (equal reg_a.table reg_b.table
        && ((length reg_b.stop_key == 0 || bytes_lt reg_a.start_key reg_b.stop_key)
            && (length reg_a.stop_key == 0 || bytes_gt reg_a.stop_key reg_b.start_key)))
