-- ===== src/ClientCache.antt =====
-- caches.go (put of clientRegionCache): the regions that each client serves. Clients and
-- regions are pointers, which are numbers; a map is the list of its entries in the order in which
-- range visits them.
pub mod ByAddress
mod Examples
use gohbase.Prelude.{ℕ, Bool, false, ◌||◌, List, [], ◌∷◌, ◌==◌, if◌then◌else◌}
use gohbase.Bytes.{Bytes}
use gohbase.Bytes.Compare.{equal}

pub record Server : Type 0 where
  pub pointer : ℕ
  pub addr : Bytes

abbrev pub Servers : Type 0
Servers = List (Server × List ℕ)

pub has_region : ℕ → List ℕ → Bool
has_region r [] = false
has_region r (x ∷ xs) = x == r || has_region r xs

pub add_region : ℕ → List ℕ → List ℕ
add_region r regions = if has_region r regions then regions else r ∷ regions

-- `new_client` is what newClient returns.
pub put : Bytes → ℕ → Server → Servers → Server × Servers
put addr r new_client [] = (new_client, (new_client, r ∷ []) ∷ [])
put addr r new_client ((existing, regions) ∷ more) =
    let rest = put addr r new_client more in
    if equal addr existing.addr
    then (existing, (existing, add_region r regions) ∷ more)
    else (rest.0, (existing, regions) ∷ rest.1)
