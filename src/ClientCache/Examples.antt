-- ===== src/ClientCache/Examples.antt =====
-- The theorem on the cache of clients, applied to a cache of two clients.
use gohbase.Prelude.{List, ◌==◌, ◌||◌, ℕ, ◌≡◌, refl, some, [], ◌∷◌, arith}
use gohbase.Bytes.Compare.{equal, compare_bytes}
use gohbase.ClientCache.{Server, Servers, has_region, put}
use gohbase.ClientCache.ByAddress.{at_address, client_or, is_served, AreApart, put-adds}

abbrev server : ℕ → Server
server pointer = record { pointer = pointer; addr = pointer ∷ [] }

abbrev server_at : ℕ → ℕ → Server
server_at place pointer = record { pointer = pointer; addr = place ∷ [] }

abbrev servers : Servers
servers = (server 1, 10 ∷ []) ∷ (server 2, 20 ∷ []) ∷ []

servers-AreApart : AreApart servers
servers-AreApart = ((((λ e. ground (arith, e)), (λ e. ground (arith, e))), tt), (tt, tt))

put-adds_example :
    (regions : List ℕ) × (at_address (2 ∷ []) (put (2 ∷ []) 30 (server_at 2 3) servers).1
      ≡ some (server 2, regions))
    × ((put (2 ∷ []) 30 (server_at 2 3) servers).0 ≡ server 2)
    × ((q : ℕ) → has_region q regions ≡ (30 == q || is_served q (at_address (2 ∷ []) servers)))
    × (at_address (1 ∷ []) (put (2 ∷ []) 30 (server_at 2 3) servers).1
        ≡ at_address (1 ∷ []) servers)
    × AreApart (put (2 ∷ []) 30 (server_at 2 3) servers).1
unfolding at_address client_or equal compare_bytes
put-adds_example =
    put-adds (2 ∷ []) (1 ∷ []) 30 (server_at 2 3) servers refl
      ((λ e. ground (arith, e)), ((λ e. ground (arith, e)), tt)) servers-AreApart
      (λ e. ground (arith, e))
