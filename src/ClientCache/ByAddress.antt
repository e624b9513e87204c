-- ===== src/ClientCache/ByAddress.antt =====
-- The cache of clients as a map by address.
use gohbase.Prelude.{
  Pairwise, ap, subst, ==_iff, ◌==◌, ◌||◌, false, Bool, ℕ, ◌≡◌, refl, sym, ◌∙◌, ◌≢◌, inl, inr, true,
  Option, none, some, List, [], ◌∷◌, arith, if◌then◌else◌, Bool-cases, All,
}
use gohbase.Bytes.{Bytes}
use gohbase.Bytes.Compare.{equal, equal_iff}
use gohbase.ClientCache.{Server, Servers, add_region, has_region, put}

unfoldable pub at_address : Bytes → Servers → Option (Server × List ℕ)
at_address addr [] = none
at_address addr ((c, regions) ∷ more) =
    if equal addr c.addr then some (c, regions) else at_address addr more

-- The client of an address, or the new one.
unfoldable pub client_or : Server → Option (Server × List ℕ) → Server
client_or new_client none = new_client
client_or new_client (some (c, regions)) = c

-- Whether the client of an address has the region.
unfoldable pub is_served : ℕ → Option (Server × List ℕ) → Bool
is_served q none = false
is_served q (some (c, regions)) = has_region q regions

with_region : ℕ → Server → Option (Server × List ℕ) → Server × List ℕ
with_region r new_client none = (new_client, r ∷ [])
with_region r new_client (some (c, regions)) = (c, add_region r regions)

-- No two clients have the same address or are the same.
abbrev pub AreApart : Servers → Type 0
AreApart = Pairwise (λ e e'. (e.0.addr ≢ e'.0.addr) × (e.0.pointer ≢ e'.0.pointer))

put-at_address :
    (addr : Bytes) (r : ℕ) (new_client : Server) (servers : Servers)
    → new_client.addr ≡ addr
    → (at_address addr (put addr r new_client servers).1
        ≡ some (with_region r new_client (at_address addr servers)))
      × ((put addr r new_client servers).0 ≡ (with_region r new_client (at_address addr servers)).0)
unfolding put at_address with_region
put-at_address addr r new_client [] named =
    let same : equal addr new_client.addr ≡ true = (equal_iff _ _).1 (sym named) in
    (ground (arith, same), refl)
put-at_address addr r new_client ((c, regions) ∷ more) named =
    let later = put-at_address addr r new_client more named in
    elim (Bool-cases (equal addr c.addr)) [
      | inl here ↦ (ground (arith, here), ground (arith, here))
      | inr other ↦ (ground (arith, other, later.0), ground (arith, other, later.1))
    ]

put-other_address :
    (addr other : Bytes) (r : ℕ) (new_client : Server) (servers : Servers)
    → new_client.addr ≡ addr
    → other ≢ addr
    → at_address other (put addr r new_client servers).1 ≡ at_address other servers
unfolding put at_address
put-other_address addr other r new_client [] named apart =
    ground (arith, named, apart, (equal_iff other new_client.addr).0)
put-other_address addr other r new_client ((c, regions) ∷ more) named apart =
    elim (Bool-cases (equal addr c.addr)) [
      | inl here ↦
          ground (arith, here, apart, (equal_iff addr c.addr).0, (equal_iff other c.addr).0)
      | inr later ↦
          ground (arith, later, put-other_address addr other r new_client more named apart)
    ]

-- The new client is none of those that are there.
abbrev pub IsNew : Server → Servers → Type 0
IsNew c = All (λ e. e.0.pointer ≢ c.pointer)

put-All :
    (P : Server → Type 0) (addr : Bytes) (r : ℕ) (new_client : Server) (servers : Servers)
    → P new_client
    → All (λ e. P e.0) servers
    → All (λ e. P e.0) (put addr r new_client servers).1
unfolding put
put-All P addr r new_client [] new h = (new, tt)
put-All P addr r new_client ((c, regions) ∷ more) new (hc, h) =
    elim (Bool-cases (equal addr c.addr)) [
      | inl here ↦ simp here (hc, h)
      | inr later ↦ simp later (hc, put-All P addr r new_client more new h)
    ]

put-AreApart :
    (addr : Bytes) (r : ℕ) (new_client : Server) (servers : Servers)
    → new_client.addr ≡ addr
    → IsNew new_client servers
    → AreApart servers
    → AreApart (put addr r new_client servers).1
unfolding put
put-AreApart addr r new_client [] named new apart = (tt, tt)
put-AreApart addr r new_client ((c, regions) ∷ more) named (new_c, new) (each, apart) =
    elim (Bool-cases (equal addr c.addr)) [
      | inl here ↦ simp here (each, apart)
      | inr later ↦
          let other : c.addr ≢ new_client.addr =
            λ e. ground (arith, later, (equal_iff addr c.addr).1 (sym (e ∙ named))) in
          simp later (
            put-All (λ s. (c.addr ≢ s.addr) × (c.pointer ≢ s.pointer)) addr r new_client more
                (other, new_c) each,
            put-AreApart addr r new_client more named new apart,
          )
    ]

has_region-add_region :
    (q r : ℕ) (regions : List ℕ)
    → has_region q (add_region r regions) ≡ (r == q || has_region q regions)
unfolding add_region has_region
has_region-add_region q r regions = elim (Bool-cases (has_region r regions)) [
  | inr missing ↦ ground (arith, missing)
  | inl there ↦ elim (Bool-cases (r == q)) [
    | inr other ↦ ground (arith, there, other)
    | inl same ↦
        let e : has_region q regions ≡ true =
          subst (λ x. has_region x regions ≡ true) ((==_iff r q).0 same) there in
        ground (arith, there, same, e)
  ]
]

with_region-adds :
    (r : ℕ) (new_client : Server) (o : Option (Server × List ℕ))
    → ((with_region r new_client o).0 ≡ client_or new_client o)
      × ((q : ℕ) → has_region q (with_region r new_client o).1 ≡ (r == q || is_served q o))
unfolding has_region with_region client_or is_served
with_region-adds r new_client none = (refl, λ q. ground arith)
with_region-adds r new_client (some (c, regions)) = (refl, λ q. has_region-add_region q r regions)

-- put is an update of a map by address: it returns the client that is there for the address, or the
-- new one; afterwards this is the client for the address, and it has the new region, all regions that
-- the client of the address had, and no other; what is there for another address stays; and no two
-- clients have the same address or are the same, if it was so before. The client that newClient makes
-- has the address and is none of those that are there.
pub put-adds :
    (addr other : Bytes) (r : ℕ) (new_client : Server) (servers : Servers)
    → new_client.addr ≡ addr
    → IsNew new_client servers
    → AreApart servers
    → other ≢ addr
    → (regions : List ℕ) × (at_address addr (put addr r new_client servers).1
        ≡ some (client_or new_client (at_address addr servers), regions))
      × ((put addr r new_client servers).0 ≡ client_or new_client (at_address addr servers))
      × ((q : ℕ) → has_region q regions ≡ (r == q || is_served q (at_address addr servers)))
      × (at_address other (put addr r new_client servers).1 ≡ at_address other servers)
      × AreApart (put addr r new_client servers).1
put-adds addr other r new_client servers named new apart ne =
    let before = at_address addr servers in
    let (there, returned) = put-at_address addr r new_client servers named in
    let (kept, added) = with_region-adds r new_client before in
    (
      (with_region r new_client before).1,
      there ∙ ap (λ c. some (c, (with_region r new_client before).1)) kept,
      returned ∙ kept,
      added,
      put-other_address addr other r new_client servers named ne,
      put-AreApart addr r new_client servers named new apart,
    )
