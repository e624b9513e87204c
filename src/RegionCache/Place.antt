-- ===== src/RegionCache/Place.antt =====
-- The place of a search key among the entries of the cache.
use gohbase.Prelude.{All-map, ◌≡◌, refl, inl, inr, List, [], ◌∷◌, All}
use Prim.Native.Nat.{Ordering}
use gohbase.Bytes.{Bytes}
use gohbase.RegionCache.{Entry}
use gohbase.RegionCache.Entries.{
  IsEntry, AreEntries, AreDisjoint, Before, unwind, position, position-cases, position-Before,
}

pub All-unwind {κ} :
    (P : Entry → Type κ) (before after : List Entry)
    → All P (unwind before after)
    → All P before × All P after
All-unwind P [] after h = (tt, h)
All-unwind P (e ∷ before) after h =
    let (hb, (he, ha)) = All-unwind P before (e ∷ after) h in ((he, hb), ha)

pub AreDisjoint-unwind :
    (before after : List Entry)
    → AreDisjoint (unwind before after)
    → All (λ e. All (λ e'. Before e.1 e'.1) after) before × AreDisjoint after
AreDisjoint-unwind [] after h = (tt, h)
AreDisjoint-unwind (e ∷ before) after h =
    let (each, (he, ha)) = AreDisjoint-unwind before (e ∷ after) h in
    ((he, All-map (λ _ b. b.1) before each), ha)

-- The entries behind which the search stands, closest first, and those that it stands before.
pub record Place (table key : Bytes) (es : List Entry) : Type 0 where
  pub before : List Entry
  pub after : List Entry
  pub split : es ≡ unwind before after
  pub behind : All (λ e. position table key e.1 ≡ Ordering.gt) before
  pub ahead : All (λ e. position table key e.1 ≡ Ordering.lt) after

module _ (table key : Bytes) where
  Place-from :
      (before after : List Entry)
      → All (λ e. position table key e.1 ≡ Ordering.gt) before
      → All IsEntry after
      → AreDisjoint after
      → Place table key (unwind before after)
  Place-from before [] behind ha da = record {
    before = before;
    after = [];
    split = refl;
    behind = behind;
    ahead = tt;
  }
  Place-from before (e ∷ after) behind (he, ha) (hd, da) = elim (position-cases table key e.1) [
    | inl gt ↦ Place-from (e ∷ before) after (gt, behind) ha da
    | inr lt ↦ record {
      before = before;
      after = e ∷ after;
      split = refl;
      behind = behind;
      ahead =
          (lt, All-map (λ e' b. position-Before table key e.1 e'.1 he.1.is_range b lt) after hd);
    }
  ]

  pub Place-of : (es : List Entry) → AreEntries es → Place table key es
  Place-of es (named, disjoint) = Place-from [] es tt named disjoint
