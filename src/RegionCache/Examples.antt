-- ===== src/RegionCache/Examples.antt =====
-- Runs of the cache's operations on a tree that is a sorted list.
use gohbase.Prelude.{
  ◌≤◌, All, ℕ, ◌+◌, ◌<◌, ◌≡◌, refl, inl, inr, true, false, none, some, List, [], ◌∷◌, arith,
  if◌then◌else◌, ok,
}
use gohbase.Bytes.{Bytes}
use gohbase.Region.{Region, fully_qualified_table, is_region_overlap}
use gohbase.RegionName.Order.{region_name}
use gohbase.RegionCache.{Entry, Client, get_region_from_cache, get_overlaps, Placed, put, del}
use gohbase.RegionCache.Entries.{IsNamed, AreEntries}
use gohbase.Bytes.Compare.{equal, compare_bytes}
use gohbase.Region.Overlap.{IsRange}
use gohbase.RegionCache.Lookup.{holds, find_holding, get_region_from_cache-find_holding}
use gohbase.RegionCache.Listed.{ids_up_to, put_entries, find_named, insert_entry}
use gohbase.RegionCache.Put.{put-put_entries}
use gohbase.RegionCache.Del.{remove_named, is_some, del-remove_named}
use gohbase.RegionCache.Sorted.{keep}
use gohbase.RegionCache.Overlaps.{get_overlaps-overlapping}
use gohbase.RegionCache.Overlapping.{overlapping}
use gohbase.RegionCache.ListTree.{list_tree, list_laws}

abbrev table : Bytes
table = b't' ∷ []

abbrev region_of : ℕ → Bytes → Bytes → Region
region_of id start stop = record {
  id = id;
  namespace = none;
  table = table;
  name = region_name table start ((b'0' + id) ∷ []);
  start_key = start;
  stop_key = stop;
}

abbrev key_m : Bytes
key_m = b'm' ∷ []

abbrev first_half : Region
first_half = region_of 1 [] key_m

abbrev second_half : Region
second_half = region_of 1 key_m []

abbrev merged : Region
merged = region_of 2 [] []

abbrev cache : List Entry
cache = (first_half.name, first_half) ∷ (second_half.name, second_half) ∷ []

named :
    (id : ℕ) (start stop : Bytes)
    → id < 10
    → IsRange (region_of id start stop)
    → IsNamed (region_of id start stop)
unfolding fully_qualified_table
named id start stop small range = record {
  digit = b'0' + id;
  code = [];
  is_name = refl;
  lacks_comma = (omega arith, tt);
  code_lacks_comma = (omega arith, tt);
  below_colon = omega (arith, small);
  is_range = range;
  namespace_set = λ e. ground (arith, e);
  namespace_lacks_colon = tt;
  table_lacks_colon = (omega arith, tt);
}

cache-AreEntries : AreEntries cache
unfolding fully_qualified_table compare_bytes
cache-AreEntries = (
  (
    (refl, named 1 [] key_m (omega arith) (inr refl)),
    ((refl, named 1 key_m [] (omega arith) (inl refl)), tt),
  ),
  ((inr (refl, (λ e. ground (arith, e)), refl), tt), (tt, tt)),
)

abbrev client : Client
client = record { is_master = false; admin_region_info = merged; meta_region_info = merged }

get_region_from_cache-find_holding_example :
    get_region_from_cache list_tree client cache table (b'q' ∷ [])
    ≡ ok (find_holding table (b'q' ∷ []) cache)
get_region_from_cache-find_holding_example =
    get_region_from_cache-find_holding list_tree list_laws client cache table (b'q' ∷ []) refl
      (λ e. ground (arith, e)) (omega arith, tt) (omega arith) cache-AreEntries

found_second_half : find_holding table (b'q' ∷ []) cache ≡ some second_half
unfolding find_holding holds fully_qualified_table equal compare_bytes
found_second_half = refl

get_overlaps-overlapping_example :
    get_overlaps list_tree cache merged ≡ ok (overlapping merged cache)
unfolding fully_qualified_table
get_overlaps-overlapping_example =
    get_overlaps-overlapping list_tree merged (named 2 [] [] (omega arith) (inl refl)) list_laws
      cache (omega arith) cache-AreEntries

both_overlap : overlapping merged cache ≡ first_half ∷ second_half ∷ []
unfolding overlapping is_region_overlap equal compare_bytes
both_overlap = refl

put-put_entries_example :
    (p : Placed list_tree) × (put list_tree cache merged ≡ ok p)
    × ((p.root, (p.overlaps, p.replaced)) ≡ put_entries merged cache)
    × (p.dead ≡ (if p.replaced then p.overlaps else []))
    × All (λ o. o.id ≤ merged.id) p.dead
    × AreEntries p.root
unfolding fully_qualified_table
put-put_entries_example =
    put-put_entries list_tree list_laws cache merged (named 2 [] [] (omega arith) (inl refl))
      (omega arith) cache-AreEntries

merged_replaces :
    put_entries merged cache ≡ ((merged.name, merged) ∷ [], (first_half ∷ second_half ∷ [], true))
unfolding put_entries find_named insert_entry keep overlapping is_region_overlap equal compare_bytes
    region_name ids_up_to
merged_replaces = refl

del-remove_named_example :
    ((del list_tree cache first_half).0 ≡ remove_named first_half.name cache)
    × ((del list_tree cache first_half).1.0 ≡ is_some (find_named first_half.name cache))
    × AreEntries (del list_tree cache first_half).0
unfolding compare_bytes
del-remove_named_example =
    del-remove_named list_tree list_laws cache first_half
      (named 1 [] key_m (omega arith) (inr refl)) cache-AreEntries
