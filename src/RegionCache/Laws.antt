-- ===== src/RegionCache/Laws.antt =====
-- What the cache relies on in the tree of modernc.org/b, as its package documents it: the tree
-- holds its entries in the order of the comparison that it was made with, and an enumerator walks
-- them from where Seek stands.
use gohbase.Prelude.{
  ◌+◌, ◌≤◌, ◌≡◌, ap, subst, ◌∙◌, true, false, Option, none, some, List, [], ◌∷◌, ◌++◌, length, All,
}
use Prim.Native.Nat.{Ordering}
use gohbase.Prelude.Int.{ℤ, sign}
use gohbase.Bytes.{Bytes}
use gohbase.RegionName.{comma, compare_names}
use gohbase.RegionName.Order.{Lacks, region_name}
use gohbase.Region.{Region, colon, max_int16}
use gohbase.RegionCache.{Entry, Tree}
use gohbase.RegionCache.Entries.{unwind, position, search-position, IsEntry}
use gohbase.RegionCache.Place.{Place, All-unwind}

-- The comparison of two keys of the tree.
abbrev pub Compares : Bytes → Bytes → Ordering → Type 0
Compares a b o = (d : ℤ) × (compare_names a b ≡ some d) × (sign d ≡ o)

-- A key between two parts of the entries.
abbrev pub Splits : Bytes → List Entry → List Entry → Type 0
Splits key before after =
    All (λ e. Compares key e.0 Ordering.gt) before × All (λ e. Compares key e.0 Ordering.lt) after

module _ (tree : Tree) where
  open tree use {Root, Enumerator, len, find, set, delete, seek, seek_first, prev, next}

  -- Next returns these entries, one after the other, and io.EOF then.
  unfoldable pub Enumerates : Enumerator → List Entry → Type 0
  Enumerates e [] = (next e).0 ≡ none
  Enumerates e (x ∷ xs) = ((next e).0 ≡ some x) × Enumerates (next e).1 xs

  -- An enumerator that Seek left between two entries: Prev returns the one before and moves to the
  -- one before that.
  unfoldable pub Stands : Enumerator → List Entry → List Entry → Type 0
  Stands e [] after = ((prev e).0 ≡ none) × Enumerates (prev e).1 []
  Stands e (x ∷ []) after = ((prev e).0 ≡ some x) × Enumerates (prev e).1 []
  Stands e (x ∷ w ∷ before) after = ((prev e).0 ≡ some x) × Enumerates (prev e).1 (w ∷ x ∷ after)

  unfoldable pub First : Option Enumerator → List Entry → Type 0
  First none es = es ≡ []
  First (some e) es = Enumerates e es

  pub record TreeLaws : Type 0 where
    pub entries : Root → List Entry
    pub len_entries : (t : Root) → len t ≡ length (entries t)
    pub first_entries : (t : Root) → First (seek_first t) (entries t)
    pub seek_entries :
        (t : Root) (key : Bytes) (before after : List Entry)
        → entries t ≡ unwind before after
        → All (λ e. Compares key e.0 Ordering.gt) before
        → All (λ e. Compares key e.0 Ordering.lt) after
        → ((seek t key).1 ≡ false) × Stands (seek t key).0 before after
    pub find_present :
        (t : Root) (key : Bytes) (before : List Entry) (reg : Region) (after : List Entry)
        → entries t ≡ before ++ ((key, reg) ∷ after)
        → Splits key before after
        → Compares key key Ordering.eq
        → find t key ≡ some reg
    pub find_absent :
        (t : Root) (key : Bytes) (before after : List Entry)
        → entries t ≡ before ++ after
        → Splits key before after
        → find t key ≡ none
    pub set_absent :
        (t : Root) (key : Bytes) (reg : Region) (before after : List Entry)
        → entries t ≡ before ++ after
        → Splits key before after
        → entries (set t key reg) ≡ before ++ ((key, reg) ∷ after)
    pub delete_present :
        (t : Root) (key : Bytes) (before : List Entry) (reg : Region) (after : List Entry)
        → entries t ≡ before ++ ((key, reg) ∷ after)
        → Splits key before after
        → Compares key key Ordering.eq
        → (entries (delete t key).0 ≡ before ++ after) × ((delete t key).1 ≡ true)
    pub delete_absent :
        (t : Root) (key : Bytes) (before after : List Entry)
        → entries t ≡ before ++ after
        → Splits key before after
        → (entries (delete t key).0 ≡ entries t) × ((delete t key).1 ≡ false)

module _ (tree : Tree) (laws : TreeLaws tree) (t : tree.Root) (table key : Bytes) where
  pub seek-Place :
      Lacks comma table
      → length table + length key + 3 ≤ max_int16
      → All IsEntry (laws.entries t)
      → (place : Place table key (laws.entries t))
      → ((tree.seek t (region_name table key (colon ∷ []))).1 ≡ false)
        × Stands tree (tree.seek t (region_name table key (colon ∷ []))).0 place.before place.after
  seek-Place lacks short named place =
      let (named_before, named_after) =
        All-unwind IsEntry place.before place.after (subst (All IsEntry) place.split named) in
      laws.seek_entries t (region_name table key (colon ∷ [])) place.before place.after place.split
        (compares place.before Ordering.gt named_before place.behind)
        (compares place.after Ordering.lt named_after place.ahead)
    where
      compares :
          (es : List Entry) (o : Ordering)
          → All IsEntry es
          → All (λ e. position table key e.1 ≡ o) es
          → All (λ e. Compares (region_name table key (colon ∷ [])) e.0 o) es
      compares [] o named at = tt
      compares (e ∷ es) o ((stored, named), rest) (at, at_rest) =
          let (d, ran, sd) = search-position table key e.1 lacks short named in
          ((d, ap (compare_names _) stored ∙ ran, sd ∙ at), compares es o rest at_rest)
