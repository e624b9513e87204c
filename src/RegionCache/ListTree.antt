-- ===== src/RegionCache/ListTree.antt =====
-- A tree that is a sorted list, with the laws that the cache relies on.
use gohbase.Prelude.{
  ◌≡◌, refl, sym, ap, subst, ◌∙◌, Bool, true, false, Option, none, some, List, [], ◌∷◌, ◌++◌,
  append-nil, arith, length, All,
}
use Prim.Native.Nat.{Ordering}
use gohbase.Prelude.Int.{sign}
use gohbase.Bytes.{Bytes}
use gohbase.RegionName.{compare_names}
use gohbase.Region.{Region}
use gohbase.RegionCache.{Entry, Tree}
use gohbase.RegionCache.Entries.{unwind}
use gohbase.RegionCache.Laws.{TreeLaws, Compares, Stands, Enumerates, First}

pub key_order : Bytes → Bytes → Ordering
key_order a b = elim (compare_names a b) [ none ↦ Ordering.eq | some d ↦ sign d ]

pub data Walk : Type 0 where
  landed : List Entry → List Entry → Walk
  standing : List Entry → Walk

pub seek_from : Bytes → List Entry → List Entry → Walk × Bool
seek_from key before [] = (landed before [], false)
seek_from key before (e ∷ es) = elim (key_order key e.0) [
  | Ordering.lt ↦ (landed before (e ∷ es), false)
  | Ordering.eq ↦ (standing (e ∷ es), true)
  | Ordering.gt ↦ seek_from key (e ∷ before) es
]

pub step_next : Walk → Option Entry × Walk
step_next (landed before []) = (none, standing [])
step_next (landed before (e ∷ es)) = (some e, standing es)
step_next (standing []) = (none, standing [])
step_next (standing (e ∷ es)) = (some e, standing es)

pub step_prev : Walk → Option Entry × Walk
step_prev (landed [] after) = (none, standing [])
step_prev (landed (x ∷ []) after) = (some x, standing [])
step_prev (landed (x ∷ w ∷ before) after) = (some x, standing (w ∷ x ∷ after))
step_prev (standing es) = (none, standing [])

pub find_entry : List Entry → Bytes → Option Region
find_entry [] key = none
find_entry (e ∷ es) key = elim (key_order key e.0) [
  | Ordering.lt ↦ none
  | Ordering.eq ↦ some e.1
  | Ordering.gt ↦ find_entry es key
]

pub set_entry : List Entry → Bytes → Region → List Entry
set_entry [] key reg = (key, reg) ∷ []
set_entry (e ∷ es) key reg = elim (key_order key e.0) [
  | Ordering.lt ↦ (key, reg) ∷ e ∷ es
  | Ordering.eq ↦ (key, reg) ∷ es
  | Ordering.gt ↦ e ∷ set_entry es key reg
]

pub delete_entry : List Entry → Bytes → List Entry × Bool
delete_entry [] key = ([], false)
delete_entry (e ∷ es) key = elim (key_order key e.0) [
  | Ordering.lt ↦ (e ∷ es, false)
  | Ordering.eq ↦ (es, true)
  | Ordering.gt ↦ (e ∷ (delete_entry es key).0, (delete_entry es key).1)
]

pub first_entry : List Entry → Option Walk
first_entry [] = none
first_entry (e ∷ es) = some (standing (e ∷ es))

abbrev pub list_tree : Tree
list_tree = record {
  Root = List Entry;
  Enumerator = Walk;
  len = length;
  find = find_entry;
  set = set_entry;
  delete = delete_entry;
  seek = λ es key. seek_from key [] es;
  seek_first = first_entry;
  prev = step_prev;
  next = step_next;
}

pub Compares-key_order : (a b : Bytes) (o : Ordering) → Compares a b o → key_order a b ≡ o
unfolding key_order
Compares-key_order a b o (d, ran, s) = ground (arith, ran, s)

pub seek_behind :
    (key : Bytes) (before acc after : List Entry)
    → All (λ e. Compares key e.0 Ordering.gt) before
    → seek_from key acc (unwind before after) ≡ seek_from key (before ++ acc) after
unfolding seek_from
seek_behind key [] acc after h = refl
seek_behind key (e ∷ before) acc after (he, h) =
    seek_behind key before acc (e ∷ after) h
    ∙ ground (arith, Compares-key_order key e.0 Ordering.gt he)

pub seek_ahead :
    (key : Bytes) (before after : List Entry)
    → All (λ e. Compares key e.0 Ordering.lt) after
    → seek_from key before after ≡ (landed before after, false)
unfolding seek_from
seek_ahead key before [] h = refl
seek_ahead key before (e ∷ after) (he, h) =
    ground (arith, Compares-key_order key e.0 Ordering.lt he)

pub standing-Enumerates : (es : List Entry) → Enumerates list_tree (standing es) es
unfolding Enumerates step_next
standing-Enumerates [] = refl
standing-Enumerates (e ∷ es) = (refl, standing-Enumerates es)

pub landed-Stands :
    (before after : List Entry) → Stands list_tree (landed before after) before after
unfolding Stands Enumerates step_prev step_next
landed-Stands [] after = (refl, refl)
landed-Stands (x ∷ []) after = (refl, refl)
landed-Stands (x ∷ w ∷ before) after = (refl, standing-Enumerates (w ∷ x ∷ after))

pub first_entry-First : (es : List Entry) → First list_tree (first_entry es) es
unfolding First first_entry
first_entry-First [] = refl
first_entry-First (e ∷ es) = standing-Enumerates (e ∷ es)

pub find_behind :
    (key : Bytes) (before after : List Entry)
    → All (λ e. Compares key e.0 Ordering.gt) before
    → find_entry (before ++ after) key ≡ find_entry after key
unfolding find_entry
find_behind key [] after h = refl
find_behind key (e ∷ before) after (he, h) =
    ground (arith, Compares-key_order key e.0 Ordering.gt he, find_behind key before after h)

pub set_behind :
    (key : Bytes) (reg : Region) (before after : List Entry)
    → All (λ e. Compares key e.0 Ordering.gt) before
    → set_entry (before ++ after) key reg ≡ before ++ set_entry after key reg
unfolding set_entry
set_behind key reg [] after h = refl
set_behind key reg (e ∷ before) after (he, h) =
    ground (arith, Compares-key_order key e.0 Ordering.gt he, set_behind key reg before after h)

pub delete_behind :
    (key : Bytes) (before after : List Entry)
    → All (λ e. Compares key e.0 Ordering.gt) before
    → delete_entry (before ++ after) key
      ≡ (before ++ (delete_entry after key).0, (delete_entry after key).1)
unfolding delete_entry
delete_behind key [] after h = refl
delete_behind key (e ∷ before) after (he, h) =
    ground (arith, Compares-key_order key e.0 Ordering.gt he, delete_behind key before after h)

pub find_ahead :
    (key : Bytes) (after : List Entry)
    → All (λ e. Compares key e.0 Ordering.lt) after
    → find_entry after key ≡ none
unfolding find_entry
find_ahead key [] h = refl
find_ahead key (e ∷ after) (he, h) = ground (arith, Compares-key_order key e.0 Ordering.lt he)

pub set_ahead :
    (key : Bytes) (reg : Region) (after : List Entry)
    → All (λ e. Compares key e.0 Ordering.lt) after
    → set_entry after key reg ≡ (key, reg) ∷ after
unfolding set_entry
set_ahead key reg [] h = refl
set_ahead key reg (e ∷ after) (he, h) = ground (arith, Compares-key_order key e.0 Ordering.lt he)

pub delete_ahead :
    (key : Bytes) (after : List Entry)
    → All (λ e. Compares key e.0 Ordering.lt) after
    → delete_entry after key ≡ (after, false)
unfolding delete_entry
delete_ahead key [] h = refl
delete_ahead key (e ∷ after) (he, h) = ground (arith, Compares-key_order key e.0 Ordering.lt he)

pub find_here :
    (key : Bytes) (reg : Region) (after : List Entry)
    → Compares key key Ordering.eq
    → find_entry ((key, reg) ∷ after) key ≡ some reg
unfolding find_entry
find_here key reg after h = ground (arith, Compares-key_order key key Ordering.eq h)

pub delete_here :
    (key : Bytes) (reg : Region) (after : List Entry)
    → Compares key key Ordering.eq
    → delete_entry ((key, reg) ∷ after) key ≡ (after, true)
unfolding delete_entry
delete_here key reg after h = ground (arith, Compares-key_order key key Ordering.eq h)

abbrev pub list_laws : TreeLaws list_tree
list_laws = record {
  entries = λ es. es;
  len_entries = λ es. refl;
  first_entries = first_entry-First;
  seek_entries = λ es key before after split behind ahead.
      let sought : seek_from key [] es ≡ (landed before after, false) =
        ap (seek_from key []) split
        ∙ seek_behind key before [] after behind
        ∙ ap (λ b. seek_from key b after) (append-nil before)
        ∙ seek_ahead key before after ahead in
      (
        ap (λ s. s.1) sought,
        subst (λ s. Stands list_tree s.0 before after) (sym sought) (landed-Stands before after),
      );
  find_present = λ es key before reg after split h same.
      ap (λ es. find_entry es key) split
      ∙ find_behind key before ((key, reg) ∷ after) h.0
      ∙ find_here key reg after same;
  find_absent = λ es key before after split h.
      ap (λ es. find_entry es key) split
      ∙ find_behind key before after h.0
      ∙ find_ahead key after h.1;
  set_absent = λ es key reg before after split h.
      ap (λ es. set_entry es key reg) split
      ∙ set_behind key reg before after h.0
      ∙ ap (◌++◌ before) (set_ahead key reg after h.1);
  delete_present = λ es key before reg after split h same.
      let deleted : delete_entry es key ≡ (before ++ after, true) =
        ap (λ es. delete_entry es key) split
        ∙ delete_behind key before ((key, reg) ∷ after) h.0
        ∙ ap (λ d. (before ++ d.0, d.1)) (delete_here key reg after same) in
      (ap (λ d. d.0) deleted, ap (λ d. d.1) deleted);
  delete_absent = λ es key before after split h.
      let deleted : delete_entry es key ≡ (before ++ after, false) =
        ap (λ es. delete_entry es key) split
        ∙ delete_behind key before after h.0
        ∙ ap (λ d. (before ++ d.0, d.1)) (delete_ahead key after h.1) in
      (ap (λ d. d.0) deleted ∙ sym split, ap (λ d. d.1) deleted);
}
