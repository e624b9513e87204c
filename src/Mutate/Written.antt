-- ===== src/Mutate/Written.antt =====
-- hrpc/mutate.go (valuesToCellblocks): the bytes that its second loop writes.
use gohbase.Prelude.{
  ℕ, ◌≡◌, refl, sym, ◌∙◌, List, [], ◌∷◌, ◌++◌, append-nil, append_assoc, All, All-append_left,
  All-append_right,
}
use gohbase.Bytes.{Bytes}
use gohbase.Cellblock.{Cell}
use gohbase.Cellblock.Encode.{Fits, block, append_cellblock-block}
use gohbase.Cellblock.RoundTrip.{blocks}
use gohbase.Mutate.Described.{
  qualifier_cells, described, timestamp_meant, families_cells, family_cells-described,
  cell_timestamp-timestamp_meant,
}
use gohbase.Mutate.{Mutate, Qualifiers, Values, append_qualifiers, append_families, cell_timestamp}

append_qualifiers-blocks :
    (key family : Bytes) (ts mt : ℕ) (qs : Qualifiers) (cbs : Bytes)
    → All Fits (qualifier_cells key family ts mt qs)
    → append_qualifiers key family ts mt qs cbs
      ≡ cbs ++ blocks (qualifier_cells key family ts mt qs)
unfolding append_qualifiers blocks
append_qualifiers-blocks key family ts mt [] cbs fits = sym (append-nil cbs)
append_qualifiers-blocks key family ts mt ((k1, v1) ∷ more) cbs (fit, fits) =
    append_qualifiers-blocks key family ts mt more _ fits
    ∙ rw (append_cellblock-block cell cbs fit) (append_assoc cbs (block cell) _)
  where
    cell : Cell
    cell = record {
      row = key;
      family = family;
      qualifier = k1;
      timestamp = ts;
      value = v1;
      cell_type = mt;
    }

blocks-append : (cs ds : List Cell) → blocks (cs ++ ds) ≡ blocks cs ++ blocks ds
unfolding blocks
blocks-append [] ds = refl
blocks-append (c ∷ cs) ds =
    rw (blocks-append cs ds) (sym (append_assoc (block c) (blocks cs) (blocks ds)))

pub append_families-blocks :
    (m : Mutate) (vs : Values) (cbs : Bytes)
    → All Fits (families_cells m vs)
    → append_families m (cell_timestamp m) vs cbs ≡ cbs ++ blocks (families_cells m vs)
unfolding append_families families_cells
append_families-blocks m [] cbs fits = unfold blocks in sym (append-nil cbs)
append_families-blocks m ((family, v) ∷ more) cbs fits =
    append_families-blocks m more _ (All-append_right Fits here _ fits)
    ∙ rw
        (
          family_cells-described m.mutation_type m.delete_one_version v,
          cell_timestamp-timestamp_meant m,
          append_qualifiers-blocks m.key family (timestamp_meant m.timestamp) typ.0 typ.1 cbs
              (All-append_left Fits here _ fits),
          blocks-append here (families_cells m more),
        )
        (append_assoc cbs (blocks here) _)
  where
    typ : ℕ × Qualifiers
    typ = described m.mutation_type m.delete_one_version v

    here : List Cell
    here = qualifier_cells m.key family (timestamp_meant m.timestamp) typ.0 typ.1
