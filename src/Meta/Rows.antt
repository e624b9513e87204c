-- ===== src/Meta/Rows.antt =====
-- region/info.go (ParseRegionInfo): a row of the meta table, as HBase writes it.
use gohbase.Prelude.{
  ◌≡◌, refl, sym, ap, ◌∙◌, ◌≢◌, inl, inr, true, false, Option, none, some, List, [], ◌∷◌, ◌++◌,
  append-nil, arith, ◌==◌, Option-cases, length, All, ok, ◌>>=◌,
}
use gohbase.Bytes.{Bytes}
use gohbase.Bytes.BigEndian.{next_uint32}
use gohbase.Bytes.Slices.{cut}
use gohbase.Bytes.Compare.{equal, equal_iff}
use gohbase.Cellblock.{Cell}
use gohbase.Region.{Region}
use gohbase.Region.Overlap.{empty_iff}
use gohbase.Meta.{
  RegionInfo, default_namespace, info_of, info_from_cell, regioninfo, server_qualifier, read_cell,
  read_row, parse_region_info,
}

-- The message of a region that is online.
unfoldable pub message_of : Region → RegionInfo
message_of reg = record {
  region_id = reg.id;
  namespace = elim reg.namespace [ none ↦ default_namespace | some ns ↦ ns ];
  qualifier = reg.table;
  start_key = reg.start_key;
  end_key = reg.stop_key;
  offline = false;
}

-- The value of a regioninfo cell: the magic bytes and the message.
abbrev pub pbuf : Bytes → Bytes
pbuf message = b'P' ∷ b'B' ∷ b'U' ∷ b'F' ∷ message

-- A cell that says nothing about the region or its server.
abbrev pub IsOther : Cell → Type 0
IsOther cell = (cell.qualifier ≢ regioninfo) × (cell.qualifier ≢ server_qualifier)

pub record MetaRow (unmarshal : Bytes → Option RegionInfo) (reg : Region) (addr : Bytes)
    : Type 0 where
  pub before : List Cell
  pub info : Cell
  pub between : List Cell
  pub address : Cell
  pub after : List Cell
  pub message : Bytes
  pub others : All IsOther before × All IsOther between × All IsOther after
  pub is_info : (info.row ≡ reg.name) × (info.qualifier ≡ regioninfo) × (info.value ≡ pbuf message)
  pub is_message : unmarshal message ≡ some (message_of reg)
  pub is_address : (address.qualifier ≡ server_qualifier) × (address.value ≡ addr)
  pub namespace_kept : reg.namespace ≢ some default_namespace

unfoldable pub cells_of :
    {unmarshal : Bytes → Option RegionInfo} {reg : Region} {addr : Bytes}
    → MetaRow unmarshal reg addr
    → List Cell
cells_of row = row.before ++ (row.info ∷ (row.between ++ (row.address ∷ row.after)))

info_of-message_of :
    (reg : Region)
    → reg.namespace ≢ some default_namespace
    → info_of reg.name (message_of reg) ≡ reg
unfolding info_of message_of
info_of-message_of reg kept = elim (Option-cases reg.namespace) [
  | inl e ↦ ground (arith, e, (equal_iff default_namespace default_namespace).1 refl)
  | inr (ns, e) ↦ ground (
    arith,
    e,
    (equal_iff ns default_namespace).0,
    λ (p : ns ≡ default_namespace). kept (e ∙ ap (λ (n : Bytes). some n) p),
  )
]

module _ (unmarshal : Bytes → Option RegionInfo) (spare : Cell → Bytes) where
  info_from_cell-message_of :
      (b : Bytes) (cell : Cell) (reg : Region) (message : Bytes)
      → cell.row ≡ reg.name
      → cell.value ≡ pbuf message
      → unmarshal message ≡ some (message_of reg)
      → reg.namespace ≢ some default_namespace
      → info_from_cell unmarshal b cell ≡ ok reg
  unfolding info_from_cell next_uint32 cut message_of
  info_from_cell-message_of b cell reg message row value known kept =
      rw (value, info_from_cell, known)
        (ap (λ r. ok r) (ap (λ n. info_of n (message_of reg)) row ∙ info_of-message_of reg kept))

  read_row-others :
      (xs ys : List Cell) (found : Option Region × Bytes)
      → All IsOther xs
      → read_row unmarshal spare (xs ++ ys) found ≡ read_row unmarshal spare ys found
  unfolding read_row read_cell
  read_row-others [] ys found h = refl
  read_row-others (x ∷ xs) ys (reg, addr) ((not_info, not_server), h) = ground (
    arith,
    not_info,
    not_server,
    (equal_iff x.qualifier regioninfo).0,
    (equal_iff x.qualifier server_qualifier).0,
    read_row-others xs ys (reg, addr) h,
  )

  -- The region's cell, and the server's, as rounds of the loop.
  read_cell-info :
      (cell : Cell) (reg : Region) (message : Bytes) (found : Option Region × Bytes)
      → (cell.row ≡ reg.name) × (cell.qualifier ≡ regioninfo) × (cell.value ≡ pbuf message)
      → unmarshal message ≡ some (message_of reg)
      → reg.namespace ≢ some default_namespace
      → read_cell unmarshal spare cell found ≡ ok (some reg, found.1)
  unfolding read_cell
  read_cell-info cell reg message found (row, qualifier, value) known kept = ground (
    arith,
    (equal_iff cell.qualifier regioninfo).1 qualifier,
    info_from_cell-message_of (spare cell) cell reg message row value known kept,
  )

  read_cell-address :
      (cell : Cell) (addr : Bytes) (found : Option Region × Bytes)
      → (cell.qualifier ≡ server_qualifier) × (cell.value ≡ addr)
      → addr ≢ []
      → read_cell unmarshal spare cell found ≡ ok (found.0, addr)
  unfolding read_cell equal
  read_cell-address cell addr found (qualifier, value) set =
      rw (qualifier, value, read_cell)
        (ground (arith, λ (z : (length addr == 0) ≡ true). set ((empty_iff addr).0 z)))

  read_row-step :
      (cell : Cell) (cells : List Cell) (found : Option Region × Bytes)
      {found' : Option Region × Bytes}
      → read_cell unmarshal spare cell found ≡ ok found'
      → read_row unmarshal spare (cell ∷ cells) found ≡ read_row unmarshal spare cells found'
  unfolding read_row
  read_row-step cell cells found e = rw (e, ◌>>=◌)

  read_row-cells_of :
      (reg : Region) (addr : Bytes) (row : MetaRow unmarshal reg addr)
      → addr ≢ []
      → read_row unmarshal spare (cells_of row) (none, []) ≡ ok (some reg, addr)
  unfolding read_row cells_of
  read_row-cells_of reg addr row set =
      read_row-others row.before (row.info ∷ behind_info) (none, []) row.others.0
      ∙ read_row-step row.info behind_info (none, [])
          (read_cell-info row.info reg row.message (none, []) row.is_info row.is_message
            row.namespace_kept)
      ∙ read_row-others row.between (row.address ∷ row.after) (some reg, []) row.others.1
      ∙ read_row-step row.address row.after (some reg, [])
          (read_cell-address row.address addr (some reg, []) row.is_address set)
      ∙ ap (λ cs. read_row unmarshal spare cs (some reg, addr)) (sym (append-nil row.after))
      ∙ read_row-others row.after [] (some reg, addr) row.others.2
    where
      behind_info : List Cell
      behind_info = row.between ++ (row.address ∷ row.after)

  -- ParseRegionInfo returns the region and the address of a row of the meta table, whatever other
  -- cells the row has, where the address is not empty, the region is online, and a region of the
  -- default namespace is one without a namespace.
  pub parse_region_info-cells_of :
      (reg : Region) (addr : Bytes) (row : MetaRow unmarshal reg addr)
      → addr ≢ []
      → parse_region_info unmarshal spare (cells_of row) ≡ ok (reg, addr)
  unfolding parse_region_info
  parse_region_info-cells_of reg addr row set =
      rw (read_row-cells_of reg addr row set, ◌>>=◌) (ground (arith, (empty_iff addr).0))
