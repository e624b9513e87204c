-- ===== src/RegionClient/ScanResponse.antt =====
-- A scan's results on their way from the region server: as cell blocks, compressed, in a response.
use gohbase.Prelude.{
  ℕ, ◌^◌, ◌<◌, ◌≡◌, sym, ap, subst, ◌∙◌, Bool, true, false, Option, none, some, List, [], ◌∷◌, ◌++◌,
  map, append-nil, arith, length, All, concat, Result, ok, err, panics,
}
use gohbase.Bytes.{Bytes}
use gohbase.Cellblock.Encode.{Fits}
use gohbase.Cellblock.RoundTrip.{blocks}
use gohbase.Compressor.{Codec, compress_cellblocks, decompress_cellblocks}
use gohbase.Compressor.Chunks.{Lawful}
use gohbase.Compressor.RoundTrip.{decompress-compress}
use gohbase.Responses.{CellResult, scan_deserialize_cell_blocks}
use gohbase.Responses.ScanCells.{all_cells, scan_deserialize-blocks}
use gohbase.RegionClient.{Header, Wire, Rpc, find_rpc, delete_rpc, Client, receive}
use gohbase.RegionClient.Receiving.{WireLaws, body, packet, receive-sent}

-- pb.ScanResponse, what of it DeserializeCellBlocks reads and writes.
pub record ScanMessage : Type 0 where
  pub cells_per_result : List ℕ
  pub partial_flags : List Bool
  pub results : List (Option CellResult)

unfoldable pub read_scan_message : ScanMessage → Bytes → Bytes → Result (Unit {0}) (ScanMessage × ℕ)
read_scan_message m b spare =
    elim (scan_deserialize_cell_blocks m.cells_per_result m.partial_flags b spare) [
      | ok (results, read_len) ↦ ok (record m { results = results }, read_len)
      | err e ↦ err tt
      | panics ↦ panics
    ]

-- The message before its cells are read.
abbrev pub announced : List CellResult → ScanMessage
announced rs = record {
  cells_per_result = map (λ r. length r.cells) rs;
  partial_flags = map (λ r. r.partial) rs;
  results = [];
}

compressed :
    {k : Codec} (lawful : Lawful k) (plain cells : Bytes)
    → length plain < 2 ^ 32
    → compress_cellblocks k (plain ∷ []) (length plain) ≡ ok cells
    → decompress_cellblocks k cells ≡ ok plain
compressed {k = k} lawful plain cells short sent =
    let whole : concat (plain ∷ []) ≡ plain = append-nil plain in
    let (b, ran, back) =
      decompress-compress lawful (plain ∷ []) (subst (λ p. length p < 2 ^ 32) (sym whole) short) in
    let ran' : compress_cellblocks k (plain ∷ []) (length plain) ≡ ok b =
      ap (λ p. compress_cellblocks k (plain ∷ []) (length p)) (sym whole) ∙ ran in
    let same : b ≡ cells = ground (arith, ran', sent) in
    ap (decompress_cellblocks k) (sym same) ∙ back ∙ ap ok whole

-- A scan's results that a region server writes as cell blocks, compresses with the client's codec
-- and sends in a response to a call that waits reach this call whole, with their partial flags, and
-- no other call gets a result. The codec keeps the codec laws, the cells fit their fields, the
-- blocks and the response are below 2 ^ 32 bytes, the deadline can be set and the call's context is
-- not done.
pub receive-scan :
    {wire : Wire} (laws : WireLaws wire) {k : Codec} (lawful : Lawful k) (rs : List CellResult)
    (spare rest : Bytes) (c : Client ScanMessage) (id : ℕ) (rpc : Rpc ScanMessage) (h : Header)
    (header_bytes response cells : Bytes)
    → find_rpc ScanMessage id c.sent ≡ some rpc
    → rpc.is_done ≡ false
    → wire.unmarshal_header header_bytes ≡ some h
    → h.call_id ≡ some id
    → h.exception ≡ none
    → h.cell_block_len ≡ some (length cells)
    → rpc.unmarshal response ≡ some (announced rs)
    → rpc.deserialize_cell_blocks ≡ some read_scan_message
    → All Fits (all_cells rs)
    → length (blocks (all_cells rs)) < 2 ^ 32
    → compress_cellblocks k (blocks (all_cells rs) ∷ []) (length (blocks (all_cells rs))) ≡ ok cells
    → 0 < length cells
    → length (body laws header_bytes response cells) < 2 ^ 32
    → receive ScanMessage wire
        (some k)
        spare
        true
        c
        (packet laws header_bytes response cells ++ rest)
      ≡ ok (record {
        client = record c { sent = delete_rpc ScanMessage id c.sent };
        returned = (rpc, ok (record (announced rs) { results = map (λ r. some r) rs })) ∷ [];
        error = none;
        rest = rest;
      })
unfolding read_scan_message
receive-scan laws {k = k} lawful rs spare rest c id rpc h header_bytes response cells waits not_done
      decoded names no_exception len unmarshalled reads fits short sent some_cells response_short =
    let plain = blocks (all_cells rs) in
    let deserialized : scan_deserialize_cell_blocks (map (λ r. length r.cells) rs)
          (map (λ r. r.partial) rs) plain spare
        ≡ ok (map (λ r. some r) rs, length plain) =
      ap
        (λ b.
          scan_deserialize_cell_blocks (map (λ r. length r.cells) rs) (map (λ r. r.partial) rs) b
            spare)
        (sym (append-nil plain))
      ∙ scan_deserialize-blocks rs [] spare fits short in
    receive-sent laws (some k) spare rest c id rpc h read_scan_message header_bytes response cells
      plain (announced rs) (record (announced rs) { results = map (λ r. some r) rs }) waits not_done
      decoded names no_exception len unmarshalled reads (compressed lawful plain cells short sent)
      some_cells response_short (ground (arith, deserialized))
