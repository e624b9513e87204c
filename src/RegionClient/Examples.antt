-- ===== src/RegionClient/Examples.antt =====
-- The theorems on the region client, applied to a concrete client and stream.
use gohbase.Prelude.{
  ℕ, suc, ◌^◌, ◌<◌, ◌≡◌, refl, true, false, Option, none, some, List, [], ◌∷◌, ◌++◌, map, arith,
  length, All, ok,
}
use gohbase.Bytes.{Bytes}
use gohbase.Bytes.BigEndian.{put_uint16, put_uint32, put_uint64}
use gohbase.Bytes.Slices.{cut, cut-append, copy_at}
use gohbase.Cellblock.{Cell}
use gohbase.Cellblock.Encode.{Fits, block}
use gohbase.Cellblock.RoundTrip.{blocks}
use gohbase.Compressor.{Codec, compress_cellblocks, compress_loop, append_chunk, min, grow_buffer}
use gohbase.Compressor.Buffers.{read}
use gohbase.Compressor.Chunks.{Lawful}
use gohbase.Responses.{CellResult}
use gohbase.Responses.ScanCells.{all_cells}
use gohbase.RegionClient.{Header, Wire, Rpc, find_rpc, delete_rpc, Client, receive, try_send}
use gohbase.RegionClient.Exceptions.{server_error, unread}
use gohbase.RegionClient.Receiving.{WireLaws, body, packet}
use gohbase.RegionClient.ScanResponse.{ScanMessage, read_scan_message, announced, receive-scan}
use gohbase.RegionClient.Ledger.{AreNumbered, Accounts, try_send-Accounts}
use gohbase.RegionClient.Receipts.{Keeps, Yields, receive-Keeps}

abbrev cell : Cell
cell = record {
  row = b'r' ∷ [];
  family = b'f' ∷ [];
  qualifier = b'q' ∷ [];
  timestamp = 1000;
  value = b'v' ∷ [];
  cell_type = 4;
}

abbrev results : List CellResult
results = record { cells = cell ∷ []; partial = false } ∷ record { cells = []; partial = true } ∷ []

results-Fits : All Fits (all_cells results)
unfolding all_cells
results-Fits = (
  record {
    row_fits = omega arith;
    family_fits = omega arith;
    timestamp_fits = omega arith;
    block_fits = omega arith;
  },
  tt,
)

results-short : length (blocks (all_cells results)) < 2 ^ 32
unfolding all_cells blocks block put_uint16 put_uint32 put_uint64
results-short = omega arith

-- A codec that stores its chunks as they are.
abbrev stored : Codec
stored = record {
  encode = λ src dst. (dst ++ src, length src);
  decode = λ src dst. some (dst ++ src, length src);
  chunk_len = 64;
}

stored-Lawful : Lawful stored
stored-Lawful = record {
  chunk_of = λ src. src;
  encode_eq = λ src dst short. refl;
  decode_eq = λ src dst short. refl;
  chunk_fits = λ src short. omega arith;
  chunk_len_pos = omega arith;
}

-- The length, the length of the only chunk, and the chunk.
abbrev compressed : Bytes
compressed =
    put_uint32 (length (blocks (all_cells results)))
    ++ (put_uint32 (length (blocks (all_cells results))) ++ blocks (all_cells results))

compressed-sent :
    compress_cellblocks stored
      (blocks (all_cells results) ∷ [])
      (length (blocks (all_cells results)))
    ≡ ok compressed
unfolding all_cells blocks block put_uint16 put_uint32 put_uint64 compress_cellblocks compress_loop
    append_chunk grow_buffer copy_at read min
compressed-sent = refl

abbrev header : Header
header = record { call_id = some 7; exception = none; cell_block_len = some (length compressed) }

-- A field of one byte for its length, and a header that is always the same.
consume : Bytes → Option (Bytes × ℕ)
consume [] = none
consume (n ∷ b) = elim (cut n b) [ none ↦ none | some (m, rest) ↦ some (m, suc n) ]

abbrev wire : Wire
wire = record { consume_bytes = consume; unmarshal_header = λ b. some header }

consume-field :
    (m rest : Bytes) → consume ((length m ∷ m) ++ rest) ≡ some (m, length (length m ∷ m))
unfolding consume
consume-field m rest = ground (arith, cut-append m rest)

abbrev wire_laws : WireLaws wire
wire_laws = record { append_bytes = λ m. length m ∷ m; consume_append = consume-field }

-- The response of one byte is announced as the results of the scan.
abbrev rpc : Rpc ScanMessage
rpc = record {
  is_done = false;
  unmarshal = λ b. some (announced results);
  deserialize_cell_blocks = some read_scan_message;
}

abbrev client : Client ScanMessage
client = record { id = 7; sent = (7, rpc) ∷ (4, rpc) ∷ []; is_closed = false }

client-waits : find_rpc ScanMessage 7 client.sent ≡ some rpc
unfolding find_rpc
client-waits = refl

compressed-nonempty : 0 < length compressed
unfolding put_uint32
compressed-nonempty = omega arith

response-short : length (body wire_laws (1 ∷ []) (2 ∷ []) compressed) < 2 ^ 32
unfolding all_cells blocks block put_uint16 put_uint32 put_uint64
response-short = omega arith

receive-scan_example :
    receive ScanMessage wire
      (some stored)
      []
      true
      client
      (packet wire_laws (1 ∷ []) (2 ∷ []) compressed ++ (9 ∷ []))
    ≡ ok (record {
      client = record client { sent = delete_rpc ScanMessage 7 client.sent };
      returned =
          (rpc, ok (record (announced results) { results = map (λ r. some r) results })) ∷ [];
      error = none;
      rest = 9 ∷ [];
    })
receive-scan_example =
    receive-scan wire_laws stored-Lawful results [] (9 ∷ []) client 7 rpc header (1 ∷ []) (2 ∷ [])
      compressed client-waits refl refl refl refl refl refl refl results-Fits results-short
      compressed-sent compressed-nonempty response-short

client-AreNumbered : AreNumbered client
client-AreNumbered = ((omega arith, (omega arith, tt)), ((omega arith, tt), (tt, tt)))

try_send-Accounts_example :
    Accounts rpc client (try_send ScanMessage rpc (some (server_error unread)) client)
try_send-Accounts_example =
    try_send-Accounts rpc client (omega arith) client-AreNumbered (some (server_error unread))

receive-Keeps_example : Yields (Keeps client) (
    receive ScanMessage wire
      (some stored)
      []
      true
      client
      (packet wire_laws (1 ∷ []) (2 ∷ []) compressed ++ (9 ∷ [])))
receive-Keeps_example =
    receive-Keeps wire (some stored) [] (packet wire_laws (1 ∷ []) (2 ∷ []) compressed ++ (9 ∷ []))
      client client-AreNumbered
