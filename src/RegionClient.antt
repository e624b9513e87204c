-- ===== src/RegionClient.antt =====
-- region/client.go: the calls that a region client waits for, and the answers that it receives.
-- The protobuf and protowire packages are parameters, and so is what a call makes of its response.
-- The message that stands beside an error in a result is left out.
pub mod Exceptions
pub mod Receiving
pub mod Ledger
pub mod Receipts
pub mod ScanResponse
mod Examples
use gohbase.Prelude.{
  ◌>>=◌, ◌>>◌, ℕ, zero, suc, ◌+◌, ◌-◌, ◌%◌, ◌^◌, Bool, true, not, Option, none, some, List, [], ◌∷◌,
  ltb, ◌==◌, if◌then◌else◌, length, Result, ok, err, panics, guard, or_panic, or_err,
}
use gohbase.Bytes.{Bytes}
use gohbase.Bytes.BigEndian.{next_uint32}
use gohbase.Bytes.Slices.{cut}
use gohbase.Compressor.{Codec, decompress_cellblocks}
use gohbase.RegionClient.Exceptions.{
  Cause, unread, bad_header, missing_call_id, deadline, bad_response, bad_compression, bad_cells,
  client_closed, unexpected_call_id, short_read, RpcError, server_error, retryable_error,
  not_serving_region_error, plain_error, exception_to_error,
}

-- pb.ResponseHeader; the length of the cell blocks is set if there is a CellBlockMeta.
pub record Header : Type 0 where
  pub call_id : Option ℕ
  pub exception : Option (Option Bytes × Option Bytes)
  pub cell_block_len : Option ℕ

-- protowire.ConsumeBytes, `none` where its length is negative, and proto.Unmarshal of a header.
pub record Wire : Type 0 where
  pub consume_bytes : Bytes → Option (Bytes × ℕ)
  pub unmarshal_header : Bytes → Option Header

-- The bytes of a response, and those behind it; `none` where io.ReadFull fails.
pub read_response : Bytes → Option (Bytes × Bytes)
read_response stream = elim (next_uint32 stream) [ none ↦ none | some (size, left) ↦ cut size left ]

module _ (Message : Type 0) where
  -- A call: whether its context is done, proto.Unmarshal of its response, and its
  -- DeserializeCellBlocks, if it has one, over the bytes of a slice and those up to its capacity.
  pub record Rpc : Type 0 where
    pub is_done : Bool
    pub unmarshal : Bytes → Option Message
    pub deserialize_cell_blocks : Option (Message → Bytes → Bytes → Result (Unit {0}) (Message × ℕ))

  abbrev pub Sent : Type 0
  Sent = List (ℕ × Rpc)

  abbrev pub Returned : Type 0
  Returned = List (Rpc × Result RpcError Message)

  unfoldable pub find_rpc : ℕ → Sent → Option Rpc
  find_rpc id [] = none
  find_rpc id ((i, rpc) ∷ sent) = if i == id then some rpc else find_rpc id sent

  pub delete_rpc : ℕ → Sent → Sent
  delete_rpc id [] = []
  delete_rpc id ((i, rpc) ∷ sent) =
      let rest = delete_rpc id sent in if i == id then rest else (i, rpc) ∷ rest

  pub record Client : Type 0 where
    pub id : ℕ
    pub sent : Sent
    pub is_closed : Bool

  pub register_rpc : Rpc → Client → ℕ × Client
  register_rpc rpc c =
      let id = (c.id + 1) % 2 ^ 32 in
      (id, record c { id = id; sent = (id, rpc) ∷ delete_rpc id c.sent })

  pub unregister_rpc : ℕ → Client → Option Rpc × Client
  unregister_rpc id c = (find_rpc id c.sent, record c { sent = delete_rpc id c.sent })

  pub fail_sent_rpcs : Sent → Returned
  fail_sent_rpcs [] = []
  fail_sent_rpcs ((i, rpc) ∷ sent) = (rpc, err (server_error client_closed)) ∷ fail_sent_rpcs sent

  -- failOnce; closing the connection has no result.
  pub fail : Client → Client × Returned
  fail c =
      if c.is_closed
      then (c, [])
      else (record c { sent = []; is_closed = true }, fail_sent_rpcs c.sent)

  pub fail_if_server : RpcError → Client → Client × Returned
  fail_if_server (server_error cause) c = fail c
  fail_if_server (retryable_error cause) c = (c, [])
  fail_if_server (not_serving_region_error cause) c = (c, [])
  fail_if_server (plain_error cause) c = (c, [])

  -- The client, the results that are returned to calls, and the error that is returned to the
  -- caller of trySend. The outcome of send behind registerRPC is an argument.
  pub try_send : Rpc → Option RpcError → Client → Client × (Returned × Option RpcError)
  try_send rpc none c = ((register_rpc rpc c).1, ([], none))
  try_send rpc (some e) c =
      let (id, registered) = register_rpc rpc c in
      let (failed, returned) = fail_if_server e registered in
      (
        (unregister_rpc id failed).1,
        (returned, elim (unregister_rpc id failed).0 [ some r ↦ some e | none ↦ none ]),
      )

  -- The cell blocks at the end of a response of `size` bytes.
  pub read_cells :
      Option Codec
      → Bytes
      → (Message → Bytes → Bytes → Result (Unit {0}) (Message × ℕ))
      → ℕ
      → Bytes
      → Message
      → Result RpcError Message
  read_cells codec spare deserialize cells_len b msg = do
    (_, cells) ← or_panic (cut ((length b + 2 ^ 32 - cells_len) % 2 ^ 32) b)
    plain ← (elim codec [
      | none ↦ ok cells
      | some k ↦ elim (decompress_cellblocks k cells) [
        | ok plain ↦ ok plain
        | err e ↦ err (retryable_error bad_compression)
        | panics ↦ panics
      ]
    ])
    (msg', nread) ← (elim (deserialize msg plain spare) [
      | ok r ↦ ok r
      | err e ↦ err (retryable_error bad_cells)
      | panics ↦ panics
    ])
    guard (not (ltb nread (length plain))) (retryable_error (short_read (length plain) nread))
    ok msg'

  -- What receive makes of a response for a call that it has unregistered.
  pub answer : Wire → Option Codec → Bytes → Rpc → Header → ℕ → Bytes → Result RpcError Message
  answer wire codec spare rpc header header_len b = elim header.exception [
    | some (class, stack) ↦ (do
      class' ← or_panic class
      stack' ← or_panic stack
      err (exception_to_error class' stack'))
    | none ↦ (do
      (_, rest) ← or_panic (cut header_len b)
      (response, _) ← or_err (wire.consume_bytes rest) (retryable_error bad_response)
      msg ← or_err (rpc.unmarshal response) (retryable_error bad_response)
      elim rpc.deserialize_cell_blocks [
        | none ↦ ok msg
        | some deserialize ↦ elim header.cell_block_len [
          | none ↦ ok msg
          | some zero ↦ ok msg
          | some (suc n) ↦ read_cells codec spare deserialize (suc n) b msg
        ]
      ])
  ]

  -- What receive leaves behind: the client, what it returned to a call, its own error, and what
  -- it has not read.
  pub record Received : Type 0 where
    pub client : Client
    pub returned : Returned
    pub error : Option RpcError
    pub rest : Bytes

  -- receive behind the header: the call is found or not, SetReadDeadline succeeds or not.
  pub deliver : Client → Bool → Rpc → Result RpcError Message → Bytes → Result (Unit {0}) Received
  deliver c deadline_set rpc answered rest =
      if not deadline_set
      then ok
          (record { client = c; returned = []; error = some (server_error deadline); rest = rest })
      else if rpc.is_done
      then ok (record { client = c; returned = []; error = none; rest = rest })
      else elim answered [
        | ok msg ↦
            ok (record { client = c; returned = (rpc, ok msg) ∷ []; error = none; rest = rest })
        | err e ↦
            ok (record { client = c; returned = (rpc, err e) ∷ []; error = some e; rest = rest })
        | panics ↦ panics
      ]

  -- A failure that leaves the client as it is.
  abbrev pub fails : Client → Cause → Bytes → Result (Unit {0}) Received
  fails c cause rest =
      ok (record { client = c; returned = []; error = some (server_error cause); rest = rest })

  -- The call that a header names.
  pub receive_named :
      Wire
      → Option Codec
      → Bytes
      → Bool
      → Client
      → Bytes
      → Bytes
      → ℕ
      → Header
      → Option ℕ
      → Result (Unit {0}) Received
  receive_named wire codec spare deadline_set c b rest header_len header none =
      fails c missing_call_id rest
  receive_named wire codec spare deadline_set c b rest header_len header (some id) =
      elim (unregister_rpc id c).0 [
        | none ↦ fails (unregister_rpc id c).1 (unexpected_call_id id) rest
        | some rpc ↦
            deliver (unregister_rpc id c).1 deadline_set rpc
              (answer wire codec spare rpc header header_len b) rest
      ]

  -- The header of a response of the bytes `b`.
  pub receive_header :
      Wire
      → Option Codec
      → Bytes
      → Bool
      → Client
      → Bytes
      → Bytes
      → Option (Bytes × ℕ)
      → Result (Unit {0}) Received
  receive_header wire codec spare deadline_set c b rest none = fails c bad_header rest
  receive_header wire codec spare deadline_set c b rest (some (header_bytes, header_len)) =
      elim (wire.unmarshal_header header_bytes) [
        | none ↦ fails c bad_header rest
        | some header ↦
            receive_named wire codec spare deadline_set c b rest header_len header header.call_id
      ]

  pub receive : Wire → Option Codec → Bytes → Bool → Client → Bytes → Result (Unit {0}) Received
  receive wire codec spare deadline_set c stream = elim (read_response stream) [
    | none ↦ fails c unread []
    | some (b, rest) ↦ receive_header wire codec spare deadline_set c b rest (wire.consume_bytes b)
  ]
