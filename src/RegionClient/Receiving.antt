-- ===== src/RegionClient/Receiving.antt =====
-- region/client.go (receive): a response that a region server writes.
use gohbase.Prelude.{
  ℕ, suc, ◌+◌, ◌-◌, ◌%◌, ◌^◌, ◌<◌, ◌≡◌, refl, sym, ap, subst, ◌∙◌, true, false, Option, none, some,
  [], ◌∷◌, ◌++◌, append_assoc, arith, ltb, length, length-append, Result, ok,
}
use gohbase.Bytes.{Bytes}
use gohbase.Bytes.BigEndian.{put_uint32, next_uint32-put}
use gohbase.Bytes.Slices.{cut, cut-append}
use gohbase.Compressor.{Codec, decompress_cellblocks}
use gohbase.RegionClient.{
  Header, Wire, Rpc, find_rpc, delete_rpc, Client, unregister_rpc, read_cells, answer, deliver,
  read_response, receive_header, receive_named, receive,
}

-- What protowire is used for: a length-delimited field is read back.
pub record WireLaws (wire : Wire) : Type 0 where
  pub append_bytes : Bytes → Bytes
  pub consume_append :
      (m rest : Bytes)
      → wire.consume_bytes (append_bytes m ++ rest) ≡ some (m, length (append_bytes m))

-- The cell blocks as they are sent.
abbrev pub IsSentAs : Option Codec → Bytes → Bytes → Type 0
IsSentAs none plain cells = cells ≡ plain
IsSentAs (some codec) plain cells = decompress_cellblocks codec cells ≡ ok plain

module _ {wire : Wire} (laws : WireLaws wire) where
  open laws use {append_bytes}

  -- A response behind its length.
  abbrev pub body : Bytes → Bytes → Bytes → Bytes
  body header_bytes response cells = append_bytes header_bytes ++ (append_bytes response ++ cells)

  abbrev pub packet : Bytes → Bytes → Bytes → Bytes
  packet header_bytes response cells =
      put_uint32 (length (body header_bytes response cells)) ++ body header_bytes response cells

cut-end :
    (front cells : Bytes)
    → 0 < length cells
    → length (front ++ cells) < 2 ^ 32
    → cut ((length (front ++ cells) + 2 ^ 32 - length cells) % 2 ^ 32) (front ++ cells)
      ≡ some (front, cells)
cut-end front cells some_cells short =
    let at : (length (front ++ cells) + 2 ^ 32 - length cells) % 2 ^ 32 ≡ length front =
      omega (arith, length-append front cells) in
    ap (λ (n : ℕ). cut n (front ++ cells)) at ∙ cut-append front cells

module _ {Message : Type 0} where
  read_cells-sent :
      (codec : Option Codec) (spare : Bytes)
      (deserialize : Message → Bytes → Bytes → Result (Unit {0}) (Message × ℕ))
      (front cells plain : Bytes) (msg msg' : Message)
      → IsSentAs codec plain cells
      → 0 < length cells
      → length (front ++ cells) < 2 ^ 32
      → deserialize msg plain spare ≡ ok (msg', length plain)
      → read_cells Message codec spare deserialize (length cells) (front ++ cells) msg ≡ ok msg'
  unfolding read_cells
  read_cells-sent none spare deserialize front cells plain msg msg' sent some_cells short read =
      let read' : deserialize msg cells spare ≡ ok (msg', length cells) =
        subst (λ p. deserialize msg p spare ≡ ok (msg', length p)) (sym sent) read in
      let whole : ltb (length cells) (length cells) ≡ false = ground arith in
      simp (cut-end front cells some_cells short, read', whole) refl
  read_cells-sent (some k) spare deserialize front cells plain msg msg' sent some_cells short read =
      let whole : ltb (length plain) (length plain) ≡ false = ground arith in
      simp (cut-end front cells some_cells short, sent, read, whole) refl

  module _ {wire : Wire} (laws : WireLaws wire) where
    open laws use {append_bytes, consume_append}

    answer-sent :
        (codec : Option Codec) (spare : Bytes) (rpc : Rpc Message) (h : Header)
        (deserialize : Message → Bytes → Bytes → Result (Unit {0}) (Message × ℕ))
        (header_bytes response cells plain : Bytes) (msg msg' : Message)
        → h.exception ≡ none
        → h.cell_block_len ≡ some (length cells)
        → rpc.unmarshal response ≡ some msg
        → rpc.deserialize_cell_blocks ≡ some deserialize
        → IsSentAs codec plain cells
        → 0 < length cells
        → length (body laws header_bytes response cells) < 2 ^ 32
        → deserialize msg plain spare ≡ ok (msg', length plain)
        → answer Message wire codec spare rpc h
            (length (append_bytes header_bytes))
            (body laws header_bytes response cells)
          ≡ ok msg'
    unfolding answer
    answer-sent codec spare rpc h deserialize header_bytes response [] plain msg msg' no_exception
          len unmarshalled reads sent some_cells short read =
        absurd (omega (arith, some_cells))
    answer-sent codec spare rpc h deserialize header_bytes response (x ∷ cells) plain msg msg'
          no_exception len unmarshalled reads sent some_cells short read =
        let front = append_bytes header_bytes ++ append_bytes response in
        let shape : front ++ (x ∷ cells) ≡ body laws header_bytes response (x ∷ cells) =
          append_assoc (append_bytes header_bytes) (append_bytes response) (x ∷ cells) in
        let got : read_cells Message codec spare deserialize (suc (length cells))
              (body laws header_bytes response (x ∷ cells)) msg
            ≡ ok msg' =
          ap (λ b. read_cells Message codec spare deserialize (suc (length cells)) b msg)
            (sym shape)
          ∙ read_cells-sent codec spare deserialize front (x ∷ cells) plain msg msg' sent some_cells
              (subst (λ b. length b < 2 ^ 32) (sym shape) short) read in
        ground (
          arith,
          no_exception,
          cut-append (append_bytes header_bytes) (append_bytes response ++ (x ∷ cells)),
          consume_append response (x ∷ cells),
          unmarshalled,
          reads,
          len,
          got,
        )

    -- A response that a region server writes behind its length, with a header that names a call that
    -- waits and the length of the cell blocks that end it, reaches that call: receive returns to it,
    -- and to no other, the message with the cells that DeserializeCellBlocks reads from the blocks,
    -- decompressed if the client has a compressor; the call is waited for no longer, and the rest of
    -- the stream is not read. The deadline can be set, the call's context is not done, there is a
    -- byte of cell blocks at least, and the response is below 2 ^ 32 bytes.
    pub receive-sent :
        (codec : Option Codec) (spare rest : Bytes) (c : Client Message) (id : ℕ)
        (rpc : Rpc Message) (h : Header)
        (deserialize : Message → Bytes → Bytes → Result (Unit {0}) (Message × ℕ))
        (header_bytes response cells plain : Bytes) (msg msg' : Message)
        → find_rpc Message id c.sent ≡ some rpc
        → rpc.is_done ≡ false
        → wire.unmarshal_header header_bytes ≡ some h
        → h.call_id ≡ some id
        → h.exception ≡ none
        → h.cell_block_len ≡ some (length cells)
        → rpc.unmarshal response ≡ some msg
        → rpc.deserialize_cell_blocks ≡ some deserialize
        → IsSentAs codec plain cells
        → 0 < length cells
        → length (body laws header_bytes response cells) < 2 ^ 32
        → deserialize msg plain spare ≡ ok (msg', length plain)
        → receive Message wire codec spare true c (packet laws header_bytes response cells ++ rest)
          ≡ ok (record {
            client = record c { sent = delete_rpc Message id c.sent };
            returned = (rpc, ok msg') ∷ [];
            error = none;
            rest = rest;
          })
    unfolding receive read_response receive_header receive_named deliver unregister_rpc
    receive-sent codec spare rest c id rpc h deserialize header_bytes response cells plain msg msg'
          waits not_done decoded names no_exception len unmarshalled reads sent some_cells short
          read =
        let b = body laws header_bytes response cells in
        let stream : packet laws header_bytes response cells ++ rest
            ≡ put_uint32 (length b) ++ (b ++ rest) =
          append_assoc (put_uint32 (length b)) b rest in
        let answered =
          answer-sent codec spare rpc h deserialize header_bytes response cells plain msg msg'
            no_exception len unmarshalled reads sent some_cells short read in
        ap (receive Message wire codec spare true c) stream
        ∙ ground (
          arith,
          next_uint32-put (length b) (b ++ rest) short,
          cut-append b rest,
          consume_append header_bytes (append_bytes response ++ cells),
          decoded,
          names,
          waits,
          not_done,
          answered,
        )
