-- ===== src/Lib.antt =====
-- A client of HBase in Go: requests are encoded as protobuf messages and cellblocks, sent to the
-- region servers that hold the rows, and their answers decoded. This library models the encodings,
-- the order of the region names by which regions are looked up, the test for overlapping regions,
-- the cache of regions, the calls that a region client waits for, batches of calls, how regions
-- are found in the meta table and get their clients again, the compression of cellblocks, and the
-- scanner that goes from region to region.
--
-- - Prelude, Bytes: what the parts share. Go's integers are natural numbers with their wrap-around
--   written out, a byte slice is a list of bytes, a panic is a case of the result type, and Go's
--   standard library functions on slices and integers (encoding/binary, bytes.Equal,
--   bytes.Compare, copy) are definitions of Bytes.
-- - Cellblock: hrpc/mutate.go (cellblockLen, appendCellblock) and hrpc/call.go (cellFromCellBlock,
--   deserializeCellBlocks). A slice expression that reads up to the capacity of a slice has the
--   bytes behind its length as an argument.
-- - Mutate: hrpc/mutate.go (the type Mutate, valuesToCellblocks). A Go map is the list of its
--   entries in the order in which range visits them, which is the same for both loops of the
--   model.
-- - Compressor: region/compressor.go, compression/codec.go and compression/snappy/snappy.go. The
--   functions of github.com/golang/snappy are parameters, with the laws that the package
--   documents.
-- - Options, Requests: hrpc/query.go, hrpc/scan.go, hrpc/get.go, hrpc/mutate.go and hrpc/call.go:
--   the requests of a caller, their options with the checks, and the constructors. An option is
--   one that the package makes; contexts and result channels are left out.
-- - Proto: ToProto of scans, gets and mutations: the fields of the protobuf messages, where a
--   field that is not set is none. What a region server reads is described from HBase's defaults
--   for these fields.
-- - Responses: DeserializeCellBlocks of scans, gets and mutations.
-- - Multi: region/multi.go (newMulti, add, toProto, get, returnResults, freeMulti). What the calls
--   of a batch serialize to and the order in which Go visits the map of regions are arguments.
-- - RegionName: region/info.go (Compare, findCommaFromEnd).
-- - Region: region/info.go (the attributes of a region), rpc.go (createRegionSearchKey,
--   fullyQualifiedTable, probeKey) and caches.go (isRegionOverlap).
-- - Meta: region/info.go (infoFromCell, ParseRegionInfo) and rpc.go (metaLookup). proto.Unmarshal
--   of a region's message is a parameter. The scan is made by the constructor of Requests, its
--   answers are read by Next of Scanner.
-- - RegionCache: caches.go (get, getOverlaps, put and del of keyRegionCache) and rpc.go
--   (getRegionFromCache). The tree of modernc.org/b is a record of its operations with the laws
--   that its package documents; a witness of the laws is a sorted list. A region is what HBase
--   makes: its name is made of its table, start key and a code that starts with a digit.
-- - ClientCache: caches.go (put of clientRegionCache). Clients and regions are pointers, which are
--   numbers.
-- - RegionClient: region/client.go (the tables of Java exceptions, exceptionToError, registerRPC,
--   unregisterRPC, fail, failSentRPCs, trySend, receive). The protobuf and protowire packages are
--   parameters; what send does behind registerRPC, and whether the read deadline can be set, are
--   arguments. The message that stands beside an error is left out.
-- - Batch: rpc.go (SendBatch, findClients, waitForCompletion, handleResultError). What the lookup
--   of each call's client returns, what is read from the channels of results, and the order in
--   which Go visits the clients are arguments.
-- - Calls: rpc.go (SendRPC, getRegionForRpc, getRegionAndClientForRPC, sendBlocking,
--   sendRPCToRegionClient, handleResultError), where what the lookups, waits and channels give in
--   each try is an argument.
-- - Establish: rpc.go (establishRegion, reestablishRegion, lookupRegion, isRegionEstablished,
--   clientDown, findRegion) and caches.go (closeAll). A goroutine is the list of its actions on
--   the regions that it shares with others, made of what its calls return; System lets goroutines,
--   those of Calls among them, act in any order on the regions of Availability.
-- - Availability: region/info.go (IsUnavailable, AvailabilityChan, MarkUnavailable,
--   MarkAvailable), as a step relation on the state that the region's lock guards.
-- - Backoff: rpc.go (sleepAndIncreaseBackoff).
-- - Scan, Scanner: hrpc/scan.go (the query) and scanner.go. SendRPC is a parameter in the form of
--   the list of what its calls return; requests are recorded in the order in which they are sent,
--   those to close a region's scanner, which the source sends in the background, among them.
--
-- The parts meet as they do in the program: a mutation writes its values by appendCellblock, a
-- batch gathers the actions of mutations and gets and gives their results back to them, the bytes
-- of a request go through the compressor, a response's cells are read by deserializeCellBlocks and
-- reach the scanner as the results of its answers, and the search key of a row is compared with
-- the names of the cached regions by Compare, to find the region that holds the row, and the
-- regions that a new one replaces. A region that is not in the cache is looked up by a scan of the
-- meta table; while its client is established the region is unavailable, and those who wait for it
-- go on when it is available again.
--
-- Loops that end by the length of a list are structural. Those that do not have fuel:
-- compressCellblocks has one round for each byte of input and one more, decompressCellblocks one
-- for each byte of its input, in either loop, and Next one for each buffered result and each
-- result or answer that may still come, and one more, and getOverlaps one for each cached region
-- and one more.
--
-- Not modelled: the rest of the cache of regions by client, the connections to region servers with
-- their queues and the writing of requests, the conversion of a call's message into a result, the
-- asynchronous lookup in ZooKeeper, the requests of the admin client, filters and the messages of
-- the other requests, metrics and tracing.
pub mod Prelude
pub mod Bytes
pub mod Cellblock
pub mod Mutate
pub mod Compressor
pub mod Options
pub mod Requests
pub mod Proto
pub mod Responses
pub mod Meta
pub mod Calls
pub mod Establish
pub mod Batch
pub mod Multi
pub mod Backoff
pub mod Availability
pub mod RegionName
pub mod Region
pub mod RegionCache
pub mod Scan
pub mod Scanner
pub mod RegionClient
pub mod ClientCache
