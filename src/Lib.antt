-- ===== src/Lib.antt =====
-- aws-c-http: the parts of the library that frame, encode and check bytes.
--
-- Parts, and the files that model them:
-- - Websocket/Frame and Websocket/Opcode: the frame, its length constants and its opcodes
--   (include/aws/http/private/websocket_impl.h, include/aws/http/websocket.h), and the masking loop.
--   Websocket/Mask has its lemmas.
-- - Websocket/Decoder: source/websocket_decoder.c. Types has the struct, Steps and Process one
--   function for each state function, under its name without `s_`, and the loop `process` of
--   `aws_websocket_decoder_process`. Termination, Invariant, Moves, Stalls, Resume and Chunks prove
--   what the loop does.
-- - Websocket/Encoder: source/websocket_encoder.c, laid out in the same way. Pending says which bytes
--   a frame takes on the wire; Conserve, HeaderSteps, PayloadStep, Emission and Completion prove that
--   these are the bytes sent; StartFrame has `aws_websocket_encoder_start_frame` and
--   `aws_websocket_frame_encoded_size`.
-- - Websocket/HeaderBytes: the first two bytes of a frame, between the encoder and the decoder.
--   Agreement sets the fragmentation rules of the two side by side; HeaderRoundTrip, HeaderStages,
--   PayloadTaken, PayloadStages and FrameRoundTrip follow the bytes of a frame through the decoder, and RoundTrip
--   joins both sides.
-- - Hpack/Integer: `aws_hpack_encode_integer` of source/hpack_encoder.c and
--   `aws_hpack_decode_integer` of source/hpack_decoder.c. Codec has both, Pieces is about a code that
--   arrives in two pieces.
-- - Hpack/Table: the dynamic table of source/hpack.c: Ring has its state and the lookup by index,
--   Operations what changes it; Eviction, Insertion and Growth have the proofs.
-- - Hpack/Static: the static table and `aws_hpack_find_index` of source/hpack.c.
-- - Hpack/Strings: `aws_hpack_encode_string` and `aws_hpack_decode_string`: Codec has both, Reading,
--   Writing and RoundTrip the proofs.
-- - Hpack/Entries: Encode is the header blocks of source/hpack_encoder.c, Decode `aws_hpack_decode` of
--   source/hpack_decoder.c, and Termination is about its loop. Literal and RoundTrip follow a literal
--   header field through both, and SizeUpdates is about `aws_hpack_encoder_update_max_table_size`.
-- - Http1/Decoder: source/h1_decoder.c. Types has the struct and its resets, Split the splitting of
--   lines, Headers and Lines the line states, Process the states and the loop of `aws_h1_decode`.
--   Outcomes, Invariant, LineInvariant, Rounds and Loop prove what the loop keeps, Accepted what the
--   callbacks are given, and Order what the order of two headers changes.
-- - Http1/Encoder: source/h1_encoder.c. Types has the structs, States the state functions, Process the
--   loop of `aws_h1_encoder_process`, Scan and Trailer the scans of headers, Head and Chunks the
--   buffers that are filled before a message is sent. Termination is about the loop; Wire says which
--   bytes a message takes, Pieces, Conserve, Copies, Lines, Ends, Bodies, Through and Emission prove
--   that these are the bytes sent; Accepted, OneLine, HeadBytes, Filled, Framing and Request are about
--   what is accepted and its head, ChunkLines and ChunkRoundTrip about the line of a chunk, which the decoder reads. Messages
--   has the messages of source/request_response.c, StatusText `aws_http_status_text` of source/http.c.
-- - ByteBuf: the byte buffers of aws-c-common, for both encoders.
-- - RandomAccessSet: source/random_access_set.c.
-- - ConnectionMonitor: source/connection_monitor.c.
-- - Strutil: source/strutil.c.
-- - Prelude: tests, lists, bits and words that the others share. The modules named DecoderRuns,
--   EncoderRuns and Runs hold tests and examples, and those named Samples what they use.
--
-- State is passed explicitly. A byte cursor is the list of the bytes that it still covers; a byte
-- buffer is the bytes up to its length, with a capacity where the code looks at it. A state function
-- returns the new state and the bytes left, an error as a value beside them. Machine integers keep
-- their wrap-around: `add_u64` and `sub_u64` are the sum and the difference modulo 2^64, and `size_t`
-- has 64 bits.
--
-- Bounds: the states of a WebSocket decoder or encoder only rise, so their loops get ten and nine
-- rounds, and a theorem says that more would not change the result. Each state of the HTTP/1 decoder
-- takes a byte at least, so its loop gets a round for each byte. The
-- HTTP/1 encoder goes through four states for each pending chunk and seven others at most, which is
-- what its loop gets. An HPACK entry has at most four states
-- to go through, so its loop gets four rounds. The integer encoder gets ten
-- rounds, one for each seven bits of a 64-bit number; the round trip says that they are enough for
-- the integers that the decoder reads.
--
-- Parameters: the UTF-8 validator, the byte buffer writes, the appends and the cursor
-- functions of aws-c-common, the input streams of aws-c-io, and the callbacks of the user. What the theorems rely on of them is a record or a predicate beside the
-- parameter, such as `IsWrite` or `IsStreaming`, and the runs instantiate each with a function.
--
-- Not modelled: allocation (which does not fail) and release, logging, channels and sockets, and the parts of the library
-- that set up connections.
pub mod Prelude
pub mod ByteBuf
pub mod ConnectionMonitor
pub mod Hpack
pub mod Http1
pub mod RandomAccessSet
pub mod Strutil
pub mod Websocket
