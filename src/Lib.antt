-- ===== src/Lib.antt =====
-- Two C libraries that the FantasyIQ app is built with.
--
-- - FantasyIQ/Pods/nanopb: protocol buffers. `pb_encode.c` writes to an output stream, `pb_decode.c`
--   reads from an input stream, and both walk over a message structure with the field iterator of
--   `pb_common.c`, along descriptor arrays (`pb_field_t` of `pb.h`).
-- - FantasyIQ/Pods/FirebaseDatabase/Firebase/Database/third_party/SocketRocket/fbase64.c: the base64
--   codec `f_b64_ntop` and `f_b64_pton`, which the web socket handshake uses.
--
-- Files, and what they model. A definition has the name of its C function.
-- - Base (Tests, Lists, Bits): tests, lists and bit operations on the native numbers.
-- - Base64: fbase64.c. Base64/Digits, Ntop, Pton and RoundTrip prove, Base64/Examples are runs.
-- - Nanopb/Error: the error messages. Nanopb/Field: `pb_field_t` and the type codes of pb.h.
-- - Nanopb/Iterator: pb_common.c; Walk and Find prove.
-- - Nanopb/Wire: the wire format that both directions are held to; no C code but `pb_wire_type_t`.
-- - Nanopb/Output: `pb_ostream_t` and `pb_write`; Output/Buffer: the stream over a memory buffer;
--   Output/Emits: what it means that a function writes a list of bytes.
-- - Nanopb/Encode: `pb_encode_varint` to `pb_encode_string` of pb_encode.c; Varint, Scalars prove.
-- - Nanopb/Machine: the memory, descriptors and function pointers that the message encoder reads.
-- - Nanopb/FieldEncoders: the `pb_enc_` functions and `submessage`, which is pb_encode_submessage
--   without its recursion; Submessage and Values prove.
-- - Nanopb/Defaults: `pb_check_proto3_default_value`. Nanopb/Arrays: `encode_array`; Packed and
--   Encoding prove. Nanopb/Message: fields, extensions, callbacks, `pb_encode` and its variants;
--   Message/Encoding gives a message its bytes by the wire format and says which messages have
--   them, Fields, Emits, Buffers, Same and Fuel (that more fuel changes nothing) prove,
--   Message/Examples are runs.
-- - Nanopb/Input: `pb_istream_t`, `pb_read`, `pb_readbyte`; Input/Buffer: the stream over a buffer,
--   and what it means that a function takes a list of bytes.
-- - Nanopb/Decode: varints, keys, skipping, raw values, substreams and fixed words of pb_decode.c;
--   Bytes, Varint, Overflow, Varint32, Wraps, Scalars and Skip prove.
-- - Nanopb/RoundTrip: from pb_encode.c through a buffer to pb_decode.c, number by number.
-- - Nanopb/Decoder: the rest of pb_decode.c, which changes memory. Store: memory, the allocator's
--   state and the parameters; Allocate: `allocate_field`; Values: the `pb_dec_` functions; Reset:
--   `pb_message_set_to_defaults` and the extension iterator; Release: `pb_release` and unions;
--   Static, Pointer, Fields: the field decoders, callbacks and extensions; Required: the bitmap of
--   required fields; Message: `pb_decode_noinit`, `pb_decode` and their variants. Examples, Runs,
--   OverflowRuns and ReceivedRuns, with Setup, SetupPlaced and Outer, are runs, and the others
--   prove: Memory, Words, Copies, Scalars and Stored what is stored for the bytes of a scalar,
--   Numbers which number that is, Items for the entries of an array, ArrayOverflow for more entries
--   than there is room for, Submessages for a submessage; Keeps, Safety, Frame and StaticFrame
--   where is written for any bytes; Layout says how a structure is laid out and when it is empty,
--   Defaults and Emptied prove it of a structure with default values; Pointers and Released, run in
--   ReleasedRuns, what `pb_release` leaves; Product what is allocated; Seen and Count the required
--   fields; Chunks and ChunkLists say what a message with known and unknown fields is, Extensions,
--   Loop, ChunkBounds and Complete how it is decoded; SingleFields, RepeatedFields, ArrayChunks,
--   Kinds, Sent, SentChunks, SentSeen, Nested, ArrayFrame, Moves, MessageFrame, Sendable and
--   Transfer go from a structure through `pb_encode` to another structure; ArrayCount, ArrayValues,
--   Reached, SameFields and SameStored what its fields hold, by what SameMessage says of two
--   structures, and Received concludes.
--
-- A C function on a stream takes the stream and returns its result with the changed stream:
-- `Encode S` returns a Boolean, `Read S A` an optional value, where S is the type of the state that
-- the stream's callback keeps. Callbacks are functions that a stream holds. size_t and pointers have
-- 64 bits, pb_size_t has 32 (PB_FIELD_32BIT), uint_fast8_t has 8; an int64_t is its bit pattern. The
-- wrap-around of a width is written out.
--
-- Loops run on fuel where they are not recursion on a list: `varint_loop` on the 10 bytes of its
-- buffer, `varint_rounds` on 11 rounds (ten bytes reach bit 70, past the check at 64),
-- `varint32_rounds` and `skip_rounds` on the bytes that are left, since each round takes one,
-- `skip_chunks` on the bytes to skip, `find_rounds` and `encode_fields` on the number of entries,
-- `string_size` on the size of the array. `pb_encode` recurses on fuel, one for each level of
-- submessages; `IsMessage` says of a message that the fuel is enough for it. Without fuel the
-- result is `undefined`, a parameter, which also stands for calls through NULL.
--
-- Memory is a function from addresses to bytes, in which structs have the layout of a 64-bit target.
-- The encoder only reads it; `Decode H S` also passes a store of memory and of what the allocator
-- remembers, of any type H. What the application's callbacks do, what realloc and free do, and where
-- the local `fixed_count_size` of each activation lies (`count_slot`) are parameters.
--
-- In the decoder `message_rounds` runs on the bytes left, since a key takes one, and so do the loops
-- over packed arrays, whose entries take one each; `pb_decode_noinit` recurses on fuel, one for each
-- level of submessages, and a list of extensions is followed as far. A callback that is called again
-- for the rest of a string is taken to read a byte each time: beyond that the result is `undefined`.
--
-- Not modelled: what a read that fails leaves in the bytes of its target, the generated descriptor
-- tables, what a failed base64 call leaves in its target, and everything in Swift, Objective-C and
-- C++ (the app, Firebase, the Google utilities, LevelDB).
pub mod Base
pub mod Base64
pub mod Nanopb
