-- ===== src/Nanopb/Decoder.antt =====
-- The message decoder of nanopb/pb_decode.c.
pub mod Store
pub mod Memory
pub mod Allocate
pub mod Product
pub mod Values
pub mod Copies
pub mod Scalars
pub mod Stored
pub mod Keeps
pub mod Safety
pub mod Frame
pub mod StaticFrame
pub mod Reset
pub mod Release
pub mod Static
pub mod Pointer
pub mod Fields
pub mod Required
pub mod Seen
pub mod Count
pub mod Extensions
pub mod Chunks
pub mod Loop
pub mod ChunkBounds
pub mod Complete
pub mod Words
pub mod Numbers
pub mod Items
pub mod RepeatedFields
pub mod Layout
pub mod Defaults
pub mod ChunkLists
pub mod Emptied
pub mod Kinds
pub mod ArrayChunks
pub mod Submessages
pub mod SingleFields
pub mod Sent
pub mod SentChunks
pub mod Pointers
pub mod Released
pub mod ReleasedRuns
pub mod ArrayOverflow
pub mod ArrayFrame
pub mod Moves
pub mod Nested
pub mod MessageFrame
pub mod SentSeen
pub mod Sendable
pub mod Transfer
pub mod ArrayCount
pub mod ArrayValues
pub mod Reached
pub mod SameMessage
pub mod SameFields
pub mod SameStored
pub mod Received
pub mod Setup
pub mod SetupPlaced
pub mod Outer
pub mod OverflowRuns
pub mod ReceivedRuns
pub mod Runs
pub mod Message
pub mod Examples
