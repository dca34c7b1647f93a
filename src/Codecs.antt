-- ===== src/Codecs.antt =====
-- src/czarr/codecs: the codecs of chunks. The classes that wrap nvCOMP, their framing and batches,
-- and the filters.
pub mod Checksums
pub mod Frame
pub mod Batch
pub mod Json
pub mod Metadata
pub mod Streams
