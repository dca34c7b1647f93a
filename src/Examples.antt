-- ===== src/Examples.antt =====
-- Runs of the model on small inputs, and the theorems at concrete inputs.
mod Coalesce
pub mod Reads
mod Selections
mod Units
mod Arrays
mod Blosc
mod Buffers
mod Chunks
mod Classes
pub mod Region
mod Codecs
mod Configure
mod Filters
mod Kernels
mod Metadata
mod Handles
mod Opening
mod Store
mod Sharding
mod Driver
