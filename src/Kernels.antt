-- ===== src/Kernels.antt =====
-- src/czarr/kernels: the shuffles of blosc. Device memory is a function from addresses to bytes.
pub mod Bits
pub mod BitShuffle
pub mod ByteShuffle
