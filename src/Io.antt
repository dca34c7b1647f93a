-- ===== src/Io.antt =====
-- src/czarr/lowlevel/io.py: `read` where cuFile is not available, and `_host_read_into`. A buffer is the
-- bytes that were read into it; the rest of a buffer that is not full is never seen, since `read` raises.
pub mod Device
pub mod Exact
use czarr.Prelude.{
  ℕ, List, [], ◌∷◌, length, Option, none, some, Bool, slice, ◌==◌, if◌then◌else◌, Outcome, done,
  raise, ◌>>=◌, file_not_found, os_error,
}
use czarr.Plan.ShardIndex.{Bytes, Files}
use czarr.Plan.Ranges.{ReadRequest}

-- `f.seek(request.offset)`, `f.readinto(memoryview(host))`: a read stops at the end of the file.
abbrev pub read_content : ReadRequest → Option Bytes → Outcome Bytes
read_content r none = raise file_not_found
read_content r (some content) = done (slice content r.offset r.nbytes)

-- `_host_read_into`
unfoldable pub host_read_into : Files → ReadRequest → Outcome Bytes
host_read_into files r = read_content r (files r.path)

-- `[_host_read_into(r, b) for r, b in zip(requests, buffers, strict=True)]`
unfoldable pub host_read_all : Files → List ReadRequest → Outcome (List Bytes)
unfolding host_read_into
host_read_all files [] = done []
host_read_all files (r ∷ requests) = do
  buffer ← host_read_into files r
  buffers ← host_read_all files requests
  done (buffer ∷ buffers)

-- The check of the counts: `if n != r.nbytes: raise OSError`.
unfoldable pub check_counts : List ReadRequest → List Bytes → List Bytes → Outcome (List Bytes)
check_counts (r ∷ requests) (b ∷ got) buffers =
    if length b == r.nbytes then check_counts requests got buffers else raise os_error
check_counts _ _ buffers = done buffers

-- `read`
unfoldable pub read : Files → List ReadRequest → Outcome (List Bytes)
unfolding host_read_all check_counts
read files requests = do
  buffers ← host_read_all files requests
  check_counts requests buffers buffers
