-- ===== src/Prelude/Text.antt =====
-- Native strings and their equality.
use mathlib.Core.Path.{◌≡◌}
use mathlib.Core.Bool.{true}
use native.Mathlib.Omega.{arith}
pub use Prim.Native.String.{String}
pub use text.Mathlib.Text.{◌==◌ as str_eq}
pub use text.Mathlib.TextEquality.{eq_iff}
pub use Prim.Native.String.{◌++◌ as append}

pub str_eq_refl : (key : String) → str_eq key key ≡ true
str_eq_refl key = ground (arith, eq_iff key key)
