-- ===== src/Codecs/Checksums.antt =====
-- What src/czarr/codecs uses of Python's zlib and struct modules.
use Prim.Native.Nat.{bit_xor}
use czarr.Prelude.{ℕ, ◌+◌, ◌*◌, ◌/◌, ◌%◌, ◌^◌, ◌≡◌, refl, List, [], ◌∷◌, ◌==◌, if◌then◌else◌}

-- One bit of the CRC of the polynomial 0xEDB88320, reflected.
abbrev crc_bit : ℕ → ℕ
crc_bit c = if c % 2 == 1 then bit_xor (c / 2) 0xedb8_8320 else c / 2

crc_byte : ℕ → ℕ → ℕ
crc_byte c b =
    crc_bit (crc_bit (crc_bit (crc_bit (crc_bit (crc_bit (crc_bit (crc_bit (bit_xor c b))))))))

crc_bytes : ℕ → List ℕ → ℕ
crc_bytes c [] = c
crc_bytes c (b ∷ bs) = crc_bytes (crc_byte c b) bs

-- `zlib.crc32(data)`
unfoldable pub crc32 : List ℕ → ℕ
unfolding crc_bytes crc_byte
crc32 bytes = bit_xor (crc_bytes 0xffff_ffff bytes) 0xffff_ffff

adler_bytes : ℕ → ℕ → List ℕ → ℕ
adler_bytes a b [] = b * 65536 + a
adler_bytes a b (x ∷ xs) = adler_bytes ((a + x) % 65521) ((b + (a + x) % 65521) % 65521) xs

-- `zlib.adler32(data)`
unfoldable pub adler32 : List ℕ → ℕ
unfolding adler_bytes
adler32 bytes = adler_bytes 1 0 bytes

-- `struct.pack("<I", n)`, which takes what fits in 32 bits
abbrev pub pack_le : ℕ → List ℕ
pack_le n = (n % 256) ∷ (n / 2 ^ 8 % 256) ∷ (n / 2 ^ 16 % 256) ∷ (n / 2 ^ 24 % 256) ∷ []

-- `struct.pack(">I", n)`
abbrev pub pack_be : ℕ → List ℕ
pack_be n = (n / 2 ^ 24 % 256) ∷ (n / 2 ^ 16 % 256) ∷ (n / 2 ^ 8 % 256) ∷ (n % 256) ∷ []

-- The check values that the two checksums have for "123456789" and "Wikipedia".
crc32_check : crc32 (49 ∷ 50 ∷ 51 ∷ 52 ∷ 53 ∷ 54 ∷ 55 ∷ 56 ∷ 57 ∷ []) ≡ 0xcbf4_3926
unfolding crc32
crc32_check = refl

adler32_check : adler32 (87 ∷ 105 ∷ 107 ∷ 105 ∷ 112 ∷ 101 ∷ 100 ∷ 105 ∷ 97 ∷ []) ≡ 0x11e6_0398
unfolding adler32
adler32_check = refl
