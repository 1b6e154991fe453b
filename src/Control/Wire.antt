-- ===== src/Control/Wire.antt =====
-- What tools/tcpcc_control.py uses of Python's `struct`: little-endian fields of fixed width,
-- written one behind the other (`pack`) and read from the front (`unpack`).
pub mod Laws
use linux_tcp_cc.Base.{
  ℕ, zero, suc, ◌+◌, ◌-◌, ◌*◌, ◌/◌, ◌%◌, ◌^◌, [], ◌∷◌, ◌++◌, Text, take, drop, replicate, ltb,
  if◌then◌else◌,
}
use linux_tcp_cc.Base.Int.{ℤ, pos, negsuc}

-- The bytes of a number, the lowest first: `H`, `I` and `Q` are 2, 4 and 8 bytes wide.
unfoldable pub pack_le : ℕ → ℕ → Text
pack_le zero n = []
pack_le (suc width) n = (n % 256) ∷ pack_le width (n / 256)

unfoldable pub unpack_le : Text → ℕ
unpack_le [] = 0
unpack_le (b ∷ bytes) = b + 256 * unpack_le bytes

-- 256 ^ width
abbrev pub capacity : ℕ → ℕ
capacity zero = 1
capacity (suc width) = 256 * capacity width

-- A field of `width` bytes at the front, and the bytes behind it.
unfoldable pub take_le : ℕ → Text → ℕ × Text
take_le width bytes = (unpack_le (take width bytes), drop width bytes)

-- The two's complement of an `i` field.
abbrev pub to_u32 : ℤ → ℕ
to_u32 (pos n) = n
to_u32 (negsuc n) = 2 ^ 32 - (n + 1)

abbrev pub of_u32 : ℕ → ℤ
of_u32 w = if ltb w (2 ^ 31) then pos w else negsuc (2 ^ 32 - (w + 1))

unfoldable pub pack_i32 : ℤ → Text
pack_i32 value = pack_le 4 (to_u32 value)

unfoldable pub take_i32 : Text → ℤ × Text
take_i32 bytes = (of_u32 (unpack_le (take 4 bytes)), drop 4 bytes)

-- A field `{width}s`: cut off or filled up with zeros.
unfoldable pub pack_bytes : ℕ → Text → Text
pack_bytes width bytes = take width (bytes ++ replicate width 0)

unfoldable pub take_bytes : ℕ → Text → Text × Text
take_bytes width bytes = (take width bytes, drop width bytes)
