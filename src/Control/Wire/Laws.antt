-- ===== src/Control/Wire/Laws.antt =====
-- A field that was packed in front of other bytes is unpacked from there.
use linux_tcp_cc.Base.{
  ℕ, zero, suc, ◌-◌, ◌/◌, ◌^◌, ◌<◌, ◌≡◌, refl, ◌∙◌, ap, [], ◌++◌, Text, length, replicate,
  length-append, length-take, length-replicate, take-append_exact, drop-append_exact, append-nil,
  sym, arith,
}
use linux_tcp_cc.Base.Int.{ℤ, pos, negsuc, ◌≤ℤ◌}
use linux_tcp_cc.Control.Wire.{
  pack_le, unpack_le, capacity, take_le, to_u32, of_u32, pack_i32, take_i32, pack_bytes,
}

pub length-pack_le : (width n : ℕ) → length (pack_le width n) ≡ width
unfolding pack_le
length-pack_le zero n = refl
length-pack_le (suc width) n = ap suc (length-pack_le width (n / 256))

pub unpack_le-pack_le : (width n : ℕ) → n < capacity width → unpack_le (pack_le width n) ≡ n
unfolding pack_le unpack_le
unpack_le-pack_le zero n h = omega arith
unpack_le-pack_le (suc width) n h = omega (arith, unpack_le-pack_le width (n / 256) (omega arith))

pub take_le-pack_le :
    (width n : ℕ) (rest : Text)
    → n < capacity width
    → take_le width (pack_le width n ++ rest) ≡ (n, rest)
unfolding take_le
take_le-pack_le width n rest h =
    let l = length-pack_le width n in
    rw
      (
        take-append_exact width (pack_le width n) rest l,
        drop-append_exact width (pack_le width n) rest l,
        unpack_le-pack_le width n h,
      )
      refl

-- The range of an `i` field.
abbrev pub IsI32 : ℤ → Type 0
IsI32 (pos n) = n < 2 ^ 31
IsI32 (negsuc n) = n < 2 ^ 31

pub of_u32-to_u32 : (value : ℤ) → IsI32 value → of_u32 (to_u32 value) ≡ value
of_u32-to_u32 (pos n) h = ground arith
of_u32-to_u32 (negsuc n) h = ground arith

to_u32-lt : (value : ℤ) → IsI32 value → to_u32 value < capacity 4
to_u32-lt (pos n) h = omega arith
to_u32-lt (negsuc n) h = omega arith

pub take_i32-pack_i32 :
    (value : ℤ) (rest : Text) → IsI32 value → take_i32 (pack_i32 value ++ rest) ≡ (value, rest)
unfolding take_i32 pack_i32
take_i32-pack_i32 value rest h =
    let l = length-pack_le 4 (to_u32 value) in
    rw
      (
        take-append_exact 4 (pack_i32 value) rest l,
        drop-append_exact 4 (pack_i32 value) rest l,
        unpack_le-pack_le 4 (to_u32 value) (to_u32-lt value h),
        of_u32-to_u32 value h,
      )
      refl

pub length-pack_bytes : (width : ℕ) (bytes : Text) → length (pack_bytes width bytes) ≡ width
unfolding pack_bytes
length-pack_bytes width bytes = omega (
  arith,
  length-take width (bytes ++ replicate width 0),
  length-append bytes (replicate width 0),
  length-replicate {A = ℕ} width 0,
)

pub length-pack_i32 : (value : ℤ) → length (pack_i32 value) ≡ 4
unfolding pack_i32
length-pack_i32 value = length-pack_le 4 (to_u32 value)

pub IsI32-between :
    (value : ℤ) → negsuc (2 ^ 31 - 1) ≤ℤ value → value ≤ℤ pos (2 ^ 31 - 1) → IsI32 value
IsI32-between (pos n) h k = omega arith
IsI32-between (negsuc n) h k = omega arith

-- The last field of a record.
pub take_le-pack_le_end :
    (width n : ℕ) → n < capacity width → take_le width (pack_le width n) ≡ (n, [])
take_le-pack_le_end width n h =
    ap (take_le width) (sym (append-nil (pack_le width n))) ∙ take_le-pack_le width n [] h
