-- ===== src/Serialization/TypeMeta.antt =====
-- serialization/fabricserializationtype.go: the type bytes, their flags and tests.
-- FabricSerializationType is a uint8: a number below 256.
use Prim.Native.Nat.{bit_and, bit_or}
use phabrik.Base.{ℕ, Bool, ltb, ◌==◌}

-- The constants, under the prefix FabricSerializationType in the source.
pub record Constants : Type 0 where
  pub empty_value_bit : ℕ
  pub array : ℕ
  pub base_type_mask : ℕ
  pub bool_false_flag : ℕ
  pub object : ℕ
  pub pointer : ℕ
  pub bool : ℕ
  pub bool_false : ℕ
  pub char : ℕ
  pub u_char : ℕ
  pub short : ℕ
  pub u_short : ℕ
  pub int32 : ℕ
  pub u_int32 : ℕ
  pub int64 : ℕ
  pub u_int64 : ℕ
  pub double : ℕ
  pub guid : ℕ
  pub w_string : ℕ
  pub byte_array_no_copy : ℕ
  pub scope_begin : ℕ
  pub scope_end : ℕ
  pub object_end : ℕ
  pub not_a_meta : ℕ

abbrev pub meta : Constants
meta = record {
  empty_value_bit = 0x40;
  array = 0x80;
  base_type_mask = 0x0F;
  bool_false_flag = 0x30;
  object = 0x00;
  pointer = 0x01;
  bool = 0x02;
  bool_false = bit_or 0x02 0x30;
  char = 0x03;
  u_char = 0x04;
  short = 0x05;
  u_short = 0x06;
  int32 = 0x07;
  u_int32 = 0x08;
  int64 = 0x09;
  u_int64 = 0x0A;
  double = 0x0B;
  guid = 0x0C;
  w_string = 0x0D;
  byte_array_no_copy = bit_or 0x0E 0x80;
  scope_begin = 0x1F;
  scope_end = 0x2F;
  object_end = 0x3F;
  not_a_meta = 0xFF;
}

unfoldable pub is_empty_meta : ℕ → Bool
is_empty_meta m = ltb 0 (bit_and m meta.empty_value_bit)

unfoldable pub is_array_meta : ℕ → Bool
is_array_meta m = ltb 0 (bit_and m meta.array)

unfoldable pub is_base_meta : ℕ → ℕ → Bool
is_base_meta m base = bit_and m meta.base_type_mask == base
