-- ===== src/Serialization/Compress.antt =====
-- serialization/bytecompress.go: integers in groups of seven bits, the highest first, with the top
-- bit set on every byte but the last. Bit 6 of the first byte is the sign.
--
-- An int64 or a uint64 is its 64-bit pattern, a number below 2 ^ 64. On patterns `x << 7 | b` with
-- a seven-bit `b` is `shift_in`, and `x & 0x7F` is `x % 128`.
pub mod Write
pub mod RoundTrip
use phabrik.Base.{
  ℕ, zero, suc, ◌+◌, ◌-◌, ◌*◌, ◌/◌, ◌%◌, ◌^◌, Bool, true, false, ◌&&◌, List, [], ◌∷◌, Result, ok,
  err, panic, errorf, ltb, leb, ◌==◌, if◌then◌else◌, ◌>>=◌,
}
use phabrik.Serialization.State.{DecodeState, read_byte, EncodeState, write}

-- The groups that an integer of `size` bytes may take.
unfoldable pub max_size : ℕ → ℕ
max_size size = (size * 8 + 6) / 7

-- `value <<= 7; value |= T(b)`
unfoldable pub shift_in : ℕ → ℕ → ℕ
shift_in value b = value * 128 % 2 ^ 64 + b

-- `temp >>= 7`, which copies the sign bit where T is int64.
unfoldable pub shift_out : Bool → ℕ → ℕ
shift_out signed temp =
    if signed && leb (2 ^ 63) temp then temp / 128 + (2 ^ 64 - 2 ^ 57) else temp / 128

-- The loop of readCompressed, on the rounds left, the byte just read and the value so far.
unfoldable pub read_loop : ℕ → ℕ → ℕ → DecodeState → Result (ℕ × DecodeState)
read_loop zero byte_value value s = ok (value, s)
read_loop (suc left) byte_value value s =
    let value' = shift_in value (byte_value % 128) in
    let more : Result (ℕ × DecodeState) = (elim left [
      | zero ↦ err (errorf "format err 0")
      | suc _ ↦ (do (b, s') ← read_byte s; read_loop left b value' s')
    ]) in
    if ltb byte_value 128 then ok (value', s) else more

unfoldable pub read_compressed : ℕ → DecodeState → Result (ℕ × DecodeState)
unfolding max_size
read_compressed size s = do
  (byte_value, s') ← read_byte s
  let value : ℕ = if byte_value / 64 % 2 == 1 then 2 ^ 64 - 1 else 0
  read_loop (max_size size) byte_value value s'

-- The loop of writeCompressed: `slots` bytes of the buffer are free, `done` is the part that is
-- filled. With no slot left the index is -1.
unfoldable pub write_loop : Bool → ℕ → ℕ → ℕ → Bool → List ℕ → Result (List ℕ)
write_loop signed zero target temp is_first done = panic
write_loop signed (suc slots) target temp is_first done =
    let b = temp % 128 in
    let b' = (if is_first then b else b + 128) in
    let temp' = shift_out signed temp in
    let rest = write_loop signed slots target temp' false (b' ∷ done) in
    if (temp' == target) && (b' / 64 % 2 == target / 64 % 2) then ok (b' ∷ done) else rest

-- The bytes of a value; none for zero.
unfoldable pub compressed : Bool → ℕ → ℕ → Result (List ℕ)
unfolding max_size
compressed signed size value =
    let target : ℕ = if signed && leb (2 ^ 63) value then 2 ^ 64 - 1 else 0 in
    if value == 0 then ok [] else write_loop signed (max_size size) target value true []

unfoldable pub write_compressed : Bool → ℕ → ℕ → EncodeState → Result EncodeState
write_compressed signed size value s = do bytes ← compressed signed size value; write bytes s
