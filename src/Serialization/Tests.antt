-- ===== src/Serialization/Tests.antt =====
-- Runs of the encoder and the decoder.
use phabrik.Base.{
  ℕ, ◌≤◌, ◌<◌, ◌≡◌, refl, true, false, inl, inr, List, [], ◌∷◌, ◌++◌, some, Result, ok, err, panic,
  length, arith, le_bytes,
}
use phabrik.Serialization.State.{advance, write, push_buffer, pop_buffer}
use phabrik.Serialization.Compress.{
  max_size, read_compressed, compressed, write_compressed, write_loop, shift_out,
}
use phabrik.Serialization.Compress.RoundTrip.{compressed_total, read_compressed-compressed}
use phabrik.Serialization.Utf16.{encode_rune, unit_bytes, utf16_encode}
use phabrik.Serialization.GoType.{
  GoType, Val, w16, w32, bool, string, int, uint, slice, struct, nil, cons, zero_val,
}
use phabrik.Serialization.Marshal.{
  pointer_to, marshal, is_struct, encode, encode_elems, object_scope_end,
}
use phabrik.Serialization.Unmarshal.{unmarshal}
use phabrik.Serialization.RoundTrip.Values.{IsWf, marshal_total, unmarshal-marshal}

abbrev sample : GoType
sample = struct (cons bool (cons (int w32) (cons string (cons (slice (uint w16)) nil))))

abbrev value : Val sample
value = (true, (300, (72 ∷ [], (some (1 ∷ 2 ∷ []), tt))))

abbrev ok_bytes : Result (List ℕ) → List ℕ
ok_bytes (ok bs) = bs
ok_bytes (err e) = []
ok_bytes panic = []

value-IsWf : IsWf sample value
value-IsWf = (
  tt,
  (inl (omega arith), ((inl (omega arith), tt), ((tt, (omega arith, (omega arith, tt))), tt))),
)

marshalled : marshal (pointer_to sample value) ≡ ok (ok_bytes (marshal (pointer_to sample value)))
unfolding marshal encode write push_buffer write_compressed compressed write_loop shift_out
    utf16_encode encode_rune encode_elems object_scope_end pop_buffer le_bytes unit_bytes
marshalled = refl

marshalled_short : length (ok_bytes (marshal (pointer_to sample value))) < 200
unfolding marshal encode write push_buffer write_compressed compressed write_loop shift_out
    utf16_encode encode_rune encode_elems object_scope_end pop_buffer le_bytes unit_bytes
marshalled_short = omega arith

marshal_total_example :
    (bytes : List ℕ) × (marshal (pointer_to sample value) ≡ ok bytes) × (1 ≤ length bytes)
unfolding is_struct
marshal_total_example = marshal_total sample value refl value-IsWf

unmarshal-marshal_example :
    unmarshal (ok_bytes (marshal (pointer_to sample value))) sample (zero_val sample) ≡ ok value
unmarshal-marshal_example =
    unmarshal-marshal sample value (zero_val sample) (ok_bytes (marshal (pointer_to sample value)))
      value-IsWf marshalled (omega (arith, marshalled_short))

compressed_total_example :
    (bytes : List ℕ) × (compressed false 4 300 ≡ ok bytes)
    × (1 ≤ length bytes)
    × (length bytes ≤ max_size 4)
compressed_total_example = compressed_total false 4 300 (inr (inl refl)) (omega arith) (omega arith)

read_compressed-compressed_example :
    read_compressed 4 (record { buf = ok_bytes (compressed false 4 300) ++ (9 ∷ []); pos = 0 })
    ≡ ok (300, advance (record { buf = ok_bytes (compressed false 4 300) ++ (9 ∷ []); pos = 0 }) 2)
unfolding compressed write_loop shift_out
read_compressed-compressed_example =
    read_compressed-compressed false 4 300 (ok_bytes (compressed false 4 300)) (9 ∷ [])
      (record { buf = ok_bytes (compressed false 4 300) ++ (9 ∷ []); pos = 0 }) (inr (inl refl))
      (omega arith) (omega arith) refl refl
