-- ===== src/Lease/Serialize/Endpoint.antt =====
-- The listen endpoint of a lease message, read as it was written (marshalLeaseBody and unmarshal of
-- lease/serialize.go).
use phabrik.Base.{
  ℕ, ◌+◌, ◌-◌, ◌*◌, ◌/◌, ◌%◌, ◌^◌, ◌<◌, ◌≡◌, refl, ap, ◌∙◌, inl, inr, ◌&&◌, ◌||◌, sym, List, [],
  ◌∷◌, ◌++◌, append-nil, ok, ltb, leb, le_bytes, le_value-le_bytes, length, length-append,
  length-le_bytes, drop, arith, Bool-cases,
}
use phabrik.Serialization.State.{read_full, read_full-append}
use phabrik.Serialization.Utf16.{
  AreRunes, encode_rune, utf16_encode, utf16_decode-encode, utf16_encode-AreUnits, unit_bytes,
  length-unit_bytes, bytes_units-unit_bytes,
}
use phabrik.Lease.Serialize.Body.{
  MarshalContext, endpoint_units, endpoint_bytes, endpoint_size, drop_zero, strip, read_endpoint,
}

-- The address has code points that are no surrogates, and the port fits.
pub record IsContext (c : MarshalContext) : Type 0 where
  pub address_fits : AreRunes c.address
  pub port_fits : c.port < 2 ^ 16

encode_rune_append : (r : ℕ) (us vs : List ℕ) → encode_rune r (us ++ vs) ≡ encode_rune r us ++ vs
unfolding encode_rune
encode_rune_append r us vs = elim (Bool-cases (ltb r 0xD800 || (leb 0xE000 r && ltb r 0x10000))) [
  | inl e ↦ rw e refl
  | inr e ↦ rw e (elim (Bool-cases (leb 0x10000 r && ltb r 0x110000)) [
    | inl f ↦ rw f refl
    | inr f ↦ rw f refl
  ])
]

utf16_encode-append :
    (rs ss : List ℕ) → utf16_encode (rs ++ ss) ≡ utf16_encode rs ++ utf16_encode ss
unfolding utf16_encode
utf16_encode-append [] ss = refl
utf16_encode-append (r ∷ rs) ss =
    ap (encode_rune r) (utf16_encode-append rs ss)
    ∙ encode_rune_append r (utf16_encode rs) (utf16_encode ss)

append-AreRunes : (rs : List ℕ) → AreRunes rs → AreRunes (rs ++ (0 ∷ []))
append-AreRunes [] h = (inl (omega arith), tt)
append-AreRunes (r ∷ rs) h = (h.0, append-AreRunes rs h.1)

drop_zero-append : (us : List ℕ) → drop_zero (us ++ (0 ∷ [])) ≡ us
unfolding drop_zero
drop_zero-append [] = refl
drop_zero-append (u ∷ []) = refl
drop_zero-append (u ∷ v ∷ us) = ap (◌∷◌ u) (drop_zero-append (v ∷ us))

strip-append : (us : List ℕ) → strip (us ++ (0 ∷ [])) ≡ ok us
unfolding strip
strip-append [] = ap ok (drop_zero-append [])
strip-append (u ∷ us) = ap ok (drop_zero-append (u ∷ us))

strip-encode : (rs : List ℕ) → strip (utf16_encode (rs ++ (0 ∷ []))) ≡ ok (utf16_encode rs)
unfolding utf16_encode encode_rune
strip-encode rs = ap strip (utf16_encode-append rs (0 ∷ [])) ∙ strip-append (utf16_encode rs)

pub length-endpoint_bytes :
    (c : MarshalContext) → length (endpoint_bytes c) ≡ 2 * length (endpoint_units c) + 4
unfolding endpoint_bytes le_bytes
length-endpoint_bytes c = omega (
  arith,
  length-append (unit_bytes (endpoint_units c)) (le_bytes 2 2 ++ le_bytes 2 c.port),
  length-unit_bytes (endpoint_units c),
)

skip_family : (bs : List ℕ) → drop 2 (le_bytes 2 2 ++ bs) ≡ bs
unfolding le_bytes
skip_family bs = refl

read_port : (p : ℕ) → read_full 2 (le_bytes 2 p) ≡ ok (le_bytes 2 p, [])
read_port p =
    ap (read_full 2) (sym (append-nil (le_bytes 2 p)))
    ∙ read_full-append 2 (le_bytes 2 p) [] (length-le_bytes 2 p)

module _ (join_host_port : List ℕ → ℕ → List ℕ) where
  pub read_endpoint-endpoint_bytes :
      (c : MarshalContext)
      → IsContext c
      → length (endpoint_bytes c) < 2 ^ 32
      → read_endpoint join_host_port (endpoint_size c) (endpoint_bytes c)
        ≡ ok (join_host_port c.address c.port)
  unfolding read_endpoint endpoint_size endpoint_bytes
  read_endpoint-endpoint_bytes c v l =
      let us : List ℕ = endpoint_units c in
      let size : length (unit_bytes us)
          ≡ 2 * (((length us * 2 % 2 ^ 32 + 4) % 2 ^ 32 + 2 ^ 32 - 4) % 2 ^ 32 / 2) =
        omega (arith, length-unit_bytes us, length-endpoint_bytes c) in
      rw (
        read_full-append _ (unit_bytes us) (le_bytes 2 2 ++ le_bytes 2 c.port) size,
        bytes_units-unit_bytes us (
            utf16_encode-AreUnits (c.address ++ (0 ∷ []))
              (append-AreRunes c.address v.address_fits)),
        strip-encode c.address,
        skip_family (le_bytes 2 c.port),
        read_port c.port,
        utf16_decode-encode c.address v.address_fits,
        le_value-le_bytes 2 c.port v.port_fits,
      )
