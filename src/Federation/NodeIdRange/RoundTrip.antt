-- ===== src/Federation/NodeIdRange/RoundTrip.antt =====
-- Round trips of node identifiers and ranges through the encoder and the decoder
-- (federation/nodeid.go, federation/nodeid_range.go).
use phabrik.Base.{
  ℕ, ◌^◌, ◌<◌, ◌≡◌, refl, ok, arith, List, [], ◌∷◌, ◌++◌, length, le_bytes, le_value,
}
use phabrik.Serialization.State.{DecodeState, write, read_byte, unread, advance}
use phabrik.Serialization.Marshal.{write_type_meta, write_compressed_uint32}
use phabrik.Serialization.Unmarshal.{read_type_meta, read_compressed_uint32}
use phabrik.Serialization.RoundTrip.Steps.{
  Emits, Decodes, Emits-write, Emits-bind, Decodes-bind, Decodes-map, Decodes-read_byte,
  Decodes-read_binary, count_steps,
}
use phabrik.Federation.NodeId.{
  Uint128, IsUint128, node_id_bytes, node_id_of_bytes, node_id_meta_type,
}
use phabrik.Federation.NodeId
use phabrik.Federation.NodeIdRange.{NodeIdRange, marshal, unmarshal}

length-node_id_bytes : (n : Uint128) → length (node_id_bytes n) ≡ 16
unfolding node_id_bytes le_bytes
length-node_id_bytes n = refl

node_id_of_bytes-node_id_bytes :
    (n : Uint128) → IsUint128 n → node_id_of_bytes (node_id_bytes n) ≡ n
unfolding node_id_of_bytes node_id_bytes le_bytes le_value
node_id_of_bytes-node_id_bytes n h = λ i. record { hi = half n.hi h.0 i; lo = half n.lo h.1 i }
  where
    half : (v : ℕ) → v < 2 ^ 64 → le_value (le_bytes 8 v) ≡ v
    half v h = omega arith

-- What NodeID.Marshal writes after its meta, and that NodeID.Unmarshal takes it.
node_id_steps :
    (n : Uint128)
    → IsUint128 n
    → (tail : List ℕ) × Emits (NodeId.marshal n) (node_id_meta_type ∷ tail)
      × Decodes (NodeId.unmarshal node_id_meta_type) tail n
unfolding NodeId.marshal NodeId.unmarshal write_type_meta
node_id_steps n h =
    let (count, emits, reads) = count_steps 16 in
    (
      count ++ node_id_bytes n,
      Emits-bind (write (node_id_meta_type ∷ [])) _ (node_id_meta_type ∷ [])
          (count ++ node_id_bytes n) (Emits-write _)
          (Emits-bind (write_compressed_uint32 16) (write (node_id_bytes n)) count (node_id_bytes n)
            emits (Emits-write _)),
      Decodes-bind read_compressed_uint32 _ count (node_id_bytes n) 16 n
          (reads (omega arith) (omega arith))
          (λ s rest u. rw (
            Decodes-read_binary 16 (node_id_bytes n) (length-node_id_bytes n) s rest u,
            node_id_of_bytes-node_id_bytes n h,
          )),
    )

-- What NodeIdRange.Marshal appends starts with the meta of its beginning, and Unmarshal, given
-- that meta, reads the range back and takes just those bytes.
pub range_round_trip :
    (r : NodeIdRange) (top : List ℕ) (below : List (List ℕ))
    → IsUint128 r.begin
    → IsUint128 r.end
    → (tail : List ℕ) × (marshal r (record { buf_stack = top ∷ below })
        ≡ ok (record { buf_stack = (top ++ (node_id_meta_type ∷ tail)) ∷ below }))
      × ((s : DecodeState) (rest : List ℕ)
          → unread s ≡ tail ++ rest
          → unmarshal node_id_meta_type s ≡ ok (r, advance s (length tail)))
unfolding marshal unmarshal read_type_meta
range_round_trip r top below hb he =
    let (b, emits_b, reads_b) = node_id_steps r.begin hb in
    let (e, emits_e, reads_e) = node_id_steps r.end he in
    (
      b ++ (node_id_meta_type ∷ e),
      Emits-bind (NodeId.marshal r.begin) (NodeId.marshal r.end) (node_id_meta_type ∷ b)
          (node_id_meta_type ∷ e) emits_b emits_e top below,
      Decodes-bind (NodeId.unmarshal node_id_meta_type) _ b (node_id_meta_type ∷ e) r.begin r
          reads_b
          (Decodes-bind read_byte _ (node_id_meta_type ∷ []) e node_id_meta_type r
            (Decodes-read_byte _)
            (Decodes-map (NodeId.unmarshal node_id_meta_type)
              (λ x. record { begin = r.begin; end = x }) e r.end reads_e)),
    )
