-- ===== src/Lease/Serialize/Layout.antt =====
-- Where a lease message puts its parts (marshalLeaseBody and marshal of lease/serialize.go): every
-- description fits its three integers, and the offset behind the lists is the number of bytes written.
use phabrik.Base.{
  ℕ, zero, suc, ◌+◌, ◌%◌, ◌^◌, ◌<◌, ◌≡◌, Bool, true, false, List, [], ◌∷◌, le_bytes, length,
  length-append, length-le_bytes, arith,
}
use phabrik.Lease.Serialize.Fields.{DoFit}
use phabrik.Lease.Serialize.Header.{ListDesc, header_fields, of_bool}
use phabrik.Lease.Serialize.Body.{
  MarshalContext, LeaseMessage, lists_loop, lists_of, desc_at, relationship_list, marshal_with_size,
  size_with_size, milliseconds, message_header, endpoint_size,
}

abbrev pub DescFits : ListDesc → Type 0
DescFits d = (d.count < 2 ^ 32) × (d.start_offset < 2 ^ 32) × (d.size < 2 ^ 32)

abbrev AllFit : List ListDesc → Type 0
AllFit [] = Unit {0}
AllFit (d ∷ ds) = DescFits d × AllFit ds

desc_at-DescFits : (n : ℕ) (ds : List ListDesc) → AllFit ds → DescFits (desc_at n ds)
unfolding desc_at
desc_at-DescFits n [] h = (omega arith, omega arith, omega arith)
desc_at-DescFits zero (d ∷ ds) h = h.0
desc_at-DescFits (suc n) (d ∷ ds) h = desc_at-DescFits n ds h.1

size-length : (b : List ℕ) → size_with_size b ≡ length (marshal_with_size b) % 2 ^ 32
unfolding size_with_size marshal_with_size
size-length b =
    omega (
      arith,
      length-append (le_bytes 4 (length b % 2 ^ 32)) b,
      length-le_bytes 4 (length b % 2 ^ 32),
    )

lists_loop-AllFit :
    (app_id : List ℕ) (offset : ℕ) (lists : List (List (List ℕ)))
    → offset < 2 ^ 32
    → AllFit (lists_loop app_id offset lists).0
unfolding lists_loop
lists_loop-AllFit app_id offset [] h = tt
lists_loop-AllFit app_id offset (rs ∷ lists) h =
    let b : List ℕ = relationship_list app_id rs in
    (
      (omega arith, h, unfold size_with_size in omega arith),
      lists_loop-AllFit app_id ((offset + size_with_size b) % 2 ^ 32) lists (omega arith),
    )

-- The offset behind the lists, as a uint32.
pub lists_loop-end :
    (app_id : List ℕ) (offset : ℕ) (lists : List (List (List ℕ)))
    → offset < 2 ^ 32
    → (lists_loop app_id offset lists).2
      ≡ (offset + length (lists_loop app_id offset lists).1) % 2 ^ 32
unfolding lists_loop
lists_loop-end app_id offset [] h = omega arith
lists_loop-end app_id offset (rs ∷ lists) h =
    let b : List ℕ = relationship_list app_id rs in
    let next : ℕ = (offset + size_with_size b) % 2 ^ 32 in
    omega (
      arith,
      size-length b,
      lists_loop-end app_id next lists (omega arith),
      length-append (marshal_with_size b) (lists_loop app_id next lists).1,
    )

-- The fields of the message are values of their Go types.
pub record IsLeaseMessage (now : ℕ) (m : LeaseMessage) : Type 0 where
  pub identifier_fits : now < 2 ^ 64
  pub typ_fits : m.typ < 2 ^ 32
  pub lease_instance_fits : m.lease_instance < 2 ^ 64
  pub remote_instance_fits : m.remote_lease_agent_instance < 2 ^ 64
  pub expiration_fits : m.expiration < 2 ^ 63

of_bool-fits : (b : Bool) → of_bool b < 256
of_bool-fits true = omega arith
of_bool-fits false = omega arith

milliseconds-fits : (d : ℕ) → d < 2 ^ 63 → milliseconds d < 2 ^ 64
unfolding milliseconds
milliseconds-fits d h = ground arith

desc_of :
    (c : MarshalContext) (m : LeaseMessage) (n : ℕ)
    → DescFits (desc_at n (lists_loop c.app_id 200 (lists_of m.body)).0)
desc_of c m n =
    desc_at-DescFits n (lists_loop c.app_id 200 (lists_of m.body)).0
      (lists_loop-AllFit c.app_id 200 (lists_of m.body) (omega arith))

endpoint-DescFits :
    (c : MarshalContext) (now : ℕ) (m : LeaseMessage)
    → DescFits (message_header c now m).message_listen_endpoint
unfolding message_header endpoint_size
endpoint-DescFits c now m = (
  omega arith,
  omega (arith, lists_loop-end c.app_id 200 (lists_of m.body) (omega arith)),
  omega arith,
)

pub message_header-DoFit :
    (c : MarshalContext) (now : ℕ) (m : LeaseMessage)
    → IsLeaseMessage now m
    → DoFit (header_fields (message_header c now m))
unfolding message_header
message_header-DoFit c now m v =
    let d0 = desc_of c m 0 in
    let d1 = desc_of c m 1 in
    let d2 = desc_of c m 2 in
    let d3 = desc_of c m 3 in
    let d4 = desc_of c m 4 in
    let d5 = desc_of c m 5 in
    let d6 = desc_of c m 6 in
    let d7 = desc_of c m 7 in
    let d8 = desc_of c m 8 in
    let e = endpoint-DescFits c now m in
    let b = of_bool-fits m.is_two_way_termination in
    let x = milliseconds-fits m.expiration v.expiration_fits in ground arith
