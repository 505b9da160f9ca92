-- ===== src/Lease/Serialize/RoundTrip.antt =====
-- Lease messages that this library wrote, read by it (marshalContext.marshal and unmarshal of
-- lease/serialize.go).
use phabrik.Base.{
  ℕ, ◌+◌, ◌-◌, ◌*◌, ◌/◌, ◌%◌, ◌^◌, ◌<◌, ◌≡◌, refl, ap, sym, ◌∙◌, false, List, ◌++◌, append_assoc,
  ok, err, errorf, ◌>>=◌, leb, ge→ltb, lt→ltb, length, length-append, take, drop, take-length,
  drop-length, arith,
}
use phabrik.Serialization.State.{read_full-append}
use phabrik.Lease.Serialize.Fields.{DoFit}
use phabrik.Lease.Serialize.Header.{
  ListDesc, LeaseMessageHeader, header_bytes, header_fields, length-header_bytes,
  header_of_bytes-header_bytes,
}
use phabrik.Lease.Serialize.Body.{
  MarshalContext, LeaseMessage, empty_body, lists_loop, lists_of, message_header, message_of,
  milliseconds, of_milliseconds, extend, endpoint_bytes, endpoint_size, marshal, marshal_lease_body,
  data_at_list, read_endpoint, unmarshal,
}
use phabrik.Lease.Serialize.Layout.{IsLeaseMessage, lists_loop-end, message_header-DoFit}
use phabrik.Lease.Serialize.Endpoint.{
  IsContext, length-endpoint_bytes, read_endpoint-endpoint_bytes,
}

gt→leb : (a b : ℕ) → b < a → leb a b ≡ false
gt→leb a b h = ground arith

cut :
    (before part rest : List ℕ) (start size : ℕ)
    → start ≡ length before
    → size ≡ length part
    → take size (drop start (before ++ (part ++ rest))) ≡ part
cut before part rest start size es ez =
    rw (es, ez, drop-length before (part ++ rest)) (take-length part rest)

-- dataAtList gives the part of the data that its description names, if data follows it.
pub data_at_list-append :
    (before part rest : List ℕ) (d : ListDesc)
    → d.start_offset ≡ length before
    → d.size ≡ length part
    → 0 < length rest
    → length (before ++ (part ++ rest)) < 2 ^ 32
    → data_at_list (before ++ (part ++ rest)) d ≡ ok part
unfolding data_at_list
data_at_list-append before part rest d es ez h l =
    let n : ℕ = length (before ++ (part ++ rest)) in
    let whole : n ≡ length before + (length part + length rest) =
      omega (arith, length-append before (part ++ rest), length-append part rest) in
    rw (
      gt→leb (n % 2 ^ 32) d.start_offset (omega arith),
      gt→leb (n % 2 ^ 32) ((d.start_offset + d.size) % 2 ^ 32) (omega arith),
      ge→ltb ((d.start_offset + d.size) % 2 ^ 32) d.start_offset (omega arith),
      cut before part rest d.start_offset ((d.start_offset + d.size) % 2 ^ 32 - d.start_offset) es
          (omega arith),
    )

-- dataAtList refuses a part that ends where the data ends.
data_at_list-last :
    (bs : List ℕ) (d : ListDesc)
    → (d.start_offset + d.size) % 2 ^ 32 ≡ length bs % 2 ^ 32
    → data_at_list bs d ≡ err (errorf "bad data start offset")
unfolding data_at_list
data_at_list-last bs d e = ground arith

endpoint_size-length : (c : MarshalContext) → endpoint_size c ≡ length (endpoint_bytes c) % 2 ^ 32
unfolding endpoint_size
endpoint_size-length c = omega (arith, length-endpoint_bytes c)

lists_bytes : MarshalContext → LeaseMessage → List ℕ
lists_bytes c m = (lists_loop c.app_id 200 (lists_of m.body)).1

endpoint_end :
    (c : MarshalContext) (now : ℕ) (m : LeaseMessage)
    → ((message_header c now m).message_listen_endpoint.start_offset
          + (message_header c now m).message_listen_endpoint.size)
        % 2 ^ 32
      ≡ length (marshal c now m) % 2 ^ 32
unfolding message_header marshal marshal_lease_body
endpoint_end c now m = omega (
  arith,
  endpoint_size-length c,
  lists_loop-end c.app_id 200 (lists_of m.body) (omega arith),
  length-append (header_bytes (message_header c now m))
      ((lists_loop c.app_id 200 (lists_of m.body)).1 ++ endpoint_bytes c),
  length-header_bytes (message_header c now m),
  length-append (lists_loop c.app_id 200 (lists_of m.body)).1 (endpoint_bytes c),
)

abbrev cut_ms : ℕ → ℕ
cut_ms d = d - d % 1000000

short_kept :
    (d : ℕ) → d < 2 ^ 31 * 1000000 → of_milliseconds (extend (milliseconds d % 2 ^ 32)) ≡ cut_ms d
unfolding of_milliseconds extend milliseconds
short_kept d h =
    rw (lt→ltb d (2 ^ 63) (omega arith), lt→ltb (d / 1000000 % 2 ^ 32) (2 ^ 31) (omega arith))
      (omega arith)

long_kept : (d : ℕ) → d < 2 ^ 63 → of_milliseconds (milliseconds d) ≡ cut_ms d
unfolding of_milliseconds milliseconds
long_kept d h = rw (lt→ltb d (2 ^ 63) h) (omega arith)

-- The three durations that are sent as an int32 of milliseconds.
pub record AreShort (m : LeaseMessage) : Type 0 where
  pub duration_fits : m.duration < 2 ^ 31 * 1000000
  pub suspend_fits : m.lease_suspend_duration < 2 ^ 31 * 1000000
  pub arbitration_fits : m.arbitration_duration < 2 ^ 31 * 1000000

-- The message that is read: durations cut to milliseconds, the endpoint of the writer, no lists.
abbrev pub received : ℕ → LeaseMessage → List ℕ → LeaseMessage
received now m endpoint = record m {
  identifier = now;
  duration = cut_ms m.duration;
  expiration = cut_ms m.expiration;
  lease_suspend_duration = cut_ms m.lease_suspend_duration;
  arbitration_duration = cut_ms m.arbitration_duration;
  message_listen_endpoint = endpoint;
  body = empty_body;
}

message_of-message_header :
    (c : MarshalContext) (now : ℕ) (m : LeaseMessage) (endpoint : List ℕ)
    → AreShort m
    → m.expiration < 2 ^ 63
    → message_of (message_header c now m) endpoint ≡ received now m endpoint
unfolding message_of message_header
message_of-message_header c now m endpoint s h = λ i. record (received now m endpoint) {
  duration = short_kept m.duration s.duration_fits i;
  expiration = long_kept m.expiration h i;
  lease_suspend_duration = short_kept m.lease_suspend_duration s.suspend_fits i;
  arbitration_duration = short_kept m.arbitration_duration s.arbitration_fits i;
}

module _ (join_host_port : List ℕ → ℕ → List ℕ) where
  unmarshal-header :
      (h : LeaseMessageHeader) (rest : List ℕ)
      → DoFit (header_fields h)
      → unmarshal join_host_port (header_bytes h ++ rest) ≡ (
          data_at_list (header_bytes h ++ rest) h.message_listen_endpoint >>= λ d.
          read_endpoint join_host_port h.message_listen_endpoint.size d >>= λ endpoint.
          ok (message_of h endpoint))
  unfolding unmarshal
  unmarshal-header h rest fit = rw (
    read_full-append 200 (header_bytes h) rest (length-header_bytes h),
    header_of_bytes-header_bytes h fit,
  )

  -- No message that marshal wrote is read: unmarshal refuses each, since the listen endpoint ends
  -- where the message does.
  pub unmarshal-marshal_refused :
      (c : MarshalContext) (now : ℕ) (m : LeaseMessage)
      → IsLeaseMessage now m
      → unmarshal join_host_port (marshal c now m) ≡ err (errorf "bad data start offset")
  unfolding marshal
  unmarshal-marshal_refused c now m v =
      unmarshal-header (message_header c now m) (marshal_lease_body c m.body)
        (message_header-DoFit c now m v)
      ∙ rw (
          data_at_list-last (marshal c now m) (message_header c now m).message_listen_endpoint
            (endpoint_end c now m))

  unmarshal-parts :
      (h : LeaseMessageHeader) (c : MarshalContext) (lists rest : List ℕ)
      → DoFit (header_fields h)
      → IsContext c
      → 0 < length rest
      → length (header_bytes h ++ ((lists ++ endpoint_bytes c) ++ rest)) < 2 ^ 32
      → h.message_listen_endpoint.start_offset ≡ 200 + length lists
      → h.message_listen_endpoint.size ≡ endpoint_size c
      → unmarshal join_host_port (header_bytes h ++ ((lists ++ endpoint_bytes c) ++ rest))
        ≡ ok (message_of h (join_host_port c.address c.port))
  unmarshal-parts h c lists rest fit v pos l es ez =
      let regroup : header_bytes h ++ ((lists ++ endpoint_bytes c) ++ rest)
          ≡ (header_bytes h ++ lists) ++ (endpoint_bytes c ++ rest) =
        ap (◌++◌ (header_bytes h)) (append_assoc lists (endpoint_bytes c) rest)
        ∙ sym (append_assoc (header_bytes h) lists (endpoint_bytes c ++ rest)) in
      let len = ap length regroup in
      let parts = length-append (header_bytes h ++ lists) (endpoint_bytes c ++ rest) in
      let short : length (endpoint_bytes c) < 2 ^ 32 =
        omega (arith, length-append (endpoint_bytes c) rest) in
      unmarshal-header h ((lists ++ endpoint_bytes c) ++ rest) fit
      ∙ rw (
        regroup,
        data_at_list-append (header_bytes h ++ lists) (endpoint_bytes c) rest
            h.message_listen_endpoint
            (omega (arith, length-append (header_bytes h) lists, length-header_bytes h))
            (omega (arith, endpoint_size-length c)) pos (omega arith),
        ez,
        read_endpoint-endpoint_bytes join_host_port c v short,
      )

  -- Where at least one byte follows it, a message that marshal wrote is read, with its durations cut
  -- to milliseconds, the address and port of the writer as its endpoint and its lists left out: for
  -- fields in their Go types, durations that are not negative and below 2 ^ 31 milliseconds, an
  -- address without surrogates, and less than 2 ^ 32 bytes in all.
  pub unmarshal-marshal_followed :
      (c : MarshalContext) (now : ℕ) (m : LeaseMessage) (rest : List ℕ)
      → IsLeaseMessage now m
      → AreShort m
      → IsContext c
      → 0 < length rest
      → length (marshal c now m ++ rest) < 2 ^ 32
      → unmarshal join_host_port (marshal c now m ++ rest)
        ≡ ok (received now m (join_host_port c.address c.port))
  unfolding marshal marshal_lease_body message_header
  unmarshal-marshal_followed c now m rest v s vc pos l =
      let h : LeaseMessageHeader = message_header c now m in
      let lists : List ℕ = (lists_loop c.app_id 200 (lists_of m.body)).1 in
      let regroup = append_assoc (header_bytes h) (lists ++ endpoint_bytes c) rest in
      let len = ap length regroup in
      let parts = length-append (header_bytes h) ((lists ++ endpoint_bytes c) ++ rest) in
      let parts' = length-append (lists ++ endpoint_bytes c) rest in
      let parts'' = length-append lists (endpoint_bytes c) in
      ap (unmarshal join_host_port) regroup
      ∙ (unmarshal-parts h c lists rest (message_header-DoFit c now m v) vc pos (omega arith)
            (omega (
              arith,
              lists_loop-end c.app_id 200 (lists_of m.body) (omega arith),
              length-header_bytes h,
            ))
            refl
          ∙ ap ok (
              message_of-message_header c now m (join_host_port c.address c.port) s
                v.expiration_fits))
