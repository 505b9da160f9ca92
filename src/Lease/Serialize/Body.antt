-- ===== src/Lease/Serialize/Body.antt =====
-- What a lease message is made of, how it is written and read (marshalContext.marshal and unmarshal
-- of lease/serialize.go).
use phabrik.Base.{
  ℕ, zero, suc, ◌+◌, ◌-◌, ◌*◌, ◌/◌, ◌%◌, ◌^◌, Bool, List, [], ◌∷◌, ◌++◌, Result, ok, err, panic,
  errorf, ltb, leb, ◌==◌, if◌then◌else◌, ◌>>=◌, le_bytes, le_value, length, take, drop,
}
use phabrik.Serialization.State.{read_full}
use phabrik.Serialization.Utf16.{utf16_encode, utf16_decode, unit_bytes, bytes_units}
use phabrik.Lease.Serialize.Header.{
  ListDesc, LeaseMessageHeader, size_of_lease_message_header, header_bytes, header_of_bytes,
}

-- messageBody; each list holds strings.
pub record MessageBody : Type 0 where
  pub subject_establish_pending_list : List (List ℕ)
  pub subject_failed_pending_list : List (List ℕ)
  pub monitor_failed_pending_list : List (List ℕ)
  pub subject_pending_accepted_list : List (List ℕ)
  pub subject_pending_rejected_list : List (List ℕ)
  pub subject_failed_accepted_list : List (List ℕ)
  pub monitor_failed_accepted_list : List (List ℕ)
  pub subject_terminate_pending_list : List (List ℕ)
  pub subject_terminate_accepted_list : List (List ℕ)

pub record LeaseMessage : Type 0 where
  pub identifier : ℕ
  pub typ : ℕ
  pub lease_instance : ℕ
  pub remote_lease_agent_instance : ℕ
  pub duration : ℕ
  pub expiration : ℕ
  pub lease_suspend_duration : ℕ
  pub arbitration_duration : ℕ
  pub is_two_way_termination : Bool
  pub message_listen_endpoint : List ℕ
  pub body : MessageBody

pub record MarshalContext : Type 0 where
  pub app_id : List ℕ
  pub address : List ℕ
  pub port : ℕ

-- marshalWithSize: the size and the bytes, and the number of bytes that it gives back.
unfoldable pub marshal_with_size : List ℕ → List ℕ
marshal_with_size b = le_bytes 4 (length b % 2 ^ 32) ++ b

unfoldable pub size_with_size : List ℕ → ℕ
size_with_size b = (length b % 2 ^ 32 + 4) % 2 ^ 32

-- A string on the wire.
abbrev pub string_bytes : List ℕ → List ℕ
string_bytes s = unit_bytes (utf16_encode s)

unfoldable pub relationships : List ℕ → List (List ℕ) → List ℕ
unfolding marshal_with_size
relationships app_id [] = []
relationships app_id (r ∷ rs) =
    marshal_with_size (string_bytes app_id)
    ++ (marshal_with_size (string_bytes r) ++ relationships app_id rs)

-- The buffer of marshalRelationshipList, which is written with its size.
unfoldable pub relationship_list : List ℕ → List (List ℕ) → List ℕ
unfolding relationships
relationship_list app_id rs = le_bytes 4 (length rs % 2 ^ 32) ++ relationships app_id rs

-- The loop of marshalLeaseBody: the descriptions, the bytes and the offset behind them.
unfoldable pub lists_loop : List ℕ → ℕ → List (List (List ℕ)) → List ListDesc × List ℕ × ℕ
unfolding relationship_list
lists_loop app_id offset [] = ([], [], offset)
lists_loop app_id offset (rs ∷ lists) =
    let b = relationship_list app_id rs in
    let size = size_with_size b in
    let (ds, bs, end) = lists_loop app_id ((offset + size) % 2 ^ 32) lists in
    (
      record { count = length rs % 2 ^ 32; start_offset = offset; size = size } ∷ ds,
      marshal_with_size b ++ bs,
      end,
    )

-- The lists in the order of the loop.
abbrev pub lists_of : MessageBody → List (List (List ℕ))
lists_of b =
    b.subject_establish_pending_list ∷ b.subject_failed_pending_list ∷ b.monitor_failed_pending_list
    ∷ b.subject_pending_accepted_list ∷ b.subject_pending_rejected_list
    ∷ b.subject_failed_accepted_list ∷ b.monitor_failed_accepted_list
    ∷ b.subject_terminate_pending_list ∷ b.subject_terminate_accepted_list ∷ []

-- A description that was written; the loop writes one for each list.
unfoldable pub desc_at : ℕ → List ListDesc → ListDesc
desc_at n [] = record { count = 0; start_offset = 0; size = 0 }
desc_at zero (d ∷ ds) = d
desc_at (suc n) (d ∷ ds) = desc_at n ds

-- The address with its final zero.
abbrev pub endpoint_units : MarshalContext → List ℕ
endpoint_units c = utf16_encode (c.address ++ (0 ∷ []))

-- The listen endpoint: the address, syscall.AF_INET and the port.
unfoldable pub endpoint_bytes : MarshalContext → List ℕ
endpoint_bytes c = unit_bytes (endpoint_units c) ++ (le_bytes 2 2 ++ le_bytes 2 c.port)

unfoldable pub endpoint_size : MarshalContext → ℕ
endpoint_size c = (length (endpoint_units c) * 2 % 2 ^ 32 + 4) % 2 ^ 32

-- Duration.Milliseconds on the pattern of a duration, as an int64.
unfoldable pub milliseconds : ℕ → ℕ
milliseconds d = if ltb d (2 ^ 63) then d / 1000000 else (2 ^ 64 - (2 ^ 64 - d) / 1000000) % 2 ^ 64

-- The header that marshal fills in; `now` is what uniqId gives.
unfoldable pub message_header : MarshalContext → ℕ → LeaseMessage → LeaseMessageHeader
unfolding lists_loop desc_at endpoint_bytes endpoint_size milliseconds
message_header c now m =
    let (ds, bs, end) = lists_loop c.app_id size_of_lease_message_header (lists_of m.body) in
    record {
      major_version = 2;
      minor_version = 1;
      message_header_size = size_of_lease_message_header;
      message_size =
          (size_of_lease_message_header + length (bs ++ endpoint_bytes c) % 2 ^ 32) % 2 ^ 32;
      message_identifier = now;
      message_type = m.typ;
      lease_instance = m.lease_instance;
      remote_lease_agent_instance = m.remote_lease_agent_instance;
      duration = milliseconds m.duration % 2 ^ 32;
      expiration = milliseconds m.expiration;
      lease_suspend_duration = milliseconds m.lease_suspend_duration % 2 ^ 32;
      arbitration_duration = milliseconds m.arbitration_duration % 2 ^ 32;
      is_two_way_termination = m.is_two_way_termination;
      subject_establish_pending_list = desc_at 0 ds;
      subject_failed_pending_list = desc_at 1 ds;
      monitor_failed_pending_list = desc_at 2 ds;
      subject_pending_accepted_list = desc_at 3 ds;
      subject_pending_rejected_list = desc_at 4 ds;
      subject_failed_accepted_list = desc_at 5 ds;
      monitor_failed_accepted_list = desc_at 6 ds;
      subject_terminate_pending_list = desc_at 7 ds;
      subject_terminate_accepted_list = desc_at 8 ds;
      message_listen_endpoint = record { count = 0; start_offset = end; size = endpoint_size c };
    }

-- marshalLeaseBody
unfoldable pub marshal_lease_body : MarshalContext → MessageBody → List ℕ
unfolding lists_loop endpoint_bytes
marshal_lease_body c b =
    (lists_loop c.app_id size_of_lease_message_header (lists_of b)).1 ++ endpoint_bytes c

-- marshalContext.marshal
unfoldable pub marshal : MarshalContext → ℕ → LeaseMessage → List ℕ
unfolding message_header marshal_lease_body
marshal c now m = header_bytes (message_header c now m) ++ marshal_lease_body c m.body

-- dataAtList: the offsets are uint32s, and a slice with its end before its start panics.
unfoldable pub data_at_list : List ℕ → ListDesc → Result (List ℕ)
data_at_list bs d =
    let end = (d.start_offset + d.size) % 2 ^ 32 in
    if leb (length bs % 2 ^ 32) d.start_offset
    then err (errorf "bad data start offset")
    else if leb (length bs % 2 ^ 32) end
    then err (errorf "bad data start offset")
    else if ltb end d.start_offset
    then panic
    else ok (take (end - d.start_offset) (drop d.start_offset bs))

-- A final zero is cut off.
unfoldable pub drop_zero : List ℕ → List ℕ
drop_zero [] = []
drop_zero (u ∷ []) = if u == 0 then [] else u ∷ []
drop_zero (u ∷ v ∷ us) = u ∷ drop_zero (v ∷ us)

-- `s[len(s)-1]` panics on no units.
unfoldable pub strip : List ℕ → Result (List ℕ)
unfolding drop_zero
strip [] = panic
strip (u ∷ us) = ok (drop_zero (u ∷ us))

-- `time.Duration(v) * time.Millisecond` of an int64, and of an int32.
unfoldable pub of_milliseconds : ℕ → ℕ
of_milliseconds v = v * 1000000 % 2 ^ 64

unfoldable pub extend : ℕ → ℕ
extend v = if ltb v (2 ^ 31) then v else v + (2 ^ 64 - 2 ^ 32)

abbrev pub empty_body : MessageBody
empty_body = record {
  subject_establish_pending_list = [];
  subject_failed_pending_list = [];
  monitor_failed_pending_list = [];
  subject_pending_accepted_list = [];
  subject_pending_rejected_list = [];
  subject_failed_accepted_list = [];
  monitor_failed_accepted_list = [];
  subject_terminate_pending_list = [];
  subject_terminate_accepted_list = [];
}

unfoldable pub message_of : LeaseMessageHeader → List ℕ → LeaseMessage
unfolding of_milliseconds extend
message_of h endpoint = record {
  identifier = h.message_identifier;
  typ = h.message_type;
  lease_instance = h.lease_instance;
  remote_lease_agent_instance = h.remote_lease_agent_instance;
  duration = of_milliseconds (extend h.duration);
  expiration = of_milliseconds h.expiration;
  lease_suspend_duration = of_milliseconds (extend h.lease_suspend_duration);
  arbitration_duration = of_milliseconds (extend h.arbitration_duration);
  is_two_way_termination = h.is_two_way_termination;
  message_listen_endpoint = endpoint;
  body = empty_body;
}

module _ (join_host_port : List ℕ → ℕ → List ℕ) where
  -- The number of units is a difference of uint32s, halved.
  unfoldable pub read_endpoint : ℕ → List ℕ → Result (List ℕ)
  unfolding strip
  read_endpoint size bs = do
    (sb, r) ← read_full (2 * ((size + 2 ^ 32 - 4) % 2 ^ 32 / 2)) bs
    s ← strip (bytes_units sb)
    (port, _) ← read_full 2 (drop 2 r)
    ok (join_host_port (utf16_decode s) (le_value port))

  unfoldable pub unmarshal : List ℕ → Result LeaseMessage
  unfolding data_at_list read_endpoint message_of
  unmarshal bs = do
    (hb, _) ← read_full size_of_lease_message_header bs
    d ← data_at_list bs (header_of_bytes hb).message_listen_endpoint
    endpoint ← read_endpoint (header_of_bytes hb).message_listen_endpoint.size d
    ok (message_of (header_of_bytes hb) endpoint)
