-- ===== src/Transport/Tests.antt =====
-- Runs of the transport.
use phabrik.Base.{
  ℕ, ◌<◌, ◌^◌, ◌≡◌, refl, ap, subst, inl, true, false, List, [], ◌∷◌, ◌++◌, none, some, Result, ok,
  err, arith, length, le_bytes, panic,
}
use phabrik.Serialization.Guid.{empty_guid, guid_eq}
use phabrik.Serialization.Guid
use phabrik.Serialization.Marshal.{bytes, marshal, encode, object_scope_end}
use phabrik.Serialization.State.{write, push_buffer, pop_buffer}
use phabrik.Serialization.Compress.{write_compressed, compressed, write_loop, shift_out}
use phabrik.Transport.Frame.{FrameReadConfig, FrameWriteConfig, none}
use phabrik.Transport.Headers.{MessageId, MessageHeaders, is_empty}
use phabrik.Transport.Headers.Write.{write_to, write_all}
use phabrik.Transport.Headers.Read.{empty_headers, parse_fabric_message_headers}
use phabrik.Transport.Headers.Parse.{parse_total}
use phabrik.Transport.Message.{Message, body_bytes, write_message_with_frame, next_message}
use phabrik.Transport.Message.RoundTrip.{next_message-sent}
use phabrik.Transport.RequestTable.{
  PendingRequest, RequestTable, contains, close_pending, put, feed,
}
use phabrik.Transport.RequestTable.Spec.{
  Op, puts, feeds, closes_all, calls, spec_calls, view, AreKeyed, nil, cons, calls-spec_calls,
}
use phabrik.Transport.RequestTable.Spec
use phabrik.Transport.Headers.RoundTrip.{IsMessageId, IsSendable, parse-write_to}
use phabrik.Transport.RequestTable.Exchange.{
  cancelled, sending, closes, given_up_reached, sends_on_open_channel,
}

abbrev mid : ℕ → MessageId
mid n = record { id = empty_guid; index = n }

abbrev table : RequestTable
table = record {
  table = (mid 4, record { id = mid 4; channel = 0 }) ∷ [];
  closed = [];
  next_channel = 1;
}

abbrev request : PendingRequest
request = record { id = mid 4; channel = 0 }

sends_on_open_channel_example :
    contains
      (put (mid 7) table).0.channel
      (close_pending (put (mid 7) table).0 (feed (mid 7) (put (mid 7) table).1).1).closed
    ≡ false
unfolding is_empty guid_eq contains Guid.is_empty
sends_on_open_channel_example =
    sends_on_open_channel (mid 7) table
      (record {
        requests = close_pending (put (mid 7) table).0 (feed (mid 7) (put (mid 7) table).1).1;
        waiter = cancelled;
        feeder = sending;
      })
      refl (given_up_reached (mid 7) table refl) refl

abbrev checks : FrameReadConfig
checks = record { check_frame_header_crc = true; check_frame_body_crc = false }

abbrev fills : FrameWriteConfig
fills = record { security_provider_mask = none; frame_header_crc = true; frame_body_crc = false }

-- Checksums that are in range.
abbrev crc : List ℕ → ℕ
crc bs = 5

parse_total_example :
    (x : Result MessageHeaders) × (parse_fabric_message_headers (λ _. none) (1 ∷ 2 ∷ []) ≡ some x)
parse_total_example = parse_total (λ _. none) (1 ∷ 2 ∷ [])

abbrev message : Message
message = record {
  headers = record empty_headers { id = mid 4; actor = 1 };
  body = some (bytes (8 ∷ 9 ∷ []));
}

abbrev ok_bytes : Result (List ℕ) → List ℕ
ok_bytes (ok bs) = bs
ok_bytes (err e) = []
ok_bytes panic = []

headers_written : write_to message.headers ≡ ok (ok_bytes (write_to message.headers))
unfolding write_to write_all marshal encode Guid.marshal write push_buffer write_compressed
    compressed write_loop shift_out object_scope_end pop_buffer is_empty le_bytes
headers_written = refl

headers_short : length (ok_bytes (write_to message.headers)) < 100
unfolding write_to write_all marshal encode Guid.marshal write push_buffer write_compressed
    compressed write_loop shift_out object_scope_end pop_buffer is_empty le_bytes
headers_short = omega arith

zero-IsMessageId : (n : ℕ) → n < 2 ^ 32 → IsMessageId (mid n)
zero-IsMessageId n h = record {
  guid_fits = record {
    data1_fits = omega arith;
    data2_fits = omega arith;
    data3_fits = omega arith;
    data4_fits = omega arith;
    data4_length = refl;
  };
  index_fits = h;
}

message-IsSendable : IsSendable message.headers
message-IsSendable = record {
  id_fits = zero-IsMessageId 4 (omega arith);
  relates_to_fits = zero-IsMessageId 0 (omega arith);
  actor_fits = inl (omega arith);
  action_fits = tt;
  error_code_fits = inl (omega arith);
  retry_count_fits = omega arith;
  no_custom = refl;
}

headers_fit : (w : List ℕ) → write_to message.headers ≡ ok w → length w < 2 ^ 16
headers_fit w e =
    let same : ok_bytes (write_to message.headers) ≡ w = ap ok_bytes e in
    subst (λ x. length x < 2 ^ 16) same (omega (arith, headers_short))

parse-write_to_example :
    (w : List ℕ) × (write_to message.headers ≡ ok w)
    × (parse_fabric_message_headers (λ _. none) w ≡ some (ok message.headers))
parse-write_to_example = parse-write_to (λ _. none) message.headers message-IsSendable headers_fit

next_message-sent_example :
    (w : List ℕ) × (write_message_with_frame crc crc message fills ≡ ok w)
    × ((rest : List ℕ)
        → next_message crc crc (λ _. none) checks (w ++ rest)
          ≡ some (ok (record { headers = message.headers; body = 8 ∷ 9 ∷ [] }, rest)))
unfolding body_bytes marshal
next_message-sent_example =
    next_message-sent crc crc (λ _. none) checks fills message (ok_bytes (write_to message.headers))
      (8 ∷ 9 ∷ []) (λ bs. omega arith) (λ bs. omega arith) (λ e. e, λ e. e) message-IsSendable
      headers_written refl (omega (arith, headers_short)) (omega (arith, headers_short))

abbrev ops : List Op
ops = puts (mid 7) ∷ feeds (mid 4) ∷ Spec.closes request ∷ feeds (mid 7) ∷ closes_all ∷ []

calls-spec_calls_example :
    ((calls ops table).0 ≡ (spec_calls ops (view table)).0)
    × (view (calls ops table).1 ≡ (spec_calls ops (view table)).1)
calls-spec_calls_example = calls-spec_calls ops table (cons request [] nil)
