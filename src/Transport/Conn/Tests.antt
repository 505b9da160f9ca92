-- ===== src/Transport/Conn/Tests.antt =====
-- Runs of connections.
use phabrik.Base.{
  ℕ, ◌<◌, ◌≡◌, refl, inl, true, false, List, [], ◌∷◌, ◌++◌, Option, none, some, Result, ok, err,
  panic, length, arith, le_bytes,
}
use phabrik.Serialization.Guid.{empty_guid, guid_eq, IsGuid, bytes_eq}
use phabrik.Serialization.Guid
use phabrik.Serialization.Marshal.{
  Argument, bytes, marshal, encode, encode_fields, encode_struct, encode_field, encode_none,
  object_scope_end, pointer_to, is_struct,
}
use phabrik.Serialization.State.{write, push_buffer, pop_buffer}
use phabrik.Serialization.Compress.{write_compressed, compressed, write_loop, shift_out}
use phabrik.Serialization.Utf16.{utf16_encode, encode_rune, unit_bytes}
use phabrik.Transport.Frame.{FrameReadConfig, FrameWriteConfig}
use phabrik.Transport.Frame
use phabrik.Transport.Headers.{MessageId, MessageHeaders, Activators, is_empty}
use phabrik.Transport.Headers.Write.{write_to, write_all}
use phabrik.Transport.Headers.Read.{empty_headers}
use phabrik.Transport.Message.{
  Message, ByteArrayMessage, MessageFactory, fill_message_id, new_message, body_bytes,
}
use phabrik.Transport.RequestTable.{PendingRequest}
use phabrik.Transport.Conn.{
  Connection, handles, dispatch, send_one_way, transport_message, ping, heartbeat_type,
  heartbeat_request, heartbeat_response, ticks, handle_transport_message,
}
use phabrik.Transport.Conn.Sending.{FitsFrame, delivered_headers, Reads, send_one_way-Reads}
use phabrik.Transport.Conn.Heartbeat.{empty-IsSendable, own_headers, ping_echo}

abbrev crc : List ℕ → ℕ
crc bs = 5

abbrev acts : Activators
acts _ = none

abbrev mid : ℕ → MessageId
mid n = record { id = empty_guid; index = n }

abbrev factory : MessageFactory
factory = record { message_prefix = empty_guid; message_idx = 0 }

abbrev line : Connection
line = record {
  factory = factory;
  requests = record { table = []; closed = []; next_channel = 0 };
  read_config = record { check_frame_header_crc = true; check_frame_body_crc = false };
  write_config = record {
    security_provider_mask = Frame.none;
    frame_header_crc = true;
    frame_body_crc = false;
  };
  fatal = none;
  closed = false;
  sent = [];
}

abbrev question : Message
question = record {
  headers = record empty_headers { id = mid 4; actor = 5 };
  body = some (bytes (8 ∷ 9 ∷ []));
}

abbrev pending : PendingRequest
pending = record { id = mid 4; channel = 0 }

abbrev reply : ByteArrayMessage
reply = record { headers = record empty_headers { relates_to = mid 4; actor = 5 }; body = [] }

abbrev ok_bytes : Result (List ℕ) → List ℕ
ok_bytes (ok bs) = bs
ok_bytes (err e) = []
ok_bytes panic = []

-- A message as a caller makes it: no identifier, and a nil map of custom headers.
abbrev plain : Message
plain = record {
  headers = record empty_headers { custom_headers = none };
  body = some (bytes (8 ∷ 9 ∷ []));
}

plain-FitsFrame : FitsFrame (delivered_headers factory plain.headers) (8 ∷ 9 ∷ [])
unfolding is_empty guid_eq bytes_eq Guid.is_empty write_to write_all marshal encode Guid.marshal
    write push_buffer write_compressed compressed write_loop shift_out object_scope_end pop_buffer
    le_bytes
plain-FitsFrame =
    (ok_bytes (write_to (delivered_headers factory plain.headers)), refl, omega arith, omega arith)

send_one_way-Reads_example :
    (w : List ℕ) × ((send_one_way crc crc true plain line).0 ≡ ok tt)
    × ((send_one_way crc crc true plain line).1.sent ≡ [] ++ w)
    × Reads crc crc acts line.read_config w
        (record { headers = record empty_headers { id = mid 1 }; body = 8 ∷ 9 ∷ [] })
unfolding is_empty guid_eq bytes_eq Guid.is_empty
send_one_way-Reads_example =
    send_one_way-Reads crc crc acts line.read_config plain line (8 ∷ 9 ∷ []) (λ bs. omega arith)
      (λ bs. omega arith) refl (empty-IsSendable.id_fits.guid_fits) (λ e. e, λ e. e) refl
      empty-IsSendable (unfold body_bytes marshal in refl) plain-FitsFrame

-- The body of a heartbeat, and the headers of its two messages.
abbrev tick_body : Option Argument
tick_body = some (pointer_to heartbeat_type (1, tt))

abbrev tick_bytes : List ℕ
tick_bytes = ok_bytes (marshal (pointer_to heartbeat_type (1, tt)))

abbrev request_headers : MessageHeaders
request_headers = own_headers heartbeat_request tick_body line

abbrev response_headers : MessageHeaders
response_headers = own_headers heartbeat_response (some (bytes tick_bytes)) line

tick_written : marshal (pointer_to heartbeat_type (1, tt)) ≡ ok tick_bytes
unfolding marshal is_struct encode encode_fields encode_struct encode_field encode_none write
    push_buffer write_compressed compressed write_loop shift_out object_scope_end pop_buffer
    le_bytes
tick_written = refl

tick_short : length tick_bytes < 100
unfolding marshal is_struct encode encode_fields encode_struct encode_field encode_none write
    push_buffer write_compressed compressed write_loop shift_out object_scope_end pop_buffer
    le_bytes
tick_short = omega arith

request-FitsFrame : FitsFrame request_headers tick_bytes
unfolding transport_message new_message fill_message_id is_empty guid_eq bytes_eq Guid.is_empty
    write_to write_all marshal is_struct encode Guid.marshal write push_buffer write_compressed
    compressed write_loop shift_out object_scope_end pop_buffer le_bytes utf16_encode encode_rune
    unit_bytes
request-FitsFrame =
    (ok_bytes (write_to request_headers), refl, omega arith, omega (arith, tick_short))

response-FitsFrame : FitsFrame response_headers tick_bytes
unfolding transport_message new_message fill_message_id is_empty guid_eq bytes_eq Guid.is_empty
    write_to write_all marshal is_struct encode Guid.marshal write push_buffer write_compressed
    compressed write_loop shift_out object_scope_end pop_buffer le_bytes utf16_encode encode_rune
    unit_bytes
response-FitsFrame =
    (ok_bytes (write_to response_headers), refl, omega arith, omega (arith, tick_short))

ping_echo_example :
    (w w' : List ℕ) × (request back : ByteArrayMessage) × ((ping crc crc true 1 line).1.sent
      ≡ [] ++ w)
    × Reads crc crc acts line.read_config w request
    × (dispatch request line ≡ (handles request, line))
    × ((handle_transport_message crc crc true request line).1.sent ≡ [] ++ w')
    × Reads crc crc acts line.read_config w' back
    × (dispatch back line ≡ (handles back, line))
    × (handle_transport_message crc crc true back line ≡ (ticks 1, line))
ping_echo_example =
    ping_echo crc crc acts line line line 1 tick_bytes (λ bs. omega arith) (λ bs. omega arith) refl
      refl (empty-IsSendable.id_fits.guid_fits) (empty-IsSendable.id_fits.guid_fits)
      (λ e. e, λ e. e) (λ e. e, λ e. e) (inl (omega arith), tick_written)
      (omega (arith, tick_short)) request-FitsFrame response-FitsFrame
