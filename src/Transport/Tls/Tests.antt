-- ===== src/Transport/Tls/Tests.antt =====
-- Runs of the tunnel of a TLS handshake and of a piper.
use phabrik.Base.{
  ℕ, ◌≡◌, refl, true, false, List, [], ◌∷◌, ◌++◌, none, some, Result, ok, err, panic, Error, eof,
  arith, length, le_bytes,
}
use phabrik.Serialization.Guid.{empty_guid, guid_eq, IsGuid, bytes_eq}
use phabrik.Serialization.Guid
use phabrik.Serialization.Marshal.{bytes, marshal, encode, object_scope_end}
use phabrik.Serialization.State.{push_buffer, pop_buffer}
use phabrik.Serialization.State
use phabrik.Serialization.Compress.{write_compressed, compressed, write_loop, shift_out}
use phabrik.Transport.Headers.{MessageHeaders, Activators, is_empty}
use phabrik.Transport.Headers.Write.{write_to, write_all}
use phabrik.Transport.Headers.Read.{empty_headers}
use phabrik.Transport.Message.{
  ByteArrayMessage, fill_message_id, new_message, body_bytes, write_message_with_frame,
}
use phabrik.Transport.Message.RoundTrip.{next_message-sent}
use phabrik.Transport.Conn.Sending.{FitsFrame, Reads}
use phabrik.Transport.Conn.Heartbeat.{empty-IsSendable}
use phabrik.Transport.Piper.{copy}
use phabrik.Transport.Piper.Forwarding.{IsForwardable, ReadsAll, copy-ReadsAll}
use phabrik.Transport.Tls.{
  takes, fails_after, SecureConn, frame_read_config, frame_write_config, wrapped, read, write,
}
use phabrik.Transport.Tls.Tunnel.{write_lost, read-write}

abbrev crc : List ℕ → ℕ
crc bs = 5

abbrev acts : Activators
acts _ = none

abbrev half : SecureConn
half = record {
  handshake_completed = false;
  nego_send = true;
  rbuf = [];
  factory = record { message_prefix = empty_guid; message_idx = 0 };
  incoming = [];
  outgoing = [];
}

abbrev tls_record : List ℕ
tls_record = 22 ∷ 3 ∷ 1 ∷ []

abbrev ok_bytes : Result (List ℕ) → List ℕ
ok_bytes (ok bs) = bs
ok_bytes (err e) = []
ok_bytes panic = []

abbrev record_headers : MessageHeaders
record_headers = (wrapped tls_record half).0.headers

record-FitsFrame : FitsFrame record_headers tls_record
unfolding wrapped new_message fill_message_id is_empty guid_eq bytes_eq Guid.is_empty write_to
    write_all marshal encode Guid.marshal State.write push_buffer write_compressed compressed
    write_loop shift_out object_scope_end pop_buffer le_bytes
record-FitsFrame = (ok_bytes (write_to record_headers), refl, omega arith, omega arith)

-- The network fails behind the header of the frame.
write_lost_example :
    ((write crc crc (fails_after 12) tls_record half).0 ≡ ok 3)
    × ((cut : List ℕ) × ((write crc crc (fails_after 12) tls_record half).1.outgoing ≡ [] ++ cut)
        × (length cut ≡ 12)
        × ((e : Error) × (s : SecureConn) × (read crc crc acts 5 (record half { incoming = cut })
              ≡ some (err e, s))))
write_lost_example =
    write_lost crc crc acts tls_record record-FitsFrame.0 12 5 half half (λ bs. omega arith)
      (λ bs. omega arith) refl record-FitsFrame.1 record-FitsFrame.3 (omega arith) refl refl

read-write_example :
    (w : List ℕ) × ((write crc crc takes tls_record half).0 ≡ ok 3)
    × ((write crc crc takes tls_record half).1.outgoing ≡ [] ++ w)
    × (read crc crc acts 2 (record half { incoming = w ++ [] })
        ≡ some (ok (22 ∷ 3 ∷ []), record half { rbuf = 1 ∷ []; incoming = [] }))
read-write_example =
    read-write crc crc acts 2 22 (3 ∷ 1 ∷ []) [] half half (λ bs. omega arith) (λ bs. omega arith)
      refl refl empty-IsSendable.id_fits.guid_fits record-FitsFrame refl refl

abbrev message : ByteArrayMessage
message = record { headers = empty_headers; body = 8 ∷ 9 ∷ [] }

message-IsForwardable : IsForwardable message
unfolding is_empty guid_eq bytes_eq Guid.is_empty write_to write_all marshal encode Guid.marshal
    State.write push_buffer write_compressed compressed write_loop shift_out object_scope_end
    pop_buffer le_bytes
message-IsForwardable =
    (empty-IsSendable, (ok_bytes (write_to empty_headers), refl, omega arith, omega arith))

-- The bytes of one message, and that they are read as it.
one_sent :
    (w : List ℕ) × (write_message_with_frame crc crc
        (record { headers = message.headers; body = some (bytes message.body) })
        frame_write_config
      ≡ ok w)
    × Reads crc crc acts frame_read_config w message
one_sent =
    let (h, eh, lh, l) = message-IsForwardable.1 in
    next_message-sent crc crc acts frame_read_config frame_write_config
      (record { headers = message.headers; body = some (bytes message.body) }) h message.body
      (λ bs. omega arith) (λ bs. omega arith) (λ e. e, λ e. e) empty-IsSendable eh
      (unfold body_bytes marshal in refl) lh l

copy-ReadsAll_example :
    (forwarded : List ℕ) × (copy crc crc none acts frame_read_config frame_write_config true 2
        (one_sent.0 ++ [])
        []
      ≡ some (err eof, [] ++ forwarded))
    × ReadsAll crc crc acts frame_read_config forwarded (message ∷ [])
copy-ReadsAll_example =
    copy-ReadsAll crc crc acts frame_read_config frame_read_config frame_write_config (message ∷ [])
      (one_sent.0 ++ []) [] (λ bs. omega arith) (λ bs. omega arith) (λ e. e, λ e. e)
      (message-IsForwardable, tt) (one_sent.0, [], refl, one_sent.2, refl)
