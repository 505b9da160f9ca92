-- ===== src/Transport/Tls.antt =====
-- transport/tls.go: the connection under a TLS handshake, whose records travel in the bodies of
-- transport messages until the handshake is complete.
--
-- `incoming` is what the network still gives, and `outgoing` what has been written to it. A write
-- meets a Network. A read of the network gives as many bytes as fit and are there.
pub mod Tunnel
mod Tests
use phabrik.Base.{
  ℕ, zero, suc, Bool, true, false, not, List, [], ◌∷◌, ◌++◌, Option, none, some, Result, ok, err,
  panic, Error, eof, errorf, if◌then◌else◌, length, take, drop,
}
use phabrik.Serialization.Guid.{empty_guid}
use phabrik.Serialization.GoType.{GoType, w32, w64, bool, string, guid, uint, struct, nil, cons}
use phabrik.Serialization.Marshal.{bytes, pointer_to}
use phabrik.Transport.Frame.{FrameReadConfig, FrameWriteConfig}
use phabrik.Transport.Frame
use phabrik.Transport.Headers.{MessageHeaders, Activators, header_ids, set_custom_header}
use phabrik.Transport.Message.{
  Message, ByteArrayMessage, MessageFactory, new_message, write_message_with_frame, next_message,
}

-- MessageActorTypeSecurityContext
abbrev pub actor_security_context : ℕ
actor_security_context = 35

-- fabricSecureConn
pub record SecureConn : Type 0 where
  pub handshake_completed : Bool
  pub nego_send : Bool
  pub rbuf : List ℕ
  pub factory : MessageFactory
  pub incoming : List ℕ
  pub outgoing : List ℕ

-- The zero configuration of the frames that are read, and that of createTlsConn for those written.
abbrev pub frame_read_config : FrameReadConfig
frame_read_config = record { check_frame_header_crc = false; check_frame_body_crc = false }

abbrev pub frame_write_config : FrameWriteConfig
frame_write_config = record {
  security_provider_mask = Frame.ssl;
  frame_header_crc = false;
  frame_body_crc = false;
}

-- securityNegotiationHeader with its listenInstance.
abbrev pub negotiation_type : GoType
negotiation_type = struct (
    cons bool (
      cons bool (
        cons (struct (cons string (cons (uint w64) (cons guid (cons bool (cons (uint w32) nil))))))
          (cons (uint w64) nil))))

-- The connection that createTlsConn hands to the handshake.
unfoldable pub secure_conn : MessageFactory → List ℕ → List ℕ → SecureConn
secure_conn factory initbuf incoming = record {
  handshake_completed = false;
  nego_send = false;
  rbuf = initbuf;
  factory = factory;
  incoming = incoming;
  outgoing = [];
}

unfoldable pub mark_handshake_complete : SecureConn → SecureConn
mark_handshake_complete c = record c { handshake_completed = true }

-- bytes.Buffer.Read: an empty buffer is at its end, unless nothing is asked for.
unfoldable pub read_buffered : ℕ → List ℕ → SecureConn → Result (List ℕ) × SecureConn
read_buffered zero [] c = (ok [], c)
read_buffered (suc n) [] c = (err eof, c)
read_buffered n (b ∷ bs) c = (ok (take n (b ∷ bs)), record c { rbuf = drop n (b ∷ bs) })

unfoldable pub read_buffer : ℕ → SecureConn → Result (List ℕ) × SecureConn
unfolding read_buffered
read_buffer n c = read_buffered n c.rbuf c

-- What Read makes of the frame that comes next; where it fails nothing more is read.
unfoldable pub unpacked :
    ℕ
    → Option (Result (ByteArrayMessage × List ℕ))
    → SecureConn
    → Option (Result (List ℕ) × SecureConn)
unfolding read_buffer
unpacked n none c = none
unpacked n (some (err e)) c = some (err e, c)
unpacked n (some panic) c = some (panic, c)
unpacked n (some (ok (msg, rest))) c =
    some (read_buffer n (record c { rbuf = c.rbuf ++ msg.body; incoming = rest }))

-- The message that Write makes of a TLS record: the first one tells what the sender supports.
unfoldable pub wrapped : List ℕ → SecureConn → Message × MessageFactory
wrapped b c =
    let (m, f) = new_message c.factory in
    let h : MessageHeaders = record (m.headers) { actor = actor_security_context } in
    let offer =
      pointer_to negotiation_type
        (true, (true, (([], (0, (empty_guid, (false, (0, tt))))), (0, tt)))) in
    (
      record {
        headers =
            if c.nego_send
            then h
            else (set_custom_header header_ids.security_negotiation offer h).0;
        body = some (bytes b);
      },
      f,
    )

-- How the network takes what one Write gives it, in one call or, for the header and the body of a
-- frame, in two: all of it, or with an error after this many bytes.
pub data Network : Type 0 where
  takes : Network
  fails_after : ℕ → Network

-- What gets out.
unfoldable pub got_out : Network → List ℕ → List ℕ
got_out takes w = w
got_out (fails_after n) w = take n w

-- Write behind the handshake, up to the number of bytes that a failed write counts.
unfoldable pub write_raw : Network → List ℕ → SecureConn → Result ℕ × SecureConn
unfolding got_out
write_raw takes b c = (ok (length b), record c { outgoing = c.outgoing ++ b })
write_raw (fails_after n) b c =
    (err (errorf "write"), record c { outgoing = c.outgoing ++ got_out (fails_after n) b })

-- The error of the write is not looked at.
unfoldable pub put_out : Network → Result (List ℕ) → SecureConn → Result ℕ → Result ℕ × SecureConn
unfolding got_out
put_out network (ok w) c n = (n, record c { outgoing = c.outgoing ++ got_out network w })
put_out network (err e) c n = (n, c)
put_out network panic c n = (panic, c)

module _ (crc8 crc32 : List ℕ → ℕ) where
  -- Read, by what is in the buffer.
  unfoldable pub read_behind :
      List ℕ → Activators → ℕ → SecureConn → Option (Result (List ℕ) × SecureConn)
  unfolding read_buffer unpacked
  read_behind (_ ∷ _) acts n c = some (read_buffer n c)
  read_behind [] acts n c =
      if c.handshake_completed
      then some (ok (take n c.incoming), record c { incoming = drop n c.incoming })
      else unpacked n (next_message crc8 crc32 acts frame_read_config c.incoming) c

  unfoldable pub read : Activators → ℕ → SecureConn → Option (Result (List ℕ) × SecureConn)
  unfolding read_behind
  read acts n c = read_behind c.rbuf acts n c

  -- Write during the handshake.
  unfoldable pub write_record : Network → List ℕ → SecureConn → Result ℕ × SecureConn
  unfolding wrapped put_out
  write_record network b c =
      let (m, f) = wrapped b c in
      put_out network (write_message_with_frame crc8 crc32 m frame_write_config)
        (record c { factory = f; nego_send = true }) (ok (length b))

  -- Write
  unfoldable pub write : Network → List ℕ → SecureConn → Result ℕ × SecureConn
  unfolding write_record write_raw
  write network b c =
      if c.handshake_completed then write_raw network b c else write_record network b c
