-- ===== src/Transport/Conn.antt =====
-- transport/conn.go: a connection, what it sends and what it does with the messages that it gets.
--
-- `sent` is what the connection has written to the network, and `written` tells whether the network
-- takes a write; what a write that fails leaves on the network is not recorded. The lock, the
-- timeouts and the goroutines of Wait are not under the model: a message is dispatched in one step.
pub mod Delivery
pub mod Sending
pub mod Heartbeat
mod Tests
use phabrik.Base.{
  ℕ, ◌+◌, Bool, true, false, not, ◌&&◌, List, [], ◌∷◌, ◌++◌, Option, none, some, Result, ok, err,
  panic, Error, errorf, ◌==◌, if◌then◌else◌,
}
use phabrik.Serialization.Guid.{Guid, bytes_eq}
use phabrik.Serialization.GoType.{
  GoType, w32, w64, bool, string, guid, int, uint, struct, nil, cons,
}
use phabrik.Serialization.Marshal.{Argument, bytes, pointer_to}
use phabrik.Serialization.Unmarshal.{unmarshal}
use phabrik.Transport.Frame.{FrameReadConfig, FrameWriteConfig}
use phabrik.Transport.Frame
use phabrik.Transport.Headers.{MessageId, MessageHeaders}
use phabrik.Transport.Message.{
  Message, ByteArrayMessage, MessageFactory, fill_message_id, new_message, write_message_with_frame,
}
use phabrik.Transport.RequestTable.{PendingRequest, RequestTable, put, feed, close_pending, close}

-- MessageActorTypeTransport and MessageActorTypeTransportSendTarget
abbrev pub actor_transport : ℕ
actor_transport = 1

abbrev pub actor_transport_send_target : ℕ
actor_transport_send_target = 29

-- The runes of "HeartbeatRequest", "HeartbeatResponse" and "ConnectionAuth".
abbrev heartbeat : List ℕ
heartbeat = b'H' ∷ b'e' ∷ b'a' ∷ b'r' ∷ b't' ∷ b'b' ∷ b'e' ∷ b'a' ∷ b't' ∷ []

abbrev pub heartbeat_request : List ℕ
heartbeat_request = heartbeat ++ (b'R' ∷ b'e' ∷ b'q' ∷ b'u' ∷ b'e' ∷ b's' ∷ b't' ∷ [])

abbrev pub heartbeat_response : List ℕ
heartbeat_response = heartbeat ++ (b'R' ∷ b'e' ∷ b's' ∷ b'p' ∷ b'o' ∷ b'n' ∷ b's' ∷ b'e' ∷ [])

abbrev pub connection_auth : List ℕ
connection_auth =
    b'C' ∷ b'o' ∷ b'n' ∷ b'n' ∷ b'e' ∷ b'c' ∷ b't' ∷ b'i' ∷ b'o' ∷ b'n' ∷ b'A' ∷ b'u' ∷ b't' ∷ b'h'
    ∷ []

-- Config, less the TLS settings.
pub record Config : Type 0 where
  pub disable_check_frame_header_crc : Bool
  pub disable_generate_frame_header_crc : Bool
  pub check_frame_body_crc : Bool
  pub generate_frame_body_crc : Bool

-- `fatal` is the error code of a refused connection; `closed` tells that closeOnce has run.
pub record Connection : Type 0 where
  pub factory : MessageFactory
  pub requests : RequestTable
  pub read_config : FrameReadConfig
  pub write_config : FrameWriteConfig
  pub fatal : Option ℕ
  pub closed : Bool
  pub sent : List ℕ

unfoldable pub new_connection : Config → MessageFactory → Connection
new_connection config factory = record {
  factory = factory;
  requests = record { table = []; closed = []; next_channel = 0 };
  read_config = record {
    check_frame_header_crc = not config.disable_check_frame_header_crc;
    check_frame_body_crc = config.check_frame_body_crc;
  };
  write_config = record {
    security_provider_mask = Frame.none;
    frame_header_crc = not config.disable_generate_frame_header_crc;
    frame_body_crc = config.generate_frame_body_crc;
  };
  fatal = none;
  closed = false;
  sent = [];
}

unfoldable pub set_tls : Connection → Connection
set_tls c = record c {
  read_config = record { check_frame_header_crc = false; check_frame_body_crc = false };
  write_config = record {
    security_provider_mask = Frame.ssl;
    frame_header_crc = false;
    frame_body_crc = false;
  };
}

-- Close, less that of the network connection.
unfoldable pub close_connection : Connection → Connection
close_connection c = if c.closed then c else record c { closed = true; requests = close c.requests }

-- What Wait does with a message: it starts handleTransportMessage, stops, gives the message to a
-- request, or calls the callback if there is one.
pub data Action : Type 0 where
  handles : ByteArrayMessage → Action
  stops : Action
  delivers : PendingRequest → ByteArrayMessage → Action
  calls : ByteArrayMessage → Action

unfoldable pub hand_over :
    ByteArrayMessage → Option PendingRequest × RequestTable → Connection → Action × Connection
hand_over msg (some p, r) c = (delivers p msg, record c { requests = r })
hand_over msg (none, r) c = (calls msg, record c { requests = r })

unfoldable pub auth_failed : MessageHeaders → Bool
auth_failed h =
    (h.actor == actor_transport_send_target)
    && (bytes_eq h.action connection_auth && not (h.error_code == 0))

-- One round of the loop of Wait, behind the reading of the message.
unfoldable pub dispatch : ByteArrayMessage → Connection → Action × Connection
unfolding hand_over auth_failed
dispatch msg c =
    if msg.headers.actor == actor_transport
    then (handles msg, c)
    else if auth_failed msg.headers
    then (stops, close_connection (record c { fatal = some msg.headers.error_code }))
    else hand_over msg (feed msg.headers.relates_to c.requests) c

unfoldable pub transmitted : Bool → Result (List ℕ) → Connection → Result (Unit {0}) × Connection
transmitted written (ok bs) c =
    if written then (ok tt, record c { sent = c.sent ++ bs }) else (err (errorf "write"), c)
transmitted written (err e) c = (err e, c)
transmitted written panic c = (panic, c)

-- The struct heartbeat.
abbrev pub heartbeat_type : GoType
heartbeat_type = struct (cons (int w64) nil)

-- What handleTransportMessage does: an answer is sent, a tick goes to the pending Ping, the body
-- does not unmarshal, or nothing.
pub data Handled : Type 0 where
  answers : Result (Unit {0}) → Handled
  ticks : ℕ → Handled
  fails : Error → Handled
  panics : Handled
  ignores : Handled

unfoldable pub tick_of : Result (ℕ × Unit {0}) → Handled
tick_of (ok (tick, _)) = ticks tick
tick_of (err e) = fails e
tick_of panic = panics

-- A message of the transport's own, with an action and a body.
unfoldable pub transport_message : List ℕ → Option Argument → Connection → Message × Connection
transport_message action body c =
    let (m, f) = new_message c.factory in
    (
      record {
        headers = record (m.headers) {
          actor = actor_transport;
          high_priority = true;
          action = action;
        };
        body = body;
      },
      record c { factory = f },
    )

-- The struct transportInitMessageBody.
abbrev pub init_type : GoType
init_type = struct (cons string (cons (uint w64) (cons guid (cons bool (cons (uint w32) nil)))))

unfoldable pub requested :
    PendingRequest → Result (Unit {0}) × Connection → Result PendingRequest × Connection
requested p (ok _, c) = (ok p, c)
requested p (err e, c) = (err e, record c { requests = close_pending p c.requests })
requested p (panic, c) = (panic, record c { requests = close_pending p c.requests })

unfoldable pub answered : Result (Unit {0}) × Connection → Handled × Connection
answered (r, c) = (answers r, c)

module _ (crc8 crc32 : List ℕ → ℕ) where
  -- SendOneWay behind its check of fatalerr.
  unfoldable pub send : Bool → Message → Connection → Result (Unit {0}) × Connection
  unfolding transmitted
  send written m c =
      let (h, f) = fill_message_id c.factory m.headers in
      transmitted written
        (write_message_with_frame crc8 crc32 (record m { headers = h }) c.write_config)
        (record c { factory = f })

  unfoldable pub send_checked :
      Option ℕ → Bool → Message → Connection → Result (Unit {0}) × Connection
  send_checked (some code) written m c = (err (errorf "connection auth failure"), c)
  send_checked none written m c = send written m c

  unfoldable pub send_one_way : Bool → Message → Connection → Result (Unit {0}) × Connection
  unfolding send_checked
  send_one_way written m c = send_checked c.fatal written m c

  -- RequestReply up to the wait: where the send fails, the deferred Close removes the request.
  unfoldable pub request_reply : Bool → Message → Connection → Result PendingRequest × Connection
  unfolding requested
  request_reply written m c =
      let (h, f) = fill_message_id c.factory m.headers in
      let (p, r) = put h.id c.requests in
      requested p (
        send_one_way written (record m { headers = record h { expects_reply = true } })
          (record c { factory = f; requests = r }))

  -- Ping, up to the wait; `tick` is the pattern of the time in nanoseconds.
  unfoldable pub ping : Bool → ℕ → Connection → Result (Unit {0}) × Connection
  unfolding transport_message
  ping written tick c =
      let (m, c') =
        transport_message heartbeat_request (some (pointer_to heartbeat_type (tick, tt))) c in
      send_one_way written m c'

  -- sendTransportInit, with the local address and the nonce.
  unfoldable pub send_transport_init :
      Bool → List ℕ → Guid → Connection → Result (Unit {0}) × Connection
  unfolding transport_message
  send_transport_init written address nonce c =
      let (m, c') =
        transport_message [] (some (pointer_to init_type (address, (0, (nonce, (true, (1, tt)))))))
          c in
      send_one_way written m c'

  unfoldable pub handle_transport_message :
      Bool → ByteArrayMessage → Connection → Handled × Connection
  unfolding transport_message answered tick_of
  handle_transport_message written msg c =
      if bytes_eq msg.headers.action heartbeat_request
      then (let (m, c') = transport_message heartbeat_response (some (bytes msg.body)) c in
          answered (send_one_way written m c'))
      else if bytes_eq msg.headers.action heartbeat_response
      then (tick_of (unmarshal msg.body heartbeat_type (0, tt)), c)
      else (ignores, c)
