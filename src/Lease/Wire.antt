-- ===== src/Lease/Wire.antt =====
-- lease/agent.go on the bytes of its connections: what Ping writes, and the loop of handleIncoming.
--
-- The loop of handleIncoming ends with an error only; it runs on fuel, a round for each message. The
-- time of all its rounds is one argument.
pub mod Incoming
use phabrik.Base.{
  ℕ, zero, suc, List, Option, none, some, Result, ok, err, panic, false, ◌==◌, if◌then◌else◌,
}
use phabrik.Lease.Frame.{next_lt_frame, write_connect_frame, write_data_with_frame}
use phabrik.Lease.Session.{
  LeaseSession, LeaseMessageType, lease_request, lease_response, ping_request, ping_response,
  forward_request, forward_response, relay_request, relay_response, Message, create_ping_message,
}
use phabrik.Lease.Agent.{Agent, handle_incoming}
use phabrik.Lease.Serialize.Body.{MarshalContext, LeaseMessage, empty_body, marshal, unmarshal}

unfoldable pub type_number : LeaseMessageType → ℕ
type_number lease_request = 0
type_number lease_response = 1
type_number ping_request = 2
type_number ping_response = 3
type_number forward_request = 4
type_number forward_response = 5
type_number relay_request = 6
type_number relay_response = 7

-- The types that a session tells apart; every other number is to it as a lease request.
unfoldable pub type_of : ℕ → LeaseMessageType
type_of n = if n == 2 then ping_request else if n == 3 then ping_response else lease_request

-- What a session sees of a message.
unfoldable pub seen : LeaseMessage → Message
unfolding type_of
seen m = record {
  typ = type_of m.typ;
  lease_instance = m.lease_instance;
  remote_lease_agent_instance = m.remote_lease_agent_instance;
  expiration = m.expiration;
  message_listen_endpoint = m.message_listen_endpoint;
}

-- A message with the fields that a session fills in.
unfoldable pub filled : Message → LeaseMessage
unfolding type_number
filled m = record {
  identifier = 0;
  typ = type_number m.typ;
  lease_instance = m.lease_instance;
  remote_lease_agent_instance = m.remote_lease_agent_instance;
  duration = 0;
  expiration = m.expiration;
  lease_suspend_duration = 0;
  arbitration_duration = 0;
  is_two_way_termination = false;
  message_listen_endpoint = m.message_listen_endpoint;
  body = empty_body;
}

-- The bytes that Ping writes; `now` is what uniqId gives.
unfoldable pub ping_bytes : MarshalContext → ℕ → ℕ → LeaseSession → List ℕ
unfolding filled
ping_bytes c now lease_duration s =
    write_data_with_frame (marshal c now (filled (create_ping_message lease_duration s)))

-- How handleIncoming goes on after the body of a frame was read, after the frame, and after a
-- message was handled.
unfoldable pub opened :
    (LeaseMessage → List ℕ → Option (Result (Unit {0}) × Agent))
    → List ℕ
    → Agent
    → Result LeaseMessage
    → Option (Result (Unit {0}) × Agent)
opened next rest a (ok m) = next m rest
opened next rest a (err e) = some (err e, a)
opened next rest a panic = some (panic, a)

unfoldable pub framed :
    (List ℕ → Result LeaseMessage)
    → (LeaseMessage → List ℕ → Option (Result (Unit {0}) × Agent))
    → Agent
    → Option (Result (List ℕ × List ℕ))
    → Option (Result (Unit {0}) × Agent)
unfolding opened
framed read next a none = none
framed read next a (some (err e)) = some (err e, a)
framed read next a (some panic) = some (panic, a)
framed read next a (some (ok (body, rest))) = opened next rest a (read body)

unfoldable pub handled :
    (Agent → Option (Result (Unit {0}) × Agent))
    → Agent
    → Result Agent
    → Option (Result (Unit {0}) × Agent)
handled next a (ok b) = next b
handled next a (err e) = some (err e, a)
handled next a panic = some (panic, a)

module _ (join_host_port : List ℕ → ℕ → List ℕ) (now : ℕ) where
  -- The loop of handleIncoming, behind the connect frame that it writes.
  unfoldable pub incoming : ℕ → List ℕ → Agent → Option (Result (Unit {0}) × Agent)
  unfolding framed handled seen
  incoming zero bytes a = none
  incoming (suc n) bytes a =
      framed (unmarshal join_host_port)
        (λ m rest. handled (λ b. incoming n rest b) a (handle_incoming now (seen m) a)) a
        (next_lt_frame bytes)
