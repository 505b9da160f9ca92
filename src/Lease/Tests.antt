-- ===== src/Lease/Tests.antt =====
-- Runs of the lease agent and its frames.
use phabrik.Base.{
  ℕ, ◌≡◌, refl, true, false, List, [], ◌∷◌, ◌++◌, some, Result, ok, err, panic, errorf, ◌>>=◌,
  arith,
}
use phabrik.Transport.RequestTable.{contains}
use phabrik.Lease.Frame.{write_data_with_frame}
use phabrik.Lease.Session.{
  on_message, LeaseSession, Message, ping_response, Event, closes, reconnects, receives,
  fails_to_write, close, reconnect, run, new_session,
}
use phabrik.Lease.Session.Pings.{run_total, close-run}
use phabrik.Lease.Agent.{set_session, Agent, establish, close_session, handle_incoming, close_agent}
use phabrik.Lease.Agent.Laws.{handle_incoming-close_session, establish-close_agent}
use phabrik.Base.{◌<◌, inl, length, le_bytes}
use phabrik.Serialization.Utf16.{utf16_encode, encode_rune, unit_bytes}
use phabrik.Lease.Serialize.Header.{header_bytes}
use phabrik.Lease.Serialize.Body.{
  MarshalContext, LeaseMessage, empty_body, marshal, unmarshal, marshal_lease_body, lists_loop,
  endpoint_bytes, marshal_with_size, relationship_list, relationships,
}
use phabrik.Lease.Serialize.Layout.{IsLeaseMessage}
use phabrik.Lease.Serialize.RoundTrip.{
  received, unmarshal-marshal_refused, unmarshal-marshal_followed,
}
use phabrik.Lease.Session.{create_ping_message}
use phabrik.Lease.Serialize.Endpoint.{IsContext}
use phabrik.Lease.Serialize.RoundTrip.{AreShort}
use phabrik.Lease.Wire.{type_number, filled, seen, ping_bytes, handled, incoming}
use phabrik.Lease.Wire.Incoming.{incoming-ping, incoming-followed}

abbrev peer : List ℕ
peer = 49 ∷ 50 ∷ []

abbrev pong : Message
pong = record {
  typ = ping_response;
  lease_instance = 7;
  remote_lease_agent_instance = 9;
  expiration = 0;
  message_listen_endpoint = peer;
}

abbrev session : LeaseSession
session = record (new_session peer 5) {
  conn = 3;
  connected = true;
  ping_ch = 1;
  closed_chs = 0 ∷ [];
}

abbrev events : List Event
events = reconnects (some 3) ∷ receives 11 pong ∷ fails_to_write ∷ closes ∷ reconnects (some 4) ∷ []

abbrev empty_agent : Agent
empty_agent = record {
  dial_closed = false;
  listener_closed = false;
  sessions = [];
  heap = λ _. new_session [] 0;
  next_session = 0;
}

abbrev one_session : Agent
one_session = record {
  dial_closed = false;
  listener_closed = false;
  sessions = (peer, 0) ∷ [];
  heap = λ _. session;
  next_session = 1;
}

run_total_example :
    (t : LeaseSession) × (run events (new_session peer 5) ≡ ok t)
    × (contains t.ping_ch t.closed_chs ≡ false)
run_total_example = run_total peer 5 events

close-run_example :
    (t u : LeaseSession) × (close session ≡ ok t)
    × (run events t ≡ ok u)
    × (u.closed ≡ true)
    × (u.conn ≡ 3)
close-run_example = close-run events session (omega arith, tt)

abbrev after : Result Agent → Agent
after (ok a) = a
after (err e) = empty_agent
after panic = empty_agent

session_closed : close_session 0 one_session ≡ ok (after (close_session 0 one_session))
unfolding close_session close contains
session_closed = refl

agent_closed : close_agent one_session ≡ ok (after (close_agent one_session))
unfolding close_agent close contains
agent_closed = refl

abbrev established : Result (ℕ × Agent) → Agent
established (ok a) = a.1
established (err e) = empty_agent
established panic = empty_agent

session_established :
    establish (some 3) peer 5 empty_agent
    ≡ ok (0, established (establish (some 3) peer 5 empty_agent))
unfolding establish reconnect
session_established = refl

-- An agent with a second session to the address of its first one, and then with the first closed.
abbrev two_sessions : Agent
two_sessions = established (establish (some 4) peer 6 one_session)

abbrev first_closed : Agent
first_closed = after (close_session 0 two_sessions)

second_established : establish (some 4) peer 6 one_session ≡ ok (1, two_sessions)
unfolding establish reconnect
second_established = refl

first_is_closed : close_session 0 two_sessions ≡ ok first_closed
unfolding close_session close contains establish reconnect
first_is_closed = refl

handle_incoming-close_session_example :
    (handle_incoming 11 pong two_sessions
      ≡ (on_message 11 pong (two_sessions.heap 1) >>= λ s. ok (set_session 1 s two_sessions)))
    × (handle_incoming 11 pong first_closed ≡ ok first_closed)
    × (first_closed.heap 1 ≡ two_sessions.heap 1)
    × ((first_closed.heap 1).closed ≡ false)
handle_incoming-close_session_example =
    handle_incoming-close_session 11 0 1 6 (some 4) pong one_session two_sessions first_closed
      (λ e. omega (arith, e)) second_established first_is_closed refl

establish-close_agent_example :
    establish (some 3) peer 5 (after (close_agent one_session)) ≡ err (errorf "dial")
establish-close_agent_example =
    establish-close_agent one_session (after (close_agent one_session)) (some 3) peer 5 agent_closed

abbrev context : MarshalContext
context = record { app_id = 65 ∷ []; address = 104 ∷ []; port = 1025 }

abbrev lease_message : LeaseMessage
lease_message = record {
  identifier = 0;
  typ = 2;
  lease_instance = 7;
  remote_lease_agent_instance = 9;
  duration = 30000000500;
  expiration = 30000000000;
  lease_suspend_duration = 0;
  arbitration_duration = 0;
  is_two_way_termination = true;
  message_listen_endpoint = [];
  body = record empty_body { subject_pending_accepted_list = (66 ∷ []) ∷ [] };
}

abbrev join : List ℕ → ℕ → List ℕ
join host port = host ++ (58 ∷ port ∷ [])

lease_message-IsLeaseMessage : IsLeaseMessage 4 lease_message
lease_message-IsLeaseMessage = record {
  identifier_fits = omega arith;
  typ_fits = omega arith;
  lease_instance_fits = omega arith;
  remote_instance_fits = omega arith;
  expiration_fits = omega arith;
}

lease_message-AreShort : AreShort lease_message
lease_message-AreShort = record {
  duration_fits = omega arith;
  suspend_fits = omega arith;
  arbitration_fits = omega arith;
}

context-IsContext : IsContext context
context-IsContext = record { address_fits = (inl (omega arith), tt); port_fits = omega arith }

marshal_short : length (marshal context 4 lease_message ++ (0 ∷ [])) < 1000
unfolding marshal header_bytes marshal_lease_body lists_loop endpoint_bytes marshal_with_size
    le_bytes relationship_list relationships utf16_encode encode_rune unit_bytes
marshal_short = omega arith

unmarshal-marshal_refused_example :
    unmarshal join (marshal context 4 lease_message) ≡ err (errorf "bad data start offset")
unmarshal-marshal_refused_example =
    unmarshal-marshal_refused join context 4 lease_message lease_message-IsLeaseMessage

unmarshal-marshal_followed_example :
    unmarshal join (marshal context 4 lease_message ++ (0 ∷ []))
    ≡ ok (received 4 lease_message (104 ∷ 58 ∷ 1025 ∷ []))
unmarshal-marshal_followed_example =
    unmarshal-marshal_followed join context 4 lease_message (0 ∷ []) lease_message-IsLeaseMessage
      lease_message-AreShort context-IsContext (omega arith) (omega (arith, marshal_short))

ping-IsLeaseMessage : IsLeaseMessage 4 (filled (create_ping_message 30000000000 session))
unfolding filled type_number create_ping_message
ping-IsLeaseMessage = record {
  identifier_fits = omega arith;
  typ_fits = omega arith;
  lease_instance_fits = omega arith;
  remote_instance_fits = omega arith;
  expiration_fits = omega arith;
}

ping_short : length (marshal context 4 (filled (create_ping_message 30000000000 session))) < 1000
unfolding marshal header_bytes marshal_lease_body lists_loop endpoint_bytes marshal_with_size
    le_bytes relationship_list relationships utf16_encode encode_rune unit_bytes filled
ping_short = omega arith

incoming-ping_example :
    incoming join 11 1 (ping_bytes context 4 30000000000 session ++ (1 ∷ [])) one_session
    ≡ some (err (errorf "bad data start offset"), one_session)
incoming-ping_example =
    incoming-ping join 11 0 context 4 30000000000 session (1 ∷ []) one_session ping-IsLeaseMessage
      (omega (arith, ping_short))

incoming-followed_example :
    incoming join 11 1
      (write_data_with_frame (marshal context 4 lease_message ++ (0 ∷ [])) ++ (1 ∷ []))
      one_session
    ≡ handled
        (λ b. incoming join 11 0 (1 ∷ []) b)
        one_session
        (handle_incoming 11 (seen (received 4 lease_message (104 ∷ 58 ∷ 1025 ∷ []))) one_session)
incoming-followed_example =
    incoming-followed join 11 0 context 4 lease_message (0 ∷ []) (1 ∷ []) one_session
      lease_message-IsLeaseMessage lease_message-AreShort context-IsContext (omega arith)
      (omega (arith, marshal_short))
