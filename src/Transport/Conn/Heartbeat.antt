-- ===== src/Transport/Conn/Heartbeat.antt =====
-- That a Ping is answered with its own tick (Ping and handleTransportMessage of transport/conn.go).
use phabrik.Base.{
  ℕ, ◌^◌, ◌<◌, ◌≡◌, refl, ap, sym, subst, ◌∙◌, inl, inr, Bool, true, false, List, ◌++◌, Option,
  none, some, ok, length, arith, Bool-cases,
}
use phabrik.Serialization.Guid.{IsGuid, bytes_eq, bytes_eq_self}
use phabrik.Serialization.Compress.RoundTrip.{InRange}
use phabrik.Serialization.Utf16.{AreRunes}
use phabrik.Serialization.Marshal.{Argument, bytes, pointer_to, marshal}
use phabrik.Serialization.Unmarshal.{unmarshal}
use phabrik.Serialization.RoundTrip.Values.{unmarshal-marshal}
use phabrik.Transport.Frame.{FrameReadConfig}
use phabrik.Transport.Frame.RoundTrip.{Agree}
use phabrik.Transport.Headers.{MessageHeaders, Activators, is_empty, empty_message_id}
use phabrik.Transport.Headers.RoundTrip.{IsMessageId, IsSendable}
use phabrik.Transport.Message.{
  ByteArrayMessage, MessageFactory, fill_message_id, new_message, body_bytes,
}
use phabrik.Transport.Conn.{
  Connection, handles, dispatch, send_one_way, transport_message, ping, actor_transport,
  heartbeat_request, heartbeat_response, heartbeat_type, ticks, answered, handle_transport_message,
}
use phabrik.Transport.Headers.Read.{empty_headers}
use phabrik.Transport.Conn.Sending.{fill-IsSendable, FitsFrame, Reads, send_one_way-Reads_filled}

empty-IsMessageId : IsMessageId empty_message_id
empty-IsMessageId = record {
  guid_fits = record {
    data1_fits = omega arith;
    data2_fits = omega arith;
    data3_fits = omega arith;
    data4_fits = omega arith;
    data4_length = refl;
  };
  index_fits = omega arith;
}

pub empty-IsSendable : IsSendable empty_headers
empty-IsSendable = record {
  id_fits = empty-IsMessageId;
  relates_to_fits = empty-IsMessageId;
  actor_fits = inl (omega arith);
  action_fits = tt;
  error_code_fits = inl (omega arith);
  retry_count_fits = omega arith;
  no_custom = refl;
}

-- A message of the transport's own has headers in range.
transport_message-IsSendable :
    (action : List ℕ) (body : Option Argument) (c : Connection)
    → IsGuid c.factory.message_prefix
    → AreRunes action
    → IsSendable (transport_message action body c).0.headers
unfolding transport_message new_message
transport_message-IsSendable action body c g runes =
    let s = fill-IsSendable c.factory empty_headers g empty-IsSendable in
    record {
      id_fits = s.id_fits;
      relates_to_fits = s.relates_to_fits;
      actor_fits = inl (omega arith);
      action_fits = runes;
      error_code_fits = s.error_code_fits;
      retry_count_fits = s.retry_count_fits;
      no_custom = s.no_custom;
    }

-- The identifier that a factory fills in leaves the rest of the headers.
fill-fields :
    (f : MessageFactory) (h : MessageHeaders)
    → ((fill_message_id f h).0.actor ≡ h.actor) × ((fill_message_id f h).0.action ≡ h.action)
unfolding fill_message_id
fill-fields f h = elim (Bool-cases (is_empty h.id)) [
  | inl e ↦ rw e (refl, refl)
  | inr e ↦ rw e (refl, refl)
]

fill-prefix :
    (f : MessageFactory) (h : MessageHeaders)
    → (fill_message_id f h).1.message_prefix ≡ f.message_prefix
unfolding fill_message_id
fill-prefix f h = elim (Bool-cases (is_empty h.id)) [ inl e ↦ rw e | inr e ↦ rw e ]

-- The headers with which a message of the transport's own is sent.
abbrev pub own_headers : List ℕ → Option Argument → Connection → MessageHeaders
own_headers action body c =
    let (m, c') = transport_message action body c in (fill_message_id c'.factory m.headers).0

own_headers-fields :
    (action : List ℕ) (body : Option Argument) (c : Connection)
    → ((own_headers action body c).actor ≡ actor_transport)
      × ((own_headers action body c).action ≡ action)
unfolding transport_message
own_headers-fields action body c = fill-fields _ _

dispatch-own :
    (msg : ByteArrayMessage) (c : Connection)
    → msg.headers.actor ≡ actor_transport
    → dispatch msg c ≡ (handles msg, c)
unfolding dispatch
dispatch-own msg c e = simp e

other_action : bytes_eq heartbeat_response heartbeat_request ≡ false
unfolding bytes_eq
other_action = refl

abbrev request_runes : AreRunes heartbeat_request
request_runes = omega arith

abbrev response_runes : AreRunes heartbeat_response
response_runes = omega arith

-- The bytes of a heartbeat with this tick.
abbrev pub IsTick : ℕ → List ℕ → Type 0
IsTick tick b = InRange true 8 tick × (marshal (pointer_to heartbeat_type (tick, tt)) ≡ ok b)

module _ (crc8 crc32 : List ℕ → ℕ) where
  handle-response :
      (w : Bool) (msg : ByteArrayMessage) (c : Connection) (tick : ℕ)
      → msg.headers.action ≡ heartbeat_response
      → unmarshal msg.body heartbeat_type (0, tt) ≡ ok (tick, tt)
      → handle_transport_message crc8 crc32 w msg c ≡ (ticks tick, c)
  unfolding handle_transport_message
  handle-response w msg c tick e u =
      let no : bytes_eq msg.headers.action heartbeat_request ≡ false =
        ap (λ a. bytes_eq a heartbeat_request) e ∙ other_action in
      let same : bytes_eq msg.headers.action heartbeat_response ≡ true =
        ap (λ a. bytes_eq a heartbeat_response) e ∙ bytes_eq_self heartbeat_response in
      rw (no, same, u)

  handle-request :
      (w : Bool) (msg : ByteArrayMessage) (c : Connection)
      → msg.headers.action ≡ heartbeat_request
      → handle_transport_message crc8 crc32 w msg c ≡ (
          let (m, c') = transport_message heartbeat_response (some (bytes msg.body)) c in
          answered (send_one_way crc8 crc32 w m c'))
  unfolding handle_transport_message
  handle-request w msg c e =
      let same : bytes_eq msg.headers.action heartbeat_request ≡ true =
        ap (λ a. bytes_eq a heartbeat_request) e ∙ bytes_eq_self heartbeat_request in
      rw same

  -- What a connection sends of its own with a body of these bytes, its peer reads.
  own-Reads :
      (acts : Activators) (rc : FrameReadConfig) (action : List ℕ) (body : Option Argument)
      (c : Connection) (b : List ℕ)
      → ((bs : List ℕ) → crc8 bs < 256)
      → ((bs : List ℕ) → crc32 bs < 2 ^ 32)
      → c.fatal ≡ none
      → IsGuid c.factory.message_prefix
      → Agree crc8 crc32 rc c.write_config
      → AreRunes action
      → body_bytes body ≡ ok b
      → FitsFrame (own_headers action body c) b
      → (let (m, c') = transport_message action body c in
          (w : List ℕ) × ((send_one_way crc8 crc32 true m c').0 ≡ ok tt)
          × ((send_one_way crc8 crc32 true m c').1.sent ≡ c.sent ++ w)
          × Reads crc8 crc32 acts rc w (record { headers = own_headers action body c; body = b }))
  unfolding transport_message new_message
  own-Reads acts rc action body c b c8 c32 live g a runes eb fits =
      let t = transport_message action body c in
      send_one_way-Reads_filled crc8 crc32 acts rc t.0 t.1 b c8 c32 live
        (subst IsGuid (sym (fill-prefix c.factory empty_headers)) g) a
        (transport_message-IsSendable action body c g runes) eb fits

  -- A Ping is answered with its own tick. Between two connections that were not refused, which check
  -- no checksum that the other does not write, over a network that takes the writes: the peer reads
  -- the request and handles it, with that sends a message that the sender of the Ping reads and
  -- handles, and which gives its tick to the pending Ping. Both messages are to fit a frame, and the tick, the
  -- GUIDs of the identifiers and the checksums their fields.
  pub ping_echo :
      (acts : Activators) (c d s : Connection) (tick : ℕ) (b : List ℕ)
      → ((bs : List ℕ) → crc8 bs < 256)
      → ((bs : List ℕ) → crc32 bs < 2 ^ 32)
      → c.fatal ≡ none
      → s.fatal ≡ none
      → IsGuid c.factory.message_prefix
      → IsGuid s.factory.message_prefix
      → Agree crc8 crc32 s.read_config c.write_config
      → Agree crc8 crc32 d.read_config s.write_config
      → IsTick tick b
      → length b < 2 ^ 32
      → FitsFrame (own_headers heartbeat_request (some (pointer_to heartbeat_type (tick, tt))) c) b
      → FitsFrame (own_headers heartbeat_response (some (bytes b)) s) b
      → (w w' : List ℕ) × (request reply : ByteArrayMessage) × ((ping crc8 crc32 true tick c).1.sent
          ≡ c.sent ++ w)
        × Reads crc8 crc32 acts s.read_config w request
        × (dispatch request s ≡ (handles request, s))
        × ((handle_transport_message crc8 crc32 true request s).1.sent ≡ s.sent ++ w')
        × Reads crc8 crc32 acts d.read_config w' reply
        × (dispatch reply d ≡ (handles reply, d))
        × (handle_transport_message crc8 crc32 true reply d ≡ (ticks tick, d))
  unfolding ping answered body_bytes
  ping_echo acts c d s tick b c8 c32 live live' g g' a a' (range, m) l fits fits' =
      let body : Option Argument = some (pointer_to heartbeat_type (tick, tt)) in
      let request : ByteArrayMessage = record {
        headers = own_headers heartbeat_request body c;
        body = b;
      } in
      let reply : ByteArrayMessage = record {
        headers = own_headers heartbeat_response (some (bytes b)) s;
        body = b;
      } in
      let (w, _, sent, reads) =
        own-Reads acts s.read_config heartbeat_request body c b c8 c32 live g a request_runes m
          fits in
      let (w', _, sent', reads') =
        own-Reads acts d.read_config heartbeat_response (some (bytes b)) s b c8 c32 live' g' a'
          response_runes (unfold marshal in refl) fits' in
      let (actor_is, action_is) = own_headers-fields heartbeat_request body c in
      let (actor_is', action_is') = own_headers-fields heartbeat_response (some (bytes b)) s in
      (
        w,
        w',
        request,
        reply,
        sent,
        reads,
        dispatch-own request s actor_is,
        ap (λ t. t.1.sent) (handle-request true request s action_is) ∙ sent',
        reads',
        dispatch-own reply d actor_is',
        handle-response true reply d tick action_is'
            (unmarshal-marshal heartbeat_type (tick, tt) (0, tt) b (range, tt) m l),
      )
