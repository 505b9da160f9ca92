-- ===== src/Transport/Conn/Delivery.antt =====
-- Where the reply to a request goes (RequestReply and Wait of transport/conn.go).
use phabrik.Base.{
  ℕ, ◌≡◌, refl, ap, ◌∙◌, Bool, true, false, List, Option, none, some, Result, ok, err, panic, Error,
  ◌==◌, arith,
}
use phabrik.Transport.Headers.{MessageId}
use phabrik.Transport.Message.{Message, ByteArrayMessage, fill_message_id}
use phabrik.Transport.RequestTable.{PendingRequest, RequestTable, put, feed, close_pending}
use phabrik.Transport.RequestTable.Laws.{feed-close_pending, id_eq_self}
use phabrik.Transport.Conn.{
  Connection, calls, hand_over, auth_failed, actor_transport, dispatch, send_one_way, requested,
  request_reply,
}

-- A message that is neither the transport's own nor a refusal of the connection.
pub record IsOrdinary (msg : ByteArrayMessage) : Type 0 where
  pub not_transport : (msg.headers.actor == actor_transport) ≡ false
  pub not_refusal : auth_failed msg.headers ≡ false

dispatch-ordinary :
    (msg : ByteArrayMessage) (c : Connection)
    → IsOrdinary msg
    → dispatch msg c ≡ hand_over msg (feed msg.headers.relates_to c.requests) c
unfolding dispatch
dispatch-ordinary msg c o = rw (o.not_transport, o.not_refusal)

hand_over-calls :
    (msg : ByteArrayMessage) (fed : Option PendingRequest × RequestTable) (c : Connection)
    → fed.0 ≡ none
    → hand_over msg fed c ≡ (calls msg, record c { requests = fed.1 })
unfolding hand_over
hand_over-calls msg (some q, r) c e = cc
hand_over-calls msg (none, r) c e = refl

dispatch-calls :
    (msg : ByteArrayMessage) (c : Connection)
    → IsOrdinary msg
    → (feed msg.headers.relates_to c.requests).0 ≡ none
    → (dispatch msg c).0 ≡ calls msg
dispatch-calls msg c o fed =
    ap (λ t. t.0)
      (dispatch-ordinary msg c o
        ∙ hand_over-calls msg (feed msg.headers.relates_to c.requests) c fed)

feed_closed : (k : MessageId) (r t : RequestTable) → (feed k (close_pending (put k r).0 t)).0 ≡ none
unfolding put
feed_closed k r t = feed-close_pending k (put k r).0 t ∙ rw (id_eq_self k) refl

requested-err :
    (p : PendingRequest) (x : Error) (r : Result (Unit {0}) × Connection) (c : Connection)
    → requested p r ≡ (err x, c)
    → c.requests ≡ close_pending p r.1.requests
unfolding requested
requested-err p x (ok u, d) c e = cc (ap (λ t. t.0) e)
requested-err p x (err y, d) c e = ground (arith, e)
requested-err p x (panic, d) c e = cc (ap (λ t. t.0) e)

-- The identifier of the request that a message becomes.
abbrev pub request_id : Message → Connection → MessageId
request_id m c = (fill_message_id c.factory m.headers).0.id

module _ (crc8 crc32 : List ℕ → ℕ) where
  -- The message and the connection that RequestReply sends with.
  abbrev request_message : Message → Connection → Message
  request_message m c = record m {
    headers = record (fill_message_id c.factory m.headers).0 { expects_reply = true };
  }

  abbrev request_connection : Message → Connection → Connection
  request_connection m c = record c {
    factory = (fill_message_id c.factory m.headers).1;
    requests = (put (request_id m c) c.requests).1;
  }

  -- If the send of a request fails, its reply goes to the callback.
  pub request_reply_failed-dispatch :
      (w : Bool) (m : Message) (c d : Connection) (x : Error) (reply : ByteArrayMessage)
      → request_reply crc8 crc32 w m c ≡ (err x, d)
      → reply.headers.relates_to ≡ request_id m c
      → IsOrdinary reply
      → (dispatch reply d).0 ≡ calls reply
  unfolding requested request_reply
  request_reply_failed-dispatch w m c d x reply e relates o =
      let k : MessageId = request_id m c in
      let sent = send_one_way crc8 crc32 w (request_message m c) (request_connection m c) in
      let p = (put k c.requests).0 in
      let table : d.requests ≡ close_pending p sent.1.requests = requested-err p x sent d e in
      dispatch-calls reply d o (
        ap (λ r. (feed r d.requests).0) relates
        ∙ (ap (λ t. (feed k t).0) table ∙ feed_closed k c.requests sent.1.requests))
