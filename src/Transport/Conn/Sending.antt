-- ===== src/Transport/Conn/Sending.antt =====
-- That what one connection sends the other gets (SendOneWay of transport/conn.go).
use phabrik.Base.{
  ℕ, ◌+◌, ◌%◌, ◌^◌, subst, [], if◌then◌else◌, ◌<◌, ◌≡◌, ap, ◌∙◌, inl, inr, true, List, ◌++◌, none,
  some, ok, length, arith, Bool-cases,
}
use phabrik.Serialization.Guid.{IsGuid}
use phabrik.Transport.Frame.{FrameReadConfig, FrameWriteConfig}
use phabrik.Transport.Frame.RoundTrip.{Agree}
use phabrik.Transport.Headers.{MessageId, MessageHeaders, Activators, is_empty, entries}
use phabrik.Transport.Headers.Write.{header_list, write_to}
use phabrik.Transport.Headers.RoundTrip.{IsSendable}
use phabrik.Transport.Message.{
  Message, ByteArrayMessage, MessageFactory, fill_message_id, next, message_marshal, body_bytes,
  write_message_with_frame, next_message,
}
use phabrik.Transport.Message.RoundTrip.{next_message-sent}
use phabrik.Transport.Conn.{Connection, transmitted, send, send_checked, send_one_way}

pub fill-IsSendable :
    (f : MessageFactory) (h : MessageHeaders)
    → IsGuid f.message_prefix
    → IsSendable h
    → IsSendable (fill_message_id f h).0
unfolding fill_message_id
fill-IsSendable f h g s = elim (Bool-cases (is_empty h.id)) [
  | inl e ↦ rw e (record {
    id_fits = record { guid_fits = g; index_fits = omega arith };
    relates_to_fits = s.relates_to_fits;
    actor_fits = s.actor_fits;
    action_fits = s.action_fits;
    error_code_fits = s.error_code_fits;
    retry_count_fits = s.retry_count_fits;
    no_custom = s.no_custom;
  })
  | inr e ↦ rw e s
]

-- The identifier that a message has when it is sent: its own, or where that is empty the GUID of the
-- factory with the number behind its last one, in 32 bits.
abbrev pub sent_id : MessageFactory → MessageHeaders → MessageId
sent_id f h =
    if is_empty h.id
    then record { id = f.message_prefix; index = (f.message_idx + 1) % 2 ^ 32 }
    else h.id

pub fill-sent_id :
    (f : MessageFactory) (h : MessageHeaders)
    → (fill_message_id f h).0 ≡ record h { id = sent_id f h }
unfolding fill_message_id next
fill-sent_id f h = elim (Bool-cases (is_empty h.id)) [ inl e ↦ rw e | inr e ↦ rw e ]

-- The headers as a peer gets them that are sent without custom headers.
abbrev pub delivered_headers : MessageFactory → MessageHeaders → MessageHeaders
delivered_headers f h = record h { id = sent_id f h; custom_headers = some [] }

-- The bytes of headers and body fit a frame.
abbrev pub FitsFrame : MessageHeaders → List ℕ → Type 0
FitsFrame h b =
    (w : List ℕ) × (write_to h ≡ ok w) × (length w < 2 ^ 16) × (length w + length b + 12 < 2 ^ 32)

module _ (crc8 crc32 : List ℕ → ℕ) where
  -- What the peer reads from bytes that were sent, whatever follows them.
  abbrev pub Reads : Activators → FrameReadConfig → List ℕ → ByteArrayMessage → Type 0
  Reads acts rc w msg =
      (rest : List ℕ) → next_message crc8 crc32 acts rc (w ++ rest) ≡ some (ok (msg, rest))

  send_one_way_live :
      (m : Message) (c : Connection) (w : List ℕ)
      → c.fatal ≡ none
      → write_message_with_frame crc8 crc32
          (record m { headers = (fill_message_id c.factory m.headers).0 })
          c.write_config
        ≡ ok w
      → send_one_way crc8 crc32 true m c ≡ (
        ok tt,
        record c { factory = (fill_message_id c.factory m.headers).1; sent = c.sent ++ w },
      )
  unfolding send_one_way send_checked send
  send_one_way_live m c w live e =
      ap (λ o. send_checked crc8 crc32 o true m c) live
      ∙ ap
          (λ r. transmitted true r (record c { factory = (fill_message_id c.factory m.headers).1 }))
          e

  -- What SendOneWay of a message sends, with the custom headers that a factory makes.
  pub send_one_way-Reads_filled :
      (acts : Activators) (rc : FrameReadConfig) (m : Message) (c : Connection) (b : List ℕ)
      → ((bs : List ℕ) → crc8 bs < 256)
      → ((bs : List ℕ) → crc32 bs < 2 ^ 32)
      → c.fatal ≡ none
      → IsGuid c.factory.message_prefix
      → Agree crc8 crc32 rc c.write_config
      → IsSendable m.headers
      → body_bytes m.body ≡ ok b
      → FitsFrame (fill_message_id c.factory m.headers).0 b
      → (w : List ℕ) × ((send_one_way crc8 crc32 true m c).0 ≡ ok tt)
        × ((send_one_way crc8 crc32 true m c).1.sent ≡ c.sent ++ w)
        × Reads acts rc w (record { headers = (fill_message_id c.factory m.headers).0; body = b })
  send_one_way-Reads_filled acts rc m c b c8 c32 live g a s eb (h, eh, lh, l) =
      let hdrs : MessageHeaders = (fill_message_id c.factory m.headers).0 in
      let (w, e, reads) =
        next_message-sent crc8 crc32 acts rc c.write_config (record m { headers = hdrs }) h b c8 c32
          a (fill-IsSendable c.factory m.headers g s) eh eb lh l in
      let sent = send_one_way_live m c w live e in
      (w, ap (λ r. r.0) sent, ap (λ r. r.1.sent) sent, reads)

  -- A nil map of custom headers is written like an empty one.
  write_message-nil :
      (m : Message) (h : MessageHeaders) (wc : FrameWriteConfig)
      → entries h.custom_headers ≡ []
      → write_message_with_frame crc8 crc32 (record m { headers = h }) wc
        ≡ write_message_with_frame crc8 crc32
            (record m { headers = record h { custom_headers = some [] } })
            wc
  unfolding write_message_with_frame message_marshal write_to header_list
  write_message-nil m h wc e = rw e

  -- On a connection that was not refused, SendOneWay of a message with headers in range and no custom
  -- headers (a nil map or an empty one), whose body marshals and which fits a frame, succeeds if the
  -- network takes it, and a peer that checks no checksum that is not written reads its body and its
  -- headers, the map of custom headers an empty one and the identifier the message's own, or where
  -- this is empty the next one of the connection: its GUID and the number behind the last, in 32
  -- bits. The GUID of the connection's identifiers and the checksums are to fit their fields.
  pub send_one_way-Reads :
      (acts : Activators) (rc : FrameReadConfig) (m : Message) (c : Connection) (b : List ℕ)
      → ((bs : List ℕ) → crc8 bs < 256)
      → ((bs : List ℕ) → crc32 bs < 2 ^ 32)
      → c.fatal ≡ none
      → IsGuid c.factory.message_prefix
      → Agree crc8 crc32 rc c.write_config
      → entries m.headers.custom_headers ≡ []
      → IsSendable (record (m.headers) { custom_headers = some [] })
      → body_bytes m.body ≡ ok b
      → FitsFrame (delivered_headers c.factory m.headers) b
      → (w : List ℕ) × ((send_one_way crc8 crc32 true m c).0 ≡ ok tt)
        × ((send_one_way crc8 crc32 true m c).1.sent ≡ c.sent ++ w)
        × Reads acts rc w (record {
          headers = record (m.headers) {
            id = sent_id c.factory m.headers;
            custom_headers = some [];
          };
          body = b;
        })
  send_one_way-Reads acts rc m c b c8 c32 live g a bare s eb (h, eh, lh, l) =
      let hdrs : MessageHeaders = delivered_headers c.factory m.headers in
      let filled = fill-sent_id c.factory m.headers in
      let sendable : IsSendable hdrs =
        subst IsSendable (fill-sent_id c.factory (record (m.headers) { custom_headers = some [] }))
          (fill-IsSendable c.factory (record (m.headers) { custom_headers = some [] }) g s) in
      let (w, e, reads) =
        next_message-sent crc8 crc32 acts rc c.write_config (record m { headers = hdrs }) h b c8 c32
          a sendable eh eb lh l in
      let e' =
        ap (λ k. write_message_with_frame crc8 crc32 (record m { headers = k }) c.write_config)
          filled
        ∙ (write_message-nil m (record (m.headers) { id = sent_id c.factory m.headers })
              c.write_config bare
            ∙ e) in
      let sent = send_one_way_live m c w live e' in
      (w, ap (λ r. r.0) sent, ap (λ r. r.1.sent) sent, reads)
