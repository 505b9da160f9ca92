-- ===== src/Transport/Message/RoundTrip.antt =====
-- A message on the wire: what one side writes and the other reads (transport/message.go).
use phabrik.Base.{
  ℕ, ◌+◌, ◌<◌, ◌^◌, ◌≡◌, refl, sym, subst, some, ◌∙◌, List, ◌++◌, ok, length, length-append,
  take-length, drop-length, arith, ge→ltb,
}
use phabrik.Transport.Frame.{FrameHeader, FrameReadConfig, FrameWriteConfig, write_frame}
use phabrik.Transport.Frame.RoundTrip.{Agree, next_frame-write_frame}
use phabrik.Transport.Headers.{Activators}
use phabrik.Transport.Headers.Write.{write_to}
use phabrik.Transport.Headers.Read.{parse_fabric_message_headers}
use phabrik.Transport.Headers.RoundTrip.{IsSendable, parse-write_to}
use phabrik.Transport.Message.{
  Message, body_bytes, message_marshal, with_body, split_body, write_message_with_frame,
  next_message,
}

split_body_lem :
    (acts : Activators) (frame : FrameHeader) (h b rest : List ℕ)
    → frame.header_length ≡ length h
    → split_body acts (ok (frame, h ++ b, rest))
      ≡ with_body (parse_fabric_message_headers acts h) b rest
unfolding split_body
split_body_lem acts frame h b rest e = rw (
  e,
  ge→ltb (length (h ++ b)) (length h) (omega (arith, length-append h b)),
  take-length h b,
  drop-length h b,
)

module _ (crc8 crc32 : List ℕ → ℕ) where
  -- A message with headers below 2 ^ 16 bytes and below 2 ^ 32 - 12 bytes in all is written to a
  -- frame, and from that frame, whatever follows it, the other side gets what it parses from the
  -- bytes of the headers, with the bytes of the body, if it checks no checksum that was not written.
  pub next_message-write_message :
      (acts : Activators) (rc : FrameReadConfig) (wc : FrameWriteConfig) (m : Message)
      (h b : List ℕ)
      → ((bs : List ℕ) → crc8 bs < 256)
      → ((bs : List ℕ) → crc32 bs < 2 ^ 32)
      → Agree crc8 crc32 rc wc
      → write_to m.headers ≡ ok h
      → body_bytes m.body ≡ ok b
      → length h < 2 ^ 16
      → length h + length b + 12 < 2 ^ 32
      → (w : List ℕ) × (write_message_with_frame crc8 crc32 m wc ≡ ok w)
        × ((rest : List ℕ)
            → next_message crc8 crc32 acts rc (w ++ rest)
              ≡ with_body (parse_fabric_message_headers acts h) b rest)
  unfolding next_message write_message_with_frame message_marshal
  next_message-write_message acts rc wc m h b c8 c32 a eh eb lh l = (
    write_frame crc8 crc32 (length h) (h ++ b) wc,
    rw (eh, eb) refl,
    λ rest.
        (let (frame, e, k, _) =
            next_frame-write_frame crc8 crc32 rc wc (length h) (h ++ b) rest c8 c32 a
              (omega (arith, length-append h b)) lh in
          rw e (split_body_lem acts frame h b rest k)),
  )

  -- Where the headers of the message are such that parsing gives them back, the other side gets the
  -- headers and the bytes of the body: for headers with fields in range, a retry count that is not
  -- negative and no custom headers, of less than 2 ^ 16 bytes, a message below 2 ^ 32 - 12 bytes,
  -- checksums that fit their fields, and a reader that checks none that was not written.
  pub next_message-sent :
      (acts : Activators) (rc : FrameReadConfig) (wc : FrameWriteConfig) (m : Message)
      (h b : List ℕ)
      → ((bs : List ℕ) → crc8 bs < 256)
      → ((bs : List ℕ) → crc32 bs < 2 ^ 32)
      → Agree crc8 crc32 rc wc
      → IsSendable m.headers
      → write_to m.headers ≡ ok h
      → body_bytes m.body ≡ ok b
      → length h < 2 ^ 16
      → length h + length b + 12 < 2 ^ 32
      → (w : List ℕ) × (write_message_with_frame crc8 crc32 m wc ≡ ok w)
        × ((rest : List ℕ)
            → next_message crc8 crc32 acts rc (w ++ rest)
              ≡ some (ok (record { headers = m.headers; body = b }, rest)))
  unfolding with_body
  next_message-sent acts rc wc m h b c8 c32 a s eh eb lh l =
      let (w, e, reads) = next_message-write_message acts rc wc m h b c8 c32 a eh eb lh l in
      let same : (x : List ℕ) → write_to m.headers ≡ ok x → x ≡ h =
        λ x ex. ground (arith, eh, ex) in
      let (x, ex, parses) =
        parse-write_to acts m.headers s
          (λ x ex. subst (λ y. length y < 2 ^ 16) (sym (same x ex)) lh) in
      let parsed : parse_fabric_message_headers acts h ≡ some (ok m.headers) =
        subst (λ y. parse_fabric_message_headers acts y ≡ some (ok m.headers)) (same x ex) parses in
      (w, e, λ rest. reads rest ∙ rw parsed)
