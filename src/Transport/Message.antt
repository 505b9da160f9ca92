-- ===== src/Transport/Message.antt =====
-- transport/message.go: messages, how they travel in frames, and the factory of their identifiers.
--
-- `crc8` and `crc32` are the checksums of transport/frame.go. A body is nil, bytes, or a value that the
-- package serialization marshals.
pub mod RoundTrip
use phabrik.Base.{
  ℕ, ◌+◌, ◌%◌, ◌^◌, Bool, true, false, List, [], ◌∷◌, ◌++◌, Option, none, some, Result, ok, err,
  panic, ltb, if◌then◌else◌, ◌>>=◌, length, take, drop,
}
use phabrik.Serialization.Guid.{Guid}
use phabrik.Serialization.Marshal.{Argument, marshal}
use phabrik.Transport.Frame.{
  FrameHeader, FrameReadConfig, FrameWriteConfig, next_frame, write_frame,
}
use phabrik.Transport.Headers.{MessageId, MessageHeaders, Activators, is_empty}
use phabrik.Transport.Headers.Write.{write_to}
use phabrik.Transport.Headers.Read.{empty_headers, parse_fabric_message_headers}

pub record Message : Type 0 where
  pub headers : MessageHeaders
  pub body : Option Argument

pub record ByteArrayMessage : Type 0 where
  pub headers : MessageHeaders
  pub body : List ℕ

unfoldable pub body_bytes : Option Argument → Result (List ℕ)
body_bytes none = ok []
body_bytes (some b) = marshal b

-- Message.marshal: the length of the headers, and all the bytes.
unfoldable pub message_marshal : Message → Result (ℕ × List ℕ)
unfolding body_bytes
message_marshal m = do h ← write_to m.headers; b ← body_bytes m.body; ok (length h, h ++ b)

-- The message that parsed headers make with a body, and the bytes that are still to come.
unfoldable pub with_body :
    Option (Result MessageHeaders) → List ℕ → List ℕ → Option (Result (ByteArrayMessage × List ℕ))
with_body none body rest = none
with_body (some (ok h)) body rest = some (ok (record { headers = h; body = body }, rest))
with_body (some (err e)) body rest = some (err e)
with_body (some panic) body rest = some panic

-- The slices `framebody[:HeaderLength]` and `framebody[HeaderLength:]` panic beyond the body.
unfoldable pub split_body :
    Activators
    → Result (FrameHeader × List ℕ × List ℕ)
    → Option (Result (ByteArrayMessage × List ℕ))
unfolding with_body
split_body acts (err e) = some (err e)
split_body acts panic = some panic
split_body acts (ok (frame, framebody, rest)) =
    if ltb (length framebody) frame.header_length
    then some panic
    else with_body (parse_fabric_message_headers acts (take frame.header_length framebody))
        (drop frame.header_length framebody) rest

module _ (crc8 crc32 : List ℕ → ℕ) where
  unfoldable pub write_message_with_frame : Message → FrameWriteConfig → Result (List ℕ)
  unfolding message_marshal
  write_message_with_frame m config = do
    (header_len, msg) ← message_marshal m
    ok (write_frame crc8 crc32 header_len msg config)

  -- nextMessageHeaderAndBodyFromFrame, as the message that Wait makes of it
  unfoldable pub next_message :
      Activators → FrameReadConfig → List ℕ → Option (Result (ByteArrayMessage × List ℕ))
  unfolding split_body
  next_message acts config r = split_body acts (next_frame crc8 crc32 config r)

pub record MessageFactory : Type 0 where
  pub message_prefix : Guid
  pub message_idx : ℕ

-- messageFactory.Next: the counter is a uint32.
unfoldable pub next : MessageFactory → MessageId × MessageFactory
next f =
    let idx = (f.message_idx + 1) % 2 ^ 32 in
    (record { id = f.message_prefix; index = idx }, record f { message_idx = idx })

unfoldable pub fill_message_id : MessageFactory → MessageHeaders → MessageHeaders × MessageFactory
unfolding next
fill_message_id f h =
    if is_empty h.id then (let (i, f') = next f in (record h { id = i }, f')) else (h, f)

unfoldable pub new_message : MessageFactory → Message × MessageFactory
unfolding fill_message_id
new_message f =
    let (h, f') = fill_message_id f empty_headers in (record { headers = h; body = none }, f')
