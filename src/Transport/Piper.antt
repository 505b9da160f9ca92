-- ===== src/Transport/Piper.antt =====
-- transport/piper.go: the loop that forwards the messages of one connection to another.
--
-- `filter` is the Filter of the configuration, if there is one, on the messages alone; `written`
-- tells whether the network takes a write. The bytes to read and the bytes that are written are
-- lists, and the loop, which only ends with an error, runs on fuel.
pub mod Forwarding
use phabrik.Base.{
  ℕ, zero, suc, Bool, List, [], ◌++◌, Option, none, some, Result, ok, err, panic, errorf,
  if◌then◌else◌,
}
use phabrik.Serialization.Marshal.{bytes}
use phabrik.Transport.Frame.{FrameReadConfig, FrameWriteConfig}
use phabrik.Transport.Headers.{Activators}
use phabrik.Transport.Message.{Message, ByteArrayMessage, write_message_with_frame, next_message}

-- The message that goes on, if there is one: that of the filter, or the message as it is.
unfoldable pub forward :
    Option (ByteArrayMessage → Option Message) → ByteArrayMessage → Option Message
forward none msg = some (record { headers = msg.headers; body = some (bytes msg.body) })
forward (some filter) msg = filter msg

module _ (crc8 crc32 : List ℕ → ℕ) (filter : Option (ByteArrayMessage → Option Message))
    (acts : Activators) (src : FrameReadConfig) (dst : FrameWriteConfig) (written : Bool) where
  -- What is to be written for a message; a message that is dropped gives no bytes.
  unfoldable pub frame_of : Option Message → Result (List ℕ)
  frame_of none = ok []
  frame_of (some m) = write_message_with_frame crc8 crc32 m dst

  -- One round behind the reading, with the rest of the loop.
  unfoldable pub copied :
      Option Message
      → Result (List ℕ)
      → (List ℕ → Option (Result (Unit {0}) × List ℕ))
      → List ℕ
      → Option (Result (Unit {0}) × List ℕ)
  copied none frame rest out = rest out
  copied (some m) (err e) rest out = some (err e, out)
  copied (some m) panic rest out = some (panic, out)
  copied (some m) (ok w) rest out =
      if written then rest (out ++ w) else some (err (errorf "write"), out)

  unfoldable pub received :
      Option (Result (ByteArrayMessage × List ℕ))
      → (ByteArrayMessage → List ℕ → Option (Result (Unit {0}) × List ℕ))
      → List ℕ
      → Option (Result (Unit {0}) × List ℕ)
  received none next out = none
  received (some (err e)) next out = some (err e, out)
  received (some panic) next out = some (panic, out)
  received (some (ok (msg, rest))) next out = next msg rest

  -- Piper.copy: how it ends, and what is written by then.
  unfoldable pub copy : ℕ → List ℕ → List ℕ → Option (Result (Unit {0}) × List ℕ)
  unfolding forward frame_of copied received
  copy zero input out = none
  copy (suc n) input out =
      received (next_message crc8 crc32 acts src input)
        (λ msg rest. copied (forward filter msg) (frame_of (forward filter msg)) (copy n rest) out)
        out
