-- ===== src/Transport/Piper/Forwarding.antt =====
-- That a piper without a filter forwards all messages in their order (copy of transport/piper.go).
use phabrik.Base.{
  ℕ, suc, ◌^◌, ◌<◌, ◌≡◌, refl, ap, sym, ◌∙◌, true, List, [], ◌∷◌, ◌++◌, append-nil, append_assoc,
  none, some, ok, err, eof, length,
}
use phabrik.Serialization.Marshal.{bytes, marshal}
use phabrik.Transport.Frame.{FrameReadConfig, FrameWriteConfig, next_frame}
use phabrik.Transport.Frame.RoundTrip.{Agree}
use phabrik.Transport.Headers.{Activators}
use phabrik.Transport.Headers.RoundTrip.{IsSendable}
use phabrik.Transport.Message.{
  Message, ByteArrayMessage, next_message, split_body, body_bytes, write_message_with_frame,
}
use phabrik.Transport.Message.RoundTrip.{next_message-sent}
use phabrik.Transport.Conn.Sending.{FitsFrame, Reads}
use phabrik.Transport.Piper.{copy, copied, received, frame_of, forward}
use phabrik.Serialization.State.{read_full}

-- A message whose headers are sent and parsed without loss, and which fits a frame.
abbrev pub IsForwardable : ByteArrayMessage → Type 0
IsForwardable msg = IsSendable msg.headers × FitsFrame msg.headers msg.body

abbrev pub AreForwardable : List ByteArrayMessage → Type 0
AreForwardable [] = Unit {0}
AreForwardable (msg ∷ msgs) = IsForwardable msg × AreForwardable msgs

module _ (crc8 crc32 : List ℕ → ℕ) (acts : Activators) where
  -- From these bytes exactly these messages are read, one after the other.
  abbrev pub ReadsAll : FrameReadConfig → List ℕ → List ByteArrayMessage → Type 0
  ReadsAll rc bs [] = bs ≡ []
  ReadsAll rc bs (msg ∷ msgs) =
      (w more : List ℕ) × (bs ≡ w ++ more) × Reads crc8 crc32 acts rc w msg × ReadsAll rc more msgs

  next_message-end : (rc : FrameReadConfig) → next_message crc8 crc32 acts rc [] ≡ some (err eof)
  unfolding next_message split_body next_frame read_full
  next_message-end rc = refl

  copy-end :
      (n : ℕ) (rc : FrameReadConfig) (wc : FrameWriteConfig) (out : List ℕ)
      → copy crc8 crc32 none acts rc wc true (suc n) [] out ≡ some (err eof, out)
  unfolding copy received
  copy-end n rc wc out = rw (next_message-end rc) refl

  -- One round with a message that is read.
  copy-read :
      (n : ℕ) (rc : FrameReadConfig) (wc : FrameWriteConfig) (msg : ByteArrayMessage)
      (w w' more out : List ℕ)
      → Reads crc8 crc32 acts rc w msg
      → write_message_with_frame crc8 crc32
          (record { headers = msg.headers; body = some (bytes msg.body) })
          wc
        ≡ ok w'
      → copy crc8 crc32 none acts rc wc true (suc n) (w ++ more) out
        ≡ copy crc8 crc32 none acts rc wc true n more (out ++ w')
  unfolding copy forward frame_of copied received
  copy-read n rc wc msg w w' more out reads e = rw (reads more, e) refl

  -- A piper without a filter, over a network that takes the writes, forwards all messages in their
  -- order: from bytes of which exactly these messages are read, it writes bytes of which the other
  -- side reads exactly these messages, and ends with the end of the input. The messages are to be
  -- such that their headers have fields in range and no custom headers, and fit a frame, the
  -- checksums fit their fields, and the reader of the other side checks none that is not written.
  pub copy-ReadsAll :
      (rc rc' : FrameReadConfig) (wc : FrameWriteConfig) (msgs : List ByteArrayMessage)
      (input out : List ℕ)
      → ((bs : List ℕ) → crc8 bs < 256)
      → ((bs : List ℕ) → crc32 bs < 2 ^ 32)
      → Agree crc8 crc32 rc' wc
      → AreForwardable msgs
      → ReadsAll rc input msgs
      → (forwarded : List ℕ) × (copy crc8 crc32 none acts rc wc true (suc (length msgs)) input out
          ≡ some (err eof, out ++ forwarded))
        × ReadsAll rc' forwarded msgs
  copy-ReadsAll rc rc' wc [] input out c8 c32 a fits e = (
    [],
    ap (λ bs. copy crc8 crc32 none acts rc wc true 1 bs out) e
        ∙ (copy-end 0 rc wc out ∙ ap (λ o. some (err eof, o)) (sym (append-nil out))),
    refl,
  )
  copy-ReadsAll rc rc' wc (msg ∷ msgs) input out c8 c32 a ((s, (h, eh, lh, l)), fits)
        (w, more, e, reads, later) =
      let m : Message = record { headers = msg.headers; body = some (bytes msg.body) } in
      let (w', ew, reads') =
        next_message-sent crc8 crc32 acts rc' wc m h msg.body c8 c32 a s eh
          (unfold body_bytes marshal in refl) lh l in
      let (forwarded, run, later') =
        copy-ReadsAll rc rc' wc msgs more (out ++ w') c8 c32 a fits later in
      (
        w' ++ forwarded,
        ap (λ bs. copy crc8 crc32 none acts rc wc true (suc (suc (length msgs))) bs out) e
            ∙ (copy-read (suc (length msgs)) rc wc msg w w' more out reads ew
                ∙ (run ∙ ap (λ o. some (err eof, o)) (append_assoc out w' forwarded))),
        (w', forwarded, refl, reads', later'),
      )
