-- ===== src/Transport/Tls/Tunnel.antt =====
-- TLS records in transport messages: what one side writes during the handshake the other side reads
-- (Write and Read of transport/tls.go).
use phabrik.Base.{
  ℕ, zero, suc, ◌^◌, ◌<◌, ◌≡◌, refl, ap, ◌∙◌, inl, true, false, List, [], ◌∷◌, ◌++◌, some, ok,
  length, take, drop, arith, ◌+◌, err, Error, length-append, length-take,
}
use phabrik.Transport.Frame.{next_frame}
use phabrik.Transport.Frame.Cut.{next_frame-cut, length-write_frame}
use phabrik.Transport.Message.{split_body}
use phabrik.Transport.Tls.{takes, fails_after, got_out}
use phabrik.Serialization.Guid.{IsGuid}
use phabrik.Serialization.Marshal.{marshal}
use phabrik.Transport.Headers.{MessageHeaders, Activators}
use phabrik.Transport.Headers.Read.{empty_headers}
use phabrik.Transport.Headers.Write.{write_to}
use phabrik.Transport.Headers.RoundTrip.{IsSendable}
use phabrik.Transport.Message.{
  Message, message_marshal, body_bytes, new_message, write_message_with_frame, next_message,
}
use phabrik.Transport.Message.RoundTrip.{next_message-sent}
use phabrik.Transport.Conn.Sending.{FitsFrame, fill-IsSendable}
use phabrik.Transport.Conn.Heartbeat.{empty-IsSendable}
use phabrik.Transport.Frame.{write_frame}
use phabrik.Transport.Tls.{
  SecureConn, frame_read_config, frame_write_config, wrapped, unpacked, read_buffer, read_buffered,
  put_out, read, read_behind, write, write_record,
}

wrapped-IsSendable :
    (b : List ℕ) (c : SecureConn)
    → c.nego_send ≡ true
    → IsGuid c.factory.message_prefix
    → IsSendable (wrapped b c).0.headers
unfolding wrapped new_message
wrapped-IsSendable b c nego g =
    let s = fill-IsSendable c.factory empty_headers g empty-IsSendable in
    rw nego (record {
      id_fits = s.id_fits;
      relates_to_fits = s.relates_to_fits;
      actor_fits = inl (omega arith);
      action_fits = s.action_fits;
      error_code_fits = s.error_code_fits;
      retry_count_fits = s.retry_count_fits;
      no_custom = s.no_custom;
    })

module _ (crc8 crc32 : List ℕ → ℕ) where
  read-unpacked :
      (acts : Activators) (n : ℕ) (c : SecureConn)
      → c.handshake_completed ≡ false
      → c.rbuf ≡ []
      → read crc8 crc32 acts n c
        ≡ unpacked n (next_message crc8 crc32 acts frame_read_config c.incoming) c
  unfolding read read_behind
  read-unpacked acts n c live e = ap (λ b. read_behind crc8 crc32 b acts n c) e ∙ rw live refl

  unpacked-message :
      (n x : ℕ) (xs rest : List ℕ) (h : MessageHeaders) (c : SecureConn)
      → c.rbuf ≡ []
      → unpacked n (some (ok (record { headers = h; body = x ∷ xs }, rest))) c
        ≡ some (ok (take n (x ∷ xs)), record c { rbuf = drop n (x ∷ xs); incoming = rest })
  unfolding unpacked read_buffer
  unpacked-message n x xs rest h c e =
      ap
        (λ b.
          some
            (read_buffered n (b ++ (x ∷ xs)) (record c { rbuf = b ++ (x ∷ xs); incoming = rest })))
        e
      ∙ step n
    where
      step :
          (k : ℕ)
          → some (read_buffered k (x ∷ xs) (record c { rbuf = x ∷ xs; incoming = rest }))
            ≡ some (ok (take k (x ∷ xs)), record c { rbuf = drop k (x ∷ xs); incoming = rest })
      step zero = unfold read_buffered in refl
      step (suc k) = unfold read_buffered in refl

  write-taken :
      (b w : List ℕ) (c : SecureConn)
      → c.handshake_completed ≡ false
      → write_message_with_frame crc8 crc32 (wrapped b c).0 frame_write_config ≡ ok w
      → ((write crc8 crc32 takes b c).0 ≡ ok (length b))
        × ((write crc8 crc32 takes b c).1.outgoing ≡ c.outgoing ++ w)
  unfolding write write_record put_out got_out
  write-taken b w c live ew = rw (live, ew) (refl, refl)

  -- The record that a write makes, whatever the network does with it.
  write-cut :
      (b h : List ℕ) (n : ℕ) (c : SecureConn)
      → c.handshake_completed ≡ false
      → write_to (wrapped b c).0.headers ≡ ok h
      → ((write crc8 crc32 (fails_after n) b c).0 ≡ ok (length b))
        × ((write crc8 crc32 (fails_after n) b c).1.outgoing
            ≡ c.outgoing ++ take n (write_frame crc8 crc32 (length h) (h ++ b) frame_write_config))
  unfolding write write_record put_out got_out write_message_with_frame message_marshal body_bytes
      wrapped marshal
  write-cut b h n c live e = rw (live, e) (refl, refl)

  read-failed :
      (acts : Activators) (k : ℕ) (x : Error) (d : SecureConn)
      → d.handshake_completed ≡ false
      → d.rbuf ≡ []
      → next_frame crc8 crc32 frame_read_config d.incoming ≡ err x
      → read crc8 crc32 acts k d ≡ some (err x, d)
  unfolding next_message split_body unpacked
  read-failed acts k x d live empty e = read-unpacked acts k d live empty ∙ rw e

  -- During the handshake a write is reported as a success of its full length even where the network
  -- fails within it, after any number of bytes that is less than the frame, be it within the frame's
  -- header or behind it. What got out is that many bytes, and a peer in the handshake that gets them
  -- and nothing else reads an error. The headers of the record can be written, the record fits a
  -- frame, the buffer of the peer is empty, and the checksums fit their fields.
  pub write_lost :
      (acts : Activators) (b h : List ℕ) (n k : ℕ) (c d : SecureConn)
      → ((bs : List ℕ) → crc8 bs < 256)
      → ((bs : List ℕ) → crc32 bs < 2 ^ 32)
      → c.handshake_completed ≡ false
      → write_to (wrapped b c).0.headers ≡ ok h
      → length h + length b + 12 < 2 ^ 32
      → n < 12 + length h + length b
      → d.handshake_completed ≡ false
      → d.rbuf ≡ []
      → ((write crc8 crc32 (fails_after n) b c).0 ≡ ok (length b))
        × ((cut : List ℕ) × ((write crc8 crc32 (fails_after n) b c).1.outgoing ≡ c.outgoing ++ cut)
            × (length cut ≡ n)
            × ((e : Error) × (s : SecureConn) × (read crc8 crc32 acts k
                    (record d { incoming = cut })
                  ≡ some (err e, s))))
  write_lost acts b h n k c d c8 c32 live eh l less live' empty =
      let frame = write_frame crc8 crc32 (length h) (h ++ b) frame_write_config in
      let (reported, got) = write-cut b h n c live eh in
      let size : length frame ≡ 12 + length (h ++ b) =
        length-write_frame crc8 crc32 frame_write_config (length h) (h ++ b) in
      let (x, failed) =
        next_frame-cut crc8 crc32 frame_read_config frame_write_config (length h) n (h ++ b) c8 c32
          refl (omega (arith, length-append h b)) (omega (arith, length-append h b)) in
      (
        reported,
        (
          take n frame,
          got,
          length-take n frame (omega (arith, length-append h b)),
          (
            x,
            record d { incoming = take n frame },
            read-failed acts k x (record d { incoming = take n frame }) live' empty failed,
          ),
        ),
      )

  -- After its first record, what one side writes in the handshake is read by the other: the first
  -- `n` bytes at once and the rest from the buffer, behind which the network goes on as it was. The
  -- record is not empty and fits a frame, the buffer of the reader is empty, the network takes
  -- the write, and the GUID of the identifiers and the checksums fit their fields.
  pub read-write :
      (acts : Activators) (n x : ℕ) (xs rest : List ℕ) (c d : SecureConn)
      → ((bs : List ℕ) → crc8 bs < 256)
      → ((bs : List ℕ) → crc32 bs < 2 ^ 32)
      → c.handshake_completed ≡ false
      → c.nego_send ≡ true
      → IsGuid c.factory.message_prefix
      → FitsFrame (wrapped (x ∷ xs) c).0.headers (x ∷ xs)
      → d.handshake_completed ≡ false
      → d.rbuf ≡ []
      → (w : List ℕ) × ((write crc8 crc32 takes (x ∷ xs) c).0 ≡ ok (length (x ∷ xs)))
        × ((write crc8 crc32 takes (x ∷ xs) c).1.outgoing ≡ c.outgoing ++ w)
        × (read crc8 crc32 acts n (record d { incoming = w ++ rest })
            ≡ some (ok (take n (x ∷ xs)), record d { rbuf = drop n (x ∷ xs); incoming = rest }))
  read-write acts n x xs rest c d c8 c32 live nego g (h, eh, lh, l) live' empty =
      let m : Message = (wrapped (x ∷ xs) c).0 in
      let (w, ew, reads) =
        next_message-sent crc8 crc32 acts frame_read_config frame_write_config m h (x ∷ xs) c8 c32
          ((λ e. ground (arith, e)), (λ e. ground (arith, e)))
          (wrapped-IsSendable (x ∷ xs) c nego g) eh (unfold wrapped body_bytes marshal in refl) lh
          l in
      let (result, sent) = write-taken (x ∷ xs) w c live ew in
      (
        w,
        result,
        sent,
        read-unpacked acts n (record d { incoming = w ++ rest }) live' empty
            ∙ (ap (λ o. unpacked n o (record d { incoming = w ++ rest })) (reads rest)
                ∙ unpacked-message n x xs rest m.headers (record d { incoming = w ++ rest }) empty),
      )
