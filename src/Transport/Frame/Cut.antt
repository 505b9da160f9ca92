-- ===== src/Transport/Frame/Cut.antt =====
-- What nextFrame makes of a frame of which a part got lost (transport/frame.go).
use phabrik.Base.{
  ℕ, ◌+◌, ◌-◌, ◌^◌, ◌<◌, ◌≡◌, ap, ◌∙◌, inl, inr, false, List, ◌++◌, err, Error, ltb, ltb→lt,
  ltb-false, length, take, arith, Bool-cases, length-append, length-take, take-append,
}
use phabrik.Serialization.State.{read_full-append, read_full-short}
use phabrik.Transport.Frame.{
  FrameReadConfig, FrameWriteConfig, FrameHeader, header_bytes, header_crc_ok, body_size,
  next_frame, frame_header, write_frame,
}
use phabrik.Transport.Frame.RoundTrip.{
  IsFrameHeader, length-header_bytes, header_of_bytes-header_bytes, frame_header-size,
  frame_header-IsFrameHeader,
}

pub length-write_frame :
    (crc8 crc32 : List ℕ → ℕ) (wc : FrameWriteConfig) (header_len : ℕ) (msg : List ℕ)
    → length (write_frame crc8 crc32 header_len msg wc) ≡ 12 + length msg
unfolding write_frame
length-write_frame crc8 crc32 wc header_len msg =
    let h = frame_header crc8 crc32 header_len msg wc in
    omega (arith, length-append (header_bytes h) msg, length-header_bytes h)

module _ (crc8 crc32 : List ℕ → ℕ) where
  next_frame-short_header :
      (rc : FrameReadConfig) (bs : List ℕ)
      → length bs < 12
      → (e : Error) × (next_frame crc8 crc32 rc bs ≡ err e)
  unfolding next_frame
  next_frame-short_header rc bs l = let (e, short) = read_full-short 12 bs l in (e, rw short)

  next_frame-short_body :
      (rc : FrameReadConfig) (h : FrameHeader) (body : List ℕ)
      → rc.check_frame_header_crc ≡ false
      → IsFrameHeader h
      → length body < body_size h
      → (e : Error) × (next_frame crc8 crc32 rc (header_bytes h ++ body) ≡ err e)
  unfolding next_frame header_crc_ok
  next_frame-short_body rc h body unchecked v l =
      let (e, short) = read_full-short (body_size h) body l in
      (
        e,
        rw (
          read_full-append 12 (header_bytes h) body (length-header_bytes h),
          header_of_bytes-header_bytes h v,
          unchecked,
          short,
        ),
      )

  -- A reader that does not check the header's checksum gets an error from any part of a frame less
  -- than all of it.
  pub next_frame-cut :
      (rc : FrameReadConfig) (wc : FrameWriteConfig) (header_len n : ℕ) (msg : List ℕ)
      → ((bs : List ℕ) → crc8 bs < 256)
      → ((bs : List ℕ) → crc32 bs < 2 ^ 32)
      → rc.check_frame_header_crc ≡ false
      → length msg + 12 < 2 ^ 32
      → n < 12 + length msg
      → (e : Error) × (next_frame crc8 crc32 rc (take n (write_frame crc8 crc32 header_len msg wc))
          ≡ err e)
  unfolding write_frame
  next_frame-cut rc wc header_len n msg c8 c32 unchecked l cut =
      let h = frame_header crc8 crc32 header_len msg wc in
      let twelve = length-header_bytes h in
      elim (Bool-cases (ltb n 12)) [
        | inl e ↦
            let less = ltb→lt n 12 e in
            next_frame-short_header rc (take n (header_bytes h ++ msg)) (
              omega (
                arith,
                length-take n (header_bytes h ++ msg)
                    (omega (arith, length-append (header_bytes h) msg)),
              ))
        | inr e ↦
            let more = ltb-false n 12 e in
            let size = frame_header-size crc8 crc32 wc header_len msg l in
            let at : n ≡ length (header_bytes h) + (n - 12) = omega arith in
            let short = length-take (n - 12) msg (omega arith) in
            let (x, failed) =
              next_frame-short_body rc h (take (n - 12) msg) unchecked
                (frame_header-IsFrameHeader crc8 crc32 wc header_len msg c8 c32) (omega arith) in
            (
              x,
              ap (λ bs. next_frame crc8 crc32 rc bs)
                    (ap (λ i. take i (header_bytes h ++ msg)) at
                      ∙ take-append (n - 12) (header_bytes h) msg)
                  ∙ failed,
            )
      ]
