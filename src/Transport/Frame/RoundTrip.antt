-- ===== src/Transport/Frame/RoundTrip.antt =====
-- What nextFrame accepts, and that it accepts what writeFrame wrote (transport/frame.go).
use phabrik.Base.{
  ℕ, ◌+◌, ◌^◌, ◌<◌, ◌≡◌, ◌≢◌, ne→==, refl, ◌∙◌, inl, inr, Bool, true, false, List, ◌++◌, ok, err,
  errorf, if◌then◌else◌, ◌>>◌, guard, le_bytes, le_value, length, arith, append_assoc, ==_self,
  Bool-cases,
}
use phabrik.Serialization.State.{read_full-append}
use phabrik.Transport.Frame.{
  FrameHeader, FrameReadConfig, FrameWriteConfig, SecurityProvider, none, provider_number,
  header_bytes, header_of_bytes, without_crcs, body_size, header_crc_ok, body_crc_ok, next_frame,
  frame_header, write_frame,
}

pub record IsFrameHeader (h : FrameHeader) : Type 0 where
  pub length_fits : h.frame_length < 2 ^ 32
  pub mask_fits : h.security_provider_mask < 256
  pub header_crc_fits : h.frame_header_crc < 256
  pub header_length_fits : h.header_length < 2 ^ 16
  pub body_crc_fits : h.frame_body_crc < 2 ^ 32

pub length-header_bytes : (h : FrameHeader) → length (header_bytes h) ≡ 12
unfolding header_bytes le_bytes
length-header_bytes h = refl

pub header_of_bytes-header_bytes :
    (h : FrameHeader) → IsFrameHeader h → header_of_bytes (header_bytes h) ≡ h
unfolding header_of_bytes header_bytes le_bytes le_value
header_of_bytes-header_bytes h v = ground arith

module _ (crc8 crc32 : List ℕ → ℕ) where
  -- One frame, from the parts that its bytes split into.
  next_frame_parts :
      (config : FrameReadConfig) (h : FrameHeader) (body rest : List ℕ)
      → IsFrameHeader h
      → length body ≡ body_size h
      → next_frame crc8 crc32 config (header_bytes h ++ (body ++ rest)) ≡ (
          guard (header_crc_ok crc8 crc32 config h) (errorf "frame header crc8 check fail")
          >> (guard (body_crc_ok crc8 crc32 config h body) (errorf "frame body crc32 check fail")
              >> ok (h, body, rest)))
  unfolding next_frame
  next_frame_parts config h body rest v l =
      simp
        (
          read_full-append 12 (header_bytes h) (body ++ rest) (length-header_bytes h),
          header_of_bytes-header_bytes h v,
        )
        (elim (Bool-cases (header_crc_ok crc8 crc32 config h)) [
          | inl e ↦ rw (e, read_full-append (body_size h) body rest l)
          | inr e ↦ rw e
        ])

  -- A reader that checks what the writer has filled in.
  abbrev pub Agree : FrameReadConfig → FrameWriteConfig → Type 0
  Agree rc wc =
      (rc.check_frame_header_crc ≡ true → wc.frame_header_crc ≡ true)
      × (rc.check_frame_body_crc ≡ true → wc.frame_body_crc ≡ true)

  frame_header_crc_ok :
      (rc : FrameReadConfig) (wc : FrameWriteConfig) (header_len : ℕ) (msg : List ℕ)
      → Agree rc wc
      → header_crc_ok crc8 crc32 rc (frame_header crc8 crc32 header_len msg wc) ≡ true
  unfolding header_crc_ok frame_header
  frame_header_crc_ok rc wc header_len msg a = elim (Bool-cases rc.check_frame_header_crc) [
    | inl e ↦ rw (e, a.0 e) (==_self _)
    | inr e ↦ rw e
  ]

  frame_body_crc_ok :
      (rc : FrameReadConfig) (wc : FrameWriteConfig) (header_len : ℕ) (msg : List ℕ)
      → Agree rc wc
      → body_crc_ok crc8 crc32 rc (frame_header crc8 crc32 header_len msg wc) msg ≡ true
  unfolding body_crc_ok frame_header
  frame_body_crc_ok rc wc header_len msg a = elim (Bool-cases rc.check_frame_body_crc) [
    | inl e ↦ rw (e, a.1 e) (==_self _)
    | inr e ↦ rw e
  ]

  -- nextFrame reads back the frame that writeFrame wrote for a message below 2 ^ 32 - 12 bytes and
  -- leaves what follows, if it checks no checksum that was not written; the header tells the
  -- length of the message's headers.
  -- The header that a frame gets is in range, and gives the size of the body.
  pub frame_header-size :
      (wc : FrameWriteConfig) (header_len : ℕ) (msg : List ℕ)
      → length msg + 12 < 2 ^ 32
      → length msg ≡ body_size (frame_header crc8 crc32 header_len msg wc)
  unfolding frame_header body_size
  frame_header-size wc header_len msg l = omega arith

  pub frame_header-IsFrameHeader :
      (wc : FrameWriteConfig) (header_len : ℕ) (msg : List ℕ)
      → ((bs : List ℕ) → crc8 bs < 256)
      → ((bs : List ℕ) → crc32 bs < 2 ^ 32)
      → IsFrameHeader (frame_header crc8 crc32 header_len msg wc)
  unfolding frame_header
  frame_header-IsFrameHeader wc header_len msg c8 c32 = record {
    length_fits = omega arith;
    mask_fits = small wc.security_provider_mask;
    header_crc_fits = either 256 wc.frame_header_crc _ (c8 _) (omega arith);
    header_length_fits = omega arith;
    body_crc_fits = either (2 ^ 32) wc.frame_body_crc _ (c32 _) (omega arith);
  }
    where
      small : (p : SecurityProvider) → provider_number p < 256
      small none = omega arith
      small p = omega arith

      either : (n : ℕ) (b : Bool) (x : ℕ) → x < n → 0 < n → (if b then x else 0) < n
      either n true x h p = h
      either n false x h p = p

  pub next_frame-write_frame :
      (rc : FrameReadConfig) (wc : FrameWriteConfig) (header_len : ℕ) (msg rest : List ℕ)
      → ((bs : List ℕ) → crc8 bs < 256)
      → ((bs : List ℕ) → crc32 bs < 2 ^ 32)
      → Agree rc wc
      → length msg + 12 < 2 ^ 32
      → header_len < 2 ^ 16
      → (h : FrameHeader) × (next_frame crc8 crc32 rc
            (write_frame crc8 crc32 header_len msg wc ++ rest)
          ≡ ok (h, msg, rest))
        × (h.header_length ≡ header_len)
        × (h.frame_length ≡ length msg + 12)
  unfolding write_frame
  next_frame-write_frame rc wc header_len msg rest c8 c32 a l hl = (
    h,
    rw (
      append_assoc (header_bytes h) msg rest,
      next_frame_parts rc h msg rest (frame_header-IsFrameHeader wc header_len msg c8 c32)
          (frame_header-size wc header_len msg l),
      frame_header_crc_ok rc wc header_len msg a,
      frame_body_crc_ok rc wc header_len msg a,
    ),
    header_len_kept,
    frame_len,
  )
    where
      h : FrameHeader
      h = frame_header crc8 crc32 header_len msg wc

      header_len_kept : h.header_length ≡ header_len
      header_len_kept = unfold frame_header in omega arith

      frame_len : h.frame_length ≡ length msg + 12
      frame_len = unfold frame_header in omega arith

  -- Whatever the body, a frame whose header checksum is wrong is refused if it is checked, and then
  -- none of the body is read.
  pub next_frame_bad_header :
      (rc : FrameReadConfig) (h : FrameHeader) (body rest : List ℕ)
      → IsFrameHeader h
      → length body ≡ body_size h
      → rc.check_frame_header_crc ≡ true
      → h.frame_header_crc ≢ crc8 (header_bytes (without_crcs h))
      → next_frame crc8 crc32 rc (header_bytes h ++ (body ++ rest))
        ≡ err (errorf "frame header crc8 check fail")
  next_frame_bad_header rc h body rest v l c n = next_frame_parts rc h body rest v l ∙ rw bad
    where
      bad : header_crc_ok crc8 crc32 rc h ≡ false
      bad = unfold header_crc_ok in rw (c, ne→== _ _ n)
