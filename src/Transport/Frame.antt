-- ===== src/Transport/Frame.antt =====
-- transport/frame.go: the frames that messages travel in.
--
-- `crc8` stands for the checksum of github.com/sigurn/crc8, `crc32` for hash/crc32. A reader is the
-- list of the bytes that are still to come.
pub mod RoundTrip
pub mod Cut
use phabrik.Base.{
  ℕ, ◌+◌, ◌-◌, ◌%◌, ◌^◌, Bool, true, false, not, ◌||◌, List, [], ◌∷◌, ◌++◌, Result, ok, err, errorf,
  ◌==◌, if◌then◌else◌, ◌>>=◌, ◌>>◌, guard, le_bytes, le_value, take, drop, length,
}
use phabrik.Serialization.State.{read_full}

pub data SecurityProvider : Type 0 where
  none ssl kerberos negotiate claims : SecurityProvider

abbrev pub provider_number : SecurityProvider → ℕ
provider_number none = 0
provider_number ssl = 1
provider_number kerberos = 2
provider_number negotiate = 3
provider_number claims = 4

pub record FrameHeader : Type 0 where
  pub frame_length : ℕ
  pub security_provider_mask : ℕ
  pub frame_header_crc : ℕ
  pub header_length : ℕ
  pub frame_body_crc : ℕ

abbrev pub size_of_frame_header : ℕ
size_of_frame_header = 12

-- encoding/binary of the header, and back.
unfoldable pub header_bytes : FrameHeader → List ℕ
header_bytes h =
    le_bytes 4 h.frame_length
    ++ (le_bytes 1 h.security_provider_mask
        ++ (le_bytes 1 h.frame_header_crc
            ++ (le_bytes 2 h.header_length ++ le_bytes 4 h.frame_body_crc)))

unfoldable pub header_of_bytes : List ℕ → FrameHeader
header_of_bytes bs = record {
  frame_length = le_value (take 4 bs);
  security_provider_mask = le_value (take 1 (drop 4 bs));
  frame_header_crc = le_value (take 1 (drop 5 bs));
  header_length = le_value (take 2 (drop 6 bs));
  frame_body_crc = le_value (drop 8 bs);
}

pub record FrameReadConfig : Type 0 where
  pub check_frame_header_crc : Bool
  pub check_frame_body_crc : Bool

pub record FrameWriteConfig : Type 0 where
  pub security_provider_mask : SecurityProvider
  pub frame_header_crc : Bool
  pub frame_body_crc : Bool

-- The header as it is checksummed.
abbrev pub without_crcs : FrameHeader → FrameHeader
without_crcs h = record h { frame_header_crc = 0; frame_body_crc = 0 }

-- make([]byte, header.FrameLength - sizeOfFrameheader), a difference of uint32s.
unfoldable pub body_size : FrameHeader → ℕ
body_size h = (h.frame_length + 2 ^ 32 - size_of_frame_header) % 2 ^ 32

module _ (crc8 crc32 : List ℕ → ℕ) where
  unfoldable pub header_crc_ok : FrameReadConfig → FrameHeader → Bool
  header_crc_ok config h =
      not config.check_frame_header_crc
      || (h.frame_header_crc == crc8 (header_bytes (without_crcs h)))

  unfoldable pub body_crc_ok : FrameReadConfig → FrameHeader → List ℕ → Bool
  body_crc_ok config h body = not config.check_frame_body_crc || (h.frame_body_crc == crc32 body)

  unfoldable pub next_frame : FrameReadConfig → List ℕ → Result (FrameHeader × List ℕ × List ℕ)
  next_frame config r = do
    (head, r1) ← read_full size_of_frame_header r
    let header = header_of_bytes head
    guard (header_crc_ok config header) (errorf "frame header crc8 check fail")
    (body, r2) ← read_full (body_size header) r1
    guard (body_crc_ok config header body) (errorf "frame body crc32 check fail")
    ok (header, body, r2)

  -- The header that writeFrame fills in.
  unfoldable pub frame_header : ℕ → List ℕ → FrameWriteConfig → FrameHeader
  frame_header header_len msg config =
      let h : FrameHeader = record {
        frame_length = (size_of_frame_header + length msg) % 2 ^ 32;
        security_provider_mask = provider_number config.security_provider_mask;
        frame_header_crc = 0;
        header_length = header_len % 2 ^ 16;
        frame_body_crc = 0;
      } in
      record h {
        frame_header_crc = if config.frame_header_crc then crc8 (header_bytes h) else 0;
        frame_body_crc = if config.frame_body_crc then crc32 msg else 0;
      }

  -- The bytes that writeFrame writes.
  unfoldable pub write_frame : ℕ → List ℕ → FrameWriteConfig → List ℕ
  unfolding frame_header
  write_frame header_len msg config = header_bytes (frame_header header_len msg config) ++ msg
