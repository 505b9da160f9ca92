-- ===== src/Lease/Frame.antt =====
-- lease/frame.go: the frames that lease messages travel in.
--
-- A reader is the list of the bytes that are still to come.
pub mod RoundTrip
use phabrik.Base.{
  ℕ, zero, suc, ◌+◌, ◌-◌, ◌%◌, ◌^◌, Bool, true, false, List, [], ◌∷◌, ◌++◌, Option, none, some,
  Result, ok, err, panic, errorf, ◌==◌, if◌then◌else◌, ◌>>=◌, le_bytes, le_value, take, drop,
  length,
}
use phabrik.Serialization.State.{read_full}

-- ltFrametypeMessage and ltFrametypeConnect
abbrev pub frame_type_message : ℕ
frame_type_message = 1

abbrev pub frame_type_connect : ℕ
frame_type_connect = 2

pub record LtFrameHeader : Type 0 where
  pub frame_type : ℕ
  pub reserved1 : ℕ
  pub reserved2 : ℕ
  pub frame_size : ℕ
  pub reserved3 : ℕ

abbrev pub size_of_lt_frame_header : ℕ
size_of_lt_frame_header = 12

-- encoding/binary of the header, and back.
unfoldable pub header_bytes : LtFrameHeader → List ℕ
header_bytes h =
    le_bytes 1 h.frame_type
    ++ (le_bytes 1 h.reserved1
        ++ (le_bytes 2 h.reserved2 ++ (le_bytes 4 h.frame_size ++ le_bytes 4 h.reserved3)))

unfoldable pub header_of_bytes : List ℕ → LtFrameHeader
header_of_bytes bs = record {
  frame_type = le_value (take 1 bs);
  reserved1 = le_value (take 1 (drop 1 bs));
  reserved2 = le_value (take 2 (drop 2 bs));
  frame_size = le_value (take 4 (drop 4 bs));
  reserved3 = le_value (drop 8 bs);
}

-- One call of nextLtFrame either ends, or calls itself on what is left.
pub data Round : Type 0 where
  done : Result (List ℕ × List ℕ) → Round
  again : List ℕ → Round

unfoldable pub on_header : Result (List ℕ × List ℕ) → Round
on_header (err e) = done (err e)
on_header panic = done panic
on_header (ok (head, r)) =
    let h = header_of_bytes head in
    if h.frame_type == frame_type_connect
    then again r
    else if h.frame_type == frame_type_message
    then done (read_full ((h.frame_size + 2 ^ 32 - size_of_lt_frame_header) % 2 ^ 32) r)
    else done (err (errorf "unexpected frame type %v"))

unfoldable pub lt_round : List ℕ → Round
unfolding on_header
lt_round r = on_header (read_full size_of_lt_frame_header r)

-- `none` is a recursion that has run out of fuel; each round takes the bytes of a header.
unfoldable pub next_lt_frame_loop : ℕ → List ℕ → Option (Result (List ℕ × List ℕ))
next_lt_frame_loop zero r = none
next_lt_frame_loop (suc fuel) r = elim (lt_round r) [
  | done x ↦ some x
  | again r' ↦ next_lt_frame_loop fuel r'
]

unfoldable pub next_lt_frame : List ℕ → Option (Result (List ℕ × List ℕ))
unfolding next_lt_frame_loop
next_lt_frame r = next_lt_frame_loop (suc (length r)) r

abbrev pub connect_header : LtFrameHeader
connect_header = record {
  frame_type = frame_type_connect;
  reserved1 = 0;
  reserved2 = 0;
  frame_size = size_of_lt_frame_header;
  reserved3 = 0;
}

unfoldable pub write_connect_frame : List ℕ
unfolding header_bytes
write_connect_frame = header_bytes connect_header

abbrev pub data_header : List ℕ → LtFrameHeader
data_header message = record {
  frame_type = frame_type_message;
  reserved1 = 0;
  reserved2 = 0;
  frame_size = (size_of_lt_frame_header + length message % 2 ^ 32) % 2 ^ 32;
  reserved3 = 0;
}

unfoldable pub write_data_with_frame : List ℕ → List ℕ
unfolding header_bytes
write_data_with_frame message = header_bytes (data_header message) ++ message
