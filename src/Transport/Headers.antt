-- ===== src/Transport/Headers.antt =====
-- transport/messageheaders.go and transport/messageheaderid.go: the headers of a message, how they
-- are written and parsed.
--
-- A header that is written or kept is bytes, or a pointer to a value that the package serialization
-- marshals; an activator gives the type of the value that a header is read into. A writer is what
-- it has written, a reader the bytes that are still to come.
pub mod Write
pub mod Read
pub mod Parse
pub mod Carries
pub mod RoundTrip
pub mod Custom
use phabrik.Base.{
  ℕ, zero, suc, ◌+◌, ◌%◌, ◌^◌, Bool, true, false, not, ◌&&◌, ◌||◌, List, [], ◌∷◌, ◌++◌, Option,
  none, some, Result, ok, err, panic, Error, eof, unexpected_eof, errorf, ◌==◌, ltb, if◌then◌else◌,
  ◌>>=◌, le_bytes, le_value, length,
}
use phabrik.Serialization.State.{read_full}
use phabrik.Serialization.GoType.{
  GoType, Fields, Width, w32, w64, bool, string, guid, int, uint, struct, nil, cons, Val, zero_val,
}
use phabrik.Serialization.Guid.{Guid, empty_guid}
use phabrik.Serialization.Guid
use phabrik.Serialization.Marshal.{Argument, bytes, pointer_to, marshal}
use phabrik.Serialization.Unmarshal.{unmarshal}

pub record MessageId : Type 0 where
  pub id : Guid
  pub index : ℕ

-- MessageId.IsEmpty
unfoldable pub is_empty : MessageId → Bool
is_empty m = Guid.is_empty m.id && (m.index == 0)

abbrev pub empty_message_id : MessageId
empty_message_id = record { id = empty_guid; index = 0 }

-- The header identifiers that the parser knows, MessageHeaderIdType in the source.
pub record HeaderIds : Type 0 where
  pub invalid : ℕ
  pub actor : ℕ
  pub action : ℕ
  pub message_id : ℕ
  pub relates_to : ℕ
  pub expects_reply : ℕ
  pub retry : ℕ
  pub fault : ℕ
  pub idempotent : ℕ
  pub high_priority : ℕ
  pub security_negotiation : ℕ

abbrev pub header_ids : HeaderIds
header_ids = record {
  invalid = 0x8000;
  actor = 0x8001;
  action = 0x8002;
  message_id = 0x8003;
  relates_to = 0x8004;
  expects_reply = 0x8005;
  retry = 0x8006;
  fault = 0x8007;
  idempotent = 0x8008;
  high_priority = 0x8009;
  security_negotiation = 0x8048;
}

-- Actor, error code and retry count are the 64-bit patterns of signed integers, the action its
-- runes. The map of custom headers is nil or an association list.
pub record MessageHeaders : Type 0 where
  pub id : MessageId
  pub relates_to : MessageId
  pub actor : ℕ
  pub action : List ℕ
  pub expects_reply : Bool
  pub high_priority : Bool
  pub idempotent : Bool
  pub error_code : ℕ
  pub has_fault_body : Bool
  pub retry_count : ℕ
  pub custom_headers : Option (List (ℕ × List Argument))

-- headerTypeActivators
abbrev pub Activators : Type 0
Activators = ℕ → Option GoType

-- customHeaders[typ], and the assignment to it.
unfoldable pub lookup : ℕ → List (ℕ × List Argument) → Option (List Argument)
lookup typ [] = none
lookup typ ((other, values) ∷ more) = if other == typ then some values else lookup typ more

unfoldable pub insert : ℕ → List Argument → List (ℕ × List Argument) → List (ℕ × List Argument)
insert typ header [] = (typ, header) ∷ []
insert typ header ((other, values) ∷ more) =
    if other == typ then (typ, header) ∷ more else (other, values) ∷ insert typ header more

abbrev pub entries : Option (List (ℕ × List Argument)) → List (ℕ × List Argument)
entries none = []
entries (some m) = m

-- A read of a map that may be nil: no headers where there is no entry.
abbrev pub or_nil : Option (List Argument) → List Argument
or_nil none = []
or_nil (some v) = v

unfoldable pub get_custom_headers : ℕ → MessageHeaders → List Argument
unfolding lookup
get_custom_headers typ h = or_nil (lookup typ (entries h.custom_headers))

unfoldable pub get_first_custom_header : ℕ → MessageHeaders → Option Argument
get_first_custom_header typ h = elim (get_custom_headers typ h) [ [] ↦ none | x ∷ _ ↦ some x ]

abbrev pub is_absent : Option (List Argument) → Bool
is_absent none = true
is_absent (some _) = false

-- SetCustomHeader and AppendCustomHeader: both store only where the type has no entry yet.
unfoldable pub append_custom_header : ℕ → List Argument → MessageHeaders → MessageHeaders × Bool
append_custom_header typ header h =
    let m = entries h.custom_headers in
    if is_absent (lookup typ m)
    then (record h { custom_headers = some (insert typ header m) }, true)
    else (record h { custom_headers = some m }, false)

unfoldable pub set_custom_header : ℕ → Argument → MessageHeaders → MessageHeaders × Bool
set_custom_header typ header h =
    let m = entries h.custom_headers in
    if is_absent (lookup typ m)
    then (record h { custom_headers = some (insert typ (header ∷ []) m) }, true)
    else (record h { custom_headers = some m }, false)
