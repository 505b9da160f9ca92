-- ===== src/Naming.antt =====
-- naming/naming.go: the client of the naming gateway.
--
-- The bodies and headers are the struct types of the source as GoTypes; strings are lists of code
-- points. `random` stands for crypto/rand, by the number of the call within an operation, and `reply`
-- for what RequestReply of the transport gives for the messages of an operation, in their order. Two
-- bodies hold a node identifier, which marshals itself: `connection_body` stands for the body of the
-- first with a client id, `read_gateway` for what Unmarshal makes of the second.
pub mod Types
pub mod Filter
pub mod Query
mod Tests
use Prim.Native.Nat.{bit_or}
use phabrik.Base.{
  ℕ, ◌+◌, ◌*◌, ◌%◌, ◌^◌, Bool, true, false, List, [], ◌∷◌, ◌++◌, Option, none, some, Result, ok,
  err, panic, errorf, ◌==◌, if◌then◌else◌, ◌>>=◌,
}
use phabrik.Serialization.Guid.{Guid, bytes_eq, new_guid_v4}
use phabrik.Serialization.GoType.{GoType, Val, zero_val}
use phabrik.Serialization.Marshal.{Argument, pointer_to}
use phabrik.Serialization.Unmarshal.{unmarshal}
use phabrik.Transport.Headers.{MessageHeaders, set_custom_header}
use phabrik.Transport.Headers.Read.{empty_headers}
use phabrik.Transport.Message.{Message, ByteArrayMessage}
use phabrik.Naming.Types.{
  activity_type, protocol_version_type, timeout_type, identity_type, failure_type, error_type,
  uri_type, filter_type, filter_body_type, query_type, query_result_type, application_type,
}

-- MessageActorTypeNamingGateway
abbrev pub actor_naming_gateway : ℕ
actor_naming_gateway = 5

-- The header identifiers FabricActivity, ClientProtocolVersion, Timeout and ClientIdentity.
abbrev pub fabric_activity : ℕ
fabric_activity = 0x8020

abbrev pub client_protocol_version : ℕ
client_protocol_version = 0x8025

abbrev pub timeout : ℕ
timeout = 0x8023

abbrev pub client_identity : ℕ
client_identity = 0x8040

abbrev pub client_operation_failure : List ℕ
client_operation_failure =
    b'C' ∷ b'l' ∷ b'i' ∷ b'e' ∷ b'n' ∷ b't' ∷ b'O' ∷ b'p' ∷ b'e' ∷ b'r' ∷ b'a' ∷ b't' ∷ b'i' ∷ b'o'
    ∷ b'n' ∷ b'F' ∷ b'a' ∷ b'i' ∷ b'l' ∷ b'u' ∷ b'r' ∷ b'e' ∷ []

abbrev pub connection_request : List ℕ
connection_request =
    b'N' ∷ b'o' ∷ b't' ∷ b'i' ∷ b'f' ∷ b'i' ∷ b'c' ∷ b'a' ∷ b't' ∷ b'i' ∷ b'o' ∷ b'n' ∷ b'C' ∷ b'l'
    ∷ b'i' ∷ b'e' ∷ b'n' ∷ b't' ∷ b'C' ∷ b'o' ∷ b'n' ∷ b'n' ∷ b'e' ∷ b'c' ∷ b't' ∷ b'i' ∷ b'o'
    ∷ b'n' ∷ b'R' ∷ b'e' ∷ b'q' ∷ b'u' ∷ b'e' ∷ b's' ∷ b't' ∷ []

abbrev pub register_request : List ℕ
register_request =
    b'R' ∷ b'e' ∷ b'g' ∷ b'i' ∷ b's' ∷ b't' ∷ b'e' ∷ b'r' ∷ b'S' ∷ b'e' ∷ b'r' ∷ b'v' ∷ b'i' ∷ b'c'
    ∷ b'e' ∷ b'N' ∷ b'o' ∷ b't' ∷ b'i' ∷ b'f' ∷ b'i' ∷ b'c' ∷ b'a' ∷ b't' ∷ b'i' ∷ b'o' ∷ b'n'
    ∷ b'F' ∷ b'i' ∷ b'l' ∷ b't' ∷ b'e' ∷ b'r' ∷ b'R' ∷ b'e' ∷ b'q' ∷ b'u' ∷ b'e' ∷ b's' ∷ b't' ∷ []

abbrev pub notification_request : List ℕ
notification_request =
    b'S' ∷ b'e' ∷ b'r' ∷ b'v' ∷ b'i' ∷ b'c' ∷ b'e' ∷ b'N' ∷ b'o' ∷ b't' ∷ b'i' ∷ b'f' ∷ b'i' ∷ b'c'
    ∷ b'a' ∷ b't' ∷ b'i' ∷ b'o' ∷ b'n' ∷ b'R' ∷ b'e' ∷ b'q' ∷ b'u' ∷ b'e' ∷ b's' ∷ b't' ∷ []

abbrev pub notification_reply : List ℕ
notification_reply =
    b'S' ∷ b'e' ∷ b'r' ∷ b'v' ∷ b'i' ∷ b'c' ∷ b'e' ∷ b'N' ∷ b'o' ∷ b't' ∷ b'i' ∷ b'f' ∷ b'i' ∷ b'c'
    ∷ b'a' ∷ b't' ∷ b'i' ∷ b'o' ∷ b'n' ∷ b'R' ∷ b'e' ∷ b'p' ∷ b'l' ∷ b'y' ∷ []

abbrev pub ping_request : List ℕ
ping_request = b'P' ∷ b'i' ∷ b'n' ∷ b'g' ∷ b'R' ∷ b'e' ∷ b'q' ∷ b'u' ∷ b'e' ∷ b's' ∷ b't' ∷ []

abbrev pub query_request : List ℕ
query_request =
    b'Q' ∷ b'u' ∷ b'e' ∷ b'r' ∷ b'y' ∷ b'R' ∷ b'e' ∷ b'q' ∷ b'u' ∷ b'e' ∷ b's' ∷ b't' ∷ []

abbrev pub application_name : List ℕ
application_name =
    b'A' ∷ b'p' ∷ b'p' ∷ b'l' ∷ b'i' ∷ b'c' ∷ b'a' ∷ b't' ∷ b'i' ∷ b'o' ∷ b'n' ∷ b'N' ∷ b'a' ∷ b'm'
    ∷ b'e' ∷ []

abbrev pub application_list : List ℕ
application_list =
    b'G' ∷ b'e' ∷ b't' ∷ b'A' ∷ b'p' ∷ b'p' ∷ b'l' ∷ b'i' ∷ b'c' ∷ b'a' ∷ b't' ∷ b'i' ∷ b'o' ∷ b'n'
    ∷ b'L' ∷ b'i' ∷ b's' ∷ b't' ∷ []

pub record NamingClient : Type 0 where
  pub next_filter_id : ℕ
  pub client_id : List ℕ

-- The three custom headers of a message of the client, which are set one after the other.
unfoldable pub naming_headers : Guid → List ℕ → MessageHeaders
naming_headers id action =
    let h0 = record empty_headers {
      actor = actor_naming_gateway;
      action = action;
      expects_reply = true;
    } in
    let (h1, _) =
      set_custom_header fabric_activity (pointer_to activity_type ((id, (0, tt)), tt)) h0 in
    let (h2, _) =
      set_custom_header client_protocol_version (pointer_to protocol_version_type (1, (2, tt)))
        h1 in
    let (h3, _) = set_custom_header timeout (pointer_to timeout_type (20 * 1000000, tt)) h2 in h3

-- NewNamingMessage, on what NewGuidV4 gives.
unfoldable pub new_naming_message : Result Guid → List ℕ → Result Message
unfolding naming_headers
new_naming_message guid action = do
  id ← guid
  ok (record { headers = naming_headers id action; body = none })

-- onMessage up to the call of OnServiceNotification: the reply that it sends. Whether the body
-- unmarshals makes no difference, and without a GUID it sets a header of a nil message and panics.
unfoldable pub reply_to : ByteArrayMessage → Result Message → Result (Option Message)
reply_to msg (ok m) = ok (
    some (record {
      headers = record (m.headers) { relates_to = msg.headers.id };
      body = some (pointer_to error_type (0, tt));
    }))
reply_to msg (err e) = panic
reply_to msg panic = panic

unfoldable pub on_message : Result Guid → ByteArrayMessage → Result (Option Message)
unfolding new_naming_message reply_to
on_message guid msg =
    if bytes_eq msg.headers.action notification_request
    then reply_to msg (new_naming_message guid notification_reply)
    else ok none

-- requestReply, on what RequestReply gives.
unfoldable pub checked : Result ByteArrayMessage → Result ByteArrayMessage
checked (err e) = err e
checked panic = panic
checked (ok reply) =
    if bytes_eq reply.headers.action client_operation_failure
    then (do
      _ ← unmarshal reply.body failure_type (0, tt)
      err (errorf "ClientOperationFailure HResult: %v"))
    else ok reply

-- The flags of a filter.
unfoldable pub filter_flags : Bool → Bool → ℕ
filter_flags prefix primary = bit_or (if prefix then 1 else 0) (if primary then 2 else 0)

-- The list of applications, which may be nil.
abbrev pub Applications : Type 0
Applications = Option (List (Val application_type))

-- The result list is read without a test, so a nil pointer panics.
unfoldable pub list_behind : Option (Applications × Unit {0}) → Result Applications
list_behind none = panic
list_behind (some (list, _)) = ok list

unfoldable pub list_of : Val query_result_type → Result Applications
unfolding list_behind
list_of (kind, (result, (code, _))) =
    if code == 0 then list_behind result else err (errorf "GetApplicationList returns HResult %v")

-- What Ping makes of a checked reply.
unfoldable pub gateway_of :
    {Gateway : Type 0} → (List ℕ → Result Gateway) → Result ByteArrayMessage → Result Gateway
gateway_of read_gateway (err e) = err e
gateway_of read_gateway panic = panic
gateway_of read_gateway (ok reply) =
    if bytes_eq reply.headers.action ping_request
    then read_gateway reply.body
    else err (errorf "unsupported action %v MessageActorTypeNamingGateway")

-- What an operation has sent, and its outcome.
abbrev pub Sent : Type 0 → Type 0
Sent Outcome = List Message × Result Outcome

-- An operation goes on where what went before gave no error.
unfoldable pub followed_by : {Outcome Next : Type 0} → Sent Outcome → Sent Next → Sent Next
followed_by (ms, ok _) (ns, r) = (ms ++ ns, r)
followed_by (ms, err e) later = (ms, err e)
followed_by (ms, panic) later = (ms, panic)

module _ (random : ℕ → Result (List ℕ)) (reply : ℕ → Message → Result ByteArrayMessage) where
  unfoldable pub exchange : ℕ → Result Message → Sent ByteArrayMessage
  unfolding checked
  exchange n (ok m) = (m ∷ [], checked (reply n m))
  exchange n (err e) = ([], err e)
  exchange n panic = ([], panic)

  unfoldable pub filter_message : NamingClient → ℕ → Val uri_type → ℕ → Result Message
  unfolding new_naming_message
  filter_message c id name flags = do
    m ← new_naming_message (new_guid_v4 (random 1)) register_request
    let identity = pointer_to identity_type ([], (c.client_id, tt))
    let filter : Val filter_type = (id, (name, ((flags, tt), tt)))
    ok (record {
      headers = (set_custom_header client_identity identity m.headers).0;
      body = some (pointer_to filter_body_type (c.client_id, (some filter, tt)));
    })

  unfoldable pub connection_message : (List ℕ → Argument) → NamingClient → Result Message
  unfolding new_naming_message
  connection_message connection_body c = do
    m ← new_naming_message (new_guid_v4 (random 0)) connection_request
    ok (record m { body = some (connection_body c.client_id) })

  -- RegisterFilter; the counter is a uint64.
  unfoldable pub register_filter :
      (List ℕ → Argument) → NamingClient → Val uri_type → Bool → Bool → NamingClient × Sent ℕ
  unfolding exchange filter_message connection_message followed_by filter_flags
  register_filter connection_body c name prefix primary =
      let id = (c.next_filter_id + 1) % 2 ^ 64 in
      let first = exchange 0 (connection_message connection_body c) in
      let second = exchange 1 (filter_message c id name (filter_flags prefix primary)) in
      (record c { next_filter_id = id }, followed_by first (followed_by second ([], ok id)))

  -- Ping
  unfoldable pub ping : {Gateway : Type 0} → (List ℕ → Result Gateway) → Sent Gateway
  unfolding new_naming_message exchange gateway_of
  ping read_gateway =
      let (ms, r) = exchange 0 (new_naming_message (new_guid_v4 (random 0)) ping_request) in
      (ms, gateway_of read_gateway r)

  unfoldable pub query_message : List ℕ → Result Message
  unfolding new_naming_message
  query_message filter = do
    m ← new_naming_message (new_guid_v4 (random 0)) query_request
    let args = some (((application_name, tt), (filter, tt)) ∷ [])
    ok (record m { body = some (pointer_to query_type ((args, tt), (application_list, tt))) })

  unfoldable pub applications : Result ByteArrayMessage → Result Applications
  unfolding list_of
  applications r = do
    reply ← r
    result ← unmarshal reply.body query_result_type (zero_val query_result_type)
    list_of result

  unfoldable pub ask : Result Message → Sent Applications
  unfolding applications
  ask (ok m) = (m ∷ [], applications (reply 0 m))
  ask (err e) = ([], err e)
  ask panic = ([], panic)

  -- GetApplicationList; it does not go through requestReply.
  unfoldable pub get_application_list : List ℕ → Sent Applications
  unfolding query_message ask
  get_application_list filter = ask (query_message filter)
