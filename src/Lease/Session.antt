-- ===== src/Lease/Session.antt =====
-- lease/agent.go and lease/message.go: lease sessions and the agent that keeps them.
--
-- A session is one under its lock, so that each operation is one step. The channel pingCh is a
-- number, each new channel the next one; a close of a closed channel panics. A connection is a number,
-- 0 if there is none yet; a time is a number. Strings are lists of runes. What dialing answers is
-- an argument, `none` an error; that a connection is closed is the network's matter.
pub mod Pings
use phabrik.Base.{
  ℕ, ◌+◌, Bool, true, false, not, List, [], ◌∷◌, Option, none, some, Result, ok, err, panic, errorf,
  ◌==◌, if◌then◌else◌, ◌>>=◌,
}
use phabrik.Serialization.Guid.{bytes_eq}
use phabrik.Transport.RequestTable.{contains}

pub data LeaseMessageType : Type 0 where
  lease_request lease_response ping_request ping_response forward_request forward_response
        relay_request relay_response :
      LeaseMessageType

-- The fields of a Message that a session reads or fills in.
pub record Message : Type 0 where
  pub typ : LeaseMessageType
  pub lease_instance : ℕ
  pub remote_lease_agent_instance : ℕ
  pub expiration : ℕ
  pub message_listen_endpoint : List ℕ

pub record LeaseSession : Type 0 where
  pub addr : List ℕ
  pub local_instance : ℕ
  pub remote_instance : ℕ
  pub closed : Bool
  pub conn : ℕ
  pub connected : Bool
  pub ping_ch : ℕ
  pub closed_chs : List ℕ
  pub lastpong : ℕ

-- boardcastPong
unfoldable pub boardcast_pong : LeaseSession → Result LeaseSession
boardcast_pong s =
    if contains s.ping_ch s.closed_chs
    then panic
    else ok (record s { ping_ch = s.ping_ch + 1; closed_chs = s.ping_ch ∷ s.closed_chs })

-- Close, under the lock of the session.
unfoldable pub close : LeaseSession → Result LeaseSession
unfolding boardcast_pong
close s = if s.closed then ok s else boardcast_pong (record s { closed = true })

unfoldable pub dialled : Option ℕ → LeaseSession → Result LeaseSession
dialled (some c) s = ok (record s { conn = c; connected = true })
dialled none s = err (errorf "dial")

-- reconnect; on an error the session stays as it was.
unfoldable pub reconnect : Option ℕ → LeaseSession → Result LeaseSession
unfolding dialled
reconnect dial s =
    if s.connected
    then ok s
    else (if s.closed then err (errorf "session closed") else dialled dial s)

-- onMessage at the time `now`
unfoldable pub on_message : ℕ → Message → LeaseSession → Result LeaseSession
unfolding boardcast_pong
on_message now m s = elim m.typ [
  | ping_response ↦
      boardcast_pong (record s { lastpong = now; remote_instance = m.remote_lease_agent_instance })
  | _ ↦ ok s
]

-- Ping, where writing fails for good.
unfoldable pub write_failed : LeaseSession → LeaseSession
write_failed s = record s { connected = false }

-- createPingMessage with the lease duration of the configuration
unfoldable pub create_ping_message : ℕ → LeaseSession → Message
create_ping_message lease_duration s = record {
  typ = ping_request;
  lease_instance = s.local_instance;
  remote_lease_agent_instance = s.remote_instance;
  expiration = lease_duration;
  message_listen_endpoint = [];
}

-- The session that Establish makes.
abbrev pub new_session : List ℕ → ℕ → LeaseSession
new_session addr uniq_id = record {
  addr = addr;
  local_instance = uniq_id;
  remote_instance = 0;
  closed = false;
  conn = 0;
  connected = false;
  ping_ch = 0;
  closed_chs = [];
  lastpong = 0;
}

-- What happens to a session, in any order.
pub data Event : Type 0 where
  closes : Event
  reconnects : Option ℕ → Event
  receives : ℕ → Message → Event
  fails_to_write : Event

-- A caller of reconnect that gets an error goes on with the session as it was.
unfoldable pub keep : LeaseSession → Result LeaseSession → Result LeaseSession
keep s (ok t) = ok t
keep s (err e) = ok s
keep s panic = panic

unfoldable pub step : Event → LeaseSession → Result LeaseSession
unfolding close reconnect on_message write_failed keep
step closes s = close s
step (reconnects dial) s = keep s (reconnect dial s)
step (receives now m) s = on_message now m s
step fails_to_write s = ok (write_failed s)

unfoldable pub run : List Event → LeaseSession → Result LeaseSession
unfolding step
run [] s = ok s
run (e ∷ es) s = do t ← step e s; run es t
