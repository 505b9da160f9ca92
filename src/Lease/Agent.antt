-- ===== src/Lease/Agent.antt =====
-- lease/agent.go: the agent, its map of sessions and the messages that reach them.
--
-- A session is shared between the agent and its user, so that the map holds pointers into a heap.
-- The agent's state is one under its locks. `dial` is what the dialer answers, `none` an error.
pub mod Laws
use phabrik.Base.{
  ℕ, ◌+◌, Bool, true, false, List, [], ◌∷◌, Option, none, some, Result, ok, err, panic, ◌==◌,
  if◌then◌else◌, ◌>>=◌,
}
use phabrik.Serialization.Guid.{bytes_eq}
use phabrik.Lease.Session.{LeaseSession, Message, close, reconnect, on_message, new_session}

pub record Agent : Type 0 where
  pub dial_closed : Bool
  pub listener_closed : Bool
  pub sessions : List (List ℕ × ℕ)
  pub heap : ℕ → LeaseSession
  pub next_session : ℕ

unfoldable pub load : List ℕ → List (List ℕ × ℕ) → Option ℕ
load k [] = none
load k ((j, p) ∷ m) = if bytes_eq j k then some p else load k m

unfoldable pub delete : List ℕ → List (List ℕ × ℕ) → List (List ℕ × ℕ)
delete k [] = []
delete k ((j, p) ∷ m) = let rest = delete k m in if bytes_eq j k then rest else (j, p) ∷ rest

unfoldable pub set_session : ℕ → LeaseSession → Agent → Agent
set_session p s a = record a { heap = λ q. if q == p then s else a.heap q }

-- The dialer: Close puts closedDialer in its place.
unfoldable pub agent_dial : Option ℕ → Agent → Option ℕ
agent_dial dial a = if a.dial_closed then none else dial

-- Establish; `uniq_id` is the time that uniqId reads.
unfoldable pub establish : Option ℕ → List ℕ → ℕ → Agent → Result (ℕ × Agent)
unfolding agent_dial set_session delete
establish dial addr uniq_id a = do
  s ← reconnect (agent_dial dial a) (new_session addr uniq_id)
  let b = set_session a.next_session s a
  ok (
    a.next_session,
    record b {
      sessions = (addr, a.next_session) ∷ delete addr a.sessions;
      next_session = a.next_session + 1;
    },
  )

-- Close of the session at a pointer, the entry of the agent included.
unfoldable pub close_session : ℕ → Agent → Result Agent
unfolding set_session delete
close_session p a = do
  s ← close (a.heap p)
  ok (set_session p s (record a { sessions = delete (a.heap p).addr a.sessions }))

-- One message in the loop of handleIncoming.
unfoldable pub delivered : ℕ → Message → Agent → Option ℕ → Result Agent
unfolding set_session
delivered now m a none = ok a
delivered now m a (some p) = do s ← on_message now m (a.heap p); ok (set_session p s a)

unfoldable pub handle_incoming : ℕ → Message → Agent → Result Agent
unfolding delivered load
handle_incoming now m a = delivered now m a (load m.message_listen_endpoint a.sessions)

unfoldable pub close_sessions : List (List ℕ × ℕ) → Agent → Result Agent
unfolding close_session
close_sessions [] a = ok a
close_sessions ((_, p) ∷ m) a = do b ← close_session p a; close_sessions m b

-- Close of the agent; Range comes to the entries that there were.
unfoldable pub close_agent : Agent → Result Agent
unfolding close_sessions
close_agent a = close_sessions a.sessions (record a { dial_closed = true; listener_closed = true })
