-- ===== src/Lease/Agent/Laws.antt =====
-- Which sessions a message reaches, and what closing leaves (lease/agent.go).
use phabrik.Base.{
  ℕ, ◌≡◌, ◌≢◌, ne→==, refl, ap, sym, ◌∙◌, inl, inr, true, false, List, [], ◌∷◌, Option, none, some,
  ok, err, panic, errorf, ◌==◌, ==_self, if◌then◌else◌, ◌>>=◌, arith, Bool-cases, >>=-eq-ok,
}
use phabrik.Serialization.Guid.{bytes_eq, bytes_eq_self}
use phabrik.Lease.Session.{
  LeaseSession, Message, close, reconnect, dialled, on_message, new_session,
}
use phabrik.Lease.Agent.{
  Agent, load, delete, set_session, agent_dial, establish, close_session, delivered,
  handle_incoming, close_sessions, close_agent,
}

load-delete : (k : List ℕ) (m : List (List ℕ × ℕ)) → load k (delete k m) ≡ none
unfolding load delete
load-delete k [] = refl
load-delete k ((i, p) ∷ m) = elim (Bool-cases (bytes_eq i k)) [
  | inl e ↦ rw e (load-delete k m)
  | inr e ↦ rw (e, load, e) (load-delete k m)
]

-- Right after a session is closed, its address reaches no session.
handle_incoming-after_close :
    (now p : ℕ) (m : Message) (a b : Agent)
    → close_session p a ≡ ok b
    → m.message_listen_endpoint ≡ (a.heap p).addr
    → handle_incoming now m b ≡ ok b
unfolding close_session handle_incoming set_session delivered
handle_incoming-after_close now p m a b e k =
    let (s, e1, e2) = >>=-eq-ok (close (a.heap p)) _ e in
    let table : b.sessions ≡ delete (a.heap p).addr a.sessions = ground (arith, e2) in
    rw (table, k, load-delete (a.heap p).addr a.sessions)

close_session-dial :
    (p : ℕ) (a b : Agent) → close_session p a ≡ ok b → b.dial_closed ≡ a.dial_closed
unfolding close_session set_session
close_session-dial p a b e =
    let (s, e1, e2) = >>=-eq-ok (close (a.heap p)) _ e in ground (arith, e2)

close_sessions-dial :
    (m : List (List ℕ × ℕ)) (a b : Agent)
    → close_sessions m a ≡ ok b
    → b.dial_closed ≡ a.dial_closed
unfolding close_sessions
close_sessions-dial [] a b e = ground (arith, e)
close_sessions-dial ((k, p) ∷ m) a b e =
    let (c, e1, e2) = >>=-eq-ok (close_session p a) _ e in
    close_sessions-dial m c b e2 ∙ close_session-dial p a c e1

-- Once the agent is closed, no session is established any more, whatever the dialer answers.
pub establish-close_agent :
    (a b : Agent) (dial : Option ℕ) (addr : List ℕ) (uniq_id : ℕ)
    → close_agent a ≡ ok b
    → establish dial addr uniq_id b ≡ err (errorf "dial")
unfolding close_agent establish reconnect agent_dial dialled
establish-close_agent a b dial addr uniq_id e =
    rw
      (close_sessions-dial a.sessions (record a { dial_closed = true; listener_closed = true }) b e)

-- A session that is established is reached: a message from its address goes to it, and the agent
-- is otherwise as it was.
pub handle_incoming-establish :
    (now uniq_id p : ℕ) (dial : Option ℕ) (addr : List ℕ) (m : Message) (a b : Agent)
    → establish dial addr uniq_id a ≡ ok (p, b)
    → m.message_listen_endpoint ≡ addr
    → handle_incoming now m b ≡ (on_message now m (b.heap p) >>= λ s. ok (set_session p s b))
unfolding establish handle_incoming delivered load
handle_incoming-establish now uniq_id p dial addr m a b e k =
    let (s, e1, e2) = >>=-eq-ok (reconnect (agent_dial dial a) (new_session addr uniq_id)) _ e in
    let table : b.sessions ≡ (addr, p) ∷ delete addr a.sessions = ground (arith, e2) in
    let found : load m.message_listen_endpoint b.sessions ≡ some p =
      ap (λ t. load m.message_listen_endpoint t) table
      ∙ (ap (λ j. if bytes_eq addr j then some p else load j (delete addr a.sessions)) k
          ∙ rw (bytes_eq_self addr) refl) in
    ap (delivered now m b) found

-- Closing a session leaves the others on the heap.
close_session-others :
    (p q : ℕ) (a b : Agent) → close_session p a ≡ ok b → q ≢ p → b.heap q ≡ a.heap q
unfolding close_session set_session
close_session-others p q a b e apart =
    let (s, e1, e2) = >>=-eq-ok (close (a.heap p)) _ e in
    let heap : b.heap q ≡ (if q == p then s else a.heap q) =
      ap (λ r. elim r [ ok c ↦ c.heap q | err x ↦ a.heap q | panic ↦ a.heap q ]) (sym e2) in
    heap ∙ rw (ne→== q p apart) refl

reconnect-open :
    (dial : Option ℕ) (addr : List ℕ) (uniq_id : ℕ) (s : LeaseSession)
    → reconnect dial (new_session addr uniq_id) ≡ ok s
    → s.closed ≡ false
unfolding reconnect dialled
reconnect-open none addr uniq_id s e = ground (arith, e)
reconnect-open (some c) addr uniq_id s e = ground (arith, e)

-- What Establish makes: a new pointer, to a session that is not closed, and the others as they were.
establish-new :
    (dial : Option ℕ) (addr : List ℕ) (uniq_id q : ℕ) (a b : Agent)
    → establish dial addr uniq_id a ≡ ok (q, b)
    → (q ≡ a.next_session)
      × ((b.heap q).closed ≡ false)
      × ((p : ℕ) → p ≢ a.next_session → b.heap p ≡ a.heap p)
unfolding establish set_session
establish-new dial addr uniq_id q a b e =
    let (s, e1, e2) = >>=-eq-ok (reconnect (agent_dial dial a) (new_session addr uniq_id)) _ e in
    let pointer : q ≡ a.next_session = ground (arith, e2) in
    let heap : (p : ℕ) → b.heap p ≡ (if p == a.next_session then s else a.heap p) =
      λ p. ap (λ r. elim r [ ok c ↦ c.1.heap p | err x ↦ a.heap p | panic ↦ a.heap p ]) (sym e2) in
    let made : b.heap q ≡ s = heap q ∙ rw (pointer, ==_self a.next_session) refl in
    (
      pointer,
      ap (λ (t : LeaseSession). t.closed) made
          ∙ reconnect-open (agent_dial dial a) addr uniq_id s e1,
      λ p apart. heap p ∙ rw (ne→== p a.next_session apart) refl,
    )

-- Where a session is established to the address of an older one, a message from this address goes to
-- the new session. If then the older one is closed, such a message reaches no session and changes
-- nothing, although the new session is as it was, and not closed.
pub handle_incoming-close_session :
    (now p q uniq_id : ℕ) (dial : Option ℕ) (m : Message) (a b c : Agent)
    → p ≢ a.next_session
    → establish dial (a.heap p).addr uniq_id a ≡ ok (q, b)
    → close_session p b ≡ ok c
    → m.message_listen_endpoint ≡ (a.heap p).addr
    → (handle_incoming now m b ≡ (on_message now m (b.heap q) >>= λ s. ok (set_session q s b)))
      × (handle_incoming now m c ≡ ok c)
      × (c.heap q ≡ b.heap q)
      × ((c.heap q).closed ≡ false)
handle_incoming-close_session now p q uniq_id dial m a b c older e closed from =
    let (pointer, opened, kept) = establish-new dial (a.heap p).addr uniq_id q a b e in
    let same = close_session-others p q b c closed (λ k. older (sym k ∙ pointer)) in
    (
      handle_incoming-establish now uniq_id q dial (a.heap p).addr m a b e from,
      handle_incoming-after_close now p m b c closed
          (from ∙ ap (λ (t : LeaseSession). t.addr) (sym (kept p older))),
      same,
      ap (λ (t : LeaseSession). t.closed) same ∙ opened,
    )
