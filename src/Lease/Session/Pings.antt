-- ===== src/Lease/Session/Pings.antt =====
-- Who waits for a pong, and what releases him (lease/agent.go).
use phabrik.Base.{
  ℕ, ◌+◌, ◌<◌, ◌≡◌, refl, ap, ◌∙◌, ◌⊎◌, inl, inr, true, false, List, [], ◌∷◌, Option, some, none,
  Result, ok, err, errorf, if◌then◌else◌, arith, Bool-cases, ne→==,
}
use phabrik.Transport.RequestTable.{contains}
use phabrik.Lease.Session.{
  LeaseSession, Message, LeaseMessageType, lease_request, lease_response, ping_request,
  ping_response, forward_request, forward_response, relay_request, relay_response, Event, closes,
  reconnects, receives, fails_to_write, boardcast_pong, close, dialled, reconnect, on_message,
  write_failed, keep, step, run, new_session,
}

-- Every channel that is closed was made before the one in use.
abbrev pub AreOlder : ℕ → List ℕ → Type 0
AreOlder n [] = Unit {0}
AreOlder n (c ∷ cs) = (c < n) × AreOlder n cs

abbrev pub IsFresh : LeaseSession → Type 0
IsFresh s = AreOlder s.ping_ch s.closed_chs

older_open : (n : ℕ) (cs : List ℕ) → AreOlder n cs → contains n cs ≡ false
unfolding contains
older_open n [] h = refl
older_open n (c ∷ cs) h = rw (ne→== c n (λ e. absurd (omega arith))) (older_open n cs h.1)

older_next : (n : ℕ) (cs : List ℕ) → AreOlder n cs → AreOlder (n + 1) cs
older_next n [] h = tt
older_next n (c ∷ cs) h = (omega arith, older_next n cs h.1)

boardcast :
    (s : LeaseSession)
    → IsFresh s
    → boardcast_pong s
      ≡ ok (record s { ping_ch = s.ping_ch + 1; closed_chs = s.ping_ch ∷ s.closed_chs })
unfolding boardcast_pong
boardcast s f = rw (older_open s.ping_ch s.closed_chs f)

boardcast_fresh :
    (s : LeaseSession) → IsFresh s → AreOlder (s.ping_ch + 1) (s.ping_ch ∷ s.closed_chs)
boardcast_fresh s f = (omega arith, older_next s.ping_ch s.closed_chs f)

-- A pong closes the channel in use, and only that one, and puts an open channel in its place, so a
-- Ping that took its channel before is released and one that takes it afterwards waits on an open
-- channel; it is noted with its time and with the instance of the remote agent.
pub on_message_pong :
    (now : ℕ) (m : Message) (s : LeaseSession)
    → m.typ ≡ ping_response
    → IsFresh s
    → (t : LeaseSession) × (on_message now m s ≡ ok t)
      × (t.closed_chs ≡ s.ping_ch ∷ s.closed_chs)
      × (contains t.ping_ch t.closed_chs ≡ false)
      × (t.lastpong ≡ now)
      × (t.remote_instance ≡ m.remote_lease_agent_instance)
unfolding on_message
on_message_pong now m s e f =
    let s' : LeaseSession = record s {
      lastpong = now;
      remote_instance = m.remote_lease_agent_instance;
    } in
    (
      record s' { ping_ch = s.ping_ch + 1; closed_chs = s.ping_ch ∷ s.closed_chs },
      rw e (boardcast s' f),
      refl,
      older_open (s.ping_ch + 1) _ (boardcast_fresh s f),
      refl,
      refl,
    )

-- What a step does: it does not panic, it keeps the channel fresh, and a closed session stays closed
-- on the connection that it has.
abbrev Goes : LeaseSession → Result LeaseSession → Type 0
Goes s r =
    (t : LeaseSession) × (r ≡ ok t)
    × IsFresh t
    × (s.closed ≡ true → (t.closed ≡ true) × (t.conn ≡ s.conn))

stays : (s : LeaseSession) → IsFresh s → Goes s (ok s)
stays s f = (s, refl, f, λ a. (a, refl))

close_closes :
    (s : LeaseSession)
    → IsFresh s
    → (t : LeaseSession) × (close s ≡ ok t) × IsFresh t × (t.closed ≡ true) × (t.conn ≡ s.conn)
unfolding close
close_closes s f = elim (Bool-cases s.closed) [
  | inl e ↦ (s, rw e refl, f, e, refl)
  | inr e ↦ (
    record s { closed = true; ping_ch = s.ping_ch + 1; closed_chs = s.ping_ch ∷ s.closed_chs },
    rw e (boardcast (record s { closed = true }) f),
    boardcast_fresh s f,
    refl,
    refl,
  )
]

close-Goes : (s : LeaseSession) → IsFresh s → Goes s (close s)
close-Goes s f = let (t, a, g, c, k) = close_closes s f in (t, a, g, λ _. (c, k))

dialled-Goes :
    (d : Option ℕ) (s : LeaseSession) → IsFresh s → s.closed ≡ false → Goes s (keep s (dialled d s))
unfolding keep dialled
dialled-Goes (some c) s f e = (record s { conn = c; connected = true }, refl, f, λ a. cc)
dialled-Goes none s f e = stays s f

reconnect_cases :
    (d : Option ℕ) (s : LeaseSession)
    → ((reconnect d s ≡ ok s) ⊎ (reconnect d s ≡ err (errorf "session closed")))
      ⊎ ((s.closed ≡ false) × (reconnect d s ≡ dialled d s))
unfolding reconnect
reconnect_cases d s = elim (Bool-cases s.connected) [
  | inl e ↦ inl (
      inl (
        ap
          (λ b.
            if b then ok s else (if s.closed then err (errorf "session closed") else dialled d s))
          e))
  | inr e ↦ elim (Bool-cases s.closed) [
    | inl c ↦ inl (
        inr (
          ap
            (λ b.
              if b then ok s else (if s.closed then err (errorf "session closed") else dialled d s))
            e
          ∙ ap (λ b. if b then err (errorf "session closed") else dialled d s) c))
    | inr c ↦ inr (
      c,
      ap
            (λ b.
              if b then ok s else (if s.closed then err (errorf "session closed") else dialled d s))
            e
          ∙ ap (λ b. if b then err (errorf "session closed") else dialled d s) c,
    )
  ]
]

reconnect-Goes : (d : Option ℕ) (s : LeaseSession) → IsFresh s → Goes s (keep s (reconnect d s))
unfolding keep
reconnect-Goes d s f = elim (reconnect_cases d s) [
  | inl (inl e) ↦ rw e (stays s f)
  | inl (inr e) ↦ rw e (stays s f)
  | inr (c, e) ↦ rw e (dialled-Goes d s f c)
]

on_message-Goes :
    (now : ℕ) (m : Message) (s : LeaseSession)
    → IsFresh s
    → (t : LeaseMessageType) → m.typ ≡ t
    → Goes s (on_message now m s)
unfolding on_message
on_message-Goes now m s f ping_response e =
    let s' : LeaseSession = record s {
      lastpong = now;
      remote_instance = m.remote_lease_agent_instance;
    } in
    (
      record s' { ping_ch = s.ping_ch + 1; closed_chs = s.ping_ch ∷ s.closed_chs },
      rw e (boardcast s' f),
      boardcast_fresh s f,
      λ a. (a, refl),
    )
on_message-Goes now m s f lease_request e = rw e (stays s f)
on_message-Goes now m s f lease_response e = rw e (stays s f)
on_message-Goes now m s f ping_request e = rw e (stays s f)
on_message-Goes now m s f forward_request e = rw e (stays s f)
on_message-Goes now m s f forward_response e = rw e (stays s f)
on_message-Goes now m s f relay_request e = rw e (stays s f)
on_message-Goes now m s f relay_response e = rw e (stays s f)

step-Goes : (e : Event) (s : LeaseSession) → IsFresh s → Goes s (step e s)
unfolding step write_failed
step-Goes closes s f = close-Goes s f
step-Goes (reconnects d) s f = reconnect-Goes d s f
step-Goes (receives now m) s f = on_message-Goes now m s f m.typ refl
step-Goes fails_to_write s f = (record s { connected = false }, refl, f, λ a. (a, refl))

run-Goes : (es : List Event) (s : LeaseSession) → IsFresh s → Goes s (run es s)
unfolding run
run-Goes [] s f = stays s f
run-Goes (e ∷ es) s f =
    let (t, a, g, c) = step-Goes e s f in
    let (u, b, h, d) = run-Goes es t g in
    (u, rw a b, h, λ k. (let (k1, k2) = c k in let (k3, k4) = d k1 in (k3, k4 ∙ k2)))

-- No channel is closed twice: from the session that Establish makes, every order of closing,
-- reconnecting, messages and failed writes goes through without a panic, and leaves the channel in
-- use open.
pub run_total :
    (addr : List ℕ) (uniq_id : ℕ) (es : List Event)
    → (t : LeaseSession) × (run es (new_session addr uniq_id) ≡ ok t)
      × (contains t.ping_ch t.closed_chs ≡ false)
run_total addr uniq_id es =
    let (t, a, g, _) = run-Goes es (new_session addr uniq_id) tt in
    (t, a, older_open t.ping_ch t.closed_chs g)

-- After Close, a session stays closed and never gets another connection, whatever happens to it.
pub close-run :
    (es : List Event) (s : LeaseSession)
    → IsFresh s
    → (t u : LeaseSession) × (close s ≡ ok t)
      × (run es t ≡ ok u)
      × (u.closed ≡ true)
      × (u.conn ≡ s.conn)
close-run es s f =
    let (t, a, g, c, k) = close_closes s f in
    let (u, b, _, d) = run-Goes es t g in let (k1, k2) = d c in (t, u, a, b, k1, k2 ∙ k)
