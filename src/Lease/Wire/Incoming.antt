-- ===== src/Lease/Wire/Incoming.antt =====
-- What an agent makes of messages that an agent of this library wrote (Ping and handleIncoming of
-- lease/agent.go).
use phabrik.Base.{
  ℕ, suc, ◌+◌, ◌^◌, ◌<◌, ◌≡◌, refl, ap, ◌∙◌, List, ◌++◌, Option, some, Result, err, errorf, length,
  arith,
}
use phabrik.Lease.Frame.{write_data_with_frame}
use phabrik.Lease.Frame.RoundTrip.{next_lt_frame-write_data}
use phabrik.Lease.Session.{LeaseSession, create_ping_message}
use phabrik.Lease.Agent.{Agent, handle_incoming}
use phabrik.Lease.Serialize.Body.{MarshalContext, LeaseMessage, marshal, unmarshal}
use phabrik.Lease.Serialize.Layout.{IsLeaseMessage}
use phabrik.Lease.Serialize.Endpoint.{IsContext}
use phabrik.Lease.Serialize.RoundTrip.{
  AreShort, received, unmarshal-marshal_refused, unmarshal-marshal_followed,
}
use phabrik.Lease.Wire.{filled, seen, ping_bytes, opened, framed, handled, incoming}

module _ (join_host_port : List ℕ → ℕ → List ℕ) (now : ℕ) where
  -- A frame, and what it unmarshals to.
  incoming-frame :
      (n : ℕ) (body rest : List ℕ) (a : Agent) (read : Result LeaseMessage)
      → length body + 12 < 2 ^ 32
      → unmarshal join_host_port body ≡ read
      → incoming join_host_port now (suc n) (write_data_with_frame body ++ rest) a
        ≡ opened
            (λ m more.
              handled
                (λ b. incoming join_host_port now n more b)
                a
                (handle_incoming now (seen m) a))
            rest
            a
            read
  unfolding incoming framed
  incoming-frame n body rest a read l e =
      let next : LeaseMessage → List ℕ → Option (Result (Unit {0}) × Agent) = λ m more.
        handled (λ b. incoming join_host_port now n more b) a (handle_incoming now (seen m) a) in
      ap (framed (unmarshal join_host_port) next a) (next_lt_frame-write_data body rest l)
      ∙ ap (opened next rest a) e

  -- A ping of an agent of this library ends the connection to another agent of it: the loop
  -- fails at the ping, whatever follows it, and no session has changed. The
  -- fields of the ping are in their Go types, and it is shorter than 2 ^ 32 - 12 bytes.
  pub incoming-ping :
      (n : ℕ) (c : MarshalContext) (uniq_id lease_duration : ℕ) (s : LeaseSession) (rest : List ℕ)
      (a : Agent)
      → IsLeaseMessage uniq_id (filled (create_ping_message lease_duration s))
      → length (marshal c uniq_id (filled (create_ping_message lease_duration s))) + 12 < 2 ^ 32
      → incoming join_host_port now (suc n) (ping_bytes c uniq_id lease_duration s ++ rest) a
        ≡ some (err (errorf "bad data start offset"), a)
  unfolding ping_bytes
  incoming-ping n c uniq_id lease_duration s rest a v l =
      let m : LeaseMessage = filled (create_ping_message lease_duration s) in
      incoming-frame n (marshal c uniq_id m) rest a _ l
        (unmarshal-marshal_refused join_host_port c uniq_id m v)
      ∙ unfold opened in refl

  -- A message with bytes behind it in its frame reaches the session of its writer's endpoint, as
  -- handle_incoming gives it, and the loop goes on behind the frame: for fields in their Go types,
  -- durations that are not negative and below 2 ^ 31 milliseconds, an address without surrogates,
  -- and a frame below 2 ^ 32 bytes.
  pub incoming-followed :
      (n : ℕ) (c : MarshalContext) (uniq_id : ℕ) (m : LeaseMessage) (behind rest : List ℕ)
      (a : Agent)
      → IsLeaseMessage uniq_id m
      → AreShort m
      → IsContext c
      → 0 < length behind
      → length (marshal c uniq_id m ++ behind) + 12 < 2 ^ 32
      → incoming join_host_port now
          (suc n)
          (write_data_with_frame (marshal c uniq_id m ++ behind) ++ rest)
          a
        ≡ handled
            (λ b. incoming join_host_port now n rest b)
            a
            (handle_incoming now (seen (received uniq_id m (join_host_port c.address c.port))) a)
  incoming-followed n c uniq_id m behind rest a v s vc pos l =
      incoming-frame n (marshal c uniq_id m ++ behind) rest a _ l
        (unmarshal-marshal_followed join_host_port c uniq_id m behind v s vc pos (omega arith))
      ∙ unfold opened in refl
