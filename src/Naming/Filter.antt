-- ===== src/Naming/Filter.antt =====
-- Registering a filter: what the gateway gets, and when it fails (RegisterFilter of naming/naming.go).
use phabrik.Base.{
  ℕ, ◌+◌, ◌%◌, ◌^◌, ◌<◌, ◌≡◌, ◌≢◌, refl, ap, sym, ◌∙◌, Bool, true, false, List, [], ◌∷◌, Option,
  some, Result, ok, err, panic, errorf, ◌>>=◌, length, arith,
}
use phabrik.Serialization.Guid.{Guid, bytes_eq, bytes_eq_self, new_guid_v4}
use phabrik.Serialization.Utf16.{AreRunes}
use phabrik.Serialization.GoType.{GoType, Val, zero_val}
use phabrik.Serialization.Marshal.{Argument, pointer_to, marshal, is_struct}
use phabrik.Serialization.Unmarshal.{unmarshal}
use phabrik.Serialization.RoundTrip.Values.{IsWf, marshal_total, unmarshal-marshal}
use phabrik.Transport.Headers.{set_custom_header}
use phabrik.Transport.Message.{Message, ByteArrayMessage, body_bytes}
use phabrik.Naming.Types.{identity_type, uri_type, filter_body_type, failure_type}
use phabrik.Naming.{
  NamingClient, Sent, client_identity, naming_headers, register_request, connection_request,
  client_operation_failure, new_naming_message, checked, filter_flags, followed_by, exchange,
  filter_message, connection_message, register_filter,
}

filter_flags-fits : (a b : Bool) → filter_flags a b < 2 ^ 32
unfolding filter_flags
filter_flags-fits true true = omega arith
filter_flags-fits true false = omega arith
filter_flags-fits false true = omega arith
filter_flags-fits false false = omega arith

-- What the gateway is to read of a filter.
abbrev pub filter_body : List ℕ → ℕ → Val uri_type → ℕ → Val filter_body_type
filter_body client_id id name flags = (client_id, (some (id, (name, ((flags, tt), tt))), tt))

-- The gateway reads this from a body.
abbrev pub ReadsBody : (t : GoType) → Val t → Option Argument → Type 0
ReadsBody t v body = (b : List ℕ) × (body_bytes body ≡ ok b) × (unmarshal b t (zero_val t) ≡ ok v)

-- What is marshalled for a value is shorter than 2 ^ 32 bytes.
abbrev pub IsShort : (t : GoType) → Val t → Type 0
IsShort t v = (b : List ℕ) → marshal (pointer_to t v) ≡ ok b → length b < 2 ^ 32

pointer-ReadsBody :
    (t : GoType) (v : Val t)
    → is_struct t ≡ true
    → IsWf t v
    → IsShort t v
    → ReadsBody t v (some (pointer_to t v))
unfolding body_bytes
pointer-ReadsBody t v st wf short =
    let (b, e, _) = marshal_total t v st wf in
    (b, e, unmarshal-marshal t v (zero_val t) b wf e (short b e))

-- A reply that reports ClientOperationFailure is an error whatever its body holds.
pub checked_failure :
    (r v : ByteArrayMessage) → r.headers.action ≡ client_operation_failure → checked (ok r) ≢ ok v
unfolding checked
checked_failure r v e =
    rw (ap (λ a. bytes_eq a client_operation_failure) e ∙ bytes_eq_self client_operation_failure)
      (never (unmarshal r.body failure_type (0, tt)))
  where
    never :
        (u : Result (Val failure_type))
        → (u >>= λ _. err (errorf "ClientOperationFailure HResult: %v")) ≢ ok v
    never (ok x) = λ h. ground (arith, h)
    never (err x) = λ h. ground (arith, h)
    never panic = λ h. ground (arith, h)

stopped :
    {Next : Type 0} (m : Message) (x : Result ByteArrayMessage) (later : Sent Next)
    → ((v : ByteArrayMessage) → x ≢ ok v)
    → (length (followed_by (m ∷ [], x) later).0 ≡ 1)
      × ((n : Next) → (followed_by (m ∷ [], x) later).1 ≢ ok n)
unfolding followed_by
stopped m (ok v) later h = absurd (h v refl)
stopped m (err e) later h = (refl, λ n k. ground (arith, k))
stopped m panic later h = (refl, λ n k. ground (arith, k))

module _ (random : ℕ → Result (List ℕ)) (reply : ℕ → Message → Result ByteArrayMessage) where
  filter_message-ReadsBody :
      (c : NamingClient) (id flags : ℕ) (name : Val uri_type) (g : Guid)
      → new_guid_v4 (random 1) ≡ ok g
      → AreRunes c.client_id
      → id < 2 ^ 64
      → flags < 2 ^ 32
      → IsWf uri_type name
      → IsShort filter_body_type (filter_body c.client_id id name flags)
      → (m : Message) × (filter_message random reply c id name flags ≡ ok m)
        × ReadsBody filter_body_type (filter_body c.client_id id name flags) m.body
  unfolding filter_message new_naming_message is_struct
  filter_message-ReadsBody c id flags name g eg runes hi hf hn short =
      let body : Option Argument =
        some (pointer_to filter_body_type (filter_body c.client_id id name flags)) in
      let identity : Argument = pointer_to identity_type ([], (c.client_id, tt)) in
      let m : Message = record {
        headers =
            (set_custom_header client_identity identity (naming_headers g register_request)).0;
        body = body;
      } in
      (
        m,
        rw eg refl,
        pointer-ReadsBody filter_body_type (filter_body c.client_id id name flags) refl
            (runes, ((hi, (hn, ((hf, tt), tt))), tt)) short,
      )

  exchange_through :
      (n : ℕ) (m : Message) (call : Result Message) (r : ByteArrayMessage)
      → call ≡ ok m
      → checked (reply n m) ≡ ok r
      → exchange random reply n call ≡ (m ∷ [], ok r)
  unfolding exchange
  exchange_through n m call r e h = rw (e, h) refl

  -- Registering a filter where both GUIDs can be made and the gateway gives neither message an error
  -- or a ClientOperationFailure: it succeeds with the next filter identifier, which the client then
  -- has, after exactly two messages; from the body of the second the gateway reads the client id and
  -- the filter, that is, this identifier, the name and the flags. The client id and the name are to be
  -- well-formed, and the body shorter than 2 ^ 32 bytes.
  pub register_filter-ReadsBody :
      (connection_body : List ℕ → Argument) (c : NamingClient) (name : Val uri_type)
      (prefix primary : Bool) (g g' : Guid)
      → new_guid_v4 (random 0) ≡ ok g
      → new_guid_v4 (random 1) ≡ ok g'
      → ((n : ℕ) (m : Message) → (r : ByteArrayMessage) × (checked (reply n m) ≡ ok r))
      → AreRunes c.client_id
      → IsWf uri_type name
      → IsShort filter_body_type (
          filter_body c.client_id
            ((c.next_filter_id + 1) % 2 ^ 64)
            name
            (filter_flags prefix primary))
      → (let id = (c.next_filter_id + 1) % 2 ^ 64 in
          (m m' : Message) × (register_filter random reply connection_body c name prefix primary
            ≡ (record c { next_filter_id = id }, (m ∷ m' ∷ [], ok id)))
          × ReadsBody filter_body_type
              (filter_body c.client_id id name (filter_flags prefix primary))
              m'.body)
  unfolding register_filter
  register_filter-ReadsBody connection_body c name prefix primary g g' eg eg' replies runes wf
        short =
      let id : ℕ = (c.next_filter_id + 1) % 2 ^ 64 in
      let flags : ℕ = filter_flags prefix primary in
      let m : Message = record {
        headers = naming_headers g connection_request;
        body = some (connection_body c.client_id);
      } in
      let em : connection_message random reply connection_body c ≡ ok m =
        unfold connection_message new_naming_message in rw eg refl in
      let (m', em', reads) =
        filter_message-ReadsBody c id flags name g' eg' runes (omega arith)
          (filter_flags-fits prefix primary) wf short in
      let (r, er) = replies 0 m in
      let (r', er') = replies 1 m' in
      (
        m,
        m',
        rw (exchange_through 0 m _ r em er, exchange_through 1 m' _ r' em' er')
            (unfold followed_by in refl),
        reads,
      )

  -- Where the gateway reports a failure of the first message, RegisterFilter fails and the filter is
  -- not sent, but the identifier is used up.
  pub register_filter_refused :
      (connection_body : List ℕ → Argument) (c : NamingClient) (name : Val uri_type)
      (prefix primary : Bool) (g : Guid)
      → new_guid_v4 (random 0) ≡ ok g
      → ((m : Message)
          → (r : ByteArrayMessage) × (reply 0 m ≡ ok r)
            × (r.headers.action ≡ client_operation_failure))
      → (let t = register_filter random reply connection_body c name prefix primary in
          (length t.1.0 ≡ 1)
          × ((id : ℕ) → t.1.1 ≢ ok id)
          × (t.0.next_filter_id ≡ (c.next_filter_id + 1) % 2 ^ 64))
  unfolding register_filter
  register_filter_refused connection_body c name prefix primary g eg refuses =
      let m : Message = record {
        headers = naming_headers g connection_request;
        body = some (connection_body c.client_id);
      } in
      let em : connection_message random reply connection_body c ≡ ok m =
        unfold connection_message new_naming_message in rw eg refl in
      let (r, er, failed) = refuses m in
      let bad : (v : ByteArrayMessage) → checked (reply 0 m) ≢ ok v =
        λ v h. checked_failure r v failed (sym (ap checked er) ∙ h) in
      let (short, fails) = stopped m (checked (reply 0 m)) _ bad in
      rw em (unfold exchange in (short, fails, refl))
