-- ===== src/Transport/Headers/Read.antt =====
-- How the headers of a message are parsed (transport/messageheaders.go).
use phabrik.Base.{
  ℕ, zero, suc, true, false, List, [], ◌∷◌, ◌++◌, Option, none, some, Result, ok, err, panic, eof,
  unexpected_eof, errorf, ◌==◌, if◌then◌else◌, ◌>>=◌, le_value, length,
}
use phabrik.Serialization.State.{read_full}
use phabrik.Serialization.GoType.{GoType, zero_val}
use phabrik.Serialization.Marshal.{Argument, bytes, pointer_to}
use phabrik.Serialization.Unmarshal.{unmarshal}
use phabrik.Transport.Headers.{
  empty_message_id, header_ids, MessageHeaders, Activators, insert, entries, get_custom_headers,
}
use phabrik.Transport.Headers.Write.{
  message_id_type, actor_type, action_type, flag_type, fault_type, retry_type, id_value, value_id,
}

-- nextMessageHeader
unfoldable pub next_message_header : List ℕ → Result (ℕ × List ℕ × List ℕ)
next_message_header r = do
  (id, r1) ← read_full 2 r
  (size, r2) ← read_full 2 r1
  (body, r3) ← read_full (le_value size) r2
  ok (le_value id, body, r3)

-- One more custom header behind those of its type; the parser's map is never nil.
unfoldable pub add_custom : ℕ → Argument → MessageHeaders → MessageHeaders
add_custom id v h = record h {
  custom_headers =
      some (insert id (get_custom_headers id h ++ (v ∷ [])) (entries h.custom_headers));
}

-- The default case: a type with an activator is unmarshalled, any other kept as bytes.
unfoldable pub set_custom : Option GoType → ℕ → List ℕ → MessageHeaders → Result MessageHeaders
unfolding add_custom
set_custom none id body h = ok (add_custom id (bytes body) h)
set_custom (some t) id body h = do
  v ← unmarshal body t (zero_val t)
  ok (add_custom id (pointer_to t v) h)

-- The switch of parseFabricMessageHeaders.
unfoldable pub set_header : Activators → ℕ → List ℕ → MessageHeaders → Result MessageHeaders
unfolding set_custom
set_header acts id body h =
    if id == header_ids.message_id
    then (do v ← unmarshal body message_id_type (id_value h.id); ok (record h { id = value_id v }))
    else (if id == header_ids.relates_to
        then (do
          v ← unmarshal body message_id_type (id_value h.relates_to)
          ok (record h { relates_to = value_id v }))
        else (if id == header_ids.actor
            then (do v ← unmarshal body actor_type (0, tt); ok (record h { actor = v.0 }))
            else (if id == header_ids.action
                then (do v ← unmarshal body action_type ([], tt); ok (record h { action = v.0 }))
                else (if id == header_ids.expects_reply
                    then (do
                      v ← unmarshal body flag_type (false, tt)
                      ok (record h { expects_reply = v.0 }))
                    else (if id == header_ids.high_priority
                        then (do
                          v ← unmarshal body flag_type (false, tt)
                          ok (record h { high_priority = v.0 }))
                        else (if id == header_ids.idempotent
                            then (do
                              v ← unmarshal body flag_type (false, tt)
                              ok (record h { idempotent = v.0 }))
                            else (if id == header_ids.security_negotiation
                                then ok h
                                else (if id == header_ids.fault
                                    then (do
                                      v ← unmarshal body fault_type (0, (false, tt))
                                      ok (record h { error_code = v.0; has_fault_body = v.1.0 }))
                                    else (if id == header_ids.retry
                                        then (do
                                          v ← unmarshal body retry_type (0, tt)
                                          ok (record h { retry_count = v.0 }))
                                        else set_custom (acts id) id body h)))))))))

abbrev pub empty_headers : MessageHeaders
empty_headers = record {
  id = empty_message_id;
  relates_to = empty_message_id;
  actor = 0;
  action = [];
  expects_reply = false;
  high_priority = false;
  idempotent = false;
  error_code = 0;
  has_fault_body = false;
  retry_count = 0;
  custom_headers = some [];
}

-- The loop of parseFabricMessageHeaders. `none` is a loop that has run out of fuel; each round
-- takes four bytes or more. An io.EOF is the end, also where it cuts a header short.
unfoldable pub parse_loop :
    Activators → ℕ → MessageHeaders → List ℕ → Option (Result MessageHeaders)
parse_loop acts zero h r = none
parse_loop acts (suc fuel) h r = elim (next_message_header r) [
  | ok (id, body, r') ↦ (elim (id == header_ids.invalid) [
    | true ↦ parse_loop acts fuel h r'
    | false ↦ (elim (set_header acts id body h) [
      | ok h' ↦ parse_loop acts fuel h' r'
      | err e ↦ some (err e)
      | panic ↦ some panic
    ])
  ])
  | err eof ↦ some (ok h)
  | err unexpected_eof ↦ some (err unexpected_eof)
  | err (errorf m) ↦ some (err (errorf m))
  | panic ↦ some panic
]

-- With fuel for every byte the loop ends: see `parse_total`.
unfoldable pub parse_fabric_message_headers : Activators → List ℕ → Option (Result MessageHeaders)
unfolding parse_loop
parse_fabric_message_headers acts r = parse_loop acts (suc (length r)) empty_headers r
