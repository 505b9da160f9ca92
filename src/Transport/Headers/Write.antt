-- ===== src/Transport/Headers/Write.antt =====
-- How the headers of a message are written (transport/messageheaders.go).
use phabrik.Base.{
  ℕ, ◌%◌, ◌^◌, Bool, true, false, not, ◌&&◌, ◌||◌, List, [], ◌∷◌, ◌++◌, Result, ok, ◌==◌, ltb,
  if◌then◌else◌, ◌>>=◌, le_bytes, length,
}
use phabrik.Serialization.GoType.{
  GoType, w32, w64, bool, string, guid, int, uint, struct, nil, cons, Val,
}
use phabrik.Serialization.Marshal.{Argument, pointer_to, marshal}
use phabrik.Transport.Headers.{MessageId, is_empty, header_ids, MessageHeaders, entries}

-- The struct types of the headers.
abbrev pub message_id_type : GoType
message_id_type = struct (cons guid (cons (uint w32) nil))

abbrev pub actor_type : GoType
actor_type = struct (cons (int w64) nil)

abbrev pub action_type : GoType
action_type = struct (cons string nil)

abbrev pub flag_type : GoType
flag_type = struct (cons bool nil)

abbrev pub fault_type : GoType
fault_type = struct (cons (int w64) (cons bool nil))

abbrev pub retry_type : GoType
retry_type = struct (cons (int w32) nil)

abbrev pub id_value : MessageId → Val message_id_type
id_value m = (m.id, (m.index, tt))

abbrev pub value_id : Val message_id_type → MessageId
value_id (g, (i, _)) = record { id = g; index = i }

-- writeMessageHeader: the length is cut to a uint16, the body is not.
unfoldable pub write_message_header : ℕ → Argument → Result (List ℕ)
write_message_header id body = do
  b ← marshal body
  ok (le_bytes 2 id ++ (le_bytes 2 (length b % 2 ^ 16) ++ b))

unfoldable pub write_all : List (ℕ × Argument) → Result (List ℕ)
unfolding write_message_header
write_all [] = ok []
write_all ((id, body) ∷ hs) = do a ← write_message_header id body; b ← write_all hs; ok (a ++ b)

abbrev pub write_if : Bool → ℕ → Argument → List (ℕ × Argument) → List (ℕ × Argument)
write_if b id body hs = if b then (id, body) ∷ hs else hs

abbrev pub with_type : ℕ → List Argument → List (ℕ × Argument) → List (ℕ × Argument)
with_type k [] hs = hs
with_type k (v ∷ vs) hs = (k, v) ∷ with_type k vs hs

-- The loop over the custom headers, in the order of the list.
abbrev pub custom_list : List (ℕ × List Argument) → List (ℕ × Argument)
custom_list [] = []
custom_list ((k, vs) ∷ m) = with_type k vs (custom_list m)

-- `x > 0` on the pattern of a signed integer.
abbrev pub is_positive : ℕ → Bool
is_positive x = ltb 0 x && ltb x (2 ^ 63)

abbrev pub is_nil : List ℕ → Bool
is_nil [] = true
is_nil (_ ∷ _) = false

-- What writeTo writes, in its order.
unfoldable pub header_list : MessageHeaders → List (ℕ × Argument)
header_list h =
    (header_ids.message_id, pointer_to message_id_type (id_value h.id))
    ∷ write_if (not (is_empty h.relates_to)) header_ids.relates_to
        (pointer_to message_id_type (id_value h.relates_to))
        ((header_ids.actor, pointer_to actor_type (h.actor, tt))
          ∷ write_if (not (is_nil h.action)) header_ids.action
              (pointer_to action_type (h.action, tt))
              (write_if h.expects_reply header_ids.expects_reply
                (pointer_to flag_type (h.expects_reply, tt))
                (write_if h.high_priority header_ids.high_priority
                  (pointer_to flag_type (h.high_priority, tt))
                  (write_if h.idempotent header_ids.idempotent
                    (pointer_to flag_type (h.idempotent, tt))
                    (write_if (not (h.error_code == 0) || h.has_fault_body) header_ids.fault
                      (pointer_to fault_type (h.error_code, (h.has_fault_body, tt)))
                      (write_if (is_positive h.retry_count) header_ids.retry
                        (pointer_to retry_type (h.retry_count, tt))
                        (custom_list (entries h.custom_headers))))))))

unfoldable pub write_to : MessageHeaders → Result (List ℕ)
unfolding header_list
write_to h = write_all (header_list h)
