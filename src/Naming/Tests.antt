-- ===== src/Naming/Tests.antt =====
-- Runs of the naming client.
use phabrik.Base.{
  ℕ, ◌<◌, ◌^◌, ◌≡◌, ◌≢◌, refl, ap, subst, inl, true, false, List, [], ◌∷◌, none, Result, ok, err,
  panic, length, arith, le_bytes,
}
use phabrik.Serialization.Guid.{Guid, new_guid_v4, bytes_eq}
use phabrik.Serialization.Utf16.{utf16_encode, encode_rune, unit_bytes}
use phabrik.Serialization.GoType.{Val, zero_val}
use phabrik.Serialization.Marshal.{
  bytes, pointer_to, marshal, encode, encode_fields, encode_struct, encode_field, encode_none,
  object_scope_end, is_struct,
}
use phabrik.Serialization.State.{write, push_buffer, pop_buffer}
use phabrik.Serialization.Compress.{write_compressed, compressed, write_loop, shift_out}
use phabrik.Transport.Headers.Read.{empty_headers}
use phabrik.Transport.Message.{Message, ByteArrayMessage}
use phabrik.Naming.Types.{uri_type, filter_body_type, query_result_type}
use phabrik.Naming.{
  NamingClient, checked, filter_flags, register_filter, get_application_list,
  client_operation_failure,
}
use phabrik.Naming.Filter.{
  IsShort, ReadsBody, filter_body, register_filter-ReadsBody, register_filter_refused,
}
use phabrik.Naming.Query.{get_application_list-marshal}

abbrev random : ℕ → Result (List ℕ)
random n = ok (n ∷ 1 ∷ 2 ∷ 3 ∷ 4 ∷ 5 ∷ 6 ∷ 7 ∷ 8 ∷ 9 ∷ 10 ∷ 11 ∷ 12 ∷ 13 ∷ 14 ∷ 15 ∷ [])

abbrev answer : ByteArrayMessage
answer = record { headers = empty_headers; body = [] }

abbrev failure : ByteArrayMessage
failure = record { headers = record empty_headers { action = client_operation_failure }; body = [] }

abbrev client : NamingClient
client = record { next_filter_id = 6; client_id = 112 ∷ [] }

abbrev name : Val uri_type
name = zero_val uri_type

abbrev ok_bytes : Result (List ℕ) → List ℕ
ok_bytes (ok bs) = bs
ok_bytes (err e) = []
ok_bytes panic = []

abbrev ok_guid : Result Guid → Guid
ok_guid (ok g) = g
ok_guid (err e) = record { data1 = 0; data2 = 0; data3 = 0; data4 = [] }
ok_guid panic = record { data1 = 0; data2 = 0; data3 = 0; data4 = [] }

guid_made : (n : ℕ) → new_guid_v4 (random n) ≡ ok (ok_guid (new_guid_v4 (random n)))
unfolding new_guid_v4
guid_made n = refl

checked-answer : checked (ok answer) ≡ ok answer
unfolding checked bytes_eq
checked-answer = refl

-- The body of the filter 7, which matches prefixes.
abbrev filter : Val filter_body_type
filter = filter_body (112 ∷ []) 7 name 1

filter_short : length (ok_bytes (marshal (pointer_to filter_body_type filter))) < 1000
unfolding marshal is_struct encode encode_fields encode_struct encode_field encode_none write
    push_buffer write_compressed compressed write_loop shift_out object_scope_end pop_buffer
    utf16_encode encode_rune unit_bytes le_bytes
filter_short = omega arith

filter-IsShort : IsShort filter_body_type filter
filter-IsShort b e =
    let same : ok_bytes (marshal (pointer_to filter_body_type filter)) ≡ b = ap ok_bytes e in
    subst (λ x. length x < 2 ^ 32) same (omega (arith, filter_short))

register_filter-ReadsBody_example :
    (m m' : Message) × (register_filter random
        (λ _ _. ok answer)
        (λ _. bytes [])
        client
        name
        true
        false
      ≡ (record client { next_filter_id = 7 }, (m ∷ m' ∷ [], ok 7)))
    × ReadsBody filter_body_type (filter_body (112 ∷ []) 7 name (filter_flags true false)) m'.body
unfolding filter_flags
register_filter-ReadsBody_example =
    register_filter-ReadsBody random (λ _ _. ok answer) (λ _. bytes []) client name true false
      (ok_guid (new_guid_v4 (random 0))) (ok_guid (new_guid_v4 (random 1))) (guid_made 0)
      (guid_made 1) (λ _ _. (answer, checked-answer)) (inl (omega arith), tt)
      (
        inl (omega arith),
        (
          tt,
          (tt, (inl (omega arith), (tt, (inl (omega arith), (tt, (tt, (tt, ((tt, tt), tt)))))))),
        ),
      )
      filter-IsShort

register_filter_refused_example :
    (length (register_filter random (λ _ _. ok failure) (λ _. bytes []) client name true false).1.0
      ≡ 1)
    × ((id : ℕ)
        → (register_filter random (λ _ _. ok failure) (λ _. bytes []) client name true false).1.1
          ≢ ok id)
    × ((register_filter random
          (λ _ _. ok failure)
          (λ _. bytes [])
          client
          name
          true
          false).0.next_filter_id
        ≡ 7)
register_filter_refused_example =
    register_filter_refused random (λ _ _. ok failure) (λ _. bytes []) client name true false
      (ok_guid (new_guid_v4 (random 0))) (guid_made 0) (λ _. (failure, refl, refl))

-- A result without a list.
abbrev no_list : Val query_result_type
no_list = (1, (none, (0, tt)))

no_list_written :
    marshal (pointer_to query_result_type no_list)
    ≡ ok (ok_bytes (marshal (pointer_to query_result_type no_list)))
unfolding marshal is_struct encode encode_fields encode_struct encode_field encode_none write
    push_buffer write_compressed compressed write_loop shift_out object_scope_end pop_buffer
    le_bytes
no_list_written = refl

no_list_short : length (ok_bytes (marshal (pointer_to query_result_type no_list))) < 1000
unfolding marshal is_struct encode encode_fields encode_struct encode_field encode_none write
    push_buffer write_compressed compressed write_loop shift_out object_scope_end pop_buffer
    le_bytes
no_list_short = omega arith

abbrev query_answer : ByteArrayMessage
query_answer = record {
  headers = empty_headers;
  body = ok_bytes (marshal (pointer_to query_result_type no_list));
}

get_application_list-marshal_example :
    (length (get_application_list random (λ _ _. ok query_answer) []).0 ≡ 1)
    × ((get_application_list random (λ _ _. ok query_answer) []).1 ≡ panic)
get_application_list-marshal_example =
    get_application_list-marshal random (λ _ _. ok query_answer) [] query_answer.body
      (ok_guid (new_guid_v4 (random 0))) 1 0 none (guid_made 0)
      (inl (omega arith), (tt, (inl (omega arith), tt))) no_list_written
      (omega (arith, no_list_short)) (λ _. (query_answer, refl, refl))
