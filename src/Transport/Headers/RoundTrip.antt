-- ===== src/Transport/Headers/RoundTrip.antt =====
-- That parsing what writeTo wrote gives the headers back (transport/messageheaders.go).
use phabrik.Base.{
  ℕ, suc, ◌^◌, ◌<◌, ◌≡◌, refl, ap, sym, ◌∙◌, inl, Bool, true, false, not, ◌||◌, List, [], ◌∷◌, some,
  ok, ◌==◌, length, arith,
}
use phabrik.Serialization.Guid.{IsGuid, is_empty_lem}
use phabrik.Serialization.Utf16.{AreRunes}
use phabrik.Serialization.Compress.RoundTrip.{InRange}
use phabrik.Serialization.Marshal.{Argument, pointer_to, is_struct}
use phabrik.Transport.Headers.{
  MessageId, MessageHeaders, Activators, header_ids, is_empty, empty_message_id,
}
use phabrik.Transport.Headers.Write.{
  message_id_type, actor_type, action_type, flag_type, fault_type, retry_type, id_value, is_nil,
  is_positive, write_if, header_list, write_to,
}
use phabrik.Transport.Headers.Read.{set_header, empty_headers, parse_fabric_message_headers}
use phabrik.Transport.Headers.Carries.{Carries, Sets, nil-Carries, cons-Carries, if-Carries}

pub record IsMessageId (m : MessageId) : Type 0 where
  pub guid_fits : IsGuid m.id
  pub index_fits : m.index < 2 ^ 32

-- Headers whose fields are in range, with a retry count that is not negative and no custom headers.
pub record IsSendable (h : MessageHeaders) : Type 0 where
  pub id_fits : IsMessageId h.id
  pub relates_to_fits : IsMessageId h.relates_to
  pub actor_fits : InRange true 8 h.actor
  pub action_fits : AreRunes h.action
  pub error_code_fits : InRange true 8 h.error_code
  pub retry_count_fits : h.retry_count < 2 ^ 31
  pub no_custom : h.custom_headers ≡ some []

module _ (acts : Activators) (h : MessageHeaders) where
  set-message_id :
      (m : MessageId)
      → Sets acts header_ids.message_id message_id_type (id_value m) h (record h { id = m })
  unfolding set_header
  set-message_id m b u = rw (u (id_value h.id))

  set-relates_to :
      (m : MessageId)
      → Sets acts header_ids.relates_to message_id_type (id_value m) h (record h { relates_to = m })
  unfolding set_header
  set-relates_to m b u = rw (u (id_value h.relates_to))

  set-actor : (a : ℕ) → Sets acts header_ids.actor actor_type (a, tt) h (record h { actor = a })
  unfolding set_header
  set-actor a b u = rw (u (0, tt))

  set-action :
      (a : List ℕ) → Sets acts header_ids.action action_type (a, tt) h (record h { action = a })
  unfolding set_header
  set-action a b u = rw (u ([], tt))

  set-expects_reply :
      (f : Bool)
      → Sets acts header_ids.expects_reply flag_type (f, tt) h (record h { expects_reply = f })
  unfolding set_header
  set-expects_reply f b u = rw (u (false, tt))

  set-high_priority :
      (f : Bool)
      → Sets acts header_ids.high_priority flag_type (f, tt) h (record h { high_priority = f })
  unfolding set_header
  set-high_priority f b u = rw (u (false, tt))

  set-idempotent :
      (f : Bool) → Sets acts header_ids.idempotent flag_type (f, tt) h (record h { idempotent = f })
  unfolding set_header
  set-idempotent f b u = rw (u (false, tt))

  set-fault :
      (e : ℕ) (f : Bool)
      → Sets acts header_ids.fault fault_type
          (e, (f, tt))
          h
          (record h { error_code = e; has_fault_body = f })
  unfolding set_header
  set-fault e f b u = rw (u (0, (false, tt)))

  set-retry :
      (r : ℕ) → Sets acts header_ids.retry retry_type (r, tt) h (record h { retry_count = r })
  unfolding set_header
  set-retry r b u = rw (u (0, tt))

is_empty_id : (m : MessageId) → is_empty m ≡ true → m ≡ empty_message_id
unfolding is_empty
is_empty_id m e = ground (arith, is_empty_lem m.id)

not-not : (b : Bool) → not b ≡ false → b ≡ true
not-not b e = ground arith

is_nil_lem : (xs : List ℕ) → not (is_nil xs) ≡ false → [] ≡ xs
is_nil_lem [] e = refl
is_nil_lem (x ∷ xs) e = cc

-- What is parsed before the flags.
abbrev identified : MessageHeaders → MessageHeaders
identified h = record empty_headers {
  id = h.id;
  relates_to = h.relates_to;
  actor = h.actor;
  action = h.action;
}

abbrev fault_written : MessageHeaders → Bool
fault_written h = not (h.error_code == 0) || h.has_fault_body

no_fault :
    (h g : MessageHeaders)
    → fault_written h ≡ false
    → g.error_code ≡ 0
    → g.has_fault_body ≡ false
    → g ≡ record g { error_code = h.error_code; has_fault_body = h.has_fault_body }
no_fault h g e p q = ground arith

no_retry :
    (h g : MessageHeaders)
    → h.retry_count < 2 ^ 31
    → is_positive h.retry_count ≡ false
    → g.retry_count ≡ 0
    → g ≡ record g { retry_count = h.retry_count }
no_retry h g l e p = ground arith

abbrev flag_list : MessageHeaders → List (ℕ × Argument)
flag_list h =
    write_if h.expects_reply header_ids.expects_reply (pointer_to flag_type (h.expects_reply, tt)) (
      write_if h.high_priority header_ids.high_priority (pointer_to flag_type (h.high_priority, tt))
        (write_if h.idempotent header_ids.idempotent (pointer_to flag_type (h.idempotent, tt)) (
          write_if (fault_written h) header_ids.fault
            (pointer_to fault_type (h.error_code, (h.has_fault_body, tt)))
            (write_if (is_positive h.retry_count) header_ids.retry
              (pointer_to retry_type (h.retry_count, tt)) []))))

flag_list-Carries :
    (acts : Activators) (h : MessageHeaders)
    → IsSendable h
    → Carries acts (flag_list h) (identified h) (record h { custom_headers = some [] })
unfolding is_struct
flag_list-Carries acts h s =
    let g5 : MessageHeaders = record (identified h) { expects_reply = h.expects_reply } in
    let g6 : MessageHeaders = record g5 { high_priority = h.high_priority } in
    let g7 : MessageHeaders = record g6 { idempotent = h.idempotent } in
    let g8 : MessageHeaders = record g7 {
      error_code = h.error_code;
      has_fault_body = h.has_fault_body;
    } in
    let g9 : MessageHeaders = record g8 { retry_count = h.retry_count } in
    if-Carries acts header_ids.expects_reply flag_type (h.expects_reply, tt) (identified h) g5 g9
      h.expects_reply _ (omega arith) refl refl (λ _. (tt, tt))
      (λ _. set-expects_reply acts (identified h) h.expects_reply)
      (λ e. ap (λ f. record (identified h) { expects_reply = f }) (sym e))
      (if-Carries acts header_ids.high_priority flag_type (h.high_priority, tt) g5 g6 g9
        h.high_priority _ (omega arith) refl refl (λ _. (tt, tt))
        (λ _. set-high_priority acts g5 h.high_priority)
        (λ e. ap (λ f. record g5 { high_priority = f }) (sym e))
        (if-Carries acts header_ids.idempotent flag_type (h.idempotent, tt) g6 g7 g9 h.idempotent _
          (omega arith) refl refl (λ _. (tt, tt)) (λ _. set-idempotent acts g6 h.idempotent)
          (λ e. ap (λ f. record g6 { idempotent = f }) (sym e))
          (if-Carries acts header_ids.fault fault_type (h.error_code, (h.has_fault_body, tt)) g7 g8
            g9 (fault_written h) _ (omega arith) refl refl (λ _. (s.error_code_fits, (tt, tt)))
            (λ _. set-fault acts g7 h.error_code h.has_fault_body) (λ e. no_fault h g7 e refl refl)
            (if-Carries acts header_ids.retry retry_type (h.retry_count, tt) g8 g9 g9
              (is_positive h.retry_count) _ (omega arith) refl refl
              (λ _. (inl s.retry_count_fits, tt)) (λ _. set-retry acts g8 h.retry_count)
              (λ e. no_retry h g8 s.retry_count_fits e refl) (nil-Carries acts g9)))))

header_list-Carries :
    (acts : Activators) (h : MessageHeaders)
    → IsSendable h
    → Carries acts (header_list h) empty_headers (record h { custom_headers = some [] })
unfolding header_list is_struct
header_list-Carries acts h s =
    let g1 : MessageHeaders = record empty_headers { id = h.id } in
    let g2 : MessageHeaders = record g1 { relates_to = h.relates_to } in
    let g3 : MessageHeaders = record g2 { actor = h.actor } in
    let last : MessageHeaders = record h { custom_headers = some [] } in
    rw s.no_custom (
      cons-Carries acts header_ids.message_id message_id_type (id_value h.id) empty_headers g1 last
        _ (omega arith) refl refl (s.id_fits.guid_fits, (s.id_fits.index_fits, tt))
        (set-message_id acts empty_headers h.id)
        (if-Carries acts header_ids.relates_to message_id_type (id_value h.relates_to) g1 g2 last
          (not (is_empty h.relates_to)) _ (omega arith) refl refl
          (λ _. (s.relates_to_fits.guid_fits, (s.relates_to_fits.index_fits, tt)))
          (λ _. set-relates_to acts g1 h.relates_to)
          (λ e.
            ap (λ m. record g1 { relates_to = m })
              (sym (is_empty_id h.relates_to (not-not (is_empty h.relates_to) e))))
          (cons-Carries acts header_ids.actor actor_type (h.actor, tt) g2 g3 last _ (omega arith)
            refl refl (s.actor_fits, tt) (set-actor acts g2 h.actor)
            (if-Carries acts header_ids.action action_type (h.action, tt) g3 (identified h) last
              (not (is_nil h.action)) _ (omega arith) refl refl (λ _. (s.action_fits, tt))
              (λ _. set-action acts g3 h.action)
              (λ e. ap (λ a. record g3 { action = a }) (is_nil_lem h.action e))
              (flag_list-Carries acts h s)))))

-- Headers with fields in range, a retry count that is not negative and no custom headers, which take
-- less than 2 ^ 16 bytes, are written, and parsing the bytes gives the same headers, whatever
-- activators are registered.
pub parse-write_to :
    (acts : Activators) (h : MessageHeaders)
    → IsSendable h
    → ((w : List ℕ) → write_to h ≡ ok w → length w < 2 ^ 16)
    → (w : List ℕ) × (write_to h ≡ ok w) × (parse_fabric_message_headers acts w ≡ some (ok h))
unfolding write_to parse_fabric_message_headers
parse-write_to acts h s short =
    let (w, written, parsed) = header_list-Carries acts h s in
    (w, written, parsed (short w written) (suc (length w)) (omega arith) ∙ rw s.no_custom)
