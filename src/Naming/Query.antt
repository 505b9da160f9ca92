-- ===== src/Naming/Query.antt =====
-- The answer of a query for applications (GetApplicationList of naming/naming.go).
use phabrik.Base.{
  ℕ, ◌^◌, ◌<◌, ◌≡◌, refl, ap, ◌∙◌, List, Option, none, some, Result, ok, err, panic, errorf, ◌==◌,
  if◌then◌else◌, length,
}
use phabrik.Serialization.Guid.{Guid, new_guid_v4}
use phabrik.Serialization.GoType.{zero_val}
use phabrik.Serialization.Marshal.{pointer_to, marshal}
use phabrik.Serialization.Unmarshal.{unmarshal}
use phabrik.Serialization.RoundTrip.Values.{IsWf, unmarshal-marshal}
use phabrik.Transport.Message.{Message, ByteArrayMessage}
use phabrik.Naming.Types.{query_result_type}
use phabrik.Naming.{
  Applications, list_behind, list_of, applications, ask, get_application_list, query_message,
  new_naming_message,
}

-- The three outcomes of a result that was read.
outcome :
    (kind code : ℕ) (results : Option (Applications × Unit {0}))
    → list_of (kind, (results, (code, tt))) ≡ (
        if code == 0
        then elim results [ none ↦ panic | some (list, _) ↦ ok list ]
        else err (errorf "GetApplicationList returns HResult %v"))
unfolding list_of list_behind
outcome kind code none = refl
outcome kind code (some (list, u)) = refl

module _ (random : ℕ → Result (List ℕ)) (reply : ℕ → Message → Result ByteArrayMessage) where
  -- Where a GUID can be made and the gateway answers the query with a well-formed result in less
  -- than 2 ^ 32 bytes, GetApplicationList sends one message, and its outcome is an error where the
  -- error code of the result is not zero, and where it is zero the list of the result, or a panic
  -- where there is none.
  pub get_application_list-marshal :
      (filter b : List ℕ) (g : Guid) (kind code : ℕ) (results : Option (Applications × Unit {0}))
      → new_guid_v4 (random 0) ≡ ok g
      → IsWf query_result_type (kind, (results, (code, tt)))
      → marshal (pointer_to query_result_type (kind, (results, (code, tt)))) ≡ ok b
      → length b < 2 ^ 32
      → ((m : Message) → (r : ByteArrayMessage) × (reply 0 m ≡ ok r) × (r.body ≡ b))
      → (length (get_application_list random reply filter).0 ≡ 1)
        × ((get_application_list random reply filter).1 ≡ (
            if code == 0
            then elim results [ none ↦ panic | some (list, _) ↦ ok list ]
            else err (errorf "GetApplicationList returns HResult %v")))
  unfolding get_application_list query_message new_naming_message
  get_application_list-marshal filter b g kind code results eg wf e l answers = rw eg (go _)
    where
      go :
          (m : Message)
          → (length (ask random reply (ok m)).0 ≡ 1)
            × ((ask random reply (ok m)).1 ≡ (
                if code == 0
                then elim results [ none ↦ panic | some (list, _) ↦ ok list ]
                else err (errorf "GetApplicationList returns HResult %v")))
      go m =
          let (r, er, eb) = answers m in
          let read =
            ap (λ x. unmarshal x query_result_type (zero_val query_result_type)) eb
            ∙ unmarshal-marshal query_result_type (kind, (results, (code, tt)))
                (zero_val query_result_type) b wf e l in
          unfold ask applications in (refl, rw (er, read) (outcome kind code results))
