-- ===== src/Lease/Serialize/Header.antt =====
-- The fixed part of a lease message (leaseMessageHeader and listDesc of lease/serialize.go).
use phabrik.Base.{
  ℕ, zero, suc, ◌+◌, ◌≡◌, refl, ap, ◌∙◌, Bool, true, false, not, List, [], ◌∷◌, length, ◌==◌,
}
use phabrik.Lease.Serialize.Fields.{
  fields_bytes, field_values, widths, values, DoFit, length-fields_bytes, field_values-fields_bytes,
}

pub record ListDesc : Type 0 where
  pub count : ℕ
  pub start_offset : ℕ
  pub size : ℕ

pub record LeaseMessageHeader : Type 0 where
  pub major_version : ℕ
  pub minor_version : ℕ
  pub message_header_size : ℕ
  pub message_size : ℕ
  pub message_identifier : ℕ
  pub message_type : ℕ
  pub lease_instance : ℕ
  pub remote_lease_agent_instance : ℕ
  pub duration : ℕ
  pub expiration : ℕ
  pub lease_suspend_duration : ℕ
  pub arbitration_duration : ℕ
  pub is_two_way_termination : Bool
  pub subject_establish_pending_list : ListDesc
  pub subject_failed_pending_list : ListDesc
  pub monitor_failed_pending_list : ListDesc
  pub subject_pending_accepted_list : ListDesc
  pub subject_failed_accepted_list : ListDesc
  pub monitor_failed_accepted_list : ListDesc
  pub subject_pending_rejected_list : ListDesc
  pub subject_terminate_pending_list : ListDesc
  pub subject_terminate_accepted_list : ListDesc
  pub message_listen_endpoint : ListDesc

-- sizeofLeaseMessageHeader
abbrev pub size_of_lease_message_header : ℕ
size_of_lease_message_header = 200

abbrev pub desc_fields : ListDesc → List (ℕ × ℕ) → List (ℕ × ℕ)
desc_fields d fs = (4, d.count) ∷ (4, d.start_offset) ∷ (4, d.size) ∷ fs

abbrev pub of_bool : Bool → ℕ
of_bool false = 0
of_bool true = 1

-- The fields in the order of the struct.
abbrev pub header_fields : LeaseMessageHeader → List (ℕ × ℕ)
header_fields h =
    (1, h.major_version)
    ∷ (1, h.minor_version)
    ∷ (1, 0)
    ∷ (1, 0)
    ∷ (4, h.message_header_size)
    ∷ (4, h.message_size)
    ∷ (4, 0)
    ∷ (8, h.message_identifier)
    ∷ (4, h.message_type)
    ∷ (4, 0)
    ∷ (8, h.lease_instance)
    ∷ (8, h.remote_lease_agent_instance)
    ∷ (4, h.duration)
    ∷ (4, 0)
    ∷ (8, h.expiration)
    ∷ (4, h.lease_suspend_duration)
    ∷ (4, h.arbitration_duration)
    ∷ (1, of_bool h.is_two_way_termination)
    ∷ (1, 0)
    ∷ (1, 0)
    ∷ (1, 0)
    ∷ desc_fields h.subject_establish_pending_list (
        desc_fields h.subject_failed_pending_list (
          desc_fields h.monitor_failed_pending_list (
            desc_fields h.subject_pending_accepted_list (
              desc_fields h.subject_failed_accepted_list (
                desc_fields h.monitor_failed_accepted_list (
                  desc_fields h.subject_pending_rejected_list (
                    desc_fields h.subject_terminate_pending_list (
                      desc_fields h.subject_terminate_accepted_list
                        (desc_fields h.message_listen_endpoint ((4, 0) ∷ []))))))))))

abbrev empty_desc : ListDesc
empty_desc = record { count = 0; start_offset = 0; size = 0 }

abbrev pub empty_header : LeaseMessageHeader
empty_header = record {
  major_version = 0;
  minor_version = 0;
  message_header_size = 0;
  message_size = 0;
  message_identifier = 0;
  message_type = 0;
  lease_instance = 0;
  remote_lease_agent_instance = 0;
  duration = 0;
  expiration = 0;
  lease_suspend_duration = 0;
  arbitration_duration = 0;
  is_two_way_termination = false;
  subject_establish_pending_list = empty_desc;
  subject_failed_pending_list = empty_desc;
  monitor_failed_pending_list = empty_desc;
  subject_pending_accepted_list = empty_desc;
  subject_failed_accepted_list = empty_desc;
  monitor_failed_accepted_list = empty_desc;
  subject_pending_rejected_list = empty_desc;
  subject_terminate_pending_list = empty_desc;
  subject_terminate_accepted_list = empty_desc;
  message_listen_endpoint = empty_desc;
}

-- The field at a place; reading stops at the end of the struct, so there always is one.
abbrev at : ℕ → List ℕ → ℕ
at n [] = 0
at zero (v ∷ vs) = v
at (suc n) (v ∷ vs) = at n vs

abbrev desc_at : ℕ → List ℕ → ListDesc
desc_at n vs = record { count = at n vs; start_offset = at (n + 1) vs; size = at (n + 2) vs }

abbrev pub header_of_values : List ℕ → LeaseMessageHeader
header_of_values vs = record {
  major_version = at 0 vs;
  minor_version = at 1 vs;
  message_header_size = at 4 vs;
  message_size = at 5 vs;
  message_identifier = at 7 vs;
  message_type = at 8 vs;
  lease_instance = at 10 vs;
  remote_lease_agent_instance = at 11 vs;
  duration = at 12 vs;
  expiration = at 14 vs;
  lease_suspend_duration = at 15 vs;
  arbitration_duration = at 16 vs;
  is_two_way_termination = not (at 17 vs == 0);
  subject_establish_pending_list = desc_at 21 vs;
  subject_failed_pending_list = desc_at 24 vs;
  monitor_failed_pending_list = desc_at 27 vs;
  subject_pending_accepted_list = desc_at 30 vs;
  subject_failed_accepted_list = desc_at 33 vs;
  monitor_failed_accepted_list = desc_at 36 vs;
  subject_pending_rejected_list = desc_at 39 vs;
  subject_terminate_pending_list = desc_at 42 vs;
  subject_terminate_accepted_list = desc_at 45 vs;
  message_listen_endpoint = desc_at 48 vs;
}

unfoldable pub header_bytes : LeaseMessageHeader → List ℕ
header_bytes h = fields_bytes (header_fields h)

unfoldable pub header_of_bytes : List ℕ → LeaseMessageHeader
header_of_bytes bs = header_of_values (field_values (widths (header_fields empty_header)) bs)

pub length-header_bytes : (h : LeaseMessageHeader) → length (header_bytes h) ≡ 200
unfolding header_bytes
length-header_bytes h = length-fields_bytes (header_fields h)

bool_back : (b : Bool) → not (of_bool b == 0) ≡ b
bool_back true = refl
bool_back false = refl

header_of_values-header_fields :
    (h : LeaseMessageHeader) → header_of_values (values (header_fields h)) ≡ h
header_of_values-header_fields h =
    ap (λ b. record h { is_two_way_termination = b }) (bool_back h.is_two_way_termination)

pub header_of_bytes-header_bytes :
    (h : LeaseMessageHeader) → DoFit (header_fields h) → header_of_bytes (header_bytes h) ≡ h
unfolding header_of_bytes header_bytes
header_of_bytes-header_bytes h fit =
    ap header_of_values (field_values-fields_bytes (header_fields h) fit)
    ∙ header_of_values-header_fields h
