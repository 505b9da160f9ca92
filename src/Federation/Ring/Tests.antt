-- ===== src/Federation/Ring/Tests.antt =====
-- Runs of a site node that sends.
use phabrik.Base.{ℕ, ◌≡◌, refl, true, false, List, [], ◌∷◌, none, some, Result, ok, err, errorf}
use phabrik.Federation.NodeId
use phabrik.Transport.Headers
use phabrik.Serialization.Marshal.{bytes}
use phabrik.Transport.Headers.{get_custom_headers}
use phabrik.Transport.Headers.Read.{empty_headers}
use phabrik.Federation.NodeId.{
  Uint128, cmp, sub, value, IsUint128, node_id_meta_type, cmp-compare, value-sub,
}
use phabrik.Federation.Partners.{
  PartnerNodeInfo, SiteNode, booting, routing, known_partner_nodes, connect_target,
}
use phabrik.Federation.Sender.{append_partner_info}
use phabrik.Base.{Bool, le_bytes}
use phabrik.Serialization.Guid.{empty_guid, guid_eq, bytes_eq}
use phabrik.Serialization.Guid
use phabrik.Serialization.Marshal.{Argument, encode, object_scope_end}
use phabrik.Serialization.Marshal
use phabrik.Serialization.State.{write, push_buffer, pop_buffer}
use phabrik.Serialization.Compress.{write_compressed, compressed, write_loop, shift_out}
use phabrik.Transport.Frame
use phabrik.Transport.Headers.{MessageId, MessageHeaders, is_empty}
use phabrik.Transport.Headers.Write.{write_to, write_all}
use phabrik.Transport.Message.{
  Message, ByteArrayMessage, fill_message_id, message_marshal, body_bytes, write_message_with_frame,
}
use phabrik.Transport.RequestTable.{PendingRequest, put}
use phabrik.Transport.Conn.{Connection, send_one_way, send_checked, send, transmitted}
use phabrik.Federation.Partners.{NodeInstance, closest_partner_node, closest_loop}
use phabrik.Federation.Ring.{
  PToPActor, Ring, dialled, pooled, load, get_conn, close_conn, connected, connect_found,
  connect_to_node, on_message, addressed, send_on, route_to, route,
}
use phabrik.Federation.Ring.Pool.{get_conn-get_conn}
use phabrik.Federation.Ring.Routes.{WasSent, route-on_message}

abbrev num : ℕ → Uint128
num n = record { hi = 0; lo = n }

-- A partner with an identifier and an instance.
abbrev partner : ℕ → ℕ → PartnerNodeInfo
partner n i = record {
  node = record { id = num n; instance_id = i };
  phase = routing;
  address = "a";
  token = record { range = record { begin = num 0; end = num 0 }; version = 0 };
  lease_agent_address = "";
  lease_agent_instance_id = 0;
  end_to_end = false;
  node_fault_domain_id = none;
  ring_name = "";
}

abbrev site : SiteNode
site = record {
  node = record { id = num 1; instance_id = 1 };
  seed_nodes = [];
  phase = booting;
  phase_changed = 0;
  parteners = (num 5, partner 5 2) ∷ (num 9, partner 9 3) ∷ [];
}

abbrev line : Connection
line = record {
  factory = record { message_prefix = empty_guid; message_idx = 0 };
  requests = record { table = []; closed = []; next_channel = 0 };
  read_config = record { check_frame_header_crc = true; check_frame_body_crc = false };
  write_config = record {
    security_provider_mask = Frame.none;
    frame_header_crc = true;
    frame_body_crc = false;
  };
  fatal = none;
  closed = false;
  sent = [];
}

abbrev ring : Ring
ring = record {
  site = site;
  factory = record { message_prefix = empty_guid; message_idx = 0 };
  requests = record { table = []; closed = []; next_channel = 0 };
  pool = [];
  heap = λ _. line;
  next_conn = 3;
}

get_conn-get_conn_example :
    (get_conn "a" (err (errorf "dial")) (dialled "a" (ok line) ring).1
      ≡ (ok 3, (dialled "a" (ok line) ring).1))
    × (get_conn "a" (err (errorf "dial")) (close_conn "a" (dialled "a" (ok line) ring).1)
        ≡ dialled "a" (err (errorf "dial")) (close_conn "a" (dialled "a" (ok line) ring).1))
unfolding dialled
get_conn-get_conn_example =
    get_conn-get_conn "a" (ok line) (err (errorf "dial")) ring (dialled "a" (ok line) ring).1 3
      (unfold get_conn pooled load in refl)

abbrev no_header : PartnerNodeInfo → Argument
no_header _ = bytes []

abbrev no_ptop : NodeInstance → NodeInstance → PToPActor → Bool → Argument
no_ptop _ _ _ _ = bytes []

abbrev no_routing : NodeInstance → NodeInstance → MessageId → Argument
no_routing _ _ _ = bytes []

abbrev question : Message
question = record { headers = empty_headers; body = some (bytes (8 ∷ 9 ∷ [])) }

abbrev pending : PendingRequest
pending = record { id = record { id = empty_guid; index = 1 }; channel = 0 }

abbrev crc : List ℕ → ℕ
crc bs = 5

abbrev routed : Result PendingRequest × Ring
routed =
    route crc crc no_header no_ptop no_routing "s" "l" (λ _. ok line) true (num 5) question ring

route_sent : routed ≡ (ok pending, routed.1)
unfolding route connect_to_node connect_found connect_target get_conn pooled dialled load connected
    route_to addressed send_on send_one_way send_checked send transmitted fill_message_id put
    write_message_with_frame message_marshal body_bytes is_empty guid_eq bytes_eq Guid.is_empty
    write_to write_all Marshal.marshal encode Guid.marshal write push_buffer write_compressed
    compressed write_loop shift_out object_scope_end pop_buffer le_bytes closest_partner_node
    closest_loop known_partner_nodes NodeId.eq sub Headers.set_custom_header Headers.lookup
    append_partner_info Headers.append_custom_header Headers.insert
route_sent = refl

abbrev reply : ByteArrayMessage
reply = record { headers = record empty_headers { relates_to = pending.id }; body = [] }

route-on_message_example :
    ((h : MessageHeaders) × (h.id ≡ pending.id)
      × (h.expects_reply ≡ true)
      × WasSent crc crc no_header no_ptop no_routing "s" "l"
          (λ _. ok line)
          true
          (connect_to_node (num 5) false (λ _. ok line) ring)
          h
          question
          routed.1)
    × (pending.id ≡ pending.id)
    × ((on_message (λ _. []) reply routed.1).0 ≡ some pending)
    × ((on_message (λ _. []) reply (on_message (λ _. []) reply routed.1).1).0 ≡ none)
unfolding is_empty guid_eq bytes_eq Guid.is_empty
route-on_message_example =
    route-on_message crc crc no_header no_ptop no_routing "s" "l" (λ _. ok line) true (λ _. [])
      (num 5) question ring routed.1 pending reply route_sent refl refl
