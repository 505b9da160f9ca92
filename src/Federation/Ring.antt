-- ===== src/Federation/Ring.antt =====
-- federation/sitenode_sender.go and the onMessage of federation/sitenode.go: the pool of connections
-- to the partners, and the messages of a site node.
--
-- A cachedConn is known by the number of its connection, whose state is on the heap. `dial` is what
-- the dialer gives for an address, `written` tells whether the network takes a write. A connection
-- that ends leaves the pool. The header arguments stand for the headers that hold node identifiers.
pub mod Pool
pub mod Routes
mod Tests
use Prim.Native.String
use Prim.Native.Nat.{Ordering}
use phabrik.Base.{
  ℕ, ◌+◌, Bool, true, false, not, String, List, [], ◌∷◌, Option, none, some, Result, ok, err, panic,
  Error, errorf, ◌==◌, if◌then◌else◌,
}
use phabrik.Serialization.Marshal.{Argument}
use phabrik.Transport.Headers.{MessageId, MessageHeaders, set_custom_header}
use phabrik.Transport.Headers.Read.{empty_headers}
use phabrik.Transport.Message.{Message, ByteArrayMessage, MessageFactory, fill_message_id}
use phabrik.Transport.RequestTable.{PendingRequest, RequestTable, put, feed, close_pending}
use phabrik.Transport.Conn.{Connection, send_one_way}
use phabrik.Federation.NodeId.{Uint128}
use phabrik.Federation.Partners.{
  NodeInstance, PartnerNodeInfo, SiteNode, connect_target, update_partners,
}
use phabrik.Federation.Sender.{append_partner_info}

-- MessageActorTypeFederation
abbrev pub actor_federation : ℕ
actor_federation = 2

-- The runes of "VotePing".
abbrev vote_ping_action : List ℕ
vote_ping_action = b'V' ∷ b'o' ∷ b't' ∷ b'e' ∷ b'P' ∷ b'i' ∷ b'n' ∷ b'g' ∷ []

-- MessageHeaderIdTypePToP and MessageHeaderIdTypeRouting
abbrev pub ptop : ℕ
ptop = 0x8013

abbrev pub routing_header_id : ℕ
routing_header_id = 0x8010

pub data PToPActor : Type 0 where
  direct federation routing broadcast upper_bound : PToPActor

-- The part of a SiteNode that sends.
pub record Ring : Type 0 where
  pub site : SiteNode
  pub factory : MessageFactory
  pub requests : RequestTable
  pub pool : List (String × ℕ)
  pub heap : ℕ → Connection
  pub next_conn : ℕ

abbrev pub is_eq : Ordering → Bool
is_eq Ordering.eq = true
is_eq _ = false

abbrev pub same_address : String → String → Bool
same_address a b = is_eq (String.compare a b)

unfoldable pub load : String → List (String × ℕ) → Option ℕ
load a [] = none
load a ((b, conn) ∷ pool) = if same_address b a then some conn else load a pool

unfoldable pub delete : String → List (String × ℕ) → List (String × ℕ)
delete a [] = []
delete a ((b, conn) ∷ pool) =
    let rest = delete a pool in if same_address b a then rest else (b, conn) ∷ rest

-- The first Conn of a new cachedConn: a dial that fails takes it out of the pool again.
unfoldable pub dialled : String → Result Connection → Ring → Result ℕ × Ring
dialled a (err e) s = (err e, s)
dialled a panic s = (panic, s)
dialled a (ok c) s = (
  ok s.next_conn,
  record s {
    pool = (a, s.next_conn) ∷ s.pool;
    heap = λ n. if n == s.next_conn then c else s.heap n;
    next_conn = s.next_conn + 1;
  },
)

unfoldable pub pooled : String → Option ℕ → Result Connection → Ring → Result ℕ × Ring
unfolding dialled
pooled a (some conn) dial s = (ok conn, s)
pooled a none dial s = dialled a dial s

-- getConn
unfoldable pub get_conn : String → Result Connection → Ring → Result ℕ × Ring
unfolding load pooled
get_conn a dial s = pooled a (load a s.pool) dial s

-- cachedConn.Close, less that of the connection.
unfoldable pub close_conn : String → Ring → Ring
unfolding delete
close_conn a s = record s { pool = delete a s.pool }

-- connectToNode: the connection and the partner.
unfoldable pub connected : PartnerNodeInfo → Result ℕ × Ring → Result (ℕ × PartnerNodeInfo) × Ring
connected t (ok conn, s) = (ok (conn, t), s)
connected t (err e, s) = (err e, s)
connected t (panic, s) = (panic, s)

unfoldable pub connect_found :
    Result PartnerNodeInfo
    → (String → Result Connection)
    → Ring
    → Result (ℕ × PartnerNodeInfo) × Ring
unfolding get_conn connected
connect_found (ok t) dial s = connected t (get_conn t.address (dial t.address) s)
connect_found (err e) dial s = (err e, s)
connect_found panic dial s = (panic, s)

unfoldable pub connect_to_node :
    Uint128 → Bool → (String → Result Connection) → Ring → Result (ℕ × PartnerNodeInfo) × Ring
unfolding connect_found
connect_to_node id match dial s = connect_found (connect_target id match s.site) dial s

-- onMessage: whether the message was fed, and to which request.
unfoldable pub on_message :
    (MessageHeaders → List (Option PartnerNodeInfo))
    → ByteArrayMessage
    → Ring
    → Option PendingRequest × Ring
on_message partners msg s =
    let (found, r) = feed msg.headers.relates_to s.requests in
    (found, record s { site = update_partners (partners msg.headers) s.site; requests = r })

-- What Route makes of a reply.
unfoldable pub reply_of : ByteArrayMessage → Result ByteArrayMessage
reply_of reply =
    if reply.headers.error_code == 0
    then ok reply
    else err (errorf "reply message contains err header, code: %v")

-- The deferred Close of Route, where the send failed.
unfoldable pub requested : PendingRequest → Result (Unit {0}) × Ring → Result PendingRequest × Ring
requested p (ok _, s) = (ok p, s)
requested p (err e, s) = (err e, record s { requests = close_pending p s.requests })
requested p (panic, s) = (panic, record s { requests = close_pending p s.requests })

module _ (crc8 crc32 : List ℕ → ℕ) (partner_header : PartnerNodeInfo → Argument)
    (ptop_header : NodeInstance → NodeInstance → PToPActor → Bool → Argument)
    (routing_header : NodeInstance → NodeInstance → MessageId → Argument)
    (address lease_agent_address : String) (dial : String → Result Connection)
    (written : Bool) where
  -- The headers of a message for a partner: its identifier, the partners and the PToP header.
  unfoldable pub addressed :
      NodeInstance → PToPActor → Bool → MessageHeaders → Ring → MessageHeaders × Ring
  addressed to actor exact h s =
      let (h1, f) = fill_message_id s.factory h in
      let h2 = append_partner_info partner_header address lease_agent_address s.site h1 in
      (
        (set_custom_header ptop (ptop_header s.site.node to actor exact) h2).0,
        record s { factory = f },
      )

  -- SendOneWay of a connection of the pool.
  unfoldable pub send_on : ℕ → Message → Ring → Result (Unit {0}) × Ring
  send_on conn m s =
      let (r, c) = send_one_way crc8 crc32 written m (s.heap conn) in
      (r, record s { heap = λ n. if n == conn then c else s.heap n })

  unfoldable pub send_to : Message → Result (ℕ × PartnerNodeInfo) × Ring → Result (Unit {0}) × Ring
  unfolding addressed send_on
  send_to m (ok (conn, t), s) =
      let (h, s') = addressed t.node direct true m.headers s in
      send_on conn (record m { headers = h }) s'
  send_to m (err e, s) = (err e, s)
  send_to m (panic, s) = (panic, s)

  -- SiteNode.SendOneWay
  unfoldable pub send_one_way_to : Uint128 → Message → Ring → Result (Unit {0}) × Ring
  unfolding connect_to_node send_to
  send_one_way_to id m s = send_to m (connect_to_node id true dial s)

  unfoldable pub route_to :
      Message → Result (ℕ × PartnerNodeInfo) × Ring → Result PendingRequest × Ring
  unfolding addressed send_on requested
  route_to m (ok (conn, t), s) =
      let (h, s') = addressed t.node routing false m.headers s in
      let (h', _) =
        set_custom_header routing_header_id (routing_header s.site.node t.node h.id) h in
      let (p, r) = put h'.id s'.requests in
      requested p (
        send_on conn (record m { headers = record h' { expects_reply = true } })
          (record s' { requests = r }))
  route_to m (err e, s) = (err e, s)
  route_to m (panic, s) = (panic, s)

  -- Route up to the wait; where the send fails, the deferred Close removes the request.
  unfoldable pub route : Uint128 → Message → Ring → Result PendingRequest × Ring
  unfolding connect_to_node route_to
  route id m s = route_to m (connect_to_node id false dial s)

  -- votePing
  unfoldable pub vote_ping : Uint128 → Ring → Result (Unit {0}) × Ring
  unfolding send_one_way_to
  vote_ping id s =
      send_one_way_to id
        (record {
          headers = record empty_headers { actor = actor_federation; action = vote_ping_action };
          body = none;
        })
        s
