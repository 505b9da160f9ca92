-- ===== src/Federation/Ring/Routes.antt =====
-- Where the reply to a routed message goes (Route and onMessage of the package federation).
use phabrik.Base.{
  ℕ, ◌≡◌, refl, ap, sym, ◌∙◌, inl, inr, Bool, true, false, String, List, [], ◌∷◌, Option, none,
  some, Result, ok, err, panic, ltb, arith, Bool-cases,
}
use phabrik.Serialization.Marshal.{Argument}
use phabrik.Transport.Headers.{
  MessageId, MessageHeaders, is_empty, is_absent, lookup, entries, append_custom_header,
  set_custom_header,
}
use phabrik.Transport.Message.{Message, ByteArrayMessage, fill_message_id}
use phabrik.Transport.RequestTable.{PendingRequest, RequestTable, put, feed}
use phabrik.Transport.RequestTable.Laws.{feed-feed, feed-put_self, id_eq_self}
use phabrik.Transport.Conn.{Connection}
use phabrik.Transport.Conn.Sending.{sent_id, fill-sent_id}
use phabrik.Federation.NodeId.{Uint128}
use phabrik.Federation.Partners.{
  NodeInstance, PartnerNodeInfo, SiteNode, connect_target, known_partner_nodes,
}
use phabrik.Federation.Sender.{
  self_info, federation_partner_node, append_partners, append_partner_info,
}
use phabrik.Federation.Ring.{
  PToPActor, Ring, routing, ptop, routing_header_id, load, dialled, pooled, get_conn, connected,
  connect_found, addressed, send_on, requested, route_to, route, connect_to_node, on_message,
}

requested-ok :
    (p q : PendingRequest) (r : Result (Unit {0}) × Ring) (s : Ring)
    → requested p r ≡ (ok q, s)
    → (p ≡ q) × (r ≡ (ok tt, s))
unfolding requested
requested-ok p q (ok u, d) s e = ground (arith, e)
requested-ok p q (err x, d) s e = cc (ap (λ t. t.0) e)
requested-ok p q (panic, d) s e = cc (ap (λ t. t.0) e)

-- The identifier stays where custom headers are added, and the identifiers' factory where a
-- connection is looked up.
append_custom_header-id :
    (typ : ℕ) (header : List Argument) (h : MessageHeaders)
    → (append_custom_header typ header h).0.id ≡ h.id
unfolding append_custom_header
append_custom_header-id typ header h =
    elim (Bool-cases (is_absent (lookup typ (entries h.custom_headers)))) [
      | inl e ↦ rw e
      | inr e ↦ rw e
    ]

set_custom_header-id :
    (typ : ℕ) (header : Argument) (h : MessageHeaders)
    → (set_custom_header typ header h).0.id ≡ h.id
unfolding set_custom_header
set_custom_header-id typ header h =
    elim (Bool-cases (is_absent (lookup typ (entries h.custom_headers)))) [
      | inl e ↦ rw e
      | inr e ↦ rw e
    ]

append_partners-id :
    (partner_header : PartnerNodeInfo → Argument) (ps : List PartnerNodeInfo) (h : MessageHeaders)
    → (append_partners partner_header ps h).id ≡ h.id
unfolding append_partners
append_partners-id partner_header [] h = refl
append_partners-id partner_header (p ∷ ps) h =
    append_partners-id partner_header ps _
    ∙ append_custom_header-id federation_partner_node (partner_header p ∷ []) h

append_partner_info-id :
    (partner_header : PartnerNodeInfo → Argument) (address lease_agent_address : String)
    (s : SiteNode) (h : MessageHeaders)
    → (append_partner_info partner_header address lease_agent_address s h).id ≡ h.id
unfolding append_partner_info
append_partner_info-id partner_header address lease_agent_address s h =
    let self = partner_header (self_info address lease_agent_address s) ∷ [] in
    append_partners-id partner_header
      (known_partner_nodes (λ p. ltb 0 p.node.instance_id) s.parteners)
      (append_custom_header federation_partner_node self h).0
    ∙ append_custom_header-id federation_partner_node self h

pooled-factory :
    (a : String) (found : Option ℕ) (dial : Result Connection) (s : Ring)
    → (pooled a found dial s).1.factory ≡ s.factory
unfolding pooled dialled
pooled-factory a (some conn) dial s = refl
pooled-factory a none (ok c) s = refl
pooled-factory a none (err e) s = refl
pooled-factory a none panic s = refl

connected-ring : (t : PartnerNodeInfo) (r : Result ℕ × Ring) → (connected t r).1 ≡ r.1
unfolding connected
connected-ring t (ok conn, s) = refl
connected-ring t (err e, s) = refl
connected-ring t (panic, s) = refl

connect_found-factory :
    (found : Result PartnerNodeInfo) (dial : String → Result Connection) (s : Ring)
    → (connect_found found dial s).1.factory ≡ s.factory
unfolding connect_found
connect_found-factory (ok t) dial s =
    ap (λ (r : Ring). r.factory) (connected-ring t (get_conn t.address (dial t.address) s))
    ∙ unfold get_conn in pooled-factory t.address (load t.address s.pool) (dial t.address) s
connect_found-factory (err e) dial s = refl
connect_found-factory panic dial s = refl

connect_to_node-factory :
    (id : Uint128) (match : Bool) (dial : String → Result Connection) (s : Ring)
    → (connect_to_node id match dial s).1.factory ≡ s.factory
unfolding connect_to_node
connect_to_node-factory id match dial s =
    connect_found-factory (connect_target id match s.site) dial s

feed-put :
    (p : PendingRequest) (k : MessageId) (r requests : RequestTable)
    → p ≡ (put k r).0
    → requests ≡ (put k r).1
    → is_empty k ≡ false
    → (feed k requests).0 ≡ some p
feed-put p k r requests e t full =
    ap (λ u. (feed k u).0) t ∙ (feed-put_self k r full ∙ ap some (sym e))

module _ (crc8 crc32 : List ℕ → ℕ) (partner_header : PartnerNodeInfo → Argument)
    (ptop_header : NodeInstance → NodeInstance → PToPActor → Bool → Argument)
    (routing_header : NodeInstance → NodeInstance → MessageId → Argument)
    (address lease_agent_address : String) (dial : String → Result Connection)
    (written : Bool) where
  addressed-id :
      (to : NodeInstance) (actor : PToPActor) (exact : Bool) (h : MessageHeaders) (s : Ring)
      → (addressed crc8 crc32 partner_header ptop_header routing_header address lease_agent_address
          dial written to actor exact h s).0.id
        ≡ sent_id s.factory h
  unfolding addressed
  addressed-id to actor exact h s =
      let h1 = (fill_message_id s.factory h).0 in
      let h2 = append_partner_info partner_header address lease_agent_address s.site h1 in
      set_custom_header-id ptop (ptop_header s.site.node to actor exact) h2
      ∙ (append_partner_info-id partner_header address lease_agent_address s.site h1
          ∙ ap (λ (g : MessageHeaders). g.id) (fill-sent_id s.factory h))

  -- That from the connection that was looked up on, the one thing sent is the message with these
  -- headers, on that connection, which took it.
  abbrev pub WasSent :
      Result (ℕ × PartnerNodeInfo) × Ring → MessageHeaders → Message → Ring → Type 0
  WasSent found h m t =
      (conn : ℕ) × (to : PartnerNodeInfo) × (before : Ring) × (found.0 ≡ ok (conn, to))
      × (before.heap ≡ found.1.heap)
      × (send_on crc8 crc32 partner_header ptop_header routing_header address lease_agent_address
            dial written conn (record m { headers = h }) before
          ≡ (ok tt, t))

  -- What Route has done where it waits: a message that expects a reply was sent, and its identifier
  -- put into the table.
  abbrev pub WasRouted :
      Result (ℕ × PartnerNodeInfo) × Ring → MessageId → Message → PendingRequest → Ring → Type 0
  WasRouted found k m p t =
      ((h : MessageHeaders) × (h.id ≡ k) × (h.expects_reply ≡ true) × WasSent found h m t)
      × ((r : RequestTable) × (p ≡ (put k r).0) × (t.requests ≡ (put k r).1))

  route_to-WasRouted :
      (k : MessageId) (m : Message) (found : Result (ℕ × PartnerNodeInfo) × Ring)
      (p : PendingRequest) (t : Ring)
      → route_to crc8 crc32 partner_header ptop_header routing_header address lease_agent_address
          dial written m found
        ≡ (ok p, t)
      → sent_id found.1.factory m.headers ≡ k
      → WasRouted found k m p t
  unfolding route_to send_on
  route_to-WasRouted k m (ok (conn, to), u) p t e key =
      let (same, at_end) = requested-ok _ p _ t e in
      let (h, before) =
        addressed crc8 crc32 partner_header ptop_header routing_header address lease_agent_address
          dial written to.node routing false m.headers u in
      let (h', _) =
        set_custom_header routing_header_id (routing_header u.site.node to.node h.id) h in
      let id : h'.id ≡ k =
        set_custom_header-id routing_header_id (routing_header u.site.node to.node h.id) h
        ∙ (addressed-id to.node routing false m.headers u ∙ key) in
      (
        (
          record h' { expects_reply = true },
          id,
          refl,
          (
            conn,
            to,
            record before { requests = (put h'.id before.requests).1 },
            refl,
            refl,
            at_end,
          ),
        ),
        (
          before.requests,
          sym same ∙ ap (λ j. (put j before.requests).0) id,
          ap (λ (r : Result (Unit {0}) × Ring). r.1.requests) (sym at_end)
              ∙ ap (λ j. (put j before.requests).1) id,
        ),
      )
  route_to-WasRouted k m (err x, u) p t e key = cc (ap (λ r. r.0) e)
  route_to-WasRouted k m (panic, u) p t e key = cc (ap (λ r. r.0) e)

  -- A message that was routed was sent on the connection to the partner that was looked up, as one
  -- that expects a reply, under an identifier that is its own, or where this is empty the next one of the site node. The pending request has the same
  -- identifier, a reply that relates to it goes to this request, and a second one to none. The
  -- identifier is to be not empty.
  pub route-on_message :
      (partners : MessageHeaders → List (Option PartnerNodeInfo)) (id : Uint128) (m : Message)
      (s t : Ring) (p : PendingRequest) (reply : ByteArrayMessage)
      → route crc8 crc32 partner_header ptop_header routing_header address lease_agent_address dial
          written id m s
        ≡ (ok p, t)
      → is_empty (sent_id s.factory m.headers) ≡ false
      → reply.headers.relates_to ≡ sent_id s.factory m.headers
      → ((h : MessageHeaders) × (h.id ≡ sent_id s.factory m.headers)
          × (h.expects_reply ≡ true)
          × WasSent (connect_to_node id false dial s) h m t)
        × (p.id ≡ sent_id s.factory m.headers)
        × ((on_message partners reply t).0 ≡ some p)
        × ((on_message partners reply (on_message partners reply t).1).0 ≡ none)
  unfolding route on_message
  route-on_message partners id m s t p reply e full relates =
      let k = sent_id s.factory m.headers in
      let (sent, (r, request, table)) =
        route_to-WasRouted k m (connect_to_node id false dial s) p t e
          (ap (λ f. sent_id f m.headers) (connect_to_node-factory id false dial s)) in
      (
        sent,
        ap (λ (q : PendingRequest). q.id) request ∙ unfold put in refl,
        ap (λ j. (feed j t.requests).0) relates ∙ feed-put p k r t.requests request table full,
        feed-feed reply.headers.relates_to reply.headers.relates_to t.requests
            ∙ rw (id_eq_self reply.headers.relates_to) refl,
      )
