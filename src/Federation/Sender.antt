-- ===== src/Federation/Sender.antt =====
-- federation/sitenode_sender.go: what a site node puts on the messages that it sends.
--
-- `partner_header` stands for the FederationPartnerNodeHeader of a partner, as the value that
-- transport marshals.
use phabrik.Base.{ℕ, ◌≡◌, String, refl, ◌∙◌, false, List, [], ◌∷◌, none, ltb}
use phabrik.Federation.Partners.{PartnerNodeInfo, SiteNode, empty_token, known_partner_nodes}
use phabrik.Serialization.Marshal.{Argument}
use phabrik.Transport.Headers.{
  MessageHeaders, get_custom_headers, append_custom_header, lookup, entries,
}
use phabrik.Transport.Headers.Custom.{
  IsPresent, append-IsPresent, get-append_refused, get-append_taken,
}

-- MessageHeaderIdTypeFederationPartnerNode
abbrev pub federation_partner_node : ℕ
federation_partner_node = 0x800c

-- The partner header that a node gives of itself.
unfoldable pub self_info : String → String → SiteNode → PartnerNodeInfo
self_info address lease_agent_address s = record {
  node = s.node;
  phase = s.phase;
  address = address;
  token = empty_token;
  lease_agent_address = lease_agent_address;
  lease_agent_instance_id = 0;
  end_to_end = false;
  node_fault_domain_id = none;
  ring_name = "";
}

module _ (partner_header : PartnerNodeInfo → Argument) where
  unfoldable pub append_partners : List PartnerNodeInfo → MessageHeaders → MessageHeaders
  append_partners [] h = h
  append_partners (p ∷ ps) h =
      append_partners ps (append_custom_header federation_partner_node (partner_header p ∷ []) h).0

  -- appendPartnerInfo
  unfoldable pub append_partner_info : String → String → SiteNode → MessageHeaders → MessageHeaders
  unfolding append_partners self_info
  append_partner_info address lease_agent_address s h =
      append_partners (known_partner_nodes (λ p. ltb 0 p.node.instance_id) s.parteners)
        (append_custom_header federation_partner_node
          (partner_header (self_info address lease_agent_address s) ∷ []) h).0

  append_partners_refused :
      (ps : List PartnerNodeInfo) (h : MessageHeaders)
      → IsPresent federation_partner_node h
      → get_custom_headers federation_partner_node (append_partners ps h)
        ≡ get_custom_headers federation_partner_node h
  unfolding append_partners
  append_partners_refused [] h p = refl
  append_partners_refused (q ∷ qs) h p =
      append_partners_refused qs _
        (append-IsPresent federation_partner_node (partner_header q ∷ []) h)
      ∙ get-append_refused federation_partner_node (partner_header q ∷ []) h p

  -- A message without partner headers gets one partner header, that of the sender, whatever
  -- partners the sender knows.
  pub append_partner_info_self :
      (address lease_agent_address : String) (s : SiteNode) (h : MessageHeaders)
      → lookup federation_partner_node (entries h.custom_headers) ≡ none
      → get_custom_headers federation_partner_node
          (append_partner_info address lease_agent_address s h)
        ≡ partner_header (self_info address lease_agent_address s) ∷ []
  unfolding append_partner_info
  append_partner_info_self address lease_agent_address s h e =
      let self = partner_header (self_info address lease_agent_address s) ∷ [] in
      append_partners_refused (known_partner_nodes (λ p. ltb 0 p.node.instance_id) s.parteners) _
        (append-IsPresent federation_partner_node self h)
      ∙ get-append_taken federation_partner_node self h e
