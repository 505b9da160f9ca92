-- ===== src/Federation/Discover/Settles.antt =====
-- That Discover ends once nothing new is known, with all that is known (federation/sitenode_boot.go).
use mathlib.Core.List.{Subset}
use phabrik.Base.{ℕ, ◌≤◌, ◌≡◌, false, List, [], ◌∷◌}
use phabrik.Federation.NodeId.{Uint128}
use phabrik.Federation.NodeId
use phabrik.Federation.Partners.{PartnerNodeInfo, lookup}
use phabrik.Federation.Discover.{Discovered, instance_of}

-- The instance that has been discovered of a node.
abbrev pub known_of : Uint128 → Discovered → ℕ
known_of k d = instance_of (lookup k d)

-- This partner, unless it is the node itself, has been discovered, in this instance or a newer one.
abbrev pub Covers : Uint128 → Discovered → PartnerNodeInfo → Type 0
Covers self d p = NodeId.eq p.node.id self ≡ false → p.node.instance_id ≤ known_of p.node.id d

abbrev pub CoversAll : Uint128 → Discovered → List PartnerNodeInfo → Type 0
CoversAll self d [] = Unit {0}
CoversAll self d (p ∷ ps) = Covers self d p × CoversAll self d ps

-- The same partners, in whatever order.
abbrev pub SameMembers : List PartnerNodeInfo → List PartnerNodeInfo → Type 0
SameMembers ps qs = Subset ps qs × Subset qs ps
