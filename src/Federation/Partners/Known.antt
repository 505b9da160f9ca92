-- ===== src/Federation/Partners/Known.antt =====
-- What a site node knows after the partner headers of messages (federation/sitenode_parteners.go,
-- federation/sitenode.go).
use phabrik.Base.{
  ℕ, ◌≤◌, ◌≡◌, refl, ◌∙◌, sym, ap, subst, ◌⊎◌, inl, inr, Bool, true, false, ◌&&◌, List, [], ◌∷◌,
  Option, none, some, ◌==◌, if◌then◌else◌, arith, Bool-cases,
}
use phabrik.Federation.NodeId.{Uint128}
use phabrik.Federation.NodeId
use phabrik.Federation.Partners.{
  PartnerNodeInfo, SiteNode, NodePhase, phase_number, joining, booting, routing, lookup, insert,
  change_phase, on_partner_changed, is_newer, update_partner_node, update_partners,
}

pub eq_sound : (u v : Uint128) → NodeId.eq u v ≡ true → u ≡ v
unfolding NodeId.eq
eq_sound u v h = ground arith

pub eq_self : (u : Uint128) → NodeId.eq u u ≡ true
unfolding NodeId.eq
eq_self u = ground arith

pub lookup-insert :
    (k j : Uint128) (p : PartnerNodeInfo) (m : List (Uint128 × PartnerNodeInfo))
    → lookup j (insert k p m) ≡ (if NodeId.eq k j then some p else lookup j m)
unfolding lookup insert
lookup-insert k j p [] = refl
lookup-insert k j p ((i, q) ∷ m) = elim (Bool-cases (NodeId.eq i k)) [
  | inl e ↦ rw (e, eq_sound i k e) (shadow (NodeId.eq k j) _ _ _)
  | inr e ↦
      rw (e, lookup-insert k j p m)
        (elim (Bool-cases (NodeId.eq k j)) [
          | inl f ↦
              let apart : NodeId.eq i j ≡ false = ap (NodeId.eq i) (sym (eq_sound k j f)) ∙ e in
              rw (f, apart)
          | inr f ↦ rw f
        ])
]
  where
    shadow :
        (b : Bool) (x y z : Option PartnerNodeInfo)
        → (if b then x else y) ≡ (if b then x else (if b then z else y))
    shadow true x y z = refl
    shadow false x y z = refl

on_partner_changed-parteners :
    (p : PartnerNodeInfo) (s : SiteNode) → (on_partner_changed p s).parteners ≡ s.parteners
unfolding on_partner_changed
on_partner_changed-parteners p s = ground arith

-- A header is taken up under its identifier if it is newer than what is known there, and nothing
-- else changes.
update-lookup :
    (h : PartnerNodeInfo) (s : SiteNode) (k : Uint128)
    → lookup k (update_partner_node h s).parteners ≡ (
        if NodeId.eq h.node.id k && is_newer (lookup h.node.id s.parteners) h
        then some h
        else lookup k s.parteners)
unfolding update_partner_node
update-lookup h s k = elim (Bool-cases (is_newer (lookup h.node.id s.parteners) h)) [
  | inl e ↦ rw (e, on_partner_changed-parteners, lookup-insert, and_true (NodeId.eq h.node.id k))
  | inr e ↦ rw (e, and_false (NodeId.eq h.node.id k))
]
  where
    and_true : (b : Bool) → (b && true) ≡ b
    and_true true = refl
    and_true false = refl

    and_false : (b : Bool) → (b && false) ≡ false
    and_false true = refl
    and_false false = refl

-- Something is known, of at least this instance.
abbrev pub AtLeast : ℕ → Option PartnerNodeInfo → Type 0
AtLeast n none = ⊥
AtLeast n (some p) = n ≤ p.node.instance_id

AtLeast-trans : (m n : ℕ) (r : Option PartnerNodeInfo) → m ≤ n → AtLeast n r → AtLeast m r
AtLeast-trans m n none h a = a
AtLeast-trans m n (some p) h a = omega arith

-- One header: what was known stays known, and the header is known.
update-keeps :
    (h : PartnerNodeInfo) (s : SiteNode) (k : Uint128) (n : ℕ)
    → AtLeast n (lookup k s.parteners)
    → AtLeast n (lookup k (update_partner_node h s).parteners)
update-keeps h s k n a = rw (update-lookup h s k) (elim (Bool-cases (NodeId.eq h.node.id k)) [
  | inl e ↦
      let same = sym (eq_sound h.node.id k e) in
      rw (e, same)
        (pick (lookup h.node.id s.parteners) (subst (λ j. AtLeast n (lookup j s.parteners)) same a))
  | inr e ↦ rw e a
])
  where
    pick :
        (r : Option PartnerNodeInfo) → AtLeast n r → AtLeast n (if is_newer r h then some h else r)
    pick none a = absurd a
    pick (some p) a = unfold is_newer in ground arith

update-takes :
    (h : PartnerNodeInfo) (s : SiteNode)
    → AtLeast h.node.instance_id (lookup h.node.id (update_partner_node h s).parteners)
update-takes h s =
    rw (update-lookup h s h.node.id, eq_self h.node.id) (pick (lookup h.node.id s.parteners))
  where
    pick :
        (r : Option PartnerNodeInfo)
        → AtLeast h.node.instance_id (if is_newer r h then some h else r)
    pick none = unfold is_newer in omega arith
    pick (some p) = unfold is_newer in ground arith

abbrev pub Listed : PartnerNodeInfo → List (Option PartnerNodeInfo) → Type 0
Listed p [] = ⊥
Listed p (none ∷ hs) = Listed p hs
Listed p (some h ∷ hs) = (p ≡ h) ⊎ Listed p hs

-- After the headers of a message, every identifier that was known is known with the same instance
-- or a later one.
pub update_partners-keeps :
    (hs : List (Option PartnerNodeInfo)) (s : SiteNode) (k : Uint128) (n : ℕ)
    → AtLeast n (lookup k s.parteners)
    → AtLeast n (lookup k (update_partners hs s).parteners)
unfolding update_partners
update_partners-keeps [] s k n a = a
update_partners-keeps (none ∷ hs) s k n a = update_partners-keeps hs s k n a
update_partners-keeps (some h ∷ hs) s k n a =
    update_partners-keeps hs (update_partner_node h s) k n (update-keeps h s k n a)

-- Every header of the message is known afterwards, with its instance or a later one.
pub update_partners-takes :
    (hs : List (Option PartnerNodeInfo)) (s : SiteNode) (h : PartnerNodeInfo)
    → Listed h hs
    → AtLeast h.node.instance_id (lookup h.node.id (update_partners hs s).parteners)
unfolding update_partners
update_partners-takes [] s h l = absurd l
update_partners-takes (none ∷ hs) s h l = update_partners-takes hs s h l
update_partners-takes (some g ∷ hs) s h (inl e) = rw e (
    update_partners-keeps hs (update_partner_node g s) g.node.id g.node.instance_id
      (update-takes g s))
update_partners-takes (some g ∷ hs) s h (inr l) =
    update_partners-takes hs (update_partner_node g s) h l

-- Nothing else becomes known: what is known afterwards was a header or was known before.
pub update_partners-source :
    (hs : List (Option PartnerNodeInfo)) (s : SiteNode) (k : Uint128) (p : PartnerNodeInfo)
    → lookup k (update_partners hs s).parteners ≡ some p
    → Listed p hs ⊎ (lookup k s.parteners ≡ some p)
unfolding update_partners
update_partners-source [] s k p e = inr e
update_partners-source (none ∷ hs) s k p e = update_partners-source hs s k p e
update_partners-source (some h ∷ hs) s k p e =
    split (update_partners-source hs (update_partner_node h s) k p e)
  where
    split :
        Listed p hs ⊎ (lookup k (update_partner_node h s).parteners ≡ some p)
        → ((p ≡ h) ⊎ Listed p hs) ⊎ (lookup k s.parteners ≡ some p)
    split (inl l) = inl (inr l)
    split (inr e) =
        from (NodeId.eq h.node.id k && is_newer (lookup h.node.id s.parteners) h) _
          (sym (update-lookup h s k) ∙ e)
      where
        from :
            (b : Bool) (r : Option PartnerNodeInfo)
            → (if b then some h else r) ≡ some p
            → ((p ≡ h) ⊎ Listed p hs) ⊎ (r ≡ some p)
        from true r e = inl (inl (cc e))
        from false r e = inr e

-- The phase after one header: booting ends, and only so, by a new partner that is routing.
update-phase :
    (h : PartnerNodeInfo) (s : SiteNode)
    → (update_partner_node h s).phase ≡ (
        if is_newer (lookup h.node.id s.parteners) h
          && ((phase_number h.phase == 3) && (phase_number s.phase == 0))
        then joining
        else s.phase)
unfolding update_partner_node on_partner_changed change_phase
update-phase h s = ground arith

abbrev pub SomeRouting : List (Option PartnerNodeInfo) → Type 0
SomeRouting [] = ⊥
SomeRouting (none ∷ hs) = SomeRouting hs
SomeRouting (some h ∷ hs) = (h.phase ≡ routing) ⊎ SomeRouting hs

-- What a message's headers may do to the phase.
abbrev pub PhaseMoves : List (Option PartnerNodeInfo) → NodePhase → NodePhase → Type 0
PhaseMoves hs before after =
    (after ≡ before) ⊎ ((before ≡ booting) × (after ≡ joining) × SomeRouting hs)

one_header :
    (h : PartnerNodeInfo) (s : SiteNode)
    → PhaseMoves (some h ∷ []) s.phase (update_partner_node h s).phase
one_header h s =
    rw (update-phase h s) (go (is_newer (lookup h.node.id s.parteners) h) h.phase s.phase)
  where
    go :
        (b : Bool) (p q : NodePhase)
        → ((if b && ((phase_number p == 3) && (phase_number q == 0)) then joining else q) ≡ q)
          ⊎ ((q ≡ booting)
              × ((if b && ((phase_number p == 3) && (phase_number q == 0)) then joining else q)
                  ≡ joining)
              × ((p ≡ routing) ⊎ ⊥))
    go b p q = ground arith

-- The headers of a message leave the phase as it is, or take a booting node to joining, and then
-- one of them was of a partner that is routing.
pub update_partners-phase :
    (hs : List (Option PartnerNodeInfo)) (s : SiteNode)
    → PhaseMoves hs s.phase (update_partners hs s).phase
unfolding update_partners
update_partners-phase [] s = inl refl
update_partners-phase (none ∷ hs) s = update_partners-phase hs s
update_partners-phase (some h ∷ hs) s =
    chain (one_header h s) (update_partners-phase hs (update_partner_node h s))
  where
    chain :
        {a b c : NodePhase}
        → PhaseMoves (some h ∷ []) a b
        → PhaseMoves hs b c
        → PhaseMoves (some h ∷ hs) a c
    chain (inl e) (inl f) = inl (f ∙ e)
    chain (inl e) (inr (g, f, r)) = inr (sym e ∙ g, f, inr r)
    chain (inr (g, f, inl r)) (inl k) = inr (g, k ∙ f, inl r)
    chain (inr (g, f, inr r)) (inl k) = absurd r
    chain (inr (g, f, r)) (inr (g', _, _)) = absurd (apart (sym f ∙ g'))
      where
        apart : joining ≡ booting → ⊥
        apart e = cc
