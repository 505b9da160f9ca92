-- ===== src/Federation/Partners/Closest.antt =====
-- Which partner is closest (federation/sitenode_parteners.go, federation/sitenode_sender.go).
use Prim.Native.Nat.{Ordering, compare}
use phabrik.Base.{
  ℕ, ◌+◌, ◌-◌, ◌%◌, ◌^◌, ◌<◌, ◌≡◌, ◌≢◌, refl, ◌∙◌, ap, ◌⊎◌, inl, inr, Bool, true, false, not, List,
  [], ◌∷◌, Option, none, some, ok, err, errorf, subst, ltb, ◌==◌, if◌then◌else◌, arith, Bool-cases,
  ne→==, ltb-false,
}
use native.Mathlib.Decide.{ℕ_discrete}
use phabrik.Federation.NodeId.{
  Uint128, u128_zero, u128_max, IsUint128, sub, cmp, value, cmp-compare, value-sub, eq_iff,
}
use phabrik.Federation.NodeId
use phabrik.Federation.Partners.{
  PartnerNodeInfo, SiteNode, known_partner_nodes, closest_loop, closest_partner_node, check_target,
  connect_target,
}

-- How far a partner lies behind the identifier, upwards on the ring.
abbrev pub distance : Uint128 → PartnerNodeInfo → ℕ
distance id p = (value p.node.id + 2 ^ 128 - value id) % 2 ^ 128

abbrev pub All : (PartnerNodeInfo → Type 0) → List PartnerNodeInfo → Type 0
All P [] = Unit {0}
All P (p ∷ ps) = P p × All P ps

abbrev pub Any : (PartnerNodeInfo → Type 0) → List PartnerNodeInfo → Type 0
Any P [] = ⊥
Any P (p ∷ ps) = P p ⊎ Any P ps

diff_zero :
    (id : Uint128) (p : PartnerNodeInfo)
    → IsUint128 id
    → IsUint128 p.node.id
    → NodeId.eq (sub p.node.id id) u128_zero ≡ (distance id p == 0)
diff_zero id p hi hp =
    let (r, v) = value-sub p.node.id id hp hi in
    eq_iff (sub p.node.id id) u128_zero r (omega arith) ∙ ap (λ x. x == 0) v

diff_cmp :
    (id max : Uint128) (p : PartnerNodeInfo)
    → IsUint128 id
    → IsUint128 p.node.id
    → IsUint128 max
    → cmp (sub p.node.id id) max ≡ compare (distance id p) (value max)
diff_cmp id max p hi hp hm =
    let (r, v) = value-sub p.node.id id hp hi in
    cmp-compare (sub p.node.id id) max r hm ∙ ap (λ x. compare x (value max)) v

-- The loop with its tests on distances.
closest_loop_step :
    (id max : Uint128) (is_set : Bool) (var : Option PartnerNodeInfo) (p : PartnerNodeInfo)
    (ps : List PartnerNodeInfo)
    → IsUint128 id
    → IsUint128 max
    → IsUint128 p.node.id
    → closest_loop id max is_set var (p ∷ ps) ≡ (
        if distance id p == 0
        then some p
        else (if ltb (distance id p) (value max)
            then closest_loop id (sub p.node.id id) true (some p) ps
            else closest_loop id max is_set (some p) ps))
unfolding closest_loop
closest_loop_step id max is_set var p ps hi hm hp =
    rw (diff_zero id p hi hp, diff_cmp id max p hi hp hm)
      (ap (λ r. if distance id p == 0 then some p else r) (branch (distance id p) (value max) _ _))
  where
    branch :
        (a b : ℕ) (x y : Option PartnerNodeInfo)
        → (let r : Option PartnerNodeInfo = elim (compare a b) [ Ordering.lt ↦ x | _ ↦ y ] in
            r ≡ (if ltb a b then x else y))
    branch a b x y = ground arith

-- A partner at the identifier is returned, the first in the order of iteration.
abbrev pub FirstExact : Uint128 → List PartnerNodeInfo → Option PartnerNodeInfo → Type 0
FirstExact id [] r = ⊥
FirstExact id (p ∷ ps) r =
    ((distance id p ≡ 0) × (r ≡ some p)) ⊎ ((distance id p ≢ 0) × FirstExact id ps r)

abbrev pub last : Option PartnerNodeInfo → List PartnerNodeInfo → Option PartnerNodeInfo
last var [] = var
last var (p ∷ ps) = last (some p) ps

-- With no partner at the identifier the loop ends with the variable's last content, if any
-- partner was below the bound or `cur` was set before.
closest_loop-last :
    (id max : Uint128) (is_set : Bool) (var : Option PartnerNodeInfo) (ps : List PartnerNodeInfo)
    → IsUint128 id
    → IsUint128 max
    → All (λ p. IsUint128 p.node.id × (distance id p ≢ 0)) ps
    → (is_set ≡ true) ⊎ Any (λ p. distance id p < value max) ps
    → closest_loop id max is_set var ps ≡ last var ps
closest_loop-last id max is_set var [] hi hm hs (inl e) = unfold closest_loop in rw e
closest_loop-last id max is_set var [] hi hm hs (inr a) = absurd a
closest_loop-last id max is_set var (p ∷ ps) hi hm hs a =
    rw (closest_loop_step id max is_set var p ps hi hm hs.0.0, ne→== _ _ hs.0.1)
      (elim (Bool-cases (ltb (distance id p) (value max))) [
        | inl e ↦ rw e (
            closest_loop-last id (sub p.node.id id) true (some p) ps hi
              (value-sub p.node.id id hs.0.0 hi).0 hs.1 (inl refl))
        | inr e ↦ rw e (closest_loop-last id max is_set (some p) ps hi hm hs.1 (later e a))
      ])
  where
    later :
        ltb (distance id p) (value max) ≡ false
        → (is_set ≡ true) ⊎ Any (λ p. distance id p < value max) (p ∷ ps)
        → (is_set ≡ true) ⊎ Any (λ p. distance id p < value max) ps
    later e (inl s) = inl s
    later e (inr (inl h)) = absurd (ltb-false _ _ e h)
    later e (inr (inr h)) = inr h

closest_loop_exact :
    (id max : Uint128) (is_set : Bool) (var : Option PartnerNodeInfo) (ps : List PartnerNodeInfo)
    → IsUint128 id
    → IsUint128 max
    → All (λ p. IsUint128 p.node.id) ps
    → Any (λ p. distance id p ≡ 0) ps
    → FirstExact id ps (closest_loop id max is_set var ps)
closest_loop_exact id max is_set var [] hi hm hs a = absurd a
closest_loop_exact id max is_set var (p ∷ ps) hi hm hs a =
    rw (closest_loop_step id max is_set var p ps hi hm hs.0) (elim (ℕ_discrete (distance id p) 0) [
      | yes z ↦ inl (z, rw z)
      | no z ↦ inr (
        z,
        rw (ne→== _ _ z) (elim (Bool-cases (ltb (distance id p) (value max))) [
          | inl e ↦ rw e (
              closest_loop_exact id (sub p.node.id id) true (some p) ps hi
                (value-sub p.node.id id hs.0 hi).0 hs.1 (later z a))
          | inr e ↦ rw e (closest_loop_exact id max is_set (some p) ps hi hm hs.1 (later z a))
        ]),
      )
    ])
  where
    later :
        distance id p ≢ 0 → Any (λ p. distance id p ≡ 0) (p ∷ ps) → Any (λ p. distance id p ≡ 0) ps
    later z (inl h) = absurd (z h)
    later z (inr h) = h

abbrev IfSome : (PartnerNodeInfo → Type 0) → Option PartnerNodeInfo → Type 0
IfSome P none = Unit {0}
IfSome P (some p) = P p

-- What the loop returns is one of the partners, or what the variable held.
closest_loop-IfSome :
    (P : PartnerNodeInfo → Type 0) (id max : Uint128) (is_set : Bool) (var : Option PartnerNodeInfo)
    (ps : List PartnerNodeInfo)
    → IfSome P var
    → All P ps
    → IfSome P (closest_loop id max is_set var ps)
unfolding closest_loop
closest_loop-IfSome P id max true var [] hv hs = hv
closest_loop-IfSome P id max false var [] hv hs = tt
closest_loop-IfSome P id max is_set var (p ∷ ps) hv hs =
    pick (NodeId.eq diff u128_zero) (cmp diff max) _ _ _ hs.0
      (closest_loop-IfSome P id diff true (some p) ps hs.0 hs.1)
      (closest_loop-IfSome P id max is_set (some p) ps hs.0 hs.1)
  where
    diff : Uint128
    diff = sub p.node.id id

    pick :
        (b : Bool) (o : Ordering) (x y z : Option PartnerNodeInfo)
        → IfSome P x
        → IfSome P y
        → IfSome P z
        → IfSome P (if b then x else (elim o [ Ordering.lt ↦ y | _ ↦ z ]))
    pick true o x y z hx hy hz = hx
    pick false Ordering.lt x y z hx hy hz = hy
    pick false Ordering.eq x y z hx hy hz = hz
    pick false Ordering.gt x y z hx hy hz = hz

-- The partners that connectToNode chooses from: those known but itself.
abbrev pub others : SiteNode → List PartnerNodeInfo
others s = known_partner_nodes (λ p. not (NodeId.eq p.node.id s.node.id)) s.parteners

same_id :
    (id : Uint128) (p : PartnerNodeInfo)
    → IsUint128 id
    → IsUint128 p.node.id
    → NodeId.eq p.node.id id ≡ (distance id p == 0)
same_id id p hi hp = eq_iff p.node.id id hp hi ∙ ground arith

first_exact :
    (id : Uint128) (ps : List PartnerNodeInfo) (r : Option PartnerNodeInfo)
    → IsUint128 id
    → All (λ p. IsUint128 p.node.id) ps
    → FirstExact id ps r
    → (t : PartnerNodeInfo) × (r ≡ some t) × (NodeId.eq t.node.id id ≡ true)
first_exact id [] r hi hs f = absurd f
first_exact id (p ∷ ps) r hi hs (inl (z, e)) = (p, e, rw (same_id id p hi hs.0, z))
first_exact id (p ∷ ps) r hi hs (inr (z, f)) = first_exact id ps r hi hs.1 f

-- While a partner with the identifier is known, connectToNode connects to the first such partner,
-- whether the identifiers have to match or not.
pub connect_target_known :
    (id : Uint128) (match : Bool) (s : SiteNode)
    → IsUint128 id
    → All (λ p. IsUint128 p.node.id) (others s)
    → Any (λ p. distance id p ≡ 0) (others s)
    → (t : PartnerNodeInfo) × (connect_target id match s ≡ ok t) × FirstExact id (others s) (some t)
unfolding connect_target closest_partner_node
connect_target_known id match s hi hs a =
    let f = closest_loop_exact id u128_max false none (others s) hi (omega arith) hs a in
    let (t, e, same) = first_exact id (others s) _ hi hs f in
    (t, rw e (checked match t same), subst (FirstExact id (others s)) e f)
  where
    checked :
        (match : Bool) (t : PartnerNodeInfo)
        → NodeId.eq t.node.id id ≡ true
        → check_target id match (some t) ≡ ok t
    checked true t h = unfold check_target in rw h
    checked false t h = unfold check_target in refl

-- If no known partner has the identifier, connectToNode with matching identifiers is an error.
pub connect_target_unknown :
    (id : Uint128) (s : SiteNode)
    → IsUint128 id
    → All (λ p. IsUint128 p.node.id × (distance id p ≢ 0)) (others s)
    → connect_target id true s ≡ err (errorf "%v not found")
unfolding connect_target closest_partner_node
connect_target_unknown id s hi hs =
    refused (closest_partner_node id (λ p. not (NodeId.eq p.node.id s.node.id)) s) (
      closest_loop-IfSome (λ p. IsUint128 p.node.id × (distance id p ≢ 0)) id u128_max false none
        (others s) tt hs)
  where
    refused :
        (r : Option PartnerNodeInfo)
        → IfSome (λ p. IsUint128 p.node.id × (distance id p ≢ 0)) r
        → check_target id true r ≡ err (errorf "%v not found")
    refused none h = unfold check_target in refl
    refused (some p) h = unfold check_target in rw (same_id id p hi h.0, ne→== _ _ h.1)

-- If no known partner has the identifier, but one is less than 2 ^ 128 - 1 behind it, then
-- connectToNode without matching connects to the last partner in the order of iteration, wherever
-- on the ring that is.
pub connect_target-last :
    (id : Uint128) (s : SiteNode)
    → IsUint128 id
    → All (λ p. IsUint128 p.node.id × (distance id p ≢ 0)) (others s)
    → Any (λ p. distance id p < 2 ^ 128 - 1) (others s)
    → (t : PartnerNodeInfo) × (connect_target id false s ≡ ok t) × (last none (others s) ≡ some t)
unfolding connect_target closest_partner_node check_target
connect_target-last id s hi hs a =
    let (t, e) = last_some (others s) a in
    (t, rw (closest_loop-last id u128_max false none (others s) hi (omega arith) hs (inr a), e), e)
  where
    from_some :
        (p : PartnerNodeInfo) (ps : List PartnerNodeInfo)
        → (t : PartnerNodeInfo) × (last (some p) ps ≡ some t)
    from_some p [] = (p, refl)
    from_some p (q ∷ qs) = from_some q qs

    last_some :
        (ps : List PartnerNodeInfo)
        → Any (λ p. distance id p < 2 ^ 128 - 1) ps
        → (t : PartnerNodeInfo) × (last none ps ≡ some t)
    last_some [] h = absurd h
    last_some (p ∷ ps) h = from_some p ps
