-- ===== src/Federation/NodeIdGenerator/Distinct.antt =====
-- Instances of one role get node identifiers of their own (NodeIDFromV4Generator of
-- federation/nodeid_generator.go).
use phabrik.Base.{
  ℕ, ◌*◌, ◌/◌, ◌%◌, ◌^◌, ◌≤◌, ◌<◌, ◌≡◌, ◌≢◌, refl, ap, sym, ◌∙◌, true, false, List, [], ◌∷◌, ◌++◌,
  Option, none, some, ok, arith,
}
use phabrik.Federation.NodeId.{Uint128, node_id_of_bytes}
use phabrik.Federation.NodeIdGenerator.{
  add_digit, digit_value, digits, natural, is_separator, split_here, split_last, parse_uint,
  instance_bits, with_instance, id_of_parts, pearson_hash, node_id_from_v4_generator,
}

-- The factor has an inverse modulo 2 ^ 24.
scrambled_apart :
    (x y : ℕ) → x < 2 ^ 24 → y < 2 ^ 24 → x * 14938617 % 2 ^ 24 ≡ y * 14938617 % 2 ^ 24 → x ≡ y
scrambled_apart x y hx hy e = omega arith

-- Instances whose numbers differ modulo 2 ^ 24 get different bits.
pub instance_bits_apart :
    (role : List ℕ) (a b : ℕ)
    → instance_bits role a ≡ instance_bits role b
    → a % 2 ^ 24 ≡ b % 2 ^ 24
unfolding instance_bits
instance_bits_apart role a b e = omega arith

no_separator :
    (base acc c : ℕ) (a : ℕ)
    → add_digit base acc (digit_value c) ≡ some a
    → base ≤ 16
    → is_separator c ≡ false
unfolding add_digit digit_value is_separator
no_separator base acc c a h l = ground arith

-- Digits hold no separator.
split_last-digits : (acc n : ℕ) (cs : List ℕ) → digits 10 acc cs ≡ some n → split_last cs ≡ none
unfolding digits split_last
split_last-digits acc n [] h = refl
split_last-digits acc n (c ∷ cs) h =
    go (add_digit 10 acc (digit_value c)) refl h (λ acc'. split_last-digits acc' n cs)
  where
    go :
        (o : Option ℕ)
        → add_digit 10 acc (digit_value c) ≡ o
        → elim o [ none ↦ none | some acc' ↦ digits 10 acc' cs ] ≡ some n
        → ((acc' : ℕ) → digits 10 acc' cs ≡ some n → split_last cs ≡ none)
        → split_here c cs (split_last cs) ≡ none
    go none e k rest = cc
    go (some acc') e k rest =
        unfold split_here in rw (rest acc' k, no_separator 10 acc c acc' e (omega arith)) refl

parse_uint-natural : (cs : List ℕ) (n : ℕ) → parse_uint cs ≡ some n → natural 10 cs ≡ some n
unfolding parse_uint
parse_uint-natural cs n h = ground arith

split_last-parse_uint : (cs : List ℕ) (n : ℕ) → parse_uint cs ≡ some n → split_last cs ≡ none
split_last-parse_uint [] n h = unfold split_last in refl
split_last-parse_uint (c ∷ cs) n h =
    split_last-digits 0 n (c ∷ cs) (unfold natural in parse_uint-natural (c ∷ cs) n h)

split_last-append :
    (role : List ℕ) (c : ℕ) (cs : List ℕ)
    → is_separator c ≡ true
    → split_last cs ≡ none
    → split_last (role ++ (c ∷ cs)) ≡ some (role, cs)
unfolding split_last split_here
split_last-append [] c cs hc h = rw (h, hc) refl
split_last-append (r ∷ role) c cs hc h = rw (split_last-append role c cs hc h) refl

-- The identifier of an instance of a role: the bits of the instance above the low 40 bits of a hash.
pub node_id_from_v4_generator_lem :
    (role ds : List ℕ) (c n : ℕ)
    → is_separator c ≡ true
    → parse_uint ds ≡ some n
    → (id : Uint128) × (node_id_from_v4_generator (role ++ (c ∷ ds)) ≡ ok id)
      × (id.hi / 2 ^ 40 ≡ instance_bits role n)
unfolding node_id_from_v4_generator with_instance
node_id_from_v4_generator_lem role ds c n hc h =
    let hash : Uint128 = node_id_of_bytes (pearson_hash (role ++ (c ∷ ds))) in
    (
      with_instance hash role (some n),
      ap (id_of_parts hash) (split_last-append role c ds hc (split_last-parse_uint ds n h))
          ∙ (unfold id_of_parts in ap (λ o. ok (with_instance hash role o)) h),
      omega arith,
    )

-- Two instances of one role, whose numbers differ modulo 2 ^ 24, get node identifiers, and these
-- differ; the separators are `.` or `_`, and the numbers fit 64 bits.
pub node_id_from_v4_generator_apart :
    (role ds es : List ℕ) (c d a b : ℕ)
    → is_separator c ≡ true
    → is_separator d ≡ true
    → parse_uint ds ≡ some a
    → parse_uint es ≡ some b
    → a % 2 ^ 24 ≢ b % 2 ^ 24
    → (u v : Uint128) × (node_id_from_v4_generator (role ++ (c ∷ ds)) ≡ ok u)
      × (node_id_from_v4_generator (role ++ (d ∷ es)) ≡ ok v)
      × (u ≢ v)
node_id_from_v4_generator_apart role ds es c d a b hc hd ha hb apart =
    let (u, eu, ku) = node_id_from_v4_generator_lem role ds c a hc ha in
    let (v, ev, kv) = node_id_from_v4_generator_lem role es d b hd hb in
    (
      u,
      v,
      eu,
      ev,
      λ e. apart (instance_bits_apart role a b (sym ku ∙ (ap (λ x. x.hi / 2 ^ 40) e ∙ kv))),
    )
