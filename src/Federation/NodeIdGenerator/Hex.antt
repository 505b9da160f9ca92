-- ===== src/Federation/NodeIdGenerator/Hex.antt =====
-- Node identifiers as hex strings: NodeIDFromHex of federation/nodeid_generator.go reads what String
-- of federation/nodeid.go prints.
use phabrik.Base.{
  ℕ, zero, suc, ◌+◌, ◌*◌, ◌/◌, ◌%◌, ◌^◌, ◌<◌, ◌≡◌, refl, ap, ◌∙◌, false, List, [], ◌∷◌, some, ok,
  ltb, if◌then◌else◌, arith, ne→==,
}
use phabrik.Federation.NodeId.{Uint128, IsUint128}
use phabrik.Federation.NodeIdGenerator.{
  digit_value, add_digit, digits, natural, set_string, with_sign, shifted, node_id_of,
  node_id_from_hex,
}

unfoldable pub hex_digit : ℕ → ℕ
hex_digit d = if ltb d 10 then 48 + d else 87 + d

-- The last `n` hex digits of `v`, before `rest`: the verb %x with zeros in front.
unfoldable pub hex : ℕ → ℕ → List ℕ → List ℕ
unfolding hex_digit
hex zero v rest = rest
hex (suc n) v rest = hex n (v / 16) (hex_digit (v % 16) ∷ rest)

-- NodeID.String
unfoldable pub string : Uint128 → List ℕ
unfolding hex
string n = hex 16 n.hi (hex 16 n.lo [])

shift : ℕ → ℕ → ℕ
shift zero acc = acc
shift (suc n) acc = 16 * shift n acc

size : ℕ → ℕ
size zero = 1
size (suc n) = 16 * size n

digit-hex_digit :
    (acc d : ℕ) → d < 16 → add_digit 16 acc (digit_value (hex_digit d)) ≡ some (16 * acc + d)
unfolding add_digit digit_value hex_digit
digit-hex_digit acc d h = ground arith

digits_step :
    (base acc acc' c : ℕ) (cs : List ℕ)
    → add_digit base acc (digit_value c) ≡ some acc'
    → digits base acc (c ∷ cs) ≡ digits base acc' cs
unfolding digits
digits_step base acc acc' c cs e = rw (e, digits) refl

digits-hex :
    (n acc v : ℕ) (rest : List ℕ)
    → v < size n
    → digits 16 acc (hex n v rest) ≡ digits 16 (shift n acc + v) rest
unfolding hex shift size digits
digits-hex zero acc v rest h = ap (λ x. digits 16 x rest) (omega arith)
digits-hex (suc n) acc v rest h =
    let acc' : ℕ = shift n acc + v / 16 in
    let one : digits 16 acc' (hex_digit (v % 16) ∷ rest) ≡ digits 16 (16 * acc' + v % 16) rest =
      digits_step 16 acc' (16 * acc' + v % 16) (hex_digit (v % 16)) rest
        (digit-hex_digit acc' (v % 16) (omega arith)) in
    digits-hex n acc (v / 16) (hex_digit (v % 16) ∷ rest) (omega arith)
    ∙ (one ∙ ap (λ x. digits 16 x rest) (omega arith))

digits-string : (n : Uint128) → IsUint128 n → digits 16 0 (string n) ≡ some (n.hi * 2 ^ 64 + n.lo)
unfolding string
digits-string n v =
    digits-hex 16 0 n.hi (hex 16 n.lo []) (unfold size in v.0)
    ∙ (digits-hex 16 (shift 16 0 + n.hi) n.lo [] (unfold size in v.1)
        ∙ unfold digits shift in ap some (omega arith))

-- A string whose first character is a hex digit has no sign.
unsigned :
    (n v : ℕ) (rest : List ℕ)
    → set_string 16 (hex (suc n) v rest) ≡ with_sign false (natural 16 (hex (suc n) v rest))
unfolding hex set_string
unsigned zero v rest =
    rw
      (
        ne→== (hex_digit (v % 16)) 45 (unfold hex_digit in ground arith),
        ne→== (hex_digit (v % 16)) 43 (unfold hex_digit in ground arith),
      )
      refl
unsigned (suc n) v rest = unsigned n (v / 16) (hex_digit (v % 16) ∷ rest)

nonempty :
    (n v : ℕ) (rest : List ℕ) → natural 16 (hex (suc n) v rest) ≡ digits 16 0 (hex (suc n) v rest)
unfolding hex natural
nonempty zero v rest = refl
nonempty (suc n) v rest = nonempty n (v / 16) (hex_digit (v % 16) ∷ rest)

-- A node identifier with halves below 2 ^ 64 is read back from the 32 digits that it prints.
pub node_id_from_hex-string : (n : Uint128) → IsUint128 n → node_id_from_hex (string n) ≡ ok n
unfolding node_id_from_hex string
node_id_from_hex-string n v =
    let rest : List ℕ = hex 16 n.lo [] in
    let magnitude : set_string 16 (hex 16 n.hi rest) ≡ some (false, n.hi * 2 ^ 64 + n.lo) =
      unsigned 15 n.hi rest
      ∙ ap (with_sign false) (nonempty 15 n.hi rest ∙ digits-string n v)
      ∙ unfold with_sign in refl in
    let hi : (n.hi * 2 ^ 64 + n.lo) / 2 ^ 64 % 2 ^ 64 ≡ n.hi = omega arith in
    let lo : (n.hi * 2 ^ 64 + n.lo) % 2 ^ 64 ≡ n.lo = omega arith in
    ap node_id_of magnitude ∙ unfold node_id_of shifted in λ i. ok (record { hi = hi i; lo = lo i })
