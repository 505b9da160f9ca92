-- ===== src/Serialization/Guid.antt =====
-- serialization/guid.go: the GUID, its layout, version 4 and its two marshalling methods.
use Prim.Native.Nat.{bit_and, bit_or}
use phabrik.Base.{
  ℕ, ◌^◌, ◌<◌, ◌≡◌, refl, Bool, true, false, ◌&&◌, List, [], ◌∷◌, ◌++◌, Result, ok, errorf, ◌==◌,
  ==_self, if◌then◌else◌, ◌>>=◌, ◌>>◌, guard, le_bytes, le_value, arith, take, drop, length,
}
use phabrik.Serialization.State.{DecodeState, read_binary, EncodeState, write}
use phabrik.Serialization.TypeMeta.{meta, is_base_meta}

-- data4 is the array of eight bytes.
pub record Guid : Type 0 where
  pub data1 : ℕ
  pub data2 : ℕ
  pub data3 : ℕ
  pub data4 : List ℕ

abbrev pub empty_guid : Guid
empty_guid = record { data1 = 0; data2 = 0; data3 = 0; data4 = 0 ∷ 0 ∷ 0 ∷ 0 ∷ 0 ∷ 0 ∷ 0 ∷ 0 ∷ [] }

unfoldable pub bytes_eq : List ℕ → List ℕ → Bool
bytes_eq [] [] = true
bytes_eq [] (_ ∷ _) = false
bytes_eq (_ ∷ _) [] = false
bytes_eq (a ∷ as') (b ∷ bs) = (a == b) && bytes_eq as' bs

unfoldable pub guid_eq : Guid → Guid → Bool
unfolding bytes_eq
guid_eq g h =
    ((g.data1 == h.data1) && (g.data2 == h.data2))
    && ((g.data3 == h.data3) && bytes_eq g.data4 h.data4)

unfoldable pub is_empty : Guid → Bool
unfolding guid_eq
is_empty g = guid_eq g empty_guid

-- The 16 bytes that encoding/binary gives a GUID, and back.
unfoldable pub guid_bytes : Guid → List ℕ
guid_bytes g = le_bytes 4 g.data1 ++ (le_bytes 2 g.data2 ++ (le_bytes 2 g.data3 ++ g.data4))

unfoldable pub guid_of_bytes : List ℕ → Guid
guid_of_bytes bs = record {
  data1 = le_value (take 4 bs);
  data2 = le_value (take 2 (drop 4 bs));
  data3 = le_value (take 2 (drop 6 bs));
  data4 = drop 8 bs;
}

-- NewGuidV4 on the bytes that crypto/rand gives, or on its error.
unfoldable pub new_guid_v4 : Result (List ℕ) → Result Guid
unfolding guid_of_bytes
new_guid_v4 random = do
  b ← random
  let g = guid_of_bytes b
  ok (record g { data3 = bit_or (bit_and g.data3 0x0fff) 0x4000; data4 = mark g.data4 })
  where
    mark : List ℕ → List ℕ
    mark [] = []
    mark (b ∷ bs) = bit_or (bit_and b 0x3f) 0x80 ∷ bs

unfoldable pub marshal : Guid → EncodeState → Result EncodeState
unfolding is_empty guid_bytes
marshal g s =
    if is_empty g
    then write (bit_or meta.guid meta.empty_value_bit ∷ []) s
    else (do s' ← write (meta.guid ∷ []) s; write (guid_bytes g) s')

unfoldable pub unmarshal : ℕ → DecodeState → Result (Guid × DecodeState)
unfolding guid_of_bytes
unmarshal m s = do
  guard (is_base_meta m meta.guid) (errorf "expect guid get %v")
  (bytes, s') ← read_binary 16 s
  ok (guid_of_bytes bytes, s')

abbrev pub AreBytes : List ℕ → Type 0
AreBytes [] = Unit {0}
AreBytes (b ∷ bs) = (b < 256) × AreBytes bs

-- The ranges of the fields.
pub record IsGuid (g : Guid) : Type 0 where
  pub data1_fits : g.data1 < 2 ^ 32
  pub data2_fits : g.data2 < 2 ^ 16
  pub data3_fits : g.data3 < 2 ^ 16
  pub data4_fits : AreBytes g.data4
  pub data4_length : length g.data4 ≡ 8

pub bytes_eq_sound : (as' bs : List ℕ) → bytes_eq as' bs ≡ true → as' ≡ bs
unfolding bytes_eq
bytes_eq_sound [] [] h = refl
bytes_eq_sound [] (b ∷ bs) h = cc
bytes_eq_sound (a ∷ as') [] h = cc
bytes_eq_sound (a ∷ as') (b ∷ bs) h = ground (arith, bytes_eq_sound as' bs)

pub guid_eq_sound : (g h : Guid) → guid_eq g h ≡ true → g ≡ h
unfolding guid_eq
guid_eq_sound g h e = ground (arith, bytes_eq_sound g.data4 h.data4)

pub bytes_eq_self : (bs : List ℕ) → bytes_eq bs bs ≡ true
unfolding bytes_eq
bytes_eq_self [] = refl
bytes_eq_self (b ∷ bs) = rw (==_self b) (bytes_eq_self bs)

pub guid_eq_self : (g : Guid) → guid_eq g g ≡ true
unfolding guid_eq
guid_eq_self g = rw (==_self g.data1, ==_self g.data2, ==_self g.data3) (bytes_eq_self g.data4)

pub is_empty_lem : (g : Guid) → is_empty g ≡ true → g ≡ empty_guid
unfolding is_empty
is_empty_lem g h = guid_eq_sound g empty_guid h

pub guid_of_bytes-guid_bytes : (g : Guid) → IsGuid g → guid_of_bytes (guid_bytes g) ≡ g
unfolding guid_of_bytes guid_bytes le_bytes le_value
guid_of_bytes-guid_bytes g h = ground arith

pub length-guid_bytes : (g : Guid) → IsGuid g → length (guid_bytes g) ≡ 16
unfolding guid_bytes le_bytes
length-guid_bytes g h = ground arith
