-- ===== src/Trie/Nibbles.antt =====
-- Lists of nibbles as bytes (src/ethereum_test_types/trie.py).
use execution_spec_tests_gno.Base.{
  ℕ, ◌+◌, ◌*◌, ◌/◌, ◌%◌, ◌<◌, ◌≡◌, refl, ap, ap₂, ◌∙◌, Bool, true, false, ◌&&◌, [], ◌∷◌, ◌==◌,
  ==_iff, ltb, ltb→lt, if◌then◌else◌, length, All, all_below, all_below_sound, &&-eq-true, arith,
  Bool-cases, inl, inr,
}
use execution_spec_tests_gno.Base.Bytes.{Bytes, IsBytes}
use execution_spec_tests_gno.Trie.{
  pack_pairs, flag_of, nibble_list_to_compact, bytes_to_nibble_list,
}
use Prim.Native.Nat.{bit_and}

abbrev pub IsNibbles : Bytes → Type 0
IsNibbles = All (λ d. d < 16)

-- The two nibbles of each byte.
unpack : Bytes → Bytes
unpack [] = []
unpack (b ∷ bs) = b / 16 ∷ b % 16 ∷ unpack bs

-- The hex-prefix encoding of the Yellow Paper, read back: the nibbles, and whether they end at a leaf.
pub read_compact : Bytes → Bytes × Bool
unfolding unpack
read_compact [] = ([], false)
read_compact (h ∷ bs) = (if h / 16 % 2 == 1 then h % 16 ∷ unpack bs else unpack bs, h / 32 == 1)

unpack-pack_pairs :
    (x : Bytes)
    → length x % 2 ≡ 0
    → IsNibbles x
    → (unpack (pack_pairs x) ≡ x) × IsBytes (pack_pairs x)
unfolding unpack pack_pairs
unpack-pack_pairs [] even small = (refl, tt)
unpack-pack_pairs (d ∷ []) even small = absurd (omega arith)
unpack-pack_pairs (d ∷ e ∷ x) even (hd, (he, small)) =
    let (same, bytes) = unpack-pack_pairs x (omega arith) small in
    let high : (16 * d + e) / 16 ≡ d = omega arith in
    let low : (16 * d + e) % 16 ≡ e = omega arith in (cc (high, low, same), (omega arith, bytes))

-- The flag byte, for a leaf and for an extension, with a nibble or without.
read_even :
    (is_leaf : Bool) (bs : Bytes)
    → (read_compact (16 * flag_of is_leaf ∷ bs) ≡ (unpack bs, is_leaf))
      × (16 * flag_of is_leaf < 256)
unfolding read_compact
read_even true bs = (refl, omega arith)
read_even false bs = (refl, omega arith)

read_odd :
    (is_leaf : Bool) (d : ℕ) (bs : Bytes)
    → d < 16
    → (read_compact ((16 * (flag_of is_leaf + 1) + d) ∷ bs) ≡ (d ∷ unpack bs, is_leaf))
      × (16 * (flag_of is_leaf + 1) + d < 256)
unfolding read_compact
read_odd true d bs h = (ground arith, omega arith)
read_odd false d bs h = (ground arith, omega arith)

-- The compact form of nibbles is bytes, and reads back as the nibbles and the flag.
pub nibble_list_to_compact-roundtrip :
    (x : Bytes) (is_leaf : Bool)
    → IsNibbles x
    → (read_compact (nibble_list_to_compact x is_leaf) ≡ (x, is_leaf))
      × IsBytes (nibble_list_to_compact x is_leaf)
unfolding nibble_list_to_compact unpack
nibble_list_to_compact-roundtrip [] is_leaf small =
    let (reads, byte) = read_even is_leaf [] in (reads, (byte, tt))
nibble_list_to_compact-roundtrip (d ∷ x) is_leaf (hd, small) =
    elim (Bool-cases (length (d ∷ x) % 2 == 0)) [
      | inl even ↦
          let (same, bytes) = unpack-pack_pairs (d ∷ x) ((==_iff _ 0).0 even) (hd, small) in
          let (reads, byte) = read_even is_leaf (pack_pairs (d ∷ x)) in
          rw even (reads ∙ ap (λ y. (y, is_leaf)) same, (byte, bytes))
      | inr odd ↦
          let (same, bytes) = unpack-pack_pairs x (ground arith) small in
          let (reads, byte) = read_odd is_leaf d (pack_pairs x) hd in
          rw odd (reads ∙ ap (λ y. (d ∷ y, is_leaf)) same, (byte, bytes))
    ]

abbrev splits : ℕ → Bool
splits b =
    ltb (bit_and b 0xf0 / 16) 16
    && (ltb (bit_and b 0x0f) 16 && (16 * (bit_and b 0xf0 / 16) + bit_and b 0x0f == b))

every_byte-splits : all_below 256 splits ≡ true
unfolding all_below
every_byte-splits = refl

byte-splits :
    (b : ℕ)
    → b < 256
    → (bit_and b 0xf0 / 16 < 16)
      × (bit_and b 0x0f < 16)
      × (16 * (bit_and b 0xf0 / 16) + bit_and b 0x0f ≡ b)
byte-splits b h =
    let (high, rest) = &&-eq-true _ _ (all_below_sound 256 splits b every_byte-splits h) in
    let (low, same) = &&-eq-true _ _ rest in (ltb→lt _ _ high, ltb→lt _ _ low, (==_iff _ _).0 same)

-- The nibbles of bytes are nibbles, and pack to the bytes.
pub pack_pairs-bytes_to_nibble_list :
    (b : Bytes)
    → IsBytes b
    → (pack_pairs (bytes_to_nibble_list b) ≡ b)
      × IsNibbles (bytes_to_nibble_list b)
      × (length (bytes_to_nibble_list b) ≡ 2 * length b)
unfolding pack_pairs bytes_to_nibble_list
pack_pairs-bytes_to_nibble_list [] small = (refl, tt, refl)
pack_pairs-bytes_to_nibble_list (b ∷ bs) (hb, small) =
    let (high, low, same) = byte-splits b hb in
    let (packs, nibbles, long) = pack_pairs-bytes_to_nibble_list bs small in
    (ap₂ ◌∷◌ same packs, (high, (low, nibbles)), omega arith)
