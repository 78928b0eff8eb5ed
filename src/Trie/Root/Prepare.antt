-- ===== src/Trie/Root/Prepare.antt =====
-- The dict that a trie is prepared as (src/ethereum_test_types/trie.py).
use execution_spec_tests_gno.Base.{
  ℕ, ◌≤◌, ◌≡◌, refl, ap, ap₂, sym, ◌∙◌, Bool, true, false, not, Option, none, some, [], ◌∷◌,
  if◌then◌else◌, All, arith, Bool-cases, inl, inr, Result, ok, raise, assertion_error, require,
  >>=-eq-ok, require-eq-ok, ok-injective, subst,
}
use execution_spec_tests_gno.Base.Bytes.{Bytes, IsBytes, bytes_eq, bytes_eq-true}
use execution_spec_tests_gno.Base.ByteDict.{
  ByteDict, lookup, contains, insert, IsUnique, All-insert, lookup-insert, not_contained,
  insert-IsUnique,
}
use execution_spec_tests_gno.Trie.{Extended, bytes_to_nibble_list}
use execution_spec_tests_gno.Trie.Nibbles.{IsNibbles, pack_pairs-bytes_to_nibble_list}
use execution_spec_tests_gno.Trie.Radix.{present, IsEntry}
use execution_spec_tests_gno.Trie.Root.{Node, encode_value, key_of, prepare_loop, longest_key}

-- The dict that a trie is built from, its lengths aside.
pub record IsPrepared (e : Bytes × Bytes) : Type 0 where
  pub nibbles : IsNibbles e.0
  pub has_value : present e.1 ≡ some e.1

pub IsEntry-longest :
    (d : ByteDict Bytes) (longest : ℕ)
    → longest_key d ≤ longest
    → All IsPrepared d
    → All (IsEntry longest) d
IsEntry-longest [] longest h all = tt
IsEntry-longest ((k, v) ∷ d) longest h (e, all) = (
  record { nibbles = e.nibbles; has_value = e.has_value; short = omega arith },
  IsEntry-longest d longest (omega arith) all,
)

present-nonempty : (v : Bytes) → not (bytes_eq v []) ≡ true → present v ≡ some v
present-nonempty [] h = cc
present-nonempty (b ∷ v) h = refl

abbrev pub to_option : Result Bytes → Option Bytes
to_option (ok b) = some b
to_option (raise e) = none

-- The keys of a trie are bytes.
abbrev pub KeysAreBytes : ByteDict Node → Type 0
KeysAreBytes = All (λ e. IsBytes e.0)

module _ (keccak256 : Bytes → Bytes) (rlp_encode : Extended → Bytes) where
  -- A key of which no other key of the dict has the hash.
  abbrev pub StandsApart : Bool → ByteDict Node → Bytes → Type 0
  StandsApart secured entries k =
      All
        (λ e.
          bytes_eq (key_of keccak256 rlp_encode secured e.0) (key_of keccak256 rlp_encode secured k)
          ≡ bytes_eq e.0 k)
        entries

  module _ (get_storage_root : Option (Bytes → Result Bytes)) where
    -- What a value is in the trie.
    abbrev pub encoded_at : Bytes → Option Node → Option Bytes → Option Bytes
    unfolding encode_value
    encoded_at k none default = default
    encoded_at k (some v) default =
        to_option (encode_value keccak256 rlp_encode get_storage_root k v)

    -- A value that has an encoding, which is not empty.
    abbrev pub Encodes : Bytes × Node → Type 0
    unfolding encode_value
    Encodes e =
        (b : Bytes) × (encode_value keccak256 rlp_encode get_storage_root e.0 e.1 ≡ ok b)
        × (bytes_eq b [] ≡ false)

  module _ (digests : (b : Bytes) → IsBytes (keccak256 b))
      (get_storage_root : Option (Bytes → Result Bytes)) (secured : Bool) where
    key_of-IsNibbles : (k : Bytes) → IsBytes k → IsNibbles (key_of keccak256 rlp_encode secured k)
    unfolding key_of bytes_to_nibble_list
    key_of-IsNibbles k h = elim (Bool-cases secured) [
      | inl hashed ↦ rw hashed (pack_pairs-bytes_to_nibble_list (keccak256 k) (digests k)).1
      | inr plain ↦ rw plain (pack_pairs-bytes_to_nibble_list k h).1
    ]

    pub prepare_loop-IsPrepared :
        (entries : ByteDict Node) (mapped obj : ByteDict Bytes)
        → prepare_loop keccak256 rlp_encode get_storage_root secured entries mapped ≡ ok obj
        → KeysAreBytes entries
        → IsUnique mapped
        → All IsPrepared mapped
        → IsUnique obj × All IsPrepared obj
    unfolding prepare_loop
    prepare_loop-IsPrepared [] mapped obj h keys u all =
        (subst IsUnique (ok-injective h) u, subst (All IsPrepared) (ok-injective h) all)
    prepare_loop-IsPrepared ((k, v) ∷ entries) mapped obj h (key, keys) u all =
        let (encoded, e, h1) =
          >>=-eq-ok (encode_value keccak256 rlp_encode get_storage_root k v) _ h in
        let (_, nonempty, h2) =
          >>=-eq-ok (require (not (bytes_eq encoded [])) assertion_error) _ h1 in
        prepare_loop-IsPrepared entries
          (insert (key_of keccak256 rlp_encode secured k) encoded mapped) obj h2 keys
          (insert-IsUnique (key_of keccak256 rlp_encode secured k) encoded mapped u)
          (All-insert IsPrepared (key_of keccak256 rlp_encode secured k) encoded mapped
            (record {
              nibbles = key_of-IsNibbles k key;
              has_value = present-nonempty encoded (require-eq-ok _ assertion_error nonempty);
            })
            all)

    pub lookup-prepare_loop :
        (k : Bytes) (entries : ByteDict Node) (mapped obj : ByteDict Bytes)
        → prepare_loop keccak256 rlp_encode get_storage_root secured entries mapped ≡ ok obj
        → IsUnique entries
        → StandsApart secured entries k
        → lookup (key_of keccak256 rlp_encode secured k) obj
          ≡ encoded_at get_storage_root k
              (lookup k entries)
              (lookup (key_of keccak256 rlp_encode secured k) mapped)
    unfolding prepare_loop
    lookup-prepare_loop k [] mapped obj h u apart =
        ap (lookup (key_of keccak256 rlp_encode secured k)) (sym (ok-injective h))
    lookup-prepare_loop k ((j, v) ∷ entries) mapped obj h (fresh, u) (here, apart) =
        let (encoded, e, h1) =
          >>=-eq-ok (encode_value keccak256 rlp_encode get_storage_root j v) _ h in
        let (_, nonempty, h2) =
          >>=-eq-ok (require (not (bytes_eq encoded [])) assertion_error) _ h1 in
        let K = key_of keccak256 rlp_encode secured k in
        let ih =
          lookup-prepare_loop k entries
            (insert (key_of keccak256 rlp_encode secured j) encoded mapped) obj h2 u apart
          ∙ ap (encoded_at get_storage_root k (lookup k entries)) (
              lookup-insert (key_of keccak256 rlp_encode secured j) K encoded mapped
              ∙ ap (λ b. if b then some encoded else lookup K mapped) here) in
        elim (Bool-cases (bytes_eq j k)) [
          | inl same ↦
              let eq = bytes_eq-true j k same in
              let gone = not_contained k entries (ap (λ x. contains x entries) (sym eq) ∙ fresh) in
              rw same (
                ih
                ∙ ap₂
                    (λ o b.
                      encoded_at get_storage_root k o (if b then some encoded else lookup K mapped))
                    gone same
                ∙ sym (
                    ap to_option (
                      ap (λ x. encode_value keccak256 rlp_encode get_storage_root x v) (sym eq)
                      ∙ e)))
          | inr other ↦ rw other (
              ih
              ∙ ap
                  (λ b.
                    encoded_at get_storage_root k (lookup k entries)
                      (if b then some encoded else lookup K mapped))
                  other)
        ]

    pub prepare_loop-returns :
        (entries : ByteDict Node) (mapped : ByteDict Bytes)
        → All (Encodes get_storage_root) entries
        → (obj : ByteDict Bytes) × (prepare_loop keccak256 rlp_encode get_storage_root secured
              entries mapped
            ≡ ok obj)
    unfolding prepare_loop
    prepare_loop-returns [] mapped all = (mapped, refl)
    prepare_loop-returns ((k, v) ∷ entries) mapped ((b, e, filled), all) =
        let (obj, h) =
          prepare_loop-returns entries (insert (key_of keccak256 rlp_encode secured k) b mapped)
            all in
        (obj, rw (e, filled) h)
