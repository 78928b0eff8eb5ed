-- ===== src/Trie/Root/Commits.antt =====
-- What the root of a trie commits to (src/ethereum_test_types/trie.py).
use execution_spec_tests_gno.Base.{
  suc, ◌≡◌, refl, ◌∙◌, Option, none, List, [], ltb, length, All, All-map, arith, Bool-cases, inl,
  inr, Result, ok,
}
use execution_spec_tests_gno.Base.Bytes.{Bytes, IsBytes}
use execution_spec_tests_gno.Base.ByteDict.{lookup, IsUnique}
use execution_spec_tests_gno.Trie.{Extended, bytes, InternalNode, unencoded, encode_internal_node}
use execution_spec_tests_gno.Trie.Radix.{Tree, find, commit}
use execution_spec_tests_gno.Trie.Patricialize.{patricialize-commits}
use execution_spec_tests_gno.Trie.Root.{
  Trie, key_of, prepare_trie, root_of, root, bytes32, longest_key,
}
use execution_spec_tests_gno.Trie.Root.Prepare.{
  IsEntry-longest, KeysAreBytes, StandsApart, Encodes, encoded_at, prepare_loop-IsPrepared,
  lookup-prepare_loop, prepare_loop-returns,
}

module _ (keccak256 : Bytes → Bytes) (rlp_encode : Extended → Bytes) where
  long_enough : (b : Bytes) → length b ≡ 32 → bytes32 b ≡ ok b
  long_enough b h = rw h refl

  -- The hash of a root node is 32 bytes.
  pub root_of-returns :
      ((b : Bytes) → length (keccak256 b) ≡ 32)
      → (top : Option InternalNode)
      → (hash : Bytes) × (root_of keccak256 rlp_encode top ≡ ok hash) × (length hash ≡ 32)
  unfolding root_of encode_internal_node
  root_of-returns long top =
      let encoded = rlp_encode (unencoded keccak256 rlp_encode top) in
      elim (Bool-cases (ltb (length encoded) 32)) [
        | inl short ↦ (keccak256 encoded, rw (short, short) refl, long encoded)
        | inr hashed ↦
            let again = rlp_encode (bytes (keccak256 encoded)) in
            elim (Bool-cases (ltb (length again) 32)) [
              | inl short ↦ (keccak256 again, rw (hashed, short) refl, long again)
              | inr rehashed ↦ (
                keccak256 encoded,
                rw (hashed, rehashed) (long_enough (keccak256 encoded) (long encoded)),
                long encoded,
              )
            ]
      ]

  -- A trie of byte keys whose values have encodings that are not empty has a root of 32 bytes. The root is
  -- the hash of a radix tree. For any keys of which no other key of the trie has the hash, the tree
  -- holds, at the nibbles of the key (of its hash, where the trie is secured), the encoding of the value
  -- of the key, and nothing where the trie does not have the key. The hash function gives 32 bytes.
  pub root-commits :
      ((b : Bytes) → length (keccak256 b) ≡ 32)
      → (digests : (b : Bytes) → IsBytes (keccak256 b))
      → (get_storage_root : Option (Bytes → Result Bytes)) → (trie : Trie) → IsUnique trie.entries
      → KeysAreBytes trie.entries
      → All (Encodes keccak256 rlp_encode get_storage_root) trie.entries
      → (ks : List Bytes) → All (StandsApart keccak256 rlp_encode trie.secured trie.entries) ks
      → (t : Tree) × (hash : Bytes) × (root keccak256 rlp_encode trie get_storage_root ≡ ok hash)
        × (root_of keccak256 rlp_encode (commit keccak256 rlp_encode t) ≡ ok hash)
        × (length hash ≡ 32)
        × All
            (λ k.
              find t (key_of keccak256 rlp_encode trie.secured k)
              ≡ encoded_at keccak256 rlp_encode get_storage_root k (lookup k trie.entries) none)
            ks
  unfolding root prepare_trie
  root-commits long digests get_storage_root trie u keys encodes ks apart =
      let (obj, h) =
        prepare_loop-returns keccak256 rlp_encode digests get_storage_root trie.secured trie.entries
          [] encodes in
      let (unique, prepared) =
        prepare_loop-IsPrepared keccak256 rlp_encode digests get_storage_root trie.secured
          trie.entries [] obj h keys tt tt in
      let (t, commits, finds) =
        patricialize-commits keccak256 rlp_encode (suc (longest_key obj)) (longest_key obj) obj
          unique (IsEntry-longest obj (longest_key obj) (omega arith) prepared) (omega arith) in
      let (hash, hashes, size) = root_of-returns long (commit keccak256 rlp_encode t) in
      (
        t,
        hash,
        rw (h, commits) hashes,
        hashes,
        size,
        All-map _ _
            (λ k alone.
              finds (key_of keccak256 rlp_encode trie.secured k)
              ∙ lookup-prepare_loop keccak256 rlp_encode digests get_storage_root trie.secured k
                  trie.entries [] obj h u alone)
            ks apart,
      )
