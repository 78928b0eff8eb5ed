-- ===== src/Fork/PreAllocation/Contracts.antt =====
-- What is allocated before the first block (src/ethereum_test_forks/forks/forks.py).
use execution_spec_tests_gno.Base.{
  ℕ, zero, suc, ◌+◌, ◌-◌, ◌≡◌, refl, ap, lt_or_le, inl, inr, true, false, ◌==◌, ltb, leb, ◌&&◌,
  none, some, [], ◌++◌, map, replicate, ok, raise, type_error, ◌>>=◌, if◌then◌else◌, arith,
}
use execution_spec_tests_gno.Base.Bytes.{Bytes}
use execution_spec_tests_gno.Base.Dict.{Dict, lookup, keys, insert, lookup-insert}
use execution_spec_tests_gno.Fork.Classes.{
  Fork, methods, is_subclass, mro, bases_from, frontier, homestead, dao_fork, tangerine,
  spurious_dragon, byzantium, constantinople, constantinople_fix, istanbul, muir_glacier, berlin,
  london, arrow_glacier, gray_glacier, paris, shanghai, cancun, prague, osaka, eof,
}
use execution_spec_tests_gno.Fork.PreAllocation.{
  Files, pre_allocation_blockchain, allocation_of, frontier_allocation, prague_allocation,
  deposit_storage, initial_deposit_storage,
}

module _ (sha256 : Bytes → Bytes) (files : Files) where
  -- From Cancun on the accounts that are allocated are the system contracts of the fork, in order; at
  -- every fork before Cancun the method raises a type error.
  pub pre_allocation-system_contracts :
      (f : Fork)
      → (pre_allocation_blockchain sha256 files f >>= λ d. ok (keys d)) ≡ (
          if is_subclass f cancun
          then ok (map (λ a. a.value) (methods f).block.system_contracts)
          else raise type_error)
  unfolding pre_allocation_blockchain allocation_of frontier_allocation prague_allocation
      is_subclass mro bases_from
  pre_allocation-system_contracts frontier = refl
  pre_allocation-system_contracts homestead = refl
  pre_allocation-system_contracts dao_fork = refl
  pre_allocation-system_contracts tangerine = refl
  pre_allocation-system_contracts spurious_dragon = refl
  pre_allocation-system_contracts byzantium = refl
  pre_allocation-system_contracts constantinople = refl
  pre_allocation-system_contracts constantinople_fix = refl
  pre_allocation-system_contracts istanbul = refl
  pre_allocation-system_contracts muir_glacier = refl
  pre_allocation-system_contracts berlin = refl
  pre_allocation-system_contracts london = refl
  pre_allocation-system_contracts arrow_glacier = refl
  pre_allocation-system_contracts gray_glacier = refl
  pre_allocation-system_contracts paris = refl
  pre_allocation-system_contracts shanghai = refl
  pre_allocation-system_contracts cancun = refl
  pre_allocation-system_contracts prague = refl
  pre_allocation-system_contracts osaka = refl
  pre_allocation-system_contracts eof = refl

module _ (sha256 : Bytes → Bytes) where
  -- The hash of a tree of the depth, with the hash at its leaves.
  abbrev pub tree_hash : Bytes → ℕ → Bytes
  tree_hash h zero = h
  tree_hash h (suc depth) = sha256 (tree_hash h depth ++ tree_hash h depth)

  tree_hash-step :
      (h : Bytes) (depth : ℕ) → tree_hash (sha256 (h ++ h)) depth ≡ tree_hash h (suc depth)
  tree_hash-step h zero = refl
  tree_hash-step h (suc depth) = ap (λ x. sha256 (x ++ x)) (tree_hash-step h depth)

  lookup-deposit_storage :
      (rounds i : ℕ) (h : Bytes) (storage : Dict Bytes) (j : ℕ)
      → lookup j (deposit_storage sha256 rounds i h storage)
        ≡ (if leb i j && ltb j (i + rounds) then some (tree_hash h (j - i)) else lookup j storage)
  unfolding deposit_storage
  lookup-deposit_storage zero i h storage j =
      let empty : (leb i j && ltb j (i + 0)) ≡ false = ground arith in cc
  lookup-deposit_storage (suc rounds) i h storage j =
      let rest = lookup-deposit_storage rounds (i + 1) (sha256 (h ++ h)) (insert i h storage) j in
      let inserted = lookup-insert i j h storage in
      let step = tree_hash-step h (j - (i + 1)) in
      elim (lt_or_le i j) [
        | inl later ↦
            let place : suc (j - (i + 1)) ≡ j - i = omega arith in
            let hash = ap (tree_hash h) place in
            let same : (leb (i + 1) j && ltb j (i + 1 + rounds))
                ≡ (leb i j && ltb j (i + suc rounds)) =
              ground arith in
            let differs : (i == j) ≡ false = ground arith in cc
        | inr before ↦
            let skipped : (leb (i + 1) j && ltb j (i + 1 + rounds)) ≡ false = ground arith in
            elim (lt_or_le j i) [
              | inl earlier ↦
                  let outside : (leb i j && ltb j (i + suc rounds)) ≡ false = ground arith in
                  let differs : (i == j) ≡ false = ground arith in cc
              | inr here ↦
                  let depth : j - i ≡ 0 = omega arith in
                  let hash = ap (tree_hash h) depth in
                  let inside : (leb i j && ltb j (i + suc rounds)) ≡ true = ground arith in
                  let found : (i == j) ≡ true = ground arith in cc
            ]
      ]

  -- The initial storage of the deposit contract has at the slots 34 to 64 the hashes of trees of
  -- growing depth over the hash of 64 zero bytes, and nothing elsewhere.
  initial_deposit_storage-tree_hash :
      (i : ℕ)
      → lookup i (initial_deposit_storage sha256) ≡ (
          if leb 34 i && ltb i 65
          then some (tree_hash (sha256 (replicate 64 0)) (i - 34))
          else none)
  unfolding initial_deposit_storage
  initial_deposit_storage-tree_hash i = lookup-deposit_storage 31 34 (sha256 (replicate 64 0)) [] i
