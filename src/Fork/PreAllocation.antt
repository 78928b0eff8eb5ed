-- ===== src/Fork/PreAllocation.antt =====
-- `pre_allocation_blockchain` of the fork classes (src/ethereum_test_forks/forks/forks.py).
-- `sha256` of hashlib and the contents of the files under `contracts` are parameters.
pub mod Contracts
use execution_spec_tests_gno.Base.{
  ℕ, zero, suc, ◌+◌, ◌*◌, Option, none, some, List, [], ◌∷◌, ◌++◌, replicate, Result, ok, raise,
  type_error, recursion_error, ◌>>=◌, if◌then◌else◌, String,
}
use execution_spec_tests_gno.Base.Bytes.{Bytes}
use execution_spec_tests_gno.Base.Dict.{Dict, insert, merge}
use execution_spec_tests_gno.Fork.Classes.{Fork, is_subclass, mro, frontier, cancun, prague}

-- The code of an allocation: a hexadecimal string, or the contents of a file.
pub data Code : Type 0 where
  hex : String → Code
  contents : Bytes → Code

pub record Allocation : Type 0 where
  pub nonce : ℕ
  pub code : Code
  pub storage : Dict Bytes

abbrev pub Mapping : Type 0
Mapping = Dict Allocation

-- `Frontier.pre_allocation_blockchain`. `super(Cancun, cls)` is a type error unless `cls` is a
-- subclass of Cancun; of such a class it would be this method again.
unfoldable pub frontier_allocation : Fork → Result Mapping
frontier_allocation cls = do
  inherited ← if is_subclass cls cancun then raise recursion_error else raise type_error
  ok (
      merge
        ((
          0x2000000000000000000000000000000000000001,
          record {
            nonce = 1;
            code =
                hex
                  "0x608060408181528152606060a0525f60c081905260e0528080f3fea2646970667358221220ad48f9b500787ea20a77467cda4f31efaf4768b15664ca9fb5e0639aea63976e64736f6c634300081e0033";
            storage = [];
          },
        )
          ∷ [])
        inherited)

-- `Cancun.pre_allocation_blockchain`
abbrev pub cancun_allocation : Mapping
cancun_allocation =
    (
      0x000F3DF6D732807EF1319FB7B8BB8522D0BEAC02,
      record {
        nonce = 1;
        code =
            hex
              "0x3373fffffffffffffffffffffffffffffffffffffffe14604d57602036146024575f5ffd5b5f35801560495762001fff810690815414603c575f5ffd5b62001fff01545f5260205ff35b5f5ffd5b62001fff42064281555f359062001fff015500";
        storage = [];
      },
    )
    ∷ []

-- The files that Prague reads.
pub record Files : Type 0 where
  pub deposit_contract : Bytes
  pub withdrawal_request : Bytes
  pub consolidation_request : Bytes
  pub history_contract : Bytes

module _ (sha256 : Bytes → Bytes) where
  -- The loop over the storage of the deposit contract: the number of rounds, and `i`.
  unfoldable pub deposit_storage : ℕ → ℕ → Bytes → Dict Bytes → Dict Bytes
  deposit_storage zero i next_hash storage = storage
  deposit_storage (suc rounds) i next_hash storage =
      deposit_storage rounds (i + 1) (sha256 (next_hash ++ next_hash)) (insert i next_hash storage)

  -- The storage of the deposit contract: `range(32 + 2, 32 * 2 + 1)`.
  unfoldable pub initial_deposit_storage : Dict Bytes
  unfolding deposit_storage
  initial_deposit_storage = deposit_storage 31 34 (sha256 (replicate 64 0)) []

module _ (sha256 : Bytes → Bytes) (files : Files) where
  -- `Prague.pre_allocation_blockchain`, of the mapping of `super`.
  unfoldable pub prague_allocation : Mapping → Mapping
  unfolding initial_deposit_storage
  prague_allocation inherited =
      merge
        ((
          0x00000000219AB540356CBB839CBE05303D7705FA,
          record {
            nonce = 1;
            code = contents files.deposit_contract;
            storage = initial_deposit_storage sha256;
          },
        )
          ∷ (
            0x00000961EF480EB55E80D19AD83579A64C007002,
            record { nonce = 1; code = contents files.withdrawal_request; storage = [] },
          )
          ∷ (
            0x0000BBDDC7CE488642FB579F8B00F3A590007251,
            record { nonce = 1; code = contents files.consolidation_request; storage = [] },
          )
          ∷ (
            0x0000F90827F1C53A10CB7A02335B175320002935,
            record { nonce = 1; code = contents files.history_contract; storage = [] },
          )
          ∷ [])
        inherited

  -- The method that the class `cls` has from the classes of an order.
  unfoldable pub allocation_of : Fork → List Fork → Result Mapping
  unfolding frontier_allocation prague_allocation
  allocation_of cls [] = raise type_error
  allocation_of cls (frontier ∷ bases) = frontier_allocation cls
  allocation_of cls (cancun ∷ bases) = ok cancun_allocation
  allocation_of cls (prague ∷ bases) = do
    inherited ← allocation_of cls bases
    ok (prague_allocation inherited)
  allocation_of cls (_ ∷ bases) = allocation_of cls bases

  -- `pre_allocation_blockchain`
  unfoldable pub pre_allocation_blockchain : Fork → Result Mapping
  unfolding allocation_of mro
  pre_allocation_blockchain cls = allocation_of cls (mro cls)
