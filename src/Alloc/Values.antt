-- ===== src/Alloc/Values.antt =====
-- What a state has where an allocation has an account, in steps of one account
-- (src/ethereum_test_types/account_types.py, `Alloc.state_root`).
use execution_spec_tests_gno.Base.{
  ℕ, ◌≡◌, refl, ap, ap₂, sym, ◌∙◌, Bool, true, false, Option, none, some, ◌==◌, ==_iff,
  if◌then◌else◌,
}
use execution_spec_tests_gno.Base.Dict.{lookup, contains, not_contained}
use execution_spec_tests_gno.Account.{Account, nonce_of, balance_of, code_of, storage_of}
use execution_spec_tests_gno.Trie.Root.{FrontierAccount, Node, account}
use execution_spec_tests_gno.Alloc.{Alloc}
use execution_spec_tests_gno.Alloc.Build.{slot_or}

-- The account of the state that an account of an allocation becomes.
abbrev pub frontier_account : Account → FrontierAccount
frontier_account a = record { nonce = nonce_of a; balance = balance_of a; code = code_of a }

-- What the main trie has at an address of an allocation, or else what was there.
abbrev pub node_or : Node → Option (Option Account) → Node
node_or old (some (some a)) = account (frontier_account a)
node_or old _ = old

-- What the state has at a slot of an address of an allocation, or else what was there.
abbrev pub word_or : Node → Option (Option Account) → ℕ → Node
word_or old (some (some a)) n = slot_or old (lookup n (storage_of a).root)
word_or old _ n = old

pub skip_node :
    (b : Bool) (old : Node) (rest : Option (Option Account))
    → (b ≡ true → rest ≡ none)
    → node_or old rest ≡ node_or old (if b then some none else rest)
skip_node true old rest h = ap (node_or old) (h refl)
skip_node false old rest h = refl

pub skip_word :
    (b : Bool) (old : Node) (rest : Option (Option Account)) (n : ℕ)
    → (b ≡ true → rest ≡ none)
    → word_or old rest n ≡ word_or old (if b then some none else rest) n
skip_word true old rest n h = ap (λ o. word_or old o n) (h refl)
skip_word false old rest n h = refl

pub take_node :
    (b : Bool) (a : Account) (old : Node) (rest : Option (Option Account))
    → (b ≡ true → rest ≡ none)
    → node_or (if b then account (frontier_account a) else old) rest
      ≡ node_or old (if b then some (some a) else rest)
take_node true a old rest h = ap (node_or (account (frontier_account a))) (h refl)
take_node false a old rest h = refl

pub take_word :
    (b : Bool) (a : Account) (old now : Node) (rest : Option (Option Account)) (n : ℕ)
    → (b ≡ true → rest ≡ none)
    → (b ≡ true → now ≡ slot_or old (lookup n (storage_of a).root))
    → (b ≡ false → now ≡ old)
    → word_or now rest n ≡ word_or old (if b then some (some a) else rest) n
take_word true a old now rest n h here there = ap₂ (λ v o. word_or v o n) (here refl) (h refl)
take_word false a old now rest n h here there = ap (λ v. word_or v rest n) (there refl)

pub absent_at :
    (address x : ℕ) (alloc : Alloc)
    → contains address alloc ≡ false
    → (address == x) ≡ true
    → lookup x alloc ≡ none
absent_at address x alloc fresh same =
    ap (λ y. lookup y alloc) (sym ((==_iff address x).0 same)) ∙ not_contained address alloc fresh
