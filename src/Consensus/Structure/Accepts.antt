-- ===== src/Consensus/Structure/Accepts.antt =====
-- What ValidateBlockStructure accepts, and what the later stages make of it.
use go_chain.Prelude.{
  ℕ, ◌%◌, ◌^◌, ◌≡◌, refl, sym, ap, ◌∙◌, ◌⊎◌, inl, inr, true, false, not, List, [], ◌∷◌, ◌++◌, map,
  Option, some, none, ltb, length, arith, All, ok, after, after_test, fail_if-eq-ok, subst,
  Bool-cases, length-map,
}
use go_chain.KeyMap.{bytes_eq, bytes_eq→eq, bytes_eq_self}
use go_chain.Types.Bytes.{Bytes}
use go_chain.Types.Transaction.{Hash, Transaction, is_coinbase, serialize_tx}
use go_chain.Types.Transaction.RoundTrip.{IsTx, serialize_tx-injective}
use go_chain.Types.Block.{Block}
use go_chain.Crypto.Hash.{double_sha256, hash_transaction}
use go_chain.Crypto.Keys.{Primitives}
use go_chain.Crypto.Merkle.{merkle_root}
use go_chain.Crypto.Merkle.Binding.{Collision, HasDigestSize, HasHashSize, merkle_root-binding}
use go_chain.Params.{ChainParams}
use go_chain.Utxo.{Entries}
use go_chain.Consensus.Transactions.{validate_transaction_inputs}
use go_chain.Consensus.Transactions.Connects.Amounts.{HasValue64}
use go_chain.Consensus.Transactions.Connects.Supply.{
  ConnectsBlock, connect_block-validate_transaction_inputs,
}
use go_chain.Consensus.Structure.{
  check_coinbase_height, no_coinbase, no_duplicates, check_merkle_root, given_or,
  validate_transaction_list, with_first, validate_block_structure,
}

abbrev IsOther : Transaction → Type 0
IsOther tx = is_coinbase tx ≡ false

no_coinbase-eq_ok :
    (txs : List Transaction) {u : Unit {0}} → no_coinbase txs ≡ ok u → All IsOther txs
unfolding no_coinbase
no_coinbase-eq_ok [] h = tt
no_coinbase-eq_ok (tx ∷ txs) h =
    after_test (is_coinbase tx) _ _ h λ other h₁. (other, no_coinbase-eq_ok txs h₁)

check_merkle_root-eq_ok :
    (m : Option Hash) (expected : Hash) {u : Unit {0}}
    → check_merkle_root m expected ≡ ok u
    → m ≡ some expected
unfolding check_merkle_root
check_merkle_root-eq_ok none expected h = cc
check_merkle_root-eq_ok (some m) expected h =
    ap some (bytes_eq→eq m expected (ground (arith, fail_if-eq-ok (not (bytes_eq m expected)) _ h)))

-- The parts of an accepted block.
record Accepted (sha256 : Bytes → Bytes) (b : Block) (height : ℕ) (tx_hashes : Option (List Hash))
    : Type 0 where
  first : Transaction
  rest : List Transaction
  transactions : b.transactions ≡ first ∷ rest
  first_is_coinbase : is_coinbase first ≡ true
  has_height : check_coinbase_height height first.inputs ≡ ok tt
  no_other : All IsOther rest
  root :
      merkle_root sha256 (given_or tx_hashes (map (hash_transaction sha256) b.transactions))
      ≡ some b.header.merkle_root

module _ (sha256 : Bytes → Bytes) (p : ChainParams) (b : Block) (height : ℕ)
    (tx_hashes : Option (List Hash)) (serialized : Option Bytes) where
  validate_transaction_list-Accepted :
      (first : Transaction) (rest : List Transaction)
      → b.transactions ≡ first ∷ rest
      → validate_transaction_list sha256 p b height tx_hashes serialized first rest ≡ ok tt
      → Accepted sha256 b height tx_hashes
  unfolding validate_transaction_list
  validate_transaction_list-Accepted first rest e h =
      let hashes = given_or tx_hashes (map (hash_transaction sha256) b.transactions) in
      after_test (not (is_coinbase first)) _ _ h λ coinbase h₁.
        after (check_coinbase_height height first.inputs) _ h₁ λ u has_height h₂.
          after (no_coinbase rest) _ h₂ λ u₁ others h₃.
            after_test (ltb p.max_block_tx_count (length b.transactions % 2 ^ 32)) _ _ h₃ λ few h₄.
              after (no_duplicates hashes []) _ h₄ λ u₂ distinct h₅.
                after (check_merkle_root (merkle_root sha256 hashes) b.header.merkle_root) _ h₅
                  λ u₃ same h₆. record {
                    first = first;
                    rest = rest;
                    transactions = e;
                    first_is_coinbase = ground (arith, coinbase);
                    has_height = has_height;
                    no_other = no_coinbase-eq_ok rest others;
                    root =
                        check_merkle_root-eq_ok (merkle_root sha256 hashes) b.header.merkle_root
                          same;
                  }

  validate_block_structure-Accepted :
      validate_block_structure sha256 p b height tx_hashes serialized ≡ ok tt
      → Accepted sha256 b height tx_hashes
  unfolding validate_block_structure
  validate_block_structure-Accepted h =
      after_test (ltb b.header.version 1) _ _ h λ version h₁. split b.transactions refl h₁
    where
      split :
          (txs : List Transaction)
          → b.transactions ≡ txs
          → with_first txs (validate_transaction_list sha256 p b height tx_hashes serialized)
            ≡ ok tt
          → Accepted sha256 b height tx_hashes
      split [] e k = cc
      split (first ∷ rest) e k = validate_transaction_list-Accepted first rest e k

abbrev HasValues : List Transaction → Type 0
HasValues [] = Unit {0}
HasValues (tx ∷ txs) = All HasValue64 tx.outputs

-- A block whose coinbase has 64-bit values and that passes ValidateBlockStructure and then
-- ValidateTransactionInputs over a set is connected to that set by ConnectBlock without an error, and
-- the value of the set grows by at most the block subsidy of its height.
pub connect_block-validate_block_structure :
    (c : Primitives) (p : ChainParams) (b : Block) (s : Entries) (height median_time : ℕ)
    (tx_hashes : Option (List Hash)) (serialized : Option Bytes) (fees : ℕ)
    → HasValues b.transactions
    → validate_block_structure c.sha256 p b height tx_hashes serialized ≡ ok tt
    → validate_transaction_inputs c p b s height median_time tx_hashes ≡ ok fees
    → ConnectsBlock c.sha256 p b s height tx_hashes
connect_block-validate_block_structure c p b s height median_time tx_hashes serialized fees values
      structure inputs =
    let a = validate_block_structure-Accepted c.sha256 p b height tx_hashes serialized structure in
    connect_block-validate_transaction_inputs c p b s height median_time tx_hashes a.first a.rest
      fees
      (record {
        transactions = a.transactions;
        first_is_coinbase = a.first_is_coinbase;
        no_other = a.no_other;
        values = subst HasValues a.transactions values;
      })
      inputs

module _ (sha256 : Bytes → Bytes) where
  same_transaction :
      (a b : Transaction)
      → IsTx a
      → IsTx b
      → hash_transaction sha256 a ≡ hash_transaction sha256 b
      → (a ≡ b) ⊎ Collision sha256
  unfolding hash_transaction
  same_transaction a b v w e = elim (Bool-cases (bytes_eq (serialize_tx a) (serialize_tx b))) [
    | inl same ↦ inl (
        serialize_tx-injective a b [] [] v w
          (ap (λ bs. bs ++ []) (bytes_eq→eq (serialize_tx a) (serialize_tx b) same)))
    | inr other ↦
        inr
          (serialize_tx a, serialize_tx b, (λ q. cc (other, bytes_eq_self (serialize_tx a), q)), e)
  ]

  same_transactions :
      (xs ys : List Transaction)
      → All IsTx xs
      → All IsTx ys
      → map (hash_transaction sha256) xs ≡ map (hash_transaction sha256) ys
      → (xs ≡ ys) ⊎ Collision sha256
  same_transactions [] [] v w e = inl refl
  same_transactions [] (y ∷ ys) v w e = cc
  same_transactions (x ∷ xs) [] v w e = cc
  same_transactions (x ∷ xs) (y ∷ ys) v w e = elim (same_transaction x y v.0 w.0 cc) [
    | inr broken ↦ inr broken
    | inl same ↦ elim (same_transactions xs ys v.1 w.1 cc) [
      | inr broken ↦ inr broken
      | inl rest ↦ inl (rw (same, rest))
    ]
  ]

  hashes-HasHashSize :
      HasDigestSize sha256
      → (txs : List Transaction) → All HasHashSize (map (hash_transaction sha256) txs)
  unfolding hash_transaction double_sha256
  hashes-HasHashSize size [] = tt
  hashes-HasHashSize size (tx ∷ txs) = (size _, hashes-HasHashSize size txs)

  -- Two blocks of transactions within the limits of Transaction.Deserialize (10000 inputs, 10000
  -- outputs, scripts of 10000 bytes, fields of the widths of their Go types) that pass
  -- ValidateBlockStructure, at any heights and with their hashes computed on the fly, and that have the same Merkle root in their headers and the same number of transactions,
  -- have the same transactions, or they give a collision of double SHA-256; digests have 32 bytes.
  pub validate_block_structure-binding :
      (p : ChainParams) (b d : Block) (height height' : ℕ) (serialized serialized' : Option Bytes)
      → HasDigestSize sha256
      → All IsTx b.transactions
      → All IsTx d.transactions
      → validate_block_structure sha256 p b height none serialized ≡ ok tt
      → validate_block_structure sha256 p d height' none serialized' ≡ ok tt
      → length b.transactions ≡ length d.transactions
      → b.header.merkle_root ≡ d.header.merkle_root
      → (b.transactions ≡ d.transactions) ⊎ Collision sha256
  validate_block_structure-binding p b d height height' serialized serialized' size v w ok_b ok_d
        len same =
      let a = validate_block_structure-Accepted sha256 p b height none serialized ok_b in
      let e = validate_block_structure-Accepted sha256 p d height' none serialized' ok_d in
      let h = hash_transaction sha256 in
      elim (merkle_root-binding sha256 size (map h b.transactions) (map h d.transactions)
        (hashes-HasHashSize size b.transactions) (hashes-HasHashSize size d.transactions)
        (length-map b.transactions h ∙ len ∙ sym (length-map d.transactions h))
        (a.root ∙ ap some same ∙ sym e.root)) [
          | inr broken ↦ inr broken
          | inl hashes ↦ same_transactions b.transactions d.transactions v w hashes
        ]
