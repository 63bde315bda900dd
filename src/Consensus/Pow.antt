-- ===== src/Consensus/Pow.antt =====
-- internal/consensus/pow/engine.go, and FullValidateHeader of internal/consensus/validation.go. The
-- two interfaces that the engine holds, the Hasher and the Retargeter, are the fields of its record.
-- RetargetInterval is not 0 in any network; the source would panic on it.
pub mod Mining
pub mod Ancestry
use go_chain.Prelude.{
  ℕ, zero, suc, ◌+◌, ◌-◌, ◌*◌, ◌/◌, ◌%◌, ◌^◌, Bool, true, false, ◌&&◌, ◌||◌, not, Option, some,
  none, leb, ltb, ◌==◌, if◌then◌else◌, Result, ok, err, ◌>>=◌, ◌>>◌, fail_if,
}
use go_chain.KeyMap.{bytes_eq}
use go_chain.Types.Bytes.{Bytes}
use go_chain.Types.Transaction.{Hash}
use go_chain.Types.Block.{BlockHeader, serialize_header}
use go_chain.Crypto.Hash.{hash_block_header}
use go_chain.Crypto.Target.{less_or_equal, validate_proof_of_work}
use go_chain.Params.{ChainParams, second, activation_height}
use go_chain.Consensus.Timestamps.{GetAncestor, validate_header_timestamp}

pub record Engine : Type 0 where
  pub pow_hash : Bytes → Hash
  pub calc_next_bits : BlockHeader → ℕ → GetAncestor → ChainParams → ℕ

-- A uint32 less one.
abbrev pub before : ℕ → ℕ
before height = (height + (2 ^ 32 - 1)) % 2 ^ 32

-- The scan past the blocks of least difficulty: the bits of the block where it stops, or `none` if an
-- ancestor is missing.
unfoldable pub scan_back : GetAncestor → ChainParams → BlockHeader → ℕ → Option ℕ
scan_back get_ancestor p scan zero = some scan.bits
scan_back get_ancestor p scan (suc h) =
    elim (not (suc h % p.retarget_interval == 0) && scan.bits == p.min_bits) [
      | false ↦ some scan.bits
      | true ↦ elim (get_ancestor h) [ none ↦ none | some next ↦ scan_back get_ancestor p next h ]
    ]

-- `!p.AllowMinDifficultyBlocks || !hasActivation || height < activationHeight`, negated.
unfoldable pub min_difficulty_active : ChainParams → ℕ → Bool
min_difficulty_active p height = elim (activation_height "mindiffblocks" p.activation_heights) [
  | none ↦ false
  | some h ↦ p.allow_min_difficulty_blocks && leb h height
]

abbrev bits_or : Option ℕ → ℕ → ℕ
bits_or none d = d
bits_or (some bits) d = bits

-- calcExpectedBits, which reads the timestamp of the new header only.
unfoldable pub calc_expected_bits : Engine → ℕ → BlockHeader → ℕ → GetAncestor → ChainParams → ℕ
unfolding min_difficulty_active scan_back
calc_expected_bits e timestamp parent height get_ancestor p =
    if not (min_difficulty_active p height)
    then e.calc_next_bits parent (before height) get_ancestor p
    else if ltb (parent.timestamp + p.target_block_spacing / second * 2) timestamp
    then p.min_bits
    else if height % p.retarget_interval == 0
    then e.calc_next_bits parent (before height) get_ancestor p
    else bits_or (scan_back get_ancestor p parent (before height)) parent.bits

pub data HeaderError : Type 0 where
  prev_block_mismatch incorrect_bits pow_failed bad_timestamp : HeaderError

-- Engine.ValidateHeader
unfoldable pub validate_header :
    (Bytes → Bytes)
    → Engine
    → BlockHeader
    → BlockHeader
    → ℕ
    → GetAncestor
    → ChainParams
    → Result HeaderError (Unit {0})
validate_header sha256 e header parent height get_ancestor p = do
  fail_if (not (bytes_eq header.prev_block (hash_block_header sha256 parent))) prev_block_mismatch
  fail_if (not (header.bits == calc_expected_bits e header.timestamp parent height get_ancestor p))
      incorrect_bits
  elim (validate_proof_of_work (e.pow_hash (serialize_header header)) header.bits) [
    | ok u ↦ ok tt
    | err x ↦ err pow_failed
  ]

-- FullValidateHeader
unfoldable pub full_validate_header :
    (Bytes → Bytes)
    → Engine
    → BlockHeader
    → BlockHeader
    → ℕ
    → GetAncestor
    → ℕ
    → ℕ
    → ChainParams
    → Result HeaderError (Unit {0})
unfolding validate_header
full_validate_header sha256 e header parent height get_ancestor now_unix tip_height p = do
  validate_header sha256 e header parent height get_ancestor p
  elim (validate_header_timestamp header parent now_unix get_ancestor tip_height p) [
    | ok u ↦ ok tt
    | err x ↦ err bad_timestamp
  ]

-- Engine.PrepareHeader
unfoldable pub prepare_header :
    Engine → BlockHeader → BlockHeader → ℕ → GetAncestor → ChainParams → BlockHeader
unfolding calc_expected_bits
prepare_header e header parent parent_height get_ancestor p = record header {
  bits = calc_expected_bits e header.timestamp parent ((parent_height + 1) % 2 ^ 32) get_ancestor p;
}

-- Engine.SealHeader: the header with the last nonce, and whether it is a solution.
unfoldable pub seal_header : Engine → BlockHeader → Hash → ℕ → BlockHeader × Bool
seal_header e header target zero = (header, false)
seal_header e header target (suc n) =
    elim (less_or_equal (e.pow_hash (serialize_header header)) target) [
      | true ↦ (header, true)
      | false ↦
          let next : BlockHeader = record header { nonce = (header.nonce + 1) % 2 ^ 32 } in
          elim (next.nonce == 0) [ true ↦ (next, false) | false ↦ seal_header e next target n ]
    ]
