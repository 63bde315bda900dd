-- ===== src/Tests/Mining.antt =====
-- internal/consensus/pow with an easy target: mining a header, and a chain of two.
use go_chain.Prelude.{
  ℕ, ◌<◌, some, ◌+◌, ◌-◌, ◌*◌, ◌/◌, ◌%◌, ◌^◌, ◌≡◌, ◌⊎◌, refl, true, [], ◌∷◌, none, arith, ok,
}
use go_chain.KeyMap.{bytes_eq}
use go_chain.Types.Bytes.{put_le, get_le}
use go_chain.Types.Block.{BlockHeader, serialize_header}
use go_chain.Crypto.Hash.{hash_block_header}
use go_chain.Crypto.Merkle.Binding.{Collision}
use go_chain.Crypto.Target.{
  compact_to_hash, compact_to_big, is_overflow, less_or_equal, less, less_below,
  validate_proof_of_work,
}
use go_chain.Params.{activation_height}
use go_chain.Consensus.Timestamps.{GetAncestor}
use go_chain.Consensus.Pow.{
  Engine, prepare_header, seal_header, validate_header, calc_expected_bits, min_difficulty_active,
}
use go_chain.Types.Block.RoundTrip.{IsHeader}
use go_chain.Consensus.Pow.Mining.{is_solution, with_nonce, validate_header-seal_header}
use go_chain.Consensus.Pow.Ancestry.{validate_header-binding}
use go_chain.Miner.Search.{worker}
use go_chain.Miner.Search.Complete.{Solves, worker_complete}
use go_chain.Tests.Coins.{toy_sha256}
use go_chain.Tests.Scripts.{params}

-- The proof-of-work hash falls to zero as the nonce, in the last four bytes of the header, rises to
-- nine; the bits stay.
abbrev engine : Engine
engine = record {
  pow_hash = λ xs. put_le 32 ((9 - get_le xs / 2 ^ 608) * 2 ^ 240);
  calc_next_bits = λ tip height get_ancestor p. tip.bits;
}

abbrev parent : BlockHeader
parent = record {
  version = 1;
  prev_block = put_le 32 0;
  merkle_root = put_le 32 1;
  timestamp = 1000;
  bits = 0x2000007f;
  nonce = 5;
}

abbrev header : BlockHeader
header = record {
  version = 1;
  prev_block = hash_block_header toy_sha256 parent;
  merkle_root = put_le 32 2;
  timestamp = 1600;
  bits = 0;
  nonce = 7;
}

abbrev no_ancestor : GetAncestor
no_ancestor h = none

abbrev ready : BlockHeader
ready = prepare_header engine header parent 4 no_ancestor params

mined : (seal_header engine ready (compact_to_hash ready.bits) 10).1 ≡ true
unfolding seal_header prepare_header calc_expected_bits min_difficulty_active activation_height
    compact_to_hash compact_to_big is_overflow less_or_equal less less_below bytes_eq
    serialize_header put_le get_le hash_block_header
mined = refl

validate_header-seal_header_example :
    validate_header toy_sha256 engine
      (seal_header engine ready (compact_to_hash ready.bits) 10).0
      parent
      ((4 + 1) % 2 ^ 32)
      no_ancestor
      params
    ≡ ok tt
validate_header-seal_header_example =
    validate_header-seal_header toy_sha256 engine header parent 4 no_ancestor params 10 refl mined

solved_at_9 :
    is_solution engine (with_nonce ready (ready.nonce + 2)) (compact_to_hash ready.bits) ≡ true
unfolding prepare_header calc_expected_bits min_difficulty_active activation_height compact_to_hash
    compact_to_big is_overflow less_or_equal less less_below bytes_eq serialize_header put_le get_le
    hash_block_header
solved_at_9 = refl

abbrev child : BlockHeader
child = record {
  version = 1;
  prev_block = hash_block_header toy_sha256 parent;
  merkle_root = put_le 32 2;
  timestamp = 1600;
  bits = 0x2000007f;
  nonce = 9;
}

child_accepted : validate_header toy_sha256 engine child parent 5 no_ancestor params ≡ ok tt
unfolding validate_header validate_proof_of_work calc_expected_bits min_difficulty_active
    activation_height compact_to_hash compact_to_big is_overflow less_or_equal less less_below
    bytes_eq serialize_header put_le get_le hash_block_header
child_accepted = refl

headers-IsHeader : IsHeader child × IsHeader parent
unfolding put_le get_le hash_block_header serialize_header
headers-IsHeader = (omega arith, omega arith)

validate_header-binding_example :
    ((child ∷ parent ∷ []) ≡ (child ∷ parent ∷ [])) ⊎ Collision toy_sha256
validate_header-binding_example =
    validate_header-binding toy_sha256 engine params no_ancestor no_ancestor 5 5 child child
      (parent ∷ []) (parent ∷ []) (headers-IsHeader.0, (headers-IsHeader.1, tt))
      (headers-IsHeader.0, (headers-IsHeader.1, tt)) refl (child_accepted, tt) (child_accepted, tt)
      refl

worker_complete_example :
    ((w : ℕ) (h : BlockHeader)
      → worker engine ready (compact_to_hash ready.bits) 4 3 w ≡ some h
      → Solves engine ready (compact_to_hash ready.bits) h)
    × ((k : ℕ)
        → k < 2 ^ 32
        → is_solution engine (with_nonce ready k) (compact_to_hash ready.bits) ≡ true
        → (w : ℕ) × (w < 3)
          × (h : BlockHeader) × (worker engine ready (compact_to_hash ready.bits) 4 3 w ≡ some h))
worker_complete_example =
    worker_complete engine ready (compact_to_hash ready.bits) 4 3 (omega arith) (omega arith)
