-- ===== src/Tests/Chains.antt =====
-- internal/chain/headers.go: a genesis, a header above it and a heavier fork of two.
use go_chain.Prelude.{ℕ, ◌≡◌, refl, List, [], ◌∷◌, some, arith, map, get_elem?}
use go_chain.KeyMap.{lookup, has, insert, bytes_eq}
use go_chain.Types.Bytes.{put_le, get_le}
use go_chain.Types.Transaction.{Hash}
use go_chain.Types.Block.{BlockHeader, serialize_header}
use go_chain.Crypto.Hash.{hash_block_header}
use go_chain.Crypto.Target.{calc_work, compact_to_big, is_overflow}
use go_chain.Consensus.Pow.{Engine}
use go_chain.Chain.Headers.{
  HeaderNode, node_hash, node_height, node_header, HeaderIndex, new_header_index,
  insert_trusted_header, insert_node, rebuild_height_index, extends_chain, fill_index, set_at,
  same_node, header_eq, build_ancestor_lookup, walk_back, header_locator,
}
use go_chain.Chain.Headers.Paths.{path}
use go_chain.Chain.Headers.Valid.{IsValid}
use go_chain.Chain.Headers.Runs.{
  Arrival, trusted, arrive, arrive_all, arrive_all-IsValid, build_ancestor_lookup-walk_back,
}
use go_chain.Chain.Headers.Locator.{IsTrail, header_locator-IsTrail}
use go_chain.Tests.Coins.{toy_sha256}
use go_chain.Tests.Scripts.{params}

abbrev pub engine : Engine
engine = record {
  pow_hash = λ xs. put_le 32 0;
  calc_next_bits = λ tip height get_ancestor p. tip.bits;
}

abbrev header_on : Hash → ℕ → ℕ → BlockHeader
header_on prev time nonce = record {
  version = 1;
  prev_block = prev;
  merkle_root = put_le 32 1;
  timestamp = time;
  bits = 0x2000007f;
  nonce = nonce;
}

abbrev genesis : BlockHeader
genesis = header_on (put_le 32 0) 1000 0

abbrev id_of : BlockHeader → Hash
id_of x = hash_block_header toy_sha256 x

abbrev first : BlockHeader
first = header_on (id_of genesis) 1600 1

abbrev rival : BlockHeader
rival = header_on (id_of genesis) 1601 2

abbrev rival_child : BlockHeader
rival_child = header_on (id_of rival) 2200 3

abbrev arrivals : List Arrival
arrivals = trusted first ∷ trusted rival ∷ trusted rival_child ∷ []

abbrev index : HeaderIndex
index = arrive_all toy_sha256 engine params (new_header_index toy_sha256 genesis) arrivals

index-IsValid : IsValid toy_sha256 3 index
index-IsValid = arrive_all-IsValid toy_sha256 engine params genesis arrivals (omega arith)

tip_is : node_height index.best_header ≡ 2
unfolding arrive_all arrive new_header_index insert_trusted_header insert_node rebuild_height_index
    extends_chain fill_index set_at same_node header_eq lookup has insert bytes_eq put_le get_le
    serialize_header hash_block_header calc_work compact_to_big is_overflow
tip_is = refl

arrive_all-IsValid_example : IsValid toy_sha256 3 index
arrive_all-IsValid_example =
    arrive_all-IsValid toy_sha256 engine params genesis arrivals (omega arith)

abbrev best : HeaderNode
best = index.best_header

build_ancestor_lookup-walk_back_example :
    (q : HeaderNode) × (get_elem? (path best) 0 ≡ some q)
    × (build_ancestor_lookup index best 0 ≡ some (node_header q))
    × (walk_back best 0 ≡ some (node_header q))
build_ancestor_lookup-walk_back_example =
    build_ancestor_lookup-walk_back toy_sha256 3 index best 0 index-IsValid index-IsValid.best_in
      (omega arith)

header_locator-IsTrail_example :
    (ns : List HeaderNode) × (header_locator index ≡ map node_hash (index.best_header ∷ ns))
    × IsTrail index.best_header ns
header_locator-IsTrail_example =
    header_locator-IsTrail toy_sha256 3 index index-IsValid (omega arith)
