-- ===== src/Consensus/Pow/Ancestry.antt =====
-- A tip binds the headers below it.
use go_chain.Prelude.{
  ℕ, ◌≡◌, sym, ap, ◌∙◌, ◌⊎◌, inl, inr, not, List, [], ◌∷◌, ◌++◌, length, arith, All, ok, after_test,
  ok-injective, Bool-cases,
}
use go_chain.KeyMap.{bytes_eq, bytes_eq→eq, bytes_eq_self}
use go_chain.Types.Bytes.{Bytes}
use go_chain.Types.Block.{BlockHeader, serialize_header, deserialize_header}
use go_chain.Types.Block.RoundTrip.{IsHeader, deserialize_header-IsCodec}
use go_chain.Crypto.Hash.{hash_block_header}
use go_chain.Crypto.Merkle.Binding.{Collision}
use go_chain.Params.{ChainParams}
use go_chain.Consensus.Timestamps.{GetAncestor}
use go_chain.Consensus.Pow.{Engine, before, validate_header}

-- Headers from the tip at a height on down, each accepted on the next.
abbrev pub IsAccepted :
    (Bytes → Bytes) → Engine → ChainParams → GetAncestor → ℕ → List BlockHeader → Type 0
IsAccepted sha256 e p get_ancestor height [] = Unit {0}
IsAccepted sha256 e p get_ancestor height (h ∷ []) = Unit {0}
IsAccepted sha256 e p get_ancestor height (h ∷ parent ∷ hs) =
    (validate_header sha256 e h parent height get_ancestor p ≡ ok tt)
    × IsAccepted sha256 e p get_ancestor (before height) (parent ∷ hs)

serialize_header-injective :
    (a b : BlockHeader) → IsHeader a → IsHeader b → serialize_header a ≡ serialize_header b → a ≡ b
serialize_header-injective a b v w e =
    let back_b : deserialize_header (serialize_header a ++ []) ≡ ok (b, []) =
      rw e (deserialize_header-IsCodec.reads_back b [] w) in
    ap (λ (r : BlockHeader × Bytes). r.0)
      (ok-injective (sym (deserialize_header-IsCodec.reads_back a [] v) ∙ back_b))

module _ (sha256 : Bytes → Bytes) (e : Engine) (p : ChainParams)
    (get_ancestor get_ancestor' : GetAncestor) where
  same_header :
      (a b : BlockHeader)
      → IsHeader a
      → IsHeader b
      → hash_block_header sha256 a ≡ hash_block_header sha256 b
      → (a ≡ b) ⊎ Collision sha256
  unfolding hash_block_header
  same_header a b v w h = elim (Bool-cases (bytes_eq (serialize_header a) (serialize_header b))) [
    | inl same ↦ inl (
        serialize_header-injective a b v w
          (bytes_eq→eq (serialize_header a) (serialize_header b) same))
    | inr other ↦ inr (
      serialize_header a,
      serialize_header b,
      (λ q. cc (other, bytes_eq_self (serialize_header a), q)),
      h,
    )
  ]

  validate_header-linked :
      (h parent : BlockHeader) (height : ℕ) (anc : GetAncestor)
      → validate_header sha256 e h parent height anc p ≡ ok tt
      → h.prev_block ≡ hash_block_header sha256 parent
  unfolding validate_header
  validate_header-linked h parent height anc ok_h =
      after_test (not (bytes_eq h.prev_block (hash_block_header sha256 parent))) _ _ ok_h
        λ linked rest.
          bytes_eq→eq h.prev_block (hash_block_header sha256 parent) (ground (arith, linked))

  -- Two runs of equally many headers, each header accepted by ValidateHeader on the one below it,
  -- at any heights and over any ancestors, and whose tips have the same hash, are the same headers,
  -- or they give a collision of double SHA-256.
  pub validate_header-binding :
      (height height' : ℕ) (a b : BlockHeader) (xs ys : List BlockHeader)
      → All IsHeader (a ∷ xs)
      → All IsHeader (b ∷ ys)
      → length xs ≡ length ys
      → IsAccepted sha256 e p get_ancestor height (a ∷ xs)
      → IsAccepted sha256 e p get_ancestor' height' (b ∷ ys)
      → hash_block_header sha256 a ≡ hash_block_header sha256 b
      → ((a ∷ xs) ≡ (b ∷ ys)) ⊎ Collision sha256
  validate_header-binding height height' a b [] [] v w len x y h =
      elim (same_header a b v.0 w.0 h) [
        | inr broken ↦ inr broken
        | inl same ↦ inl (ap (λ t. t ∷ []) same)
      ]
  validate_header-binding height height' a b [] (d ∷ ys) v w len x y h = absurd (omega arith)
  validate_header-binding height height' a b (c ∷ xs) [] v w len x y h = absurd (omega arith)
  validate_header-binding height height' a b (c ∷ xs) (d ∷ ys) v w len x y h =
      elim (same_header a b v.0 w.0 h) [
        | inr broken ↦ inr broken
        | inl same ↦
            let parents : hash_block_header sha256 c ≡ hash_block_header sha256 d =
              sym (validate_header-linked a c height get_ancestor x.0)
              ∙ ap (λ (t : BlockHeader). t.prev_block) same
              ∙ validate_header-linked b d height' get_ancestor' y.0 in
            elim (validate_header-binding (before height) (before height') c d xs ys v.1 w.1
              (omega arith) x.1 y.1 parents) [
                | inr broken ↦ inr broken
                | inl rest ↦ inl (rw (same, rest))
              ]
      ]
