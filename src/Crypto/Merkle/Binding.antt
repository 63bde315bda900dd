-- ===== src/Crypto/Merkle/Binding.antt =====
-- The Merkle root is always found, and it binds the hashes below it.
use go_chain.Prelude.{
  ℕ, zero, suc, ◌+◌, ◌%◌, ◌≤◌, ◌≡◌, ◌≢◌, refl, sym, ap, ◌∙◌, ◌⊎◌, inl, inr, List, [], ◌∷◌, ◌++◌,
  some, ◌==◌, length, arith, All, Bool-cases, subst, take-append_self, drop-append_self,
}
use go_chain.KeyMap.{bytes_eq, bytes_eq→eq, bytes_eq_self}
use go_chain.Types.Bytes.{Bytes}
use go_chain.Types.Transaction.{Hash}
use go_chain.Crypto.Hash.{double_sha256}
use go_chain.Crypto.Merkle.{last, pad, pair_up, climb, merkle_root}

-- A round of the loop in one pass.
next_level : (Bytes → Bytes) → List Hash → List Hash
next_level sha256 [] = []
next_level sha256 (a ∷ []) = double_sha256 sha256 (a ++ a) ∷ []
next_level sha256 (a ∷ b ∷ level) = double_sha256 sha256 (a ++ b) ∷ next_level sha256 level

pad-step : (a b c : Hash) (level : List Hash) → pad (a ∷ b ∷ c ∷ level) ≡ (a ∷ b ∷ pad (c ∷ level))
unfolding pad last
pad-step a b c level =
    let even : (length (a ∷ b ∷ c ∷ level) % 2 == 0) ≡ (length (c ∷ level) % 2 == 0) =
      ap (λ n. n == 0) (omega arith) in
    elim (Bool-cases (length (c ∷ level) % 2 == 0)) [
      | inl h ↦ rw (even, h) refl
      | inr h ↦ rw (even, h) refl
    ]

module _ (sha256 : Bytes → Bytes) where
  pair_up-pad : (level : List Hash) → pair_up sha256 (pad level) ≡ next_level sha256 level
  unfolding pair_up pad last next_level
  pair_up-pad [] = refl
  pair_up-pad (a ∷ []) = refl
  pair_up-pad (a ∷ b ∷ []) = refl
  pair_up-pad (a ∷ b ∷ c ∷ level) =
      ap (pair_up sha256) (pad-step a b c level)
      ∙ ap (λ l. double_sha256 sha256 (a ++ b) ∷ l) (pair_up-pad (c ∷ level))

  length-next_level :
      (level : List Hash)
      → length (next_level sha256 level) + length (next_level sha256 level) ≤ suc (length level)
  unfolding next_level
  length-next_level [] = omega arith
  length-next_level (a ∷ []) = omega arith
  length-next_level (a ∷ b ∷ level) = omega (arith, length-next_level level)

  climb-step :
      (fuel : ℕ) (a b : Hash) (level : List Hash)
      → climb sha256 (suc fuel) (a ∷ b ∷ level)
        ≡ climb sha256 fuel (next_level sha256 (a ∷ b ∷ level))
  unfolding climb
  climb-step fuel a b level = ap (climb sha256 fuel) (pair_up-pad (a ∷ b ∷ level))

  climb-total :
      (fuel : ℕ) (level : List Hash)
      → length level ≤ suc fuel
      → (h : Hash) × (climb sha256 fuel level ≡ some h)
  unfolding climb
  climb-total fuel [] h = (_, refl)
  climb-total fuel (a ∷ []) h = (a, refl)
  climb-total zero (a ∷ b ∷ level) h = absurd (omega arith)
  climb-total (suc fuel) (a ∷ b ∷ level) h =
      let shorter = length-next_level (a ∷ b ∷ level) in
      let (root, found) =
        climb-total fuel (next_level sha256 (a ∷ b ∷ level)) (omega (arith, shorter)) in
      (root, climb-step fuel a b level ∙ found)

  -- MerkleRoot returns a root for every list of hashes: its loop ends within as many rounds as there
  -- are hashes.
  merkle_root-total : (hashes : List Hash) → (h : Hash) × (merkle_root sha256 hashes ≡ some h)
  unfolding merkle_root
  merkle_root-total hashes = climb-total (length hashes) hashes (omega arith)

-- Two different inputs with one double SHA-256.
abbrev pub Collision : (Bytes → Bytes) → Type 0
Collision sha256 =
    (a : Bytes) × (b : Bytes) × (a ≢ b) × (double_sha256 sha256 a ≡ double_sha256 sha256 b)

-- What crypto/sha256 documents: a digest has 32 bytes.
abbrev pub HasDigestSize : (Bytes → Bytes) → Type 0
HasDigestSize sha256 = (xs : Bytes) → length (sha256 xs) ≡ 32

abbrev pub HasHashSize : Hash → Type 0
HasHashSize h = length h ≡ 32

append-injective : (a b c d : Bytes) → length a ≡ length c → a ++ b ≡ c ++ d → (a ≡ c) × (b ≡ d)
append-injective a b c d len e = (
  sym (take-append_self a b) ∙ rw (len, e) (take-append_self c d),
  sym (drop-append_self a b) ∙ rw (len, e) (drop-append_self c d),
)

head-eq : (a b : Hash) (xs ys : List Hash) → (a ∷ xs) ≡ (b ∷ ys) → (a ≡ b) × (xs ≡ ys)
head-eq a b xs ys e = (cc, cc)

module _ (sha256 : Bytes → Bytes) (size : HasDigestSize sha256) where
  same_pair :
      (a b c d : Hash)
      → length a ≡ length c
      → double_sha256 sha256 (a ++ b) ≡ double_sha256 sha256 (c ++ d)
      → ((a ≡ c) × (b ≡ d)) ⊎ Collision sha256
  same_pair a b c d len e = elim (Bool-cases (bytes_eq (a ++ b) (c ++ d))) [
    | inl same ↦ inl (append-injective a b c d len (bytes_eq→eq (a ++ b) (c ++ d) same))
    | inr other ↦ inr (a ++ b, c ++ d, (λ p. cc (other, bytes_eq_self (a ++ b), p)), e)
  ]

  same_level :
      (xs ys : List Hash)
      → All HasHashSize xs
      → All HasHashSize ys
      → length xs ≡ length ys
      → next_level sha256 xs ≡ next_level sha256 ys
      → (xs ≡ ys) ⊎ Collision sha256
  unfolding next_level
  same_level [] [] v w len e = inl refl
  same_level [] (c ∷ ys) v w len e = absurd (omega arith)
  same_level (a ∷ xs) [] v w len e = absurd (omega arith)
  same_level (a ∷ []) (c ∷ []) v w len e =
      elim (same_pair a a c c (v.0 ∙ sym w.0) (head-eq _ _ _ _ e).0) [
        | inl same ↦ inl (ap (λ h. h ∷ []) same.0)
        | inr broken ↦ inr broken
      ]
  same_level (a ∷ []) (c ∷ d ∷ ys) v w len e = absurd (omega arith)
  same_level (a ∷ b ∷ xs) (c ∷ []) v w len e = absurd (omega arith)
  same_level (a ∷ b ∷ xs) (c ∷ d ∷ ys) v w len e =
      let (heads, tails) = head-eq _ _ _ _ e in
      elim (same_pair a b c d (v.0 ∙ sym w.0) heads) [
        | inr broken ↦ inr broken
        | inl same ↦ elim (same_level xs ys v.1.1 w.1.1 (omega arith) tails) [
          | inr broken ↦ inr broken
          | inl rest ↦ inl (rw (same.0, same.1, rest))
        ]
      ]

  next_level-HasHashSize : (xs : List Hash) → All HasHashSize (next_level sha256 xs)
  unfolding next_level double_sha256
  next_level-HasHashSize [] = tt
  next_level-HasHashSize (a ∷ []) = (size _, tt)
  next_level-HasHashSize (a ∷ b ∷ xs) = (size _, next_level-HasHashSize xs)

  length-next_level_eq :
      (xs ys : List Hash)
      → length xs ≡ length ys
      → length (next_level sha256 xs) ≡ length (next_level sha256 ys)
  unfolding next_level
  length-next_level_eq [] [] len = refl
  length-next_level_eq [] (c ∷ ys) len = absurd (omega arith)
  length-next_level_eq (a ∷ xs) [] len = absurd (omega arith)
  length-next_level_eq (a ∷ []) (c ∷ []) len = refl
  length-next_level_eq (a ∷ []) (c ∷ d ∷ ys) len = absurd (omega arith)
  length-next_level_eq (a ∷ b ∷ xs) (c ∷ []) len = absurd (omega arith)
  length-next_level_eq (a ∷ b ∷ xs) (c ∷ d ∷ ys) len =
      ap suc (length-next_level_eq xs ys (omega arith))

  same_climb :
      (fuel : ℕ) (xs ys : List Hash) (root : Hash)
      → All HasHashSize xs
      → All HasHashSize ys
      → length xs ≡ length ys
      → climb sha256 fuel xs ≡ some root
      → climb sha256 fuel ys ≡ some root
      → (xs ≡ ys) ⊎ Collision sha256
  unfolding climb
  same_climb fuel [] [] root v w len e f = inl refl
  same_climb fuel [] (c ∷ ys) root v w len e f = absurd (omega arith)
  same_climb fuel (a ∷ xs) [] root v w len e f = absurd (omega arith)
  same_climb fuel (a ∷ []) (c ∷ []) root v w len e f = inl (cc (e, f))
  same_climb fuel (a ∷ []) (c ∷ d ∷ ys) root v w len e f = absurd (omega arith)
  same_climb fuel (a ∷ b ∷ xs) (c ∷ []) root v w len e f = absurd (omega arith)
  same_climb zero (a ∷ b ∷ xs) (c ∷ d ∷ ys) root v w len e f = cc
  same_climb (suc fuel) (a ∷ b ∷ xs) (c ∷ d ∷ ys) root v w len e f =
      let us = next_level sha256 (a ∷ b ∷ xs) in
      let vs = next_level sha256 (c ∷ d ∷ ys) in
      elim (same_climb fuel us vs root (next_level-HasHashSize (a ∷ b ∷ xs))
        (next_level-HasHashSize (c ∷ d ∷ ys)) (length-next_level_eq (a ∷ b ∷ xs) (c ∷ d ∷ ys) len)
        (sym (climb-step sha256 fuel a b xs) ∙ e) (sym (climb-step sha256 fuel c d ys) ∙ f)) [
          | inr broken ↦ inr broken
          | inl same ↦ same_level (a ∷ b ∷ xs) (c ∷ d ∷ ys) v w len same
        ]

  -- Two lists of equally many 32-byte hashes with the same Merkle root are the same list, or they
  -- give a collision of double SHA-256; digests have 32 bytes.
  pub merkle_root-binding :
      (xs ys : List Hash)
      → All HasHashSize xs
      → All HasHashSize ys
      → length xs ≡ length ys
      → merkle_root sha256 xs ≡ merkle_root sha256 ys
      → (xs ≡ ys) ⊎ Collision sha256
  unfolding merkle_root
  merkle_root-binding xs ys v w len e =
      let (root, found) = merkle_root-total sha256 xs in
      same_climb (length xs) xs ys root v w len found
        (subst (λ n. climb sha256 n ys ≡ some root) (sym len) (sym e ∙ found))
