-- ===== src/Crypto/Keys/Commitment.antt =====
-- What a signature hash commits to.
use go_chain.Prelude.{
  ℕ, suc, ◌+◌, ◌≤◌, ◌<◌, ◌≡◌, refl, sym, ap, ◌∙◌, ◌⊎◌, inl, inr, List, [], ◌∷◌, map, Option, some,
  none, leb, ◌==◌, if◌then◌else◌, length, arith, All, Bool-cases, leb_false→lt, ==_iff,
}
use go_chain.KeyMap.{bytes_eq, bytes_eq→eq, bytes_eq_self}
use go_chain.Types.Bytes.{Bytes}
use go_chain.Types.Transaction.{TxInput, Transaction, Hash}
use go_chain.Types.Transaction.Codec.{IsScript, IsInput}
use go_chain.Types.Transaction.RoundTrip.{IsTx, serialize_tx-injective}
use go_chain.Crypto.Hash.{double_sha256}
use go_chain.Crypto.Keys.{Primitives, sighash_inputs, sighash_copy, sighash_data, compute_sig_hash}
use go_chain.Crypto.Merkle.Binding.{Collision}

-- An input without its signature script.
abbrev pub unsigned : TxInput → TxInput
unsigned i = record i { signature_script = [] }

length-sighash_inputs :
    (idx : ℕ) (s : Bytes) (n : ℕ) (is : List TxInput)
    → length (sighash_inputs idx s n is) ≡ length is
unfolding sighash_inputs
length-sighash_inputs idx s n [] = refl
length-sighash_inputs idx s n (i ∷ is) = ap suc (length-sighash_inputs idx s (n + 1) is)

sighash_inputs-IsInput :
    (idx : ℕ) (s : Bytes) (n : ℕ) (is : List TxInput)
    → IsScript s
    → All IsInput is
    → All IsInput (sighash_inputs idx s n is)
unfolding sighash_inputs
sighash_inputs-IsInput idx s n [] v a = tt
sighash_inputs-IsInput idx s n (i ∷ is) v a =
    let here : IsScript (if n == idx then s else []) = elim (Bool-cases (n == idx)) [
      | inl same ↦ rw same v
      | inr other ↦ rw other (omega arith, tt)
    ] in
    (
      record { hash = a.0.hash; index = a.0.index; script = here; sequence = a.0.sequence },
      sighash_inputs-IsInput idx s (n + 1) is v a.1,
    )

unsigned-sighash_inputs :
    (idx : ℕ) (s : Bytes) (n : ℕ) (is : List TxInput)
    → map unsigned (sighash_inputs idx s n is) ≡ map unsigned is
unfolding sighash_inputs
unsigned-sighash_inputs idx s n [] = refl
unsigned-sighash_inputs idx s n (i ∷ is) =
    ap (λ t. unsigned i ∷ t) (unsigned-sighash_inputs idx s (n + 1) is)

sighash_copy-IsTx :
    (tx : Transaction) (idx : ℕ) (s : Bytes) → IsTx tx → IsScript s → IsTx (sighash_copy tx idx s)
unfolding sighash_copy
sighash_copy-IsTx tx idx s v w = record {
  version = v.version;
  inputs = sighash_inputs-IsInput idx s 0 tx.inputs w v.inputs;
  input_count = omega (arith, v.input_count, length-sighash_inputs idx s 0 tx.inputs);
  outputs = v.outputs;
  output_count = v.output_count;
  lock_time = v.lock_time;
}

-- The input that is signed, and its script, are found in the copy.
same_signed_input :
    (i j : ℕ) (s t : Bytes) (n : ℕ) (xs ys : List TxInput)
    → n ≤ i
    → n ≤ j
    → i < n + length xs
    → j < n + length ys
    → 1 ≤ length s
    → 1 ≤ length t
    → sighash_inputs i s n xs ≡ sighash_inputs j t n ys
    → (i ≡ j) × (s ≡ t)
unfolding sighash_inputs
same_signed_input i j s t n [] ys a b lx ly p q e = absurd (omega arith)
same_signed_input i j s t n (x ∷ xs) [] a b lx ly p q e = absurd (omega arith)
same_signed_input i j s t n (x ∷ xs) (y ∷ ys) a b lx ly p q e =
    let scripts : (if n == i then s else []) ≡ (if n == j then t else []) = ap first_script e in
    elim (Bool-cases (n == i)) [
      | inl at_i ↦ elim (Bool-cases (n == j)) [
        | inl at_j ↦
            (ground (arith, at_i, at_j, ==_iff n i, ==_iff n j), rw (at_i, at_j) at scripts)
        | inr not_j ↦
            let empty : s ≡ [] = rw (at_i, not_j) at scripts in
            absurd (omega (arith, ap length empty, p))
      ]
      | inr not_i ↦ elim (Bool-cases (n == j)) [
        | inl at_j ↦
            let empty : [] ≡ t = rw (not_i, at_j) at scripts in
            absurd (omega (arith, ap length empty, q))
        | inr not_j ↦
            same_signed_input i j s t (n + 1) xs ys (ground (arith, not_i, ==_iff n i))
              (ground (arith, not_j, ==_iff n j)) (omega (arith, lx)) (omega (arith, ly)) p q
              (ap tail_inputs e)
      ]
    ]
  where
    first_script : List TxInput → Bytes
    first_script [] = []
    first_script (z ∷ zs) = z.signature_script

    tail_inputs : List TxInput → List TxInput
    tail_inputs [] = []
    tail_inputs (z ∷ zs) = zs

compute_sig_hash-eq_some :
    (c : Primitives) (tx : Transaction) (idx : ℕ) (s : Bytes) (h : Hash)
    → compute_sig_hash c tx idx s ≡ some h
    → (idx < length tx.inputs) × (double_sha256 c.sha256 (sighash_data tx idx s) ≡ h)
unfolding compute_sig_hash
compute_sig_hash-eq_some c tx idx s h e = elim (Bool-cases (leb (length tx.inputs) idx)) [
  | inl out ↦ let none_there : ◌≡◌ {A = Option Hash} none (some h) = rw out at e in cc
  | inr within ↦
      let there : some (double_sha256 c.sha256 (sighash_data tx idx s)) ≡ some h = rw within at e in
      (leb_false→lt (length tx.inputs) idx within, cc)
]

-- All of a transaction but its signature scripts, and the input that is signed with its subscript.
pub record Commits (tx other : Transaction) (i j : ℕ) (s t : Bytes) : Type 0 where
  pub version : tx.version ≡ other.version
  pub inputs : map unsigned tx.inputs ≡ map unsigned other.inputs
  pub outputs : tx.outputs ≡ other.outputs
  pub lock_time : tx.lock_time ≡ other.lock_time
  pub input_idx : i ≡ j
  pub subscript : s ≡ t

same_copy-Commits :
    (tx other : Transaction) (i j : ℕ) (s t : Bytes)
    → i < length tx.inputs
    → j < length other.inputs
    → 1 ≤ length s
    → 1 ≤ length t
    → sighash_copy tx i s ≡ sighash_copy other j t
    → Commits tx other i j s t
unfolding sighash_copy
same_copy-Commits tx other i j s t a b p q e =
    let copies = ap (λ (x : Transaction). x.inputs) e in
    let signed =
      same_signed_input i j s t 0 tx.inputs other.inputs (omega arith) (omega arith) (omega arith)
        (omega arith) p q copies in
    record {
      version = ap (λ (x : Transaction). x.version) e;
      inputs =
          sym (unsigned-sighash_inputs i s 0 tx.inputs)
          ∙ ap (map unsigned) copies
          ∙ unsigned-sighash_inputs j t 0 other.inputs;
      outputs = ap (λ (x : Transaction). x.outputs) e;
      lock_time = ap (λ (x : Transaction). x.lock_time) e;
      input_idx = signed.0;
      subscript = signed.1;
    }

-- Two signature hashes that ComputeSigHash gives for transactions within the limits of
-- Transaction.Deserialize (10000 inputs, 10000 outputs, scripts of 10000 bytes, fields of the widths of
-- their Go types), over subscripts of 1 to 10000 bytes, are equal only if they are for the same version, inputs up to their signature scripts, outputs, lock time, input and
-- subscript, or there is a collision of double SHA-256.
pub compute_sig_hash-Commits :
    (c : Primitives) (tx other : Transaction) (i j : ℕ) (s t : Bytes) (h : Hash)
    → IsTx tx
    → IsTx other
    → IsScript s
    → IsScript t
    → 1 ≤ length s
    → 1 ≤ length t
    → compute_sig_hash c tx i s ≡ some h
    → compute_sig_hash c other j t ≡ some h
    → Commits tx other i j s t ⊎ Collision c.sha256
unfolding sighash_data
compute_sig_hash-Commits c tx other i j s t h v w vs vt p q e f =
    let (within, hashed) = compute_sig_hash-eq_some c tx i s h e in
    let (within', hashed') = compute_sig_hash-eq_some c other j t h f in
    let preimage = sighash_data tx i s in
    let preimage' = sighash_data other j t in
    elim (Bool-cases (bytes_eq preimage preimage')) [
      | inr differ ↦
          inr (
            preimage,
            preimage',
            (λ q. cc (differ, bytes_eq_self preimage, q)),
            hashed ∙ sym hashed',
          )
      | inl same ↦
          let copies =
            serialize_tx-injective (sighash_copy tx i s) (sighash_copy other j t) _ _
              (sighash_copy-IsTx tx i s v vs) (sighash_copy-IsTx other j t w vt)
              (bytes_eq→eq preimage preimage' same) in
          inl (same_copy-Commits tx other i j s t within within' p q copies)
    ]
