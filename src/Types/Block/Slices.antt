-- ===== src/Types/Block/Slices.antt =====
-- Slices of a buffer at fixed offsets.
use go_chain.Prelude.{
  ℕ, zero, suc, ◌+◌, ◌-◌, ◌≤◌, ◌<◌, ◌^◌, ◌≡◌, refl, sym, ap, ◌∙◌, [], ◌∷◌, ◌++◌, arith, length,
  take, drop, take-append_self, take-append-drop, length-take_le, length-drop, All-take, All-drop,
}
use go_chain.Types.Bytes.{Bytes, AreBytes, IsByte, put_le, get_le, put_le-get_le, get_le-lt}
use go_chain.Types.Transaction.{IsHash}
use go_chain.Types.Block.{slice}

-- Reading at an offset behind a part that is known.
pub drop_past : (a r : Bytes) (k n m : ℕ) → length a ≡ k → k + n ≡ m → drop m (a ++ r) ≡ drop n r
drop_past [] r k n m e f = let g : m ≡ n = omega arith in rw g refl
drop_past (x ∷ a) r k n zero e f = absurd (omega arith)
drop_past (x ∷ a) r k n (suc m) e f = drop_past a r (k - 1) n m (omega arith) (omega arith)

pub take_exactly : (a r : Bytes) (k : ℕ) → length a ≡ k → take k (a ++ r) ≡ a
take_exactly a r k e = rw (← e) (take-append_self a r)

pub drop_nothing : (n : ℕ) → drop {A = ℕ} n [] ≡ []
drop_nothing zero = refl
drop_nothing (suc n) = refl

drop-drop : (n m k : ℕ) (xs : Bytes) → n + m ≡ k → drop k xs ≡ drop m (drop n xs)
drop-drop zero m k xs e = let g : k ≡ m = omega arith in rw g refl
drop-drop (suc n) m zero xs e = absurd (omega arith)
drop-drop (suc n) m (suc k) [] e = sym (drop_nothing m)
drop-drop (suc n) m (suc k) (x ∷ xs) e = drop-drop n m k xs (omega arith)

pub slice-append-drop : (i j : ℕ) (buf : Bytes) → i ≤ j → drop i buf ≡ slice i j buf ++ drop j buf
slice-append-drop i j buf h =
    sym (take-append-drop (j - i) (drop i buf))
    ∙ ap (λ t. slice i j buf ++ t) (sym (drop-drop i (j - i) j buf (omega arith)))

length-slice : (i j : ℕ) (buf : Bytes) → i ≤ j → j ≤ length buf → length (slice i j buf) ≡ j - i
length-slice i j buf h k = length-take_le (j - i) (drop i buf) (omega (arith, length-drop i buf))

slice-AreBytes : (i j : ℕ) (buf : Bytes) → AreBytes buf → AreBytes (slice i j buf)
slice-AreBytes i j buf h = All-take IsByte (j - i) (drop i buf) (All-drop IsByte i buf h)

pub drop_all : (buf : Bytes) → drop (length buf) buf ≡ []
drop_all [] = refl
drop_all (x ∷ buf) = drop_all buf

pub slice-IsHash :
    (i : ℕ) (buf : Bytes) → i + 32 ≤ length buf → AreBytes buf → IsHash (slice i (i + 32) buf)
slice-IsHash i buf h b =
    (omega (arith, length-slice i (i + 32) buf (omega arith) h), slice-AreBytes i (i + 32) buf b)

word_of :
    (n : ℕ) (s : Bytes)
    → length s ≡ n
    → AreBytes s
    → (put_le n (get_le s) ≡ s) × (get_le s < 256 ^ n)
word_of n s e b = rw (← e) (put_le-get_le s b, get_le-lt s b)

pub slice_word :
    (i j : ℕ) (buf : Bytes)
    → i ≤ j
    → j ≤ length buf
    → AreBytes buf
    → (put_le (j - i) (get_le (slice i j buf)) ≡ slice i j buf)
      × (get_le (slice i j buf) < 256 ^ (j - i))
slice_word i j buf h k b =
    word_of (j - i) (slice i j buf) (length-slice i j buf h k) (slice-AreBytes i j buf b)

-- The offset behind a part, and the slice that is the part.
pub drop_next :
    (buf a r : Bytes) (i k j : ℕ) → drop i buf ≡ a ++ r → length a ≡ k → i + k ≡ j → drop j buf ≡ r
drop_next buf a r i k j d e f =
    drop-drop i k j buf f ∙ ap (drop k) d ∙ drop_past a r k 0 k e (omega arith)

pub slice_at :
    (buf a r : Bytes) (i j : ℕ) → drop i buf ≡ a ++ r → length a ≡ j - i → slice i j buf ≡ a
slice_at buf a r i j d e = ap (take (j - i)) d ∙ take_exactly a r (j - i) e
