-- ===== src/Miner/Search/Complete.antt =====
-- The workers together search every nonce.
use go_chain.Prelude.{
  ℕ, zero, suc, ◌+◌, ◌-◌, ◌*◌, ◌/◌, ◌%◌, ◌^◌, ◌≤◌, ◌<◌, ◌≡◌, refl, sym, subst, ◌∙◌, inl, inr, Bool,
  true, false, some, none, ltb, ◌==◌, arith, Bool-cases, lt→ltb, ltb_false→le, ltb→lt,
}
use native.Mathlib.Nat.{suc-mul, mul-div-le, mul-le-mul_right}
use go_chain.Types.Transaction.{Hash}
use go_chain.Types.Block.{BlockHeader}
use go_chain.Consensus.Pow.{Engine, seal_header}
use go_chain.Consensus.Pow.Mining.{with_nonce, is_solution, seal_header-Found, seal_header_complete}
use go_chain.Miner.Search.{start_nonce, end_nonce, batch_at, worker_loop, worker}

-- A solution that differs from the header in its nonce alone.
abbrev pub Solves : Engine → BlockHeader → Hash → BlockHeader → Type 0
Solves e header target h = (is_solution e h target ≡ true) × (h ≡ with_nonce header h.nonce)

-- The range of a worker that holds a nonce below `n` ranges.
range_of : (n r k : ℕ) → k < n * r → (w : ℕ) × (w < n) × (w * r ≤ k) × (k < w * r + r)
range_of zero r k lt = absurd (omega arith)
range_of (suc n) r k lt = elim (Bool-cases (ltb k (n * r))) [
  | inl low ↦
      let (w, below, from, to) = range_of n r k (ltb→lt k (n * r) low) in
      (w, omega (arith, below), from, to)
  | inr high ↦ (n, omega arith, ltb_false→le k (n * r) high, omega (arith, lt, suc-mul n r))
]

covered :
    (workers k : ℕ)
    → 0 < workers
    → k < 2 ^ 32
    → (w : ℕ) × (w < workers) × (start_nonce workers w ≤ k) × (k < end_nonce workers w)
unfolding start_nonce end_nonce
covered workers k some_workers lt =
    let r = 2 ^ 32 / workers in
    elim (Bool-cases (ltb k ((workers - 1) * r))) [
      | inl low ↦
          let (w, below, from, to) =
            range_of (workers - 1) r k (ltb→lt k ((workers - 1) * r) low) in
          let inner : (w == workers - 1) ≡ false = ground (arith, below) in
          (w, omega (arith, below), from, rw inner to)
      | inr high ↦
          let last : (workers - 1 == workers - 1) ≡ true = ground arith in
          (workers - 1, omega arith, ltb_false→le k ((workers - 1) * r) high, rw last lt)
    ]

end_nonce-le : (workers w : ℕ) → 0 < workers → w < workers → end_nonce workers w ≤ 2 ^ 32
unfolding start_nonce end_nonce
end_nonce-le workers w some_workers lt = elim (Bool-cases (w == workers - 1)) [
  | inl last ↦ rw last (omega arith)
  | inr inner ↦
      let r = 2 ^ 32 / workers in
      rw inner (
        omega (
          arith,
          suc-mul w r,
          mul-le-mul_right {m = suc w} {n = workers} r (omega (arith, lt)),
          mul-div-le (2 ^ 32) workers,
        ))
]

module _ (e : Engine) (header : BlockHeader) (target : Hash) (size : ℕ) where
  abbrev sealed_at : ℕ → ℕ → BlockHeader × Bool
  sealed_at pos end =
      seal_header e (with_nonce header (pos % 2 ^ 32)) target (batch_at size (end - pos))

  worker_loop-found :
      (n pos end : ℕ)
      → ltb pos end ≡ true
      → (sealed_at pos end).1 ≡ true
      → worker_loop (suc n) e header target size pos end ≡ some (sealed_at pos end).0
  unfolding worker_loop
  worker_loop-found n pos end more found = rw (worker_loop, more, found) refl

  worker_loop-next :
      (n pos end : ℕ)
      → ltb pos end ≡ true
      → (sealed_at pos end).1 ≡ false
      → worker_loop (suc n) e header target size pos end
        ≡ worker_loop n e header target size (pos + batch_at size (end - pos)) end
  unfolding worker_loop
  worker_loop-next n pos end more unfound = rw (worker_loop, more, unfound) refl

  worker_loop-done :
      (n pos end : ℕ)
      → ltb pos end ≡ false
      → worker_loop (suc n) e header target size pos end ≡ none
  unfolding worker_loop
  worker_loop-done n pos end done = rw (worker_loop, done) refl

  worker_loop-Solves :
      (n pos end : ℕ) (h : BlockHeader)
      → worker_loop n e header target size pos end ≡ some h
      → Solves e header target h
  worker_loop-Solves zero pos end h r = unfold worker_loop in cc r
  worker_loop-Solves (suc n) pos end h r = elim (Bool-cases (ltb pos end)) [
    | inr done ↦ cc (worker_loop-done n pos end done, r)
    | inl more ↦ elim (Bool-cases (sealed_at pos end).1) [
      | inl found ↦
          let same : (sealed_at pos end).0 ≡ h = cc (worker_loop-found n pos end more found, r) in
          subst (Solves e header target) same (
            seal_header-Found e (with_nonce header (pos % 2 ^ 32)) target
              (batch_at size (end - pos)) found)
      | inr unfound ↦
          worker_loop-Solves n (pos + batch_at size (end - pos)) end h
            (sym (worker_loop-next n pos end more unfound) ∙ r)
    ]
  ]

  worker_loop_complete :
      (n pos end k : ℕ)
      → 0 < size
      → end - pos ≤ n
      → pos ≤ k
      → k < end
      → end ≤ 2 ^ 32
      → is_solution e (with_nonce header k) target ≡ true
      → (h : BlockHeader) × (worker_loop n e header target size pos end ≡ some h)
  worker_loop_complete zero pos end k some_size fuel from to fits s = absurd (omega arith)
  worker_loop_complete (suc n) pos end k some_size fuel from to fits s =
      let more = lt→ltb pos end (omega arith) in
      let batch = batch_at size (end - pos) in
      let some_batch : (0 < batch) × (batch ≤ end - pos) = ground arith in
      elim (Bool-cases (sealed_at pos end).1) [
        | inl found ↦ ((sealed_at pos end).0, worker_loop-found n pos end more found)
        | inr unfound ↦ elim (Bool-cases (ltb k (pos + batch))) [
          | inl here ↦
              let there : pos % 2 ^ 32 + (k - pos) ≡ k = omega arith in
              let complete =
                seal_header_complete e (with_nonce header (pos % 2 ^ 32)) target batch (k - pos)
                  (omega (arith, ltb→lt k (pos + batch) here)) (omega (arith, there))
                  (subst (λ m. is_solution e (with_nonce header m) target ≡ true) (sym there) s) in
              cc (complete, unfound)
          | inr later ↦
              let (h, r) =
                worker_loop_complete n (pos + batch) end k some_size
                  (omega (arith, some_batch.0, some_batch.1)) (ltb_false→le k (pos + batch) later)
                  to fits s in
              (h, worker_loop-next n pos end more unfound ∙ r)
        ]
      ]

  -- Whatever the number of workers and the size of a batch, both at least one, every header that a
  -- worker reports is a solution and differs from the header given in its nonce alone, and if any of the
  -- 2 ^ 32 nonces solves the header, some worker reports one.
  pub worker_complete :
      (workers : ℕ)
      → 0 < workers
      → 0 < size
      → ((w : ℕ) (h : BlockHeader)
          → worker e header target size workers w ≡ some h
          → Solves e header target h)
        × ((k : ℕ)
            → k < 2 ^ 32
            → is_solution e (with_nonce header k) target ≡ true
            → (w : ℕ) × (w < workers)
              × (h : BlockHeader) × (worker e header target size workers w ≡ some h))
  unfolding worker
  worker_complete workers some_workers some_size = (
    (λ w h r.
        worker_loop-Solves (end_nonce workers w - start_nonce workers w) (start_nonce workers w)
          (end_nonce workers w) h r),
    (λ k lt s.
        let (w, below, from, to) = covered workers k some_workers lt in
        let (h, r) =
          worker_loop_complete (end_nonce workers w - start_nonce workers w) (start_nonce workers w)
            (end_nonce workers w) k some_size (omega arith) from to
            (end_nonce-le workers w some_workers below) s in
        (w, below, h, r)),
  )
