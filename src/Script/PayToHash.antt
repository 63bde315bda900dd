-- ===== src/Script/PayToHash.antt =====
-- A pay-to-pubkey-hash output and the script that spends it.
use go_chain.Prelude.{
  ℕ, suc, ◌+◌, ◌%◌, ◌≤◌, ◌≡◌, refl, ap, ◌∙◌, Bool, true, false, not, [], ◌∷◌, ◌++◌, length,
  length-append, take-append_self, drop-append_self, Result, ok, err, ◌>>=◌, ◌>>◌, fail_if, arith,
  Bool-cases, Result-cases, inl, inr, append-nil, subst,
}
use go_chain.KeyMap.{bytes_eq}
use go_chain.Types.Bytes.{Bytes}
use go_chain.Types.Transaction.{Transaction}
use go_chain.Crypto.Keys.{Primitives, hash160, make_p2pkh_script, make_p2pkh_signature_script}
use go_chain.Script.{
  ScriptError, not_equal, Stack, checked, push_bytes, check_signature, step, count_op, run, execute,
  verify_script, accepts, is_true,
}

checked_small :
    (rest : Bytes) (stack : Stack) → length stack ≤ 10 → checked rest stack ≡ ok (rest, stack)
unfolding checked
checked_small rest stack h = ground arith

-- Pushing a part of the script that the opcode names the length of.
push_part :
    (n : ℕ) (part rest : Bytes) (stack : Stack)
    → length part ≡ n
    → n ≤ 75
    → length stack ≤ 9
    → push_bytes n (part ++ rest) stack ≡ ok (rest, part ∷ stack)
unfolding push_bytes
push_part n part rest stack e h k = rw (← e) (
    ground (
      arith,
      length-append part rest,
      take-append_self part rest,
      drop-append_self part rest,
      checked_small rest (part ∷ stack),
    ))

module _ (c : Primitives) (tx : Transaction) (input_idx : ℕ) (pk_script : Bytes) where
  step_push :
      (part rest : Bytes) (stack : Stack)
      → 1 ≤ length part
      → length part ≤ 75
      → length stack ≤ 9
      → step c tx input_idx pk_script (length part) (part ++ rest) stack ≡ ok (rest, part ∷ stack)
  unfolding step
  step_push part rest stack low high small =
      ground (arith, push_part (length part) part rest stack refl)

  run_push :
      (fuel num_ops : ℕ) (part rest : Bytes) (stack : Stack)
      → 1 ≤ length part
      → length part ≤ 75
      → length stack ≤ 9
      → run c tx input_idx pk_script (suc fuel) (length part ∷ (part ++ rest)) num_ops stack
        ≡ run c tx input_idx pk_script fuel rest num_ops (part ∷ stack)
  unfolding run count_op
  run_push fuel num_ops part rest stack low high small =
      ground (arith, step_push part rest stack low high small)

  run-step :
      (fuel op num_ops : ℕ) (rest rest' : Bytes) (stack stack' : Stack)
      → num_ops ≤ 100
      → step c tx input_idx pk_script op rest stack ≡ ok (rest', stack')
      → run c tx input_idx pk_script (suc fuel) (op ∷ rest) num_ops stack
        ≡ run c tx input_idx pk_script fuel rest' (count_op op num_ops) stack'
  unfolding run count_op
  run-step fuel op num_ops rest rest' stack stack' h e = ground (arith, e)

  -- The two pushes of the unlocking script.
  execute_unlocking :
      (sig pub_key : Bytes)
      → 1 ≤ length sig
      → length sig ≤ 75
      → 1 ≤ length pub_key
      → length pub_key ≤ 75
      → execute c tx input_idx pk_script (make_p2pkh_signature_script sig pub_key) []
        ≡ ok (pub_key ∷ sig ∷ [])
  unfolding execute make_p2pkh_signature_script
  execute_unlocking sig pub_key s₁ s₂ p₁ p₂ =
      let fuel = length sig + length pub_key in
      let tail = length pub_key ∷ (pub_key ++ []) in
      let e₁ : length sig % 256 ≡ length sig = omega arith in
      let e₂ : length pub_key % 256 ≡ length pub_key = omega arith in
      let e₃ : length (sig ++ (length pub_key ∷ pub_key)) ≡ suc fuel =
        omega (arith, length-append sig (length pub_key ∷ pub_key)) in
      let runs : run c tx input_idx pk_script (suc (suc fuel)) (length sig ∷ (sig ++ tail)) 0 []
          ≡ ok (pub_key ∷ sig ∷ []) =
        run_push (suc fuel) 0 sig tail [] s₁ s₂ (omega arith)
        ∙ run_push fuel 0 pub_key [] (sig ∷ []) p₁ p₂ (omega arith)
        ∙ unfold run in refl in
      rw (e₁, e₂, e₃) (ground (arith, runs, append-nil pub_key))

  -- OP_DUP, OP_HASH160 and the push of the expected hash.
  run_to_comparison :
      (sig pub_key h : Bytes)
      → length h ≡ 20
      → run c tx input_idx pk_script 25 (make_p2pkh_script h) 0 (pub_key ∷ sig ∷ [])
        ≡ run c tx input_idx pk_script 22
            (0x88 ∷ 0xac ∷ [])
            2
            (h ∷ hash160 c pub_key ∷ pub_key ∷ sig ∷ [])
  unfolding make_p2pkh_script count_op
  run_to_comparison sig pub_key h e =
      let last : Bytes = 0x88 ∷ 0xac ∷ [] in
      let third = 0x14 ∷ (h ++ last) in
      let s₂ = hash160 c pub_key ∷ pub_key ∷ sig ∷ [] in
      run-step 24 0x76 0 (0xa9 ∷ third) (0xa9 ∷ third) (pub_key ∷ sig ∷ [])
        (pub_key ∷ pub_key ∷ sig ∷ []) (omega arith) (unfold step in refl)
      ∙ run-step 23 0xa9 1 third third (pub_key ∷ pub_key ∷ sig ∷ []) s₂ (omega arith)
          (unfold step in refl)
      ∙ subst
          (λ (n : ℕ).
            run c tx input_idx pk_script 23 (n ∷ (h ++ last)) 2 s₂
            ≡ run c tx input_idx pk_script 22 last 2 (h ∷ s₂))
          e (run_push 22 2 h last s₂ (omega arith) (omega arith) (omega arith))

  -- OP_CHECKSIG as the last opcode, on a non-empty signature.
  step_check :
      (x : ℕ) (sig pub_key : Bytes)
      → step c tx input_idx pk_script 0xac [] (pub_key ∷ (x ∷ sig) ∷ [])
        ≡ (check_signature c tx input_idx pk_script (x ∷ sig) pub_key >> ok ([], (1 ∷ []) ∷ []))
  unfolding step
  step_check x sig pub_key = refl

  run_check :
      (x : ℕ) (sig pub_key : Bytes)
      → run c tx input_idx pk_script 21 (0xac ∷ []) 3 (pub_key ∷ (x ∷ sig) ∷ [])
        ≡ (check_signature c tx input_idx pk_script (x ∷ sig) pub_key >> ok ((1 ∷ []) ∷ []))
  unfolding run count_op
  run_check x sig pub_key =
      elim (Result-cases (check_signature c tx input_idx pk_script (x ∷ sig) pub_key)) [
        | inl (u, e) ↦ ground (arith, step_check x sig pub_key, e)
        | inr (f, e) ↦ ground (arith, step_check x sig pub_key, e)
      ]

  step_compare :
      (a h rest : Bytes) (stack : Stack)
      → length stack ≤ 9
      → step c tx input_idx pk_script 0x88 rest (h ∷ a ∷ stack)
        ≡ (fail_if (not (bytes_eq a h)) not_equal >> ok (rest, stack))
  unfolding step
  step_compare a h rest stack small = ground (arith, checked_small rest stack)

  run_compare :
      (sig pub_key a h : Bytes)
      → run c tx input_idx pk_script 22 (0x88 ∷ 0xac ∷ []) 2 (h ∷ a ∷ pub_key ∷ sig ∷ []) ≡ (
          fail_if (not (bytes_eq a h)) not_equal
          >> run c tx input_idx pk_script 21 (0xac ∷ []) 3 (pub_key ∷ sig ∷ []))
  unfolding run count_op
  run_compare sig pub_key a h =
      let s = step_compare a h (0xac ∷ []) (pub_key ∷ sig ∷ []) (omega arith) in
      elim (Bool-cases (bytes_eq a h)) [ inl same ↦ rw (s, same) | inr other ↦ rw (s, other) ]

  -- The locking script on those two.
  execute_locking :
      (sig pub_key h : Bytes)
      → 1 ≤ length sig
      → length h ≡ 20
      → execute c tx input_idx pk_script (make_p2pkh_script h) (pub_key ∷ sig ∷ []) ≡ (
          fail_if (not (bytes_eq (hash160 c pub_key) h)) not_equal
          >> (check_signature c tx input_idx pk_script sig pub_key >> ok ((1 ∷ []) ∷ [])))
  unfolding execute
  execute_locking [] pub_key h low e = absurd (omega arith)
  execute_locking (x ∷ sig) pub_key h low e =
      let a = hash160 c pub_key in
      let size : length (make_p2pkh_script h) ≡ 25 =
        unfold make_p2pkh_script in omega (arith, length-append h (0x88 ∷ 0xac ∷ [])) in
      rw size (
        run_to_comparison (x ∷ sig) pub_key h e
        ∙ run_compare (x ∷ sig) pub_key a h
        ∙ ap (λ r. fail_if (not (bytes_eq a h)) not_equal >> r) (run_check x sig pub_key))

accepted :
    (b : Bool) (e : ScriptError) (r : Result ScriptError (Unit {0}))
    → ((fail_if b e >> (r >> ok ((1 ∷ []) ∷ []))) >>= accepts) ≡ (fail_if b e >> r)
unfolding accepts is_true
accepted true e r = refl
accepted false e (ok u) = refl
accepted false e (err f) = refl

-- Spending a pay-to-pubkey-hash output by a signature and a public key that the two pushes can hold:
-- Verify compares the key's hash with the one in the output, and then the outcome is that of checking
-- the signature over the output's script. Nothing else can make it succeed or fail.
pub verify_script_p2pkh :
    (c : Primitives) (tx : Transaction) (input_idx : ℕ) (sig pub_key h : Bytes)
    → 1 ≤ length sig
    → length sig ≤ 75
    → 1 ≤ length pub_key
    → length pub_key ≤ 75
    → length h ≡ 20
    → verify_script c (make_p2pkh_signature_script sig pub_key) (make_p2pkh_script h) tx input_idx
      ≡ (fail_if (not (bytes_eq (hash160 c pub_key) h)) not_equal
          >> check_signature c tx input_idx (make_p2pkh_script h) sig pub_key)
unfolding verify_script
verify_script_p2pkh c tx input_idx sig pub_key h s₁ s₂ p₁ p₂ e =
    let pk = make_p2pkh_script h in
    unfold make_p2pkh_script in
    rw
      (
        execute_unlocking c tx input_idx pk sig pub_key s₁ s₂ p₁ p₂,
        execute_locking c tx input_idx pk sig pub_key h s₁ e,
      )
      (accepted (not (bytes_eq (hash160 c pub_key) h)) not_equal
        (check_signature c tx input_idx pk sig pub_key))
