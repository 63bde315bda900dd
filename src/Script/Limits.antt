-- ===== src/Script/Limits.antt =====
-- The engine ends on every script, and its stack never passes the limit.
use go_chain.Prelude.{
  ℕ, zero, suc, ◌+◌, ◌*◌, ◌≤◌, ◌≡◌, ◌≢◌, refl, ap, Bool, true, false, ◌&&◌, not, [], ◌∷◌, Option,
  some, none, leb, ltb, ◌==◌, if◌then◌else◌, length, take, drop, length-drop, Result, ok, err,
  ◌>>=◌, ◌>>◌, fail_if, arith, ltb_false→le,
}
use go_chain.KeyMap.{bytes_eq}
use go_chain.Types.Bytes.{Bytes}
use go_chain.Types.Transaction.{Transaction}
use go_chain.Crypto.Keys.{Primitives, hash160, compute_sig_hash, sig_hash_all}
use go_chain.Script.{
  ScriptError, out_of_fuel, null_fail, sighash_failed, Stack, max_ops_per_script, max_stack_size,
  max_script_size, max_stack_elem_size, Next, checked, push_bytes, push_data1, push_data2, op_dup,
  op_hash160, op_equal, op_equal_verify, or_fail, last_byte, all_but_last, check_signature,
  op_check_sig, step, count_op, run, execute,
}

-- A result within the limits: at most `n` bytes of script are left, and the stack is not too large.
abbrev Fits : ℕ → Next → Type 0
Fits n (ok (rest, stack)) = (length rest ≤ n) × (length stack ≤ max_stack_size)
Fits n (err e) = e ≢ out_of_fuel

-- A test in front of a step that fits.
test-Fits :
    (n : ℕ) (c : Bool) (e : ScriptError) (m : Next)
    → e ≢ out_of_fuel
    → (c ≡ false → Fits n m)
    → Fits n (fail_if c e >> m)
test-Fits n true e m other h = other
test-Fits n false e m other h = h refl

checked-Fits :
    (n : ℕ) (rest : Bytes) (stack : Stack) → length rest ≤ n → Fits n (checked rest stack)
unfolding checked
checked-Fits n rest stack h =
    test-Fits n (ltb max_stack_size (length stack)) _ _ (λ e. cc)
      λ small. (h, ltb_false→le max_stack_size (length stack) small)

push_bytes-Fits :
    (n k : ℕ) (rest : Bytes) (stack : Stack) → length rest ≤ n → Fits n (push_bytes k rest stack)
unfolding push_bytes
push_bytes-Fits n k rest stack h =
    test-Fits n (ltb (length rest) k) _ _ (λ e. cc)
      λ enough.
        test-Fits n (ltb max_stack_elem_size k) _ _ (λ e. cc)
          λ small.
            checked-Fits n (drop k rest) (take k rest ∷ stack) (omega (arith, length-drop k rest))

push_data1-Fits :
    (n : ℕ) (rest : Bytes) (stack : Stack) → length rest ≤ n → Fits n (push_data1 rest stack)
unfolding push_data1
push_data1-Fits n [] stack h = λ e. cc
push_data1-Fits n (k ∷ rest) stack h = push_bytes-Fits n k rest stack (omega arith)

push_data2-Fits :
    (n : ℕ) (rest : Bytes) (stack : Stack) → length rest ≤ n → Fits n (push_data2 rest stack)
unfolding push_data2
push_data2-Fits n [] stack h = λ e. cc
push_data2-Fits n (lo ∷ []) stack h = λ e. cc
push_data2-Fits n (lo ∷ hi ∷ rest) stack h =
    push_bytes-Fits n (lo + 256 * hi) rest stack (omega arith)

op_dup-Fits : (n : ℕ) (rest : Bytes) (stack : Stack) → length rest ≤ n → Fits n (op_dup rest stack)
unfolding op_dup
op_dup-Fits n rest [] h = λ e. cc
op_dup-Fits n rest (top ∷ stack) h = checked-Fits n rest (top ∷ top ∷ stack) h

op_equal-Fits :
    (n : ℕ) (rest : Bytes) (stack : Stack) → length rest ≤ n → Fits n (op_equal rest stack)
unfolding op_equal
op_equal-Fits n rest [] h = λ e. cc
op_equal-Fits n rest (b ∷ []) h = λ e. cc
op_equal-Fits n rest (b ∷ a ∷ stack) h =
    checked-Fits n rest ((if bytes_eq a b then 1 ∷ [] else []) ∷ stack) h

op_equal_verify-Fits :
    (n : ℕ) (rest : Bytes) (stack : Stack) → length rest ≤ n → Fits n (op_equal_verify rest stack)
unfolding op_equal_verify
op_equal_verify-Fits n rest [] h = λ e. cc
op_equal_verify-Fits n rest (b ∷ []) h = λ e. cc
op_equal_verify-Fits n rest (b ∷ a ∷ stack) h =
    test-Fits n (not (bytes_eq a b)) _ _ (λ e. cc) λ same. checked-Fits n rest stack h

bind-ne-out_of_fuel :
    {A B : Type 0} (m : Result ScriptError A) (f : A → Result ScriptError B)
    → m ≢ err out_of_fuel
    → ((a : A) → f a ≢ err out_of_fuel)
    → (m >>= f) ≢ err out_of_fuel
bind-ne-out_of_fuel (ok a) f h k = k a
bind-ne-out_of_fuel (err e) f h k = λ p. h (cc p)

test-ne-out_of_fuel : (c : Bool) (e : ScriptError) → e ≢ out_of_fuel → fail_if c e ≢ err out_of_fuel
test-ne-out_of_fuel true e h = λ p. h (cc p)
test-ne-out_of_fuel false e h = λ p. cc

or_fail-ne-out_of_fuel :
    {A : Type 0} (o : Option A) (e : ScriptError) → e ≢ out_of_fuel → or_fail o e ≢ err out_of_fuel
or_fail-ne-out_of_fuel none e h = λ p. h (cc p)
or_fail-ne-out_of_fuel (some a) e h = λ p. cc

branch : (n : ℕ) (b : Bool) (x y : Next) → Fits n x → Fits n y → Fits n (if b then x else y)
branch n true x y p q = p
branch n false x y p q = q

after_check-Fits :
    (n : ℕ) (r : Result ScriptError (Unit {0})) (m : Next)
    → r ≢ err out_of_fuel
    → Fits n m
    → Fits n (r >> m)
after_check-Fits n (ok u) m ne fits = fits
after_check-Fits n (err e) m ne fits = λ p. ne (ap err p)

-- A finished run: the limits hold, and the fuel was not what ended it.
abbrev pub Ends : Result ScriptError Stack → Type 0
Ends (ok stack) = length stack ≤ max_stack_size
Ends (err e) = e ≢ out_of_fuel

test-Ends :
    (c : Bool) (e : ScriptError) (m : Result ScriptError Stack)
    → e ≢ out_of_fuel
    → Ends m
    → Ends (fail_if c e >> m)
test-Ends true e m other h = other
test-Ends false e m other h = h

bind-Ends :
    (n : ℕ) (r : Next) (f : Bytes × Stack → Result ScriptError Stack)
    → Fits n r
    → ((rest : Bytes) (stack : Stack)
        → length rest ≤ n
        → length stack ≤ max_stack_size
        → Ends (f (rest, stack)))
    → Ends (r >>= f)
bind-Ends n (ok (rest, stack)) f fits k = k rest stack fits.0 fits.1
bind-Ends n (err e) f fits k = fits

module _ (c : Primitives) (tx : Transaction) (input_idx : ℕ) (pk_script : Bytes) where
  check_signature-ne-out_of_fuel :
      (sig pub_key : Bytes) → check_signature c tx input_idx pk_script sig pub_key ≢ err out_of_fuel
  unfolding check_signature
  check_signature-ne-out_of_fuel sig pub_key =
      let bad : null_fail ≢ out_of_fuel = λ e. cc in
      bind-ne-out_of_fuel _ _ (test-ne-out_of_fuel (ltb (length sig) 2) null_fail bad) λ _.
        bind-ne-out_of_fuel _ _
          (test-ne-out_of_fuel (not (last_byte sig == sig_hash_all)) null_fail bad)
          λ _.
            bind-ne-out_of_fuel _ _
              (or_fail-ne-out_of_fuel (c.parse_der_signature (all_but_last sig)) null_fail bad)
              λ s.
                bind-ne-out_of_fuel _ _
                  (or_fail-ne-out_of_fuel (c.parse_pub_key pub_key) null_fail bad)
                  λ p.
                    bind-ne-out_of_fuel _ _
                      (or_fail-ne-out_of_fuel (compute_sig_hash c tx input_idx pk_script)
                        sighash_failed (λ e. cc))
                      λ h. test-ne-out_of_fuel (not (c.verify s h p)) null_fail bad

  op_check_sig-Fits :
      (n : ℕ) (rest : Bytes) (stack : Stack)
      → length rest ≤ n
      → length stack ≤ max_stack_size
      → Fits n (op_check_sig c tx input_idx pk_script rest stack)
  unfolding op_check_sig
  op_check_sig-Fits n rest [] h k = λ e. cc
  op_check_sig-Fits n rest (p ∷ []) h k = λ e. cc
  op_check_sig-Fits n rest (p ∷ [] ∷ stack) h k = (h, omega arith)
  op_check_sig-Fits n rest (p ∷ (x ∷ sig) ∷ stack) h k =
      after_check-Fits n _ _ (check_signature-ne-out_of_fuel (x ∷ sig) p)
        (checked-Fits n rest ((1 ∷ []) ∷ stack) h)

  op_hash160-Fits :
      (n : ℕ) (rest : Bytes) (stack : Stack) → length rest ≤ n → Fits n (op_hash160 c rest stack)
  unfolding op_hash160
  op_hash160-Fits n rest [] h = λ e. cc
  op_hash160-Fits n rest (top ∷ stack) h = checked-Fits n rest (hash160 c top ∷ stack) h

  step-Fits :
      (op : ℕ) (rest : Bytes) (stack : Stack)
      → length stack ≤ max_stack_size
      → Fits (length rest) (step c tx input_idx pk_script op rest stack)
  unfolding step
  step-Fits op rest stack h =
      let n = length rest in
      let le : n ≤ n = omega arith in
      branch n (op == 0x00) _ _ (checked-Fits n rest ([] ∷ stack) le) (
        branch n (leb 0x01 op && leb op 0x4b) _ _ (push_bytes-Fits n op rest stack le) (
          branch n (op == 0x4c) _ _ (push_data1-Fits n rest stack le) (
            branch n (op == 0x4d) _ _ (push_data2-Fits n rest stack le) (
              branch n (op == 0x51) _ _ (checked-Fits n rest ((1 ∷ []) ∷ stack) le) (
                branch n (op == 0x76) _ _ (op_dup-Fits n rest stack le) (
                  branch n (op == 0xa9) _ _ (op_hash160-Fits n rest stack le) (
                    branch n (op == 0x87) _ _ (op_equal-Fits n rest stack le) (
                      branch n (op == 0x88) _ _ (op_equal_verify-Fits n rest stack le) (
                        branch n (op == 0xac) _ _ (op_check_sig-Fits n rest stack le h)
                          (branch n (op == 0x6a) _ _ (λ e. cc) (λ e. cc)))))))))))

  run-Ends :
      (fuel : ℕ) (script : Bytes) (num_ops : ℕ) (stack : Stack)
      → length script ≤ fuel
      → length stack ≤ max_stack_size
      → Ends (run c tx input_idx pk_script fuel script num_ops stack)
  unfolding run
  run-Ends fuel [] num_ops stack h k = k
  run-Ends zero (op ∷ rest) num_ops stack h k = absurd (omega arith)
  run-Ends (suc fuel) (op ∷ rest) num_ops stack h k =
      test-Ends (ltb 0x4d op && ltb max_ops_per_script (count_op op num_ops)) _ _ (λ e. cc)
        (bind-Ends (length rest) (step c tx input_idx pk_script op rest stack) _
          (step-Fits op rest stack k)
          λ rest' stack' shorter small.
            run-Ends fuel rest' (count_op op num_ops) stack' (omega arith) small)

  -- Whatever the script, the engine ends with a stack of at most 1000 items or with an error of the
  -- source, if it starts with at most 1000 items.
  pub execute-Ends :
      (script : Bytes) (stack : Stack)
      → length stack ≤ max_stack_size
      → Ends (execute c tx input_idx pk_script script stack)
  unfolding execute
  execute-Ends script stack h =
      test-Ends (ltb max_script_size (length script)) _ _ (λ e. cc)
        (run-Ends (length script) script 0 stack (omega arith) h)
