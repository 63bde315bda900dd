-- ===== src/Script.antt =====
-- internal/script/script.go: the script engine. The stack is a list with its top in front, where
-- the source appends to a slice. A position in the script is the bytes from there on.
pub mod Limits
pub mod PayToHash
use go_chain.Prelude.{
  ℕ, zero, suc, ◌+◌, ◌-◌, ◌*◌, ◌≡◌, Bool, true, false, ◌&&◌, ◌||◌, not, List, [], ◌∷◌, ◌++◌, Option,
  some, none, leb, ltb, ◌==◌, if◌then◌else◌, length, take, drop, get_or, Result, ok, err, ◌>>=◌,
  ◌>>◌, fail_if,
}
use go_chain.KeyMap.{bytes_eq}
use go_chain.Types.Bytes.{Bytes}
use go_chain.Types.Transaction.{Transaction}
use go_chain.Crypto.Keys.{Primitives, hash160, is_p2pkh_script, sig_hash_all, compute_sig_hash}

pub data ScriptError : Type 0 where
  empty_pk_script unspendable script_too_large too_many_ops : ScriptError
  script_too_short element_too_large missing_length stack_underflow not_equal : ScriptError
  null_fail sighash_failed unsupported_opcode stack_overflow : ScriptError
  empty_stack evaluated_false unclean_stack : ScriptError
  -- No error of the source: the model's loop ran out of fuel.
  out_of_fuel : ScriptError

abbrev pub Stack : Type 0
Stack = List Bytes

abbrev pub max_stack_size : ℕ
max_stack_size = 1000

abbrev pub max_script_size : ℕ
max_script_size = 10000

abbrev pub max_ops_per_script : ℕ
max_ops_per_script = 201

abbrev pub max_stack_elem_size : ℕ
max_stack_elem_size = 520

-- What the loop goes on with: the script from the next opcode on, and the stack.
abbrev pub Next : Type 0
Next = Result ScriptError (Bytes × Stack)

-- The end of a round: `if e.stack.size() > maxStackSize`.
unfoldable pub checked : Bytes → Stack → Next
checked rest stack = do fail_if (ltb max_stack_size (length stack)) stack_overflow; ok (rest, stack)

-- Push the next `n` bytes of the script.
unfoldable pub push_bytes : ℕ → Bytes → Stack → Next
unfolding checked
push_bytes n rest stack = do
  fail_if (ltb (length rest) n) script_too_short
  fail_if (ltb max_stack_elem_size n) element_too_large
  checked (drop n rest) (take n rest ∷ stack)

unfoldable pub push_data1 : Bytes → Stack → Next
unfolding push_bytes
push_data1 [] stack = err missing_length
push_data1 (n ∷ rest) stack = push_bytes n rest stack

-- Both bytes are below 256, so the source's `|` of the low byte and the shifted high byte is a sum.
unfoldable pub push_data2 : Bytes → Stack → Next
unfolding push_bytes
push_data2 [] stack = err missing_length
push_data2 (lo ∷ []) stack = err missing_length
push_data2 (lo ∷ hi ∷ rest) stack = push_bytes (lo + 256 * hi) rest stack

unfoldable pub op_dup : Bytes → Stack → Next
unfolding checked
op_dup rest [] = err stack_underflow
op_dup rest (top ∷ stack) = checked rest (top ∷ top ∷ stack)

unfoldable pub op_hash160 : Primitives → Bytes → Stack → Next
unfolding checked
op_hash160 c rest [] = err stack_underflow
op_hash160 c rest (top ∷ stack) = checked rest (hash160 c top ∷ stack)

unfoldable pub op_equal : Bytes → Stack → Next
unfolding checked
op_equal rest [] = err stack_underflow
op_equal rest (b ∷ []) = err stack_underflow
op_equal rest (b ∷ a ∷ stack) = checked rest ((if bytes_eq a b then 1 ∷ [] else []) ∷ stack)

unfoldable pub op_equal_verify : Bytes → Stack → Next
unfolding checked
op_equal_verify rest [] = err stack_underflow
op_equal_verify rest (b ∷ []) = err stack_underflow
op_equal_verify rest (b ∷ a ∷ stack) = do fail_if (not (bytes_eq a b)) not_equal; checked rest stack

abbrev or_fail {ℓ} : {A : Type ℓ} → Option A → ScriptError → Result ScriptError A
or_fail none e = err e
or_fail (some a) e = ok a

-- The last byte of a non-empty signature, and the bytes before it.
unfoldable pub last_byte : Bytes → ℕ
last_byte sig = get_or sig (length sig - 1) 0

unfoldable pub all_but_last : Bytes → Bytes
all_but_last sig = take (length sig - 1) sig

-- OP_CHECKSIG on a non-empty signature: it verifies or the script fails (NULLFAIL).
unfoldable pub check_signature :
    Primitives → Transaction → ℕ → Bytes → Bytes → Bytes → Result ScriptError (Unit {0})
unfolding last_byte all_but_last
check_signature c tx input_idx pk_script sig pub_key = do
  fail_if (ltb (length sig) 2) null_fail
  fail_if (not (last_byte sig == sig_hash_all)) null_fail
  s ← or_fail (c.parse_der_signature (all_but_last sig)) null_fail
  p ← or_fail (c.parse_pub_key pub_key) null_fail
  sig_hash ← or_fail (compute_sig_hash c tx input_idx pk_script) sighash_failed
  fail_if (not (c.verify s sig_hash p)) null_fail

-- After an empty signature the source goes on without the test of the stack's size.
unfoldable pub op_check_sig : Primitives → Transaction → ℕ → Bytes → Bytes → Stack → Next
unfolding checked
op_check_sig c tx input_idx pk_script rest [] = err stack_underflow
op_check_sig c tx input_idx pk_script rest (pub_key ∷ []) = err stack_underflow
op_check_sig c tx input_idx pk_script rest (pub_key ∷ [] ∷ stack) = ok (rest, [] ∷ stack)
op_check_sig c tx input_idx pk_script rest (pub_key ∷ (x ∷ sig) ∷ stack) = do
  check_signature c tx input_idx pk_script (x ∷ sig) pub_key
  checked rest ((1 ∷ []) ∷ stack)

-- The switch over the opcode.
unfoldable pub step : Primitives → Transaction → ℕ → Bytes → ℕ → Bytes → Stack → Next
unfolding checked push_bytes push_data1 push_data2 op_dup op_hash160 op_equal op_equal_verify
    op_check_sig
step c tx input_idx pk_script op rest stack =
    if op == 0x00
    then checked rest ([] ∷ stack)
    else if leb 0x01 op && leb op 0x4b
    then push_bytes op rest stack
    else if op == 0x4c
    then push_data1 rest stack
    else if op == 0x4d
    then push_data2 rest stack
    else if op == 0x51
    then checked rest ((1 ∷ []) ∷ stack)
    else if op == 0x76
    then op_dup rest stack
    else if op == 0xa9
    then op_hash160 c rest stack
    else if op == 0x87
    then op_equal rest stack
    else if op == 0x88
    then op_equal_verify rest stack
    else if op == 0xac
    then op_check_sig c tx input_idx pk_script rest stack
    else if op == 0x6a
    then err unspendable
    else err unsupported_opcode

-- The opcodes above OP_PUSHDATA2 count.
unfoldable pub count_op : ℕ → ℕ → ℕ
count_op op num_ops = if ltb 0x4d op then num_ops + 1 else num_ops

-- `for pos < len(script)`
unfoldable pub run :
    Primitives → Transaction → ℕ → Bytes → ℕ → Bytes → ℕ → Stack → Result ScriptError Stack
unfolding count_op
run c tx input_idx pk_script fuel [] num_ops stack = ok stack
run c tx input_idx pk_script zero (op ∷ rest) num_ops stack = err out_of_fuel
run c tx input_idx pk_script (suc fuel) (op ∷ rest) num_ops stack = do
  fail_if (ltb 0x4d op && ltb max_ops_per_script (count_op op num_ops)) too_many_ops
  (rest', stack') ← step c tx input_idx pk_script op rest stack
  run c tx input_idx pk_script fuel rest' (count_op op num_ops) stack'

-- engine.execute: each round takes a byte at least.
unfoldable pub execute :
    Primitives → Transaction → ℕ → Bytes → Bytes → Stack → Result ScriptError Stack
execute c tx input_idx pk_script script stack = do
  fail_if (ltb max_script_size (length script)) script_too_large
  run c tx input_idx pk_script (length script) script 0 stack

-- isTrue
unfoldable pub is_true : Bytes → Bool
is_true [] = false
is_true (b ∷ bs) =
    let more = is_true bs in if b == 0 then more else not (length bs == 0 && b == 0x80)

-- The tests of the final stack.
unfoldable pub accepts : Stack → Result ScriptError (Unit {0})
unfolding is_true
accepts [] = err empty_stack
accepts (top ∷ stack) = do
  fail_if (not (is_true top)) evaluated_false
  fail_if (not (length stack == 0)) unclean_stack

-- Verify
unfoldable pub verify_script :
    Primitives → Bytes → Bytes → Transaction → ℕ → Result ScriptError (Unit {0})
unfolding accepts
verify_script c sig_script [] tx input_idx = err empty_pk_script
verify_script c sig_script (op ∷ pk) tx input_idx = do
  fail_if (op == 0x6a) unspendable
  stack ← execute c tx input_idx (op ∷ pk) sig_script []
  stack' ← execute c tx input_idx (op ∷ pk) (op ∷ pk) stack
  accepts stack'

-- IsStandardScript
unfoldable pub is_standard_script : Bytes → Bool
is_standard_script pk_script =
    is_p2pkh_script pk_script || (not (length pk_script == 0) && get_or pk_script 0 0 == 0x6a)

-- IsLegacyUnvalidatedScript
unfoldable pub is_legacy_unvalidated_script : Bytes → Bool
is_legacy_unvalidated_script pk_script = false
