-- ===== src/Bytecode/OpCode.antt =====
-- src/opcode.rs: the instructions of the stack machine.
use tsumugi.Base.{ℕ, Bool}
use tsumugi.Audit.Payload.{Text}
use tsumugi.Registry.{BuiltinId}

pub data MutationTarget : Type 0 where
  local upvalue : ℕ → MutationTarget
  global : Text → MutationTarget

pub data CaptureDesc : Type 0 where
  local upvalue : ℕ → CaptureDesc

pub data OpCode : Type 0 where
  load_const load_const_raw : ℕ → OpCode
  add sub mul div rem : OpCode  -- `rem` is `Mod`
  eq not_eq lt gt lt_eq gt_eq : OpCode
  not_op negate : OpCode
  get_local set_local : ℕ → OpCode
  get_global get_global_for_call set_global : Text → OpCode
  register_global : Text → ℕ → OpCode
  jump_if_global_defined : Text → ℕ → OpCode
  require_global : Text → OpCode
  jump jump_if_false jump_if_false_keep jump_if_true_keep loop : ℕ → OpCode
  prepare_call : OpCode
  validate_call call : ℕ → OpCode
  return_value : OpCode
  get_upvalue set_upvalue make_closure : ℕ → OpCode
  validate_builtin_call : Text → ℕ → Bool → OpCode
  print : ℕ → OpCode
  pop : OpCode
  pop_n : ℕ → OpCode
  len_local : ℕ → OpCode
  index : OpCode
  index_local : ℕ → OpCode
  list_push dict_insert : OpCode
  set_index : MutationTarget → OpCode
  to_iter_list : OpCode
  call_builtin : BuiltinId → ℕ → OpCode
  pop_update : OpCode
  list_push_binding : MutationTarget → OpCode
  return_op : OpCode
  setup_try : ℕ → OpCode
  teardown_try : OpCode
  fstr_concat : ℕ → OpCode
