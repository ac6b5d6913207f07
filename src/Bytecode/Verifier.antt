-- ===== src/Bytecode/Verifier.antt =====
-- src/verifier.rs: the checks V1 to V9 on a tree of chunks.
pub mod WellFormed
pub mod Wider
pub mod Built
use tsumugi.Base.{
  ℕ, Bool, true, not, List, [], ◌∷◌, Result, ok, err, length, leb, ◌==◌, if◌then◌else◌,
}
use tsumugi.Registry.{is_registered}
use tsumugi.Bytecode.OpCode.{CaptureDesc, MutationTarget, OpCode}
use tsumugi.Bytecode.Chunk.{
  Chunk, Prototypes, FunctionPrototype, chunk, nil, cons, prototype, count,
}

pub data ChunkVerifyError : Type 0 where
  bad_line_table bad_constant bad_local_slot bad_upvalue bad_capture : ChunkVerifyError
  bad_jump_target unknown_builtin bad_operand bad_try_structure : ChunkVerifyError

abbrev pub Check : Type 0
Check = Result (Unit {0}) ChunkVerifyError

-- `?` after a check.
infixl 5 ◌>>◌
abbrev pub ◌>>◌ : Check → Check → Check
ok t >> k = k
err e >> k = err e

-- `if index >= bound { return Err(e) }`
abbrev pub below : ℕ → ℕ → ChunkVerifyError → Check
below bound index e = if leb bound index then err e else ok tt

-- What the checks of one instruction read.
pub record Bounds : Type 0 where
  pub code_len : ℕ
  pub constant_count : ℕ
  pub prototype_count : ℕ
  pub local_count : ℕ
  pub upvalue_count : ℕ

-- `if !jump_target_ok(t) { return Err(BadJumpTarget) }`
abbrev pub check_jump : Bounds → ℕ → Check
check_jump b t = if leb t b.code_len then ok tt else err bad_jump_target

unfoldable pub check_target : Bounds → MutationTarget → Check
check_target b (MutationTarget.local s) = below b.local_count s bad_local_slot
check_target b (MutationTarget.upvalue i) = below b.upvalue_count i bad_upvalue
check_target b (MutationTarget.global name) = ok tt

unfoldable pub check_op : Bounds → OpCode → Check
unfolding check_target
check_op b (OpCode.load_const i) = below b.constant_count i bad_constant
check_op b (OpCode.load_const_raw i) = below b.constant_count i bad_constant
check_op b (OpCode.get_local s) = below b.local_count s bad_local_slot
check_op b (OpCode.set_local s) = below b.local_count s bad_local_slot
check_op b (OpCode.len_local s) = below b.local_count s bad_local_slot
check_op b (OpCode.index_local s) = below b.local_count s bad_local_slot
check_op b (OpCode.register_global name slot) = below b.local_count slot bad_local_slot
check_op b (OpCode.get_upvalue i) = below b.upvalue_count i bad_upvalue
check_op b (OpCode.set_upvalue i) = below b.upvalue_count i bad_upvalue
check_op b (OpCode.set_index t) = check_target b t
check_op b (OpCode.list_push_binding t) = check_target b t
check_op b (OpCode.jump t) = check_jump b t
check_op b (OpCode.jump_if_false t) = check_jump b t
check_op b (OpCode.jump_if_false_keep t) = check_jump b t
check_op b (OpCode.jump_if_true_keep t) = check_jump b t
check_op b (OpCode.loop t) = check_jump b t
check_op b (OpCode.jump_if_global_defined name t) = check_jump b t
check_op b (OpCode.setup_try t) = check_jump b t
check_op b (OpCode.call_builtin id n) =
    if not (is_registered id) then err unknown_builtin else ok tt
check_op b (OpCode.make_closure p) = below b.prototype_count p bad_capture
check_op b _ = ok tt

unfoldable pub check_ops : Bounds → List OpCode → Check
check_ops b [] = ok tt
check_ops b (op ∷ ops) = check_op b op >> check_ops b ops

unfoldable pub check_capture : Bounds → CaptureDesc → Check
check_capture b (CaptureDesc.local slot) = below b.local_count slot bad_capture
check_capture b (CaptureDesc.upvalue index) = below b.upvalue_count index bad_capture

unfoldable pub check_captures : Bounds → List CaptureDesc → Check
unfolding check_capture
check_captures b [] = ok tt
check_captures b (c ∷ cs) = check_capture b c >> check_captures b cs

-- `bounds chunk upvalue_count`
abbrev pub bounds : {V : Type 0} → Chunk V → ℕ → Bounds
bounds (chunk n c k l ps m) upvalue_count = record {
  code_len = length c;
  constant_count = length k;
  prototype_count = count ps;
  local_count = m;
  upvalue_count = upvalue_count;
}

unfoldable mutual
  pub verify_chunk : {V : Type 0} → Chunk V → ℕ → Check
  verify_chunk (chunk n c k l ps m) u =
      (if not (length l == length c) then err bad_line_table else ok tt)
      >> check_ops (bounds (chunk n c k l ps m) u) c
      >> verify_prototypes ps (bounds (chunk n c k l ps m) u)

  pub verify_prototypes : {V : Type 0} → Prototypes V → Bounds → Check
  verify_prototypes nil b = ok tt
  verify_prototypes (cons p ps) b = verify_prototype p b >> verify_prototypes ps b

  -- The captures against the parent, the body with as many upvalues as captures.
  pub verify_prototype : {V : Type 0} → FunctionPrototype V → Bounds → Check
  verify_prototype (prototype n a xs body captures) b =
      check_captures b captures >> verify_chunk body (length captures)

-- `VerifiedChunk` is a chunk that came through here.
pub record VerifiedChunk (V : Type 0) : Type 0 where
  pub inner : Chunk V

unfoldable pub verify : {V : Type 0} → Chunk V → Result (VerifiedChunk V) ChunkVerifyError
verify c = elim (verify_chunk c 0) [ err e ↦ err e | ok t ↦ ok (record { inner = c }) ]
