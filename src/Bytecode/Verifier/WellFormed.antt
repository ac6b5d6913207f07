-- ===== src/Bytecode/Verifier/WellFormed.antt =====
-- src/verifier.rs: what a well-formed tree of chunks is, and that the checks decide it.
use tsumugi.Base.{
  not, ◌==◌, if◌then◌else◌, ℕ, ◌≤◌, ◌<◌, ◌≡◌, ◌↔◌, refl, List, [], ◌∷◌, arith, All, ok, err, length,
}
use tsumugi.Registry.Laws.{id_of_iff}
use tsumugi.Bytecode.OpCode.{CaptureDesc, MutationTarget, OpCode}
use tsumugi.Bytecode.Chunk.{Chunk, Prototypes, FunctionPrototype, chunk, nil, cons, prototype}
use tsumugi.Bytecode.Verifier.{
  bad_line_table, Bounds, Check, ◌>>◌, bounds, check_op, check_ops, check_target, check_capture,
  check_captures, verify_chunk, verify_prototypes, verify_prototype,
}

-- The table that an instruction points into, with the index.
pub data Operand : Type 0 where
  constant local_slot upvalue target proto : ℕ → Operand
  nothing : Operand

abbrev pub binding : MutationTarget → Operand
binding (MutationTarget.local s) = local_slot s
binding (MutationTarget.upvalue i) = upvalue i
binding (MutationTarget.global name) = nothing

abbrev pub operand : OpCode → Operand
operand (OpCode.load_const i) = constant i
operand (OpCode.load_const_raw i) = constant i
operand (OpCode.get_local s) = local_slot s
operand (OpCode.set_local s) = local_slot s
operand (OpCode.len_local s) = local_slot s
operand (OpCode.index_local s) = local_slot s
operand (OpCode.register_global name s) = local_slot s
operand (OpCode.get_upvalue i) = upvalue i
operand (OpCode.set_upvalue i) = upvalue i
operand (OpCode.set_index t) = binding t
operand (OpCode.list_push_binding t) = binding t
operand (OpCode.jump t) = target t
operand (OpCode.jump_if_false t) = target t
operand (OpCode.jump_if_false_keep t) = target t
operand (OpCode.jump_if_true_keep t) = target t
operand (OpCode.jump_if_global_defined name t) = target t
operand (OpCode.loop t) = target t
operand (OpCode.setup_try t) = target t
operand (OpCode.make_closure p) = proto p
operand _ = nothing

-- A target may also be the end of the code.
abbrev pub IsInside : Bounds → Operand → Type 0
IsInside b (constant i) = i < b.constant_count
IsInside b (local_slot i) = i < b.local_count
IsInside b (upvalue i) = i < b.upvalue_count
IsInside b (target i) = i ≤ b.code_len
IsInside b (proto i) = i < b.prototype_count
IsInside b nothing = Unit {0}

abbrev pub captured : CaptureDesc → Operand
captured (CaptureDesc.local s) = local_slot s
captured (CaptureDesc.upvalue i) = upvalue i

-- Every instruction has its line and points inside its tables; so do the captures of the
-- prototypes, in the tables of the parent; and so on in their bodies, whose upvalues are the captures.
unfoldable mutual
  pub IsWellFormed : {V : Type 0} → ℕ → Chunk V → Type 0
  IsWellFormed u (chunk n c k l ps m) =
      (length l ≡ length c)
      × All (λ op. IsInside (bounds (chunk n c k l ps m) u) (operand op)) c
      × AreWellFormed (bounds (chunk n c k l ps m) u) ps

  pub AreWellFormed : {V : Type 0} → Bounds → Prototypes V → Type 0
  AreWellFormed b nil = Unit {0}
  AreWellFormed b (cons p ps) = IsWellFormedPrototype b p × AreWellFormed b ps

  pub IsWellFormedPrototype : {V : Type 0} → Bounds → FunctionPrototype V → Type 0
  IsWellFormedPrototype b (prototype n a xs body captures) =
      All (λ c. IsInside b (captured c)) captures × IsWellFormed (length captures) body

then_iff : (a k : Check) → (a >> k ≡ ok tt) ↔ ((a ≡ ok tt) × (k ≡ ok tt))
then_iff (ok t) k = (λ h. (refl, h), λ h. h.1)
then_iff (err e) k = (λ h. cc, λ h. cc)

-- The check of the builtin never fails, since every id is registered.
pub check_op_iff : (b : Bounds) (op : OpCode) → (check_op b op ≡ ok tt) ↔ IsInside b (operand op)
unfolding check_op check_target
check_op_iff b (OpCode.call_builtin id n) = ground (arith, (id_of_iff [] id).1)
check_op_iff b (OpCode.set_index (MutationTarget.local s)) = ground arith
check_op_iff b (OpCode.list_push_binding (MutationTarget.local s)) = ground arith
check_op_iff b (OpCode.set_index (MutationTarget.upvalue s)) = ground arith
check_op_iff b (OpCode.list_push_binding (MutationTarget.upvalue s)) = ground arith
check_op_iff b (OpCode.set_index (MutationTarget.global s)) = ground arith
check_op_iff b (OpCode.list_push_binding (MutationTarget.global s)) = ground arith
check_op_iff b _ = ground arith

check_ops_iff :
    (b : Bounds) (ops : List OpCode)
    → (check_ops b ops ≡ ok tt) ↔ All (λ op. IsInside b (operand op)) ops
unfolding check_ops
check_ops_iff b [] = (λ h. tt, λ h. refl)
check_ops_iff b (op ∷ ops) =
    let both = then_iff (check_op b op) (check_ops b ops) in
    (
      λ h. ((check_op_iff b op).0 (both.0 h).0, (check_ops_iff b ops).0 (both.0 h).1),
      λ h. both.1 ((check_op_iff b op).1 h.0, (check_ops_iff b ops).1 h.1),
    )

check_captures_iff :
    (b : Bounds) (cs : List CaptureDesc)
    → (check_captures b cs ≡ ok tt) ↔ All (λ c. IsInside b (captured c)) cs
unfolding check_captures check_capture
check_captures_iff b [] = (λ h. tt, λ h. refl)
check_captures_iff b (CaptureDesc.local s ∷ cs) = ground (arith, check_captures_iff b cs)
check_captures_iff b (CaptureDesc.upvalue s ∷ cs) = ground (arith, check_captures_iff b cs)

lines_iff :
    (m n : ℕ) (k : Check)
    → ((if not (m == n) then err bad_line_table else ok tt) >> k ≡ ok tt) ↔ ((m ≡ n) × (k ≡ ok tt))
lines_iff m n k = ground arith

mutual
  unfolding verify_chunk IsWellFormed

  chunk_iff : {V : Type 0} (c : Chunk V) (u : ℕ) → (verify_chunk c u ≡ ok tt) ↔ IsWellFormed u c
  chunk_iff (chunk n c k l ps m) u =
      let b = bounds (chunk n c k l ps m) u in
      let first =
        (if not (length l == length c) then err bad_line_table else ok tt) >> check_ops b c in
      let both = then_iff first (verify_prototypes ps b) in
      let head = lines_iff (length l) (length c) (check_ops b c) in
      (
        λ h.
            let (x, y) = both.0 h in
            let (e, o) = head.0 x in (e, (check_ops_iff b c).0 o, (prototypes_iff ps b).0 y),
        λ h. both.1 (head.1 (h.0, (check_ops_iff b c).1 h.1), (prototypes_iff ps b).1 h.2),
      )

  prototypes_iff :
      {V : Type 0} (ps : Prototypes V) (b : Bounds)
      → (verify_prototypes ps b ≡ ok tt) ↔ AreWellFormed b ps
  prototypes_iff nil b = (λ h. tt, λ h. refl)
  prototypes_iff (cons p ps) b =
      let both = then_iff (verify_prototype p b) (verify_prototypes ps b) in
      (
        λ h. ((prototype_iff p b).0 (both.0 h).0, (prototypes_iff ps b).0 (both.0 h).1),
        λ h. both.1 ((prototype_iff p b).1 h.0, (prototypes_iff ps b).1 h.1),
      )

  prototype_iff :
      {V : Type 0} (p : FunctionPrototype V) (b : Bounds)
      → (verify_prototype p b ≡ ok tt) ↔ IsWellFormedPrototype b p
  prototype_iff (prototype n a xs body captures) b =
      let both = then_iff (check_captures b captures) (verify_chunk body (length captures)) in
      (
        λ h. (
          (check_captures_iff b captures).0 (both.0 h).0,
          (chunk_iff body (length captures)).0 (both.0 h).1,
        ),
        λ h.
            both.1
              ((check_captures_iff b captures).1 h.0, (chunk_iff body (length captures)).1 h.1),
      )

-- The verifier accepts a chunk, with the number of its upvalues, exactly if the whole tree of
-- chunks is well formed: every instruction has a line and points inside its tables, the captures
-- of each prototype point inside the tables of its parent, and the bodies are well formed with as
-- many upvalues as captures.
pub verify_chunk_iff :
    {V : Type 0} (c : Chunk V) (u : ℕ) → (verify_chunk c u ≡ ok tt) ↔ IsWellFormed u c
verify_chunk_iff c u = chunk_iff c u
