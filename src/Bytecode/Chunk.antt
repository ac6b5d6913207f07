-- ===== src/Bytecode/Chunk.antt =====
-- src/chunk.rs: a chunk of instructions with its tables, and the builder's methods. The constants
-- are values of a type that the builder does not look into.
pub mod Builder
use tsumugi.Base.{
  ℕ, zero, suc, ◌-◌, List, [], ◌∷◌, ◌++◌, Option, none, some, Result, ok, err, length, codes,
}
use tsumugi.Audit.Payload.{Text}
use tsumugi.Bytecode.OpCode.{
  CaptureDesc, OpCode, jump, jump_if_false, jump_if_false_keep, jump_if_true_keep,
  jump_if_global_defined, load_const,
}

mutual
  pub data Chunk (V : Type 0) : Type 0 where
    chunk :
        (name : Text) (code : List OpCode) (constants : List V) (lines : List ℕ)
        (prototypes : Prototypes V) (max_locals : ℕ)
        → Chunk V

  -- `Vec<FunctionPrototype>`
  pub data Prototypes (V : Type 0) : Type 0 where
    nil : Prototypes V
    cons : FunctionPrototype V → Prototypes V → Prototypes V

  pub data FunctionPrototype (V : Type 0) : Type 0 where
    prototype :
        (name : Text) (arity : ℕ) (params : List Text) (body : Chunk V)
        (captures : List CaptureDesc)
        → FunctionPrototype V

pub data ChunkBuildError : Type 0 where
  bad_offset not_a_jump : ChunkBuildError

module _ {V : Type 0} where
  abbrev pub code : Chunk V → List OpCode
  code (chunk n c k l p m) = c

  abbrev pub constants : Chunk V → List V
  constants (chunk n c k l p m) = k

  abbrev pub lines : Chunk V → List ℕ
  lines (chunk n c k l p m) = l

  abbrev pub prototypes : Chunk V → Prototypes V
  prototypes (chunk n c k l p m) = p

  abbrev pub max_locals : Chunk V → ℕ
  max_locals (chunk n c k l p m) = m

  abbrev pub count : Prototypes V → ℕ
  count nil = 0
  count (cons p ps) = suc (count ps)

  abbrev pub push_prototype : Prototypes V → FunctionPrototype V → Prototypes V
  push_prototype nil p = cons p nil
  push_prototype (cons q qs) p = cons q (push_prototype qs p)

  -- `Chunk::new()`
  abbrev pub new_chunk : Chunk V
  new_chunk = chunk (codes "<main>") [] [] [] nil 0

  unfoldable pub add_prototype : FunctionPrototype V → Chunk V → ℕ × Chunk V
  add_prototype p (chunk n c k l ps m) =
      (count (push_prototype ps p) - 1, chunk n c k l (push_prototype ps p) m)

  unfoldable pub emit : OpCode → ℕ → Chunk V → Chunk V
  emit op line (chunk n c k l ps m) = chunk n (c ++ op ∷ []) k (l ++ line ∷ []) ps m

  unfoldable pub add_constant : V → Chunk V → ℕ × Chunk V
  add_constant v (chunk n c k l ps m) = (length (k ++ v ∷ []) - 1, chunk n c (k ++ v ∷ []) l ps m)

  unfoldable pub emit_constant : V → ℕ → Chunk V → Chunk V
  unfolding add_constant emit
  emit_constant v line c = let (idx, c') = add_constant v c in emit (load_const idx) line c'

  unfoldable pub emit_jump : OpCode → ℕ → Chunk V → ℕ × Chunk V
  unfolding emit
  emit_jump op line c = (length (code c), emit op line c)

-- The jump with its new target; nothing for any other instruction.
unfoldable pub retarget : ℕ → OpCode → Option OpCode
retarget target (jump a) = some (jump target)
retarget target (jump_if_false a) = some (jump_if_false target)
retarget target (jump_if_false_keep a) = some (jump_if_false_keep target)
retarget target (jump_if_true_keep a) = some (jump_if_true_keep target)
retarget target (jump_if_global_defined name a) = some (jump_if_global_defined name target)
retarget target _ = none

-- `get_mut` and the write through it.
unfoldable pub retarget_at : ℕ → ℕ → List OpCode → Result (List OpCode) ChunkBuildError
retarget_at target offset [] = err bad_offset
retarget_at target zero (op ∷ ops) = elim (retarget target op) [
  | none ↦ err not_a_jump
  | some op' ↦ ok (op' ∷ ops)
]
retarget_at target (suc offset) (op ∷ ops) = elim (retarget_at target offset ops) [
  | err e ↦ err e
  | ok ops' ↦ ok (op ∷ ops')
]

unfoldable pub patch_jump : {V : Type 0} → ℕ → Chunk V → Result (Unit {0}) ChunkBuildError × Chunk V
unfolding retarget_at
patch_jump offset (chunk n c k l ps m) = elim (retarget_at (length c) offset c) [
  | err e ↦ (err e, chunk n c k l ps m)
  | ok c' ↦ (ok tt, chunk n c' k l ps m)
]
