-- ===== src/Scenarios/Machines.antt =====
-- A chunk of src/chunk.rs with one closure, and one with a patched jump.
use tsumugi.Base.{ℕ, ◌≡◌, ◌↔◌, refl, true, some, [], ◌∷◌, ok, arith, codes}
use tsumugi.Registry.{BuiltinId, id_of, name_of, is_registered}
use tsumugi.Registry.Laws.{id_of_iff}
use tsumugi.Bytecode.OpCode.{CaptureDesc, OpCode}
use tsumugi.Bytecode.Chunk.{Chunk, chunk, nil, cons, prototype, emit, emit_constant, patch_jump}
use tsumugi.Bytecode.Verifier.{verify_chunk, check_ops, check_op, check_captures, check_capture}
use tsumugi.Bytecode.Verifier.WellFormed.{IsWellFormed, verify_chunk_iff}
use tsumugi.Bytecode.Verifier.Built.{
  Built, open_chunk, opened, emitted, with_literal, patched, Built-verify,
}

id_of_iff_example :
    ((id_of (codes "len") ≡ some BuiltinId.len) ↔ (name_of BuiltinId.len ≡ codes "len"))
    × (is_registered BuiltinId.len ≡ true)
id_of_iff_example = id_of_iff (codes "len") BuiltinId.len

abbrev closure_body : Chunk ℕ
closure_body =
    chunk (codes "f") (OpCode.get_upvalue 0 ∷ OpCode.return_value ∷ []) [] (2 ∷ 2 ∷ []) nil 0

abbrev closure_chunk : Chunk ℕ
closure_chunk =
    chunk (codes "<main>") (OpCode.load_const 0 ∷ OpCode.set_local 0 ∷ OpCode.make_closure 0 ∷ [])
      (7 ∷ []) (1 ∷ 1 ∷ 2 ∷ [])
      (cons (prototype (codes "f") 0 [] closure_body (CaptureDesc.local 0 ∷ [])) nil) 1

verify_chunk_iff_example : (verify_chunk closure_chunk 0 ≡ ok tt) ↔ IsWellFormed 0 closure_chunk
verify_chunk_iff_example = verify_chunk_iff closure_chunk 0

verify-closure_chunk : verify_chunk closure_chunk 0 ≡ ok tt
unfolding verify_chunk check_ops check_op check_captures check_capture
verify-closure_chunk = refl

abbrev before_patch : Chunk ℕ
before_patch =
    emit OpCode.pop 3 (emit (OpCode.jump_if_false 0) 2 (emit_constant 7 1 (open_chunk 1)))

Built-before_patch : Built ℕ 0 1 before_patch
Built-before_patch =
    emitted OpCode.pop 3
      (emitted (OpCode.jump_if_false 0) 2 (with_literal 7 1 opened) (omega arith)) tt

Built-verify_example : verify_chunk (patch_jump 1 before_patch).1 0 ≡ ok tt
Built-verify_example = Built-verify 0 1 (patch_jump 1 before_patch).1 (patched 1 Built-before_patch)
