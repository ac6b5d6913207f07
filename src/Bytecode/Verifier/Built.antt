-- ===== src/Bytecode/Verifier/Built.antt =====
-- src/chunk.rs and src/verifier.rs together: the chunks that the builder makes.
use tsumugi.Base.{
  ℕ, zero, suc, ◌-◌, ◌≤◌, ◌≡◌, refl, subst, List, [], ◌∷◌, ◌++◌, some, arith, ok, length,
  length-append, Option-cases, Result-cases, inl, inr, codes,
}
use tsumugi.Bytecode.OpCode.{OpCode}
use tsumugi.Bytecode.Chunk.{
  Chunk, FunctionPrototype, chunk, nil, push_prototype, add_prototype, emit, add_constant,
  emit_constant, patch_jump, retarget, retarget_at,
}
use tsumugi.Bytecode.Chunk.Builder.{length-retarget_at, count-push_prototype}
use tsumugi.Bytecode.Verifier.{Bounds, bounds, verify_chunk}
use tsumugi.Bytecode.Verifier.WellFormed.{
  IsInside, operand, IsWellFormed, IsWellFormedPrototype, verify_chunk_iff,
}
use tsumugi.Bytecode.Verifier.Wider.{
  IsWider, AllInside, IsInside-wider, AllInside-wider, AllInside-append, AreWellFormed-wider,
  AreWellFormed-push,
}

-- `Chunk::new()` with the number of locals that the compiler found.
abbrev pub open_chunk : {V : Type 0} → ℕ → Chunk V
open_chunk m = chunk (codes "<main>") [] [] [] nil m

-- What the builder makes when each instruction points into the tables as they are when it is
-- emitted. A jump is emitted with a provisional target and patched later, or never.
pub data Built (V : Type 0) (u m : ℕ) : Chunk V → Type 0 where
  opened : Built V u m (open_chunk m)
  emitted :
      {c : Chunk V} (op : OpCode) (line : ℕ)
      → Built V u m c
      → IsInside (bounds c u) (operand op)
      → Built V u m (emit op line c)
  with_constant : {c : Chunk V} (v : V) → Built V u m c → Built V u m (add_constant v c).1
  with_literal :
      {c : Chunk V} (v : V) (line : ℕ) → Built V u m c → Built V u m (emit_constant v line c)
  patched : {c : Chunk V} (offset : ℕ) → Built V u m c → Built V u m (patch_jump offset c).1
  with_prototype :
      {c : Chunk V} (p : FunctionPrototype V)
      → Built V u m c
      → IsWellFormedPrototype (bounds c u) p
      → Built V u m (add_prototype p c).1

retarget-IsInside :
    (b : Bounds) (target : ℕ) (op op' : OpCode)
    → target ≤ b.code_len
    → retarget target op ≡ some op'
    → IsInside b (operand op')
unfolding retarget
retarget-IsInside b target (OpCode.jump a) op' h e = ground (arith, e)
retarget-IsInside b target _ op' h e = ground (arith, e)

retarget_at-AllInside :
    (b : Bounds) (target offset : ℕ) (ops ops' : List OpCode)
    → target ≤ b.code_len
    → AllInside b ops
    → retarget_at target offset ops ≡ ok ops'
    → AllInside b ops'
unfolding retarget_at
retarget_at-AllInside b target offset [] ops' h a e = cc
retarget_at-AllInside b target zero (op ∷ ops) ops' h a e =
    elim (Option-cases (retarget target op)) [
      | inl n ↦ absurd (ground (arith, e, n))
      | inr (op', n) ↦
          let same : op' ∷ ops ≡ ops' = ground (arith, e, n) in
          subst (AllInside b) same (retarget-IsInside b target op op' h n, a.1)
    ]
retarget_at-AllInside b target (suc offset) (op ∷ ops) ops' h a e =
    elim (Result-cases (retarget_at target offset ops)) [
      | inl (rest, n) ↦
          let same : op ∷ rest ≡ ops' = ground (arith, e, n) in
          subst (AllInside b) same (a.0, retarget_at-AllInside b target offset ops rest h a.1 n)
      | inr (f, n) ↦ absurd (ground (arith, e, n))
    ]

module _ {V : Type 0} (u : ℕ) where
  emit-IsWellFormed :
      (op : OpCode) (line : ℕ) (c : Chunk V)
      → IsWellFormed u c
      → IsInside (bounds c u) (operand op)
      → IsWellFormed u (emit op line c)
  unfolding emit IsWellFormed
  emit-IsWellFormed op line (chunk n c k l ps m) (e, a, w) h =
      let wide : IsWider (bounds (chunk n c k l ps m) u)
          (bounds (emit op line (chunk n c k l ps m)) u) =
        record {
          code = omega (arith, length-append c (op ∷ []));
          constants = omega arith;
          protos = omega arith;
          locals = omega arith;
          upvalues = omega arith;
        } in
      (
        omega (arith, length-append c (op ∷ []), length-append l (line ∷ []), e),
        AllInside-append _ c op (AllInside-wider _ _ c wide a)
            (IsInside-wider _ _ (operand op) wide h),
        AreWellFormed-wider _ _ ps wide w,
      )

  add_constant-IsWellFormed :
      (v : V) (c : Chunk V) → IsWellFormed u c → IsWellFormed u (add_constant v c).1
  unfolding add_constant IsWellFormed
  add_constant-IsWellFormed v (chunk n c k l ps m) (e, a, w) =
      let wide : IsWider (bounds (chunk n c k l ps m) u)
          (bounds (chunk n c (k ++ v ∷ []) l ps m) u) =
        record {
          code = omega arith;
          constants = omega (arith, length-append k (v ∷ []));
          protos = omega arith;
          locals = omega arith;
          upvalues = omega arith;
        } in
      (e, AllInside-wider _ _ c wide a, AreWellFormed-wider _ _ ps wide w)

  emit_constant-IsWellFormed :
      (v : V) (line : ℕ) (c : Chunk V) → IsWellFormed u c → IsWellFormed u (emit_constant v line c)
  unfolding emit_constant add_constant
  emit_constant-IsWellFormed v line (chunk n c k l ps m) w =
      emit-IsWellFormed (OpCode.load_const (length (k ++ v ∷ []) - 1)) line
        (chunk n c (k ++ v ∷ []) l ps m) (add_constant-IsWellFormed v (chunk n c k l ps m) w)
        (omega (arith, length-append k (v ∷ [])))

  patch_jump-IsWellFormed :
      (offset : ℕ) (c : Chunk V) → IsWellFormed u c → IsWellFormed u (patch_jump offset c).1
  unfolding patch_jump IsWellFormed
  patch_jump-IsWellFormed offset (chunk n c k l ps m) (e, a, w) =
      elim (Result-cases (retarget_at (length c) offset c)) [
        | inl (c', r) ↦
            let same = length-retarget_at (length c) offset c c' r in
            let b = bounds (chunk n c k l ps m) u in
            let here = retarget_at-AllInside b (length c) offset c c' (omega arith) a r in
            let wide : IsWider b (bounds (chunk n c' k l ps m) u) = record {
              code = omega (arith, same);
              constants = omega arith;
              protos = omega arith;
              locals = omega arith;
              upvalues = omega arith;
            } in
            rw (r, patch_jump)
              (
                omega (arith, e, same),
                AllInside-wider _ _ c' wide here,
                AreWellFormed-wider _ _ ps wide w,
              )
        | inr (f, r) ↦ rw (r, patch_jump) (e, a, w)
      ]

  add_prototype-IsWellFormed :
      (p : FunctionPrototype V) (c : Chunk V)
      → IsWellFormed u c
      → IsWellFormedPrototype (bounds c u) p
      → IsWellFormed u (add_prototype p c).1
  unfolding add_prototype IsWellFormed
  add_prototype-IsWellFormed p (chunk n c k l ps m) (e, a, w) h =
      let wide : IsWider (bounds (chunk n c k l ps m) u)
          (bounds (chunk n c k l (push_prototype ps p) m) u) =
        record {
          code = omega arith;
          constants = omega arith;
          protos = omega (arith, count-push_prototype ps p);
          locals = omega arith;
          upvalues = omega arith;
        } in
      (
        e,
        AllInside-wider _ _ c wide a,
        AreWellFormed-wider _ _ (push_prototype ps p) wide (AreWellFormed-push _ ps p w h),
      )

  Built-IsWellFormed : (m : ℕ) (c : Chunk V) → Built V u m c → IsWellFormed u c
  unfolding IsWellFormed
  Built-IsWellFormed m _ opened = (refl, tt, tt)
  Built-IsWellFormed m _ (emitted {c} op line b h) =
      emit-IsWellFormed op line c (Built-IsWellFormed m c b) h
  Built-IsWellFormed m _ (with_constant {c} v b) =
      add_constant-IsWellFormed v c (Built-IsWellFormed m c b)
  Built-IsWellFormed m _ (with_literal {c} v line b) =
      emit_constant-IsWellFormed v line c (Built-IsWellFormed m c b)
  Built-IsWellFormed m _ (patched {c} offset b) =
      patch_jump-IsWellFormed offset c (Built-IsWellFormed m c b)
  Built-IsWellFormed m _ (with_prototype {c} p b h) =
      add_prototype-IsWellFormed p c (Built-IsWellFormed m c b) h

-- The verifier accepts every chunk that the builder's methods make from an empty one, if each
-- instruction points inside the tables as they are when it is emitted and each added prototype is
-- well formed for the chunk so far; a jump may be patched at any offset, with or without success.
pub Built-verify : {V : Type 0} (u m : ℕ) (c : Chunk V) → Built V u m c → verify_chunk c u ≡ ok tt
Built-verify u m c b = (verify_chunk_iff c u).1 (Built-IsWellFormed u m c b)
