-- ===== src/Bytecode/Chunk/Builder.antt =====
-- src/chunk.rs: the lengths of the tables under the builder's methods.
use tsumugi.Base.{
  ℕ, zero, suc, ◌≡◌, refl, ap, List, [], ◌∷◌, arith, ok, length, Option-cases, Result-cases, inl,
  inr,
}
use tsumugi.Bytecode.OpCode.{OpCode}
use tsumugi.Bytecode.Chunk.{
  Prototypes, FunctionPrototype, nil, cons, count, push_prototype, retarget, retarget_at,
}

pub length-retarget_at :
    (target offset : ℕ) (ops ops' : List OpCode)
    → retarget_at target offset ops ≡ ok ops'
    → length ops' ≡ length ops
unfolding retarget_at
length-retarget_at target offset [] ops' e = cc
length-retarget_at target zero (op ∷ ops) ops' e = elim (Option-cases (retarget target op)) [
  | inl n ↦ ground (arith, e, n)
  | inr (o, n) ↦ ground (arith, e, n)
]
length-retarget_at target (suc offset) (op ∷ ops) ops' e =
    elim (Result-cases (retarget_at target offset ops)) [
      | inl (rest, n) ↦ ground (arith, e, n, length-retarget_at target offset ops rest n)
      | inr (f, n) ↦ ground (arith, e, n)
    ]

pub count-push_prototype :
    {V : Type 0} (ps : Prototypes V) (p : FunctionPrototype V)
    → count (push_prototype ps p) ≡ suc (count ps)
count-push_prototype nil p = refl
count-push_prototype (cons q qs) p = ap suc (count-push_prototype qs p)
