-- ===== src/Bytecode/Verifier/Wider.antt =====
-- src/verifier.rs: what is inside some tables is inside larger ones.
use tsumugi.Base.{◌≤◌, List, [], ◌∷◌, ◌++◌, arith, All}
use tsumugi.Bytecode.OpCode.{OpCode, CaptureDesc}
use tsumugi.Bytecode.Chunk.{Prototypes, FunctionPrototype, nil, cons, prototype, push_prototype}
use tsumugi.Bytecode.Verifier.{Bounds}
use tsumugi.Bytecode.Verifier.WellFormed.{
  Operand, IsInside, operand, captured, IsWellFormed, AreWellFormed, IsWellFormedPrototype,
}

-- Larger tables.
pub record IsWider (b b' : Bounds) : Type 0 where
  pub code : b.code_len ≤ b'.code_len
  pub constants : b.constant_count ≤ b'.constant_count
  pub protos : b.prototype_count ≤ b'.prototype_count
  pub locals : b.local_count ≤ b'.local_count
  pub upvalues : b.upvalue_count ≤ b'.upvalue_count

pub IsInside-wider : (b b' : Bounds) (o : Operand) → IsWider b b' → IsInside b o → IsInside b' o
IsInside-wider b b' (Operand.constant i) w h = omega (arith, w.constants)
IsInside-wider b b' (Operand.local_slot i) w h = omega (arith, w.locals)
IsInside-wider b b' (Operand.upvalue i) w h = omega (arith, w.upvalues)
IsInside-wider b b' (Operand.target i) w h = omega (arith, w.code)
IsInside-wider b b' (Operand.proto i) w h = omega (arith, w.protos)
IsInside-wider b b' Operand.nothing w h = tt

abbrev pub AllInside : Bounds → List OpCode → Type 0
AllInside b = All λ op. IsInside b (operand op)

pub AllInside-wider :
    (b b' : Bounds) (ops : List OpCode) → IsWider b b' → AllInside b ops → AllInside b' ops
AllInside-wider b b' [] w a = tt
AllInside-wider b b' (op ∷ ops) w a =
    (IsInside-wider b b' (operand op) w a.0, AllInside-wider b b' ops w a.1)

pub AllInside-append :
    (b : Bounds) (ops : List OpCode) (op : OpCode)
    → AllInside b ops
    → IsInside b (operand op)
    → AllInside b (ops ++ op ∷ [])
AllInside-append b [] op a h = (h, tt)
AllInside-append b (x ∷ xs) op a h = (a.0, AllInside-append b xs op a.1 h)

pub captures-wider :
    (b b' : Bounds) (cs : List CaptureDesc)
    → IsWider b b'
    → All (λ c. IsInside b (captured c)) cs
    → All (λ c. IsInside b' (captured c)) cs
captures-wider b b' [] w a = tt
captures-wider b b' (c ∷ cs) w a =
    (IsInside-wider b b' (captured c) w a.0, captures-wider b b' cs w a.1)

pub AreWellFormed-wider :
    {V : Type 0} (b b' : Bounds) (ps : Prototypes V)
    → IsWider b b'
    → AreWellFormed b ps
    → AreWellFormed b' ps
unfolding IsWellFormed
AreWellFormed-wider b b' nil w a = tt
AreWellFormed-wider b b' (cons (prototype n k xs body cs) ps) w a =
    ((captures-wider b b' cs w a.0.0, a.0.1), AreWellFormed-wider b b' ps w a.1)

pub AreWellFormed-push :
    {V : Type 0} (b : Bounds) (ps : Prototypes V) (p : FunctionPrototype V)
    → AreWellFormed b ps
    → IsWellFormedPrototype b p
    → AreWellFormed b (push_prototype ps p)
unfolding IsWellFormed
AreWellFormed-push b nil p a h = (h, tt)
AreWellFormed-push b (cons q qs) p a h = (a.0, AreWellFormed-push b qs p a.1 h)
