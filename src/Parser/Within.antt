-- ===== src/Parser/Within.antt =====
-- src/parser.rs: chains of parsing steps keep their promises, each loop for the turns that it has.
use tsumugi.Base.{ℕ, suc, ◌≤◌, ◌<◌, Bool, true, false, List, arith, inl, inr, Bool-cases}
use tsumugi.Lexer.Token.{Tokens}
use tsumugi.Ast.{Expr, Stmt}
use tsumugi.Ast.Depth.Height.{height_stmt}
use tsumugi.Ast.Depth.Laws.{expr_depth_exceeds_limit-cases, stmt_depth_exceeds_limit-cases}
use tsumugi.Parser.Outcome.{ParseMessage, ParseError, Input, Parser, input, pure, ◌>>=◌}
use tsumugi.Parser.Reader.{
  rest, left, with_fuel, fail, here, advance_spanned, check_expr_depth, check_stmt_depth,
}
use tsumugi.Parser.Ensures.{
  Ensures, holds, rejected, Any, Keeps, Eats, Bites, Ensures-mono, Ensures-bind, Eats-Keeps,
}

module _ {F : Type 0} where
  -- What `Keeps` says, on inputs of fewer than `n` tokens.
  abbrev pub Within : {A : Type 0} → ℕ → (A → Type 0) → Parser F A → Type 0
  Within n P p =
      (i : Input F) (m : ℕ) (u : Tokens F) → left (rest i) < m → m ≤ n → Ensures P m m u (p i)

  module _ {A : Type 0} {P : A → Type 0} {n : ℕ} where
    pub Keeps-Within : {p : Parser F A} → Keeps P p → Within n P p
    Keeps-Within k i m u h b = k i m u h

    pub Eats-Within : {p : Parser F A} → Eats P p → Within n P p
    Eats-Within e = Keeps-Within (Eats-Keeps e)

    pub Within-pure : (a : A) → P a → Within n P (pure a)
    Within-pure a p i m u h b = holds i p h

    pub Within-fail : (l : ℕ) (e : ParseMessage F) → Within n P (fail {A = A} l e)
    Within-fail l e i m u h b = rejected i (inl h)

    pub Within-bind :
        {B : Type 0} {Q : B → Type 0} {p : Parser F A} {f : A → Parser F B}
        → Within n P p
        → ((a : A) → P a → Within n Q (f a))
        → Within n Q (p >>= f)
    Within-bind w v i m u h b = Ensures-bind (w i m u h b) λ a j p c. v a p j m u c b

    pub Within-test :
        (b : Input F → Bool) {p q : Parser F A}
        → Within n P p
        → Within n P q
        → Within n P (λ j. elim (b j) [ false ↦ q j | true ↦ p j ])
    Within-test b v w i m u h c = elim (Bool-cases (b i)) [
      | inl e ↦ rw e (v i m u h c)
      | inr e ↦ rw e (w i m u h c)
    ]

    -- A turn of a loop that steps over a token has one turn less to go.
    pub Within-less :
        {p : Parser F A}
        → Within n P p
        → (j : Input F) (m : ℕ) (u : Tokens F) → suc (left (rest j)) < m
        → m ≤ suc n
        → Ensures P m m u (p j)
    Within-less w j m u h b =
        Ensures-mono (omega (arith, h)) (omega (arith, h)) (λ t q. inr q)
          (w j (suc (left (rest j))) u (omega arith) (omega (arith, h, b)))

    pub Within-turn :
        {p : Parser F A}
        → Within n P p
        → (ts : Tokens F) (es : List (ParseError F)) (m : ℕ) (u : Tokens F) → suc (left ts) < m
        → m ≤ suc n
        → Ensures P m m u (p (input ts es))
    Within-turn w ts es = Within-less w (input ts es)

  pub Within-here : {n : ℕ} → Within n Any here
  Within-here i m u h b = holds i tt h

  module _ {A : Type 0} {P : A → Type 0} where
    pub with_fuel-Keeps :
        {f : ℕ → Parser F A} → ((n : ℕ) → Within n P (f n)) → Keeps P (with_fuel f)
    unfolding with_fuel
    with_fuel-Keeps w i m u h =
        Ensures-mono (omega (arith, h)) (omega (arith, h)) (λ t q. inr q)
          (w (suc (left (rest i))) i (suc (left (rest i))) u (omega arith) (omega arith))

    pub Within-Keeps : {p : Parser F A} → ((n : ℕ) → Within n P p) → Keeps P p
    Within-Keeps w i m u h = w m i m u h (omega arith)

    -- A first step over a token that stands there.
    pub Keeps-Bites : {p : Parser F A} → Keeps P p → Bites P (advance_spanned >>= λ s. p)
    unfolding advance_spanned
    Keeps-Bites k s ts es u = k (input ts es) (suc (left ts)) u (omega arith)

    pub Within-Bites :
        {p : Parser F A} → ((n : ℕ) → Within n P p) → Bites P (advance_spanned >>= λ s. p)
    Within-Bites w = Keeps-Bites (Within-Keeps w)

  module _ {A B : Type 0} {P : A → Type 0} {Q : B → Type 0} where
    pub Eats-bind :
        {p : Parser F A} {f : A → Parser F B}
        → Eats P p
        → ((a : A) → P a → Keeps Q (f a))
        → Eats Q (p >>= f)
    Eats-bind e v i = Ensures-bind (e i) λ a j p c. v a p j (left (rest i)) (rest i) c

    pub Keeps-bind :
        {p : Parser F A} {f : A → Parser F B}
        → Keeps P p
        → ((a : A) → P a → Keeps Q (f a))
        → Keeps Q (p >>= f)
    Keeps-bind k v i m u h = Ensures-bind (k i m u h) λ a j p c. v a p j m u c

  pub check_expr_depth-Keeps :
      (P : Expr F → Type 0) (e : Expr F) (l : ℕ) → P e → Keeps P (check_expr_depth e l)
  unfolding check_expr_depth
  check_expr_depth-Keeps P e l p i m u h =
      let (b, q, f) = expr_depth_exceeds_limit-cases e in
      elim (Bool-cases b) [
        | inl deep ↦ rw (q, deep, check_expr_depth) (rejected i (inl h))
        | inr fits ↦ rw (q, fits, check_expr_depth) (holds i p h)
      ]

  pub check_stmt_depth-Keeps :
      (P : Stmt F → Type 0) (s : Stmt F)
      → P s
      → Keeps (λ s. P s × (height_stmt s ≤ 256)) (check_stmt_depth s)
  unfolding check_stmt_depth
  check_stmt_depth-Keeps P s p i m u h =
      let (b, q, f) = stmt_depth_exceeds_limit-cases s in
      elim (Bool-cases b) [
        | inl deep ↦ rw (q, deep, check_stmt_depth) (rejected i (inl h))
        | inr fits ↦ rw (q, fits, check_stmt_depth) (holds i (p, f fits) h)
      ]
