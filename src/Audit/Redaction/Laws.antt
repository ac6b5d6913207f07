-- ===== src/Audit/Redaction/Laws.antt =====
-- src/audit.rs: what a folded field can tell.
use mathlib.Core.List.{Memᴰ}
use mathlib.Core.Option.{map}
use tsumugi.Base.{
  ℕ, ◌≤◌, ◌<◌, ◌≡◌, ◌≢◌, ◌↔◌, ◌⊎◌, ◌&&◌, inl, inr, refl, subst, Bool, true, Option, none, some,
  List, [], ◌∷◌, leb, arith, Bool-cases, same_text-eq, same_text_refl,
}
use tsumugi.Audit.Payload.{
  Text, AuditDirection, AuditFieldClass, AuditFieldKey, AuditValue, RedactionMode, revealed,
  omitted, request, response,
}
use tsumugi.Audit.Redaction.{
  RedactionPolicy, same_direction, same_field_key, holds_key, audit_value_depth,
  max_audit_value_depth, allows_body_reveal, fold_body_field, fold_by_mode, fold_path,
  fold_audit_field, class_mode,
}
use tsumugi.Audit.Redaction.Depth.{ValueChain, ValueChain-le, deepest_value}

same_direction-eq : (a b : AuditDirection) → same_direction a b ≡ true → a ≡ b
unfolding same_direction
same_direction-eq request request h = refl
same_direction-eq response response h = refl
same_direction-eq request response h = cc
same_direction-eq response request h = cc

same_field_key-eq : (a b : AuditFieldKey) → same_field_key a b ≡ true → a ≡ b
unfolding same_field_key
same_field_key-eq a b h =
    let p : a.operation ≡ b.operation = same_text-eq a.operation b.operation (ground (arith, h)) in
    let q : a.direction ≡ b.direction =
      same_direction-eq a.direction b.direction (ground (arith, h)) in
    let r : a.field ≡ b.field = same_text-eq a.field b.field (ground (arith, h)) in cc

same_direction_refl : (a : AuditDirection) → same_direction a a ≡ true
unfolding same_direction
same_direction_refl request = refl
same_direction_refl response = refl

same_field_key_refl : (a : AuditFieldKey) → same_field_key a a ≡ true
unfolding same_field_key
same_field_key_refl a =
    ground
      (arith, same_text_refl a.operation, same_direction_refl a.direction, same_text_refl a.field)

Mem-holds_key :
    (key : AuditFieldKey) (ks : List AuditFieldKey) → holds_key key ks ≡ true → Memᴰ key ks
unfolding holds_key
Mem-holds_key key [] h = cc
Mem-holds_key key (k ∷ ks) h = elim (Bool-cases (same_field_key key k)) [
  | inl e ↦ Memᴰ.head (same_field_key-eq key k e)
  | inr e ↦ Memᴰ.tail (Mem-holds_key key ks (ground (arith, h, e)))
]

holds_key-Mem :
    (key : AuditFieldKey) (ks : List AuditFieldKey) → Memᴰ key ks → holds_key key ks ≡ true
unfolding holds_key
holds_key-Mem key [] m = elim m [ ]
holds_key-Mem key (k ∷ ks) (Memᴰ.head e) =
    let q : same_field_key key k ≡ true = rw e (same_field_key_refl k) in ground (arith, q)
holds_key-Mem key (k ∷ ks) (Memᴰ.tail m) = ground (arith, holds_key-Mem key ks m)

-- The policy reveals bodies, the size is within a nonzero maximum, the key is in the list, and no
-- more than 64 values stand one in the other.
abbrev pub IsRevealable : RedactionPolicy → AuditFieldKey → ℕ → AuditValue → Type 0
IsRevealable policy key n value =
    (policy.body_mode ≡ RedactionMode.reveal)
    × (0 < policy.max_revealed_body_bytes)
    × (n ≤ policy.max_revealed_body_bytes)
    × Memᴰ key policy.reveal_body_fields
    × ((d : ℕ) → ValueChain value d → d ≤ 64)

module _ (policy : RedactionPolicy) (n : ℕ) where
  -- What the guard of the branch tests.
  guard : AuditFieldKey → AuditValue → Bool
  guard key value =
      allows_body_reveal policy key n && leb (audit_value_depth value) max_audit_value_depth

  guard-IsRevealable :
      (key : AuditFieldKey) (value : AuditValue)
      → guard key value ≡ true
      → IsRevealable policy key n value
  unfolding guard allows_body_reveal
  guard-IsRevealable key value g = (
    ground (arith, g),
    ground (arith, g),
    ground (arith, g),
    Mem-holds_key key policy.reveal_body_fields (ground (arith, g)),
    λ d c. ground (arith, g, ValueChain-le c),
  )

  IsRevealable-guard :
      (key : AuditFieldKey) (value : AuditValue)
      → IsRevealable policy key n value
      → guard key value ≡ true
  unfolding guard allows_body_reveal
  IsRevealable-guard key value (a, b, c, m, d) = ground (
    arith,
    a,
    b,
    c,
    holds_key-Mem key policy.reveal_body_fields m,
    d (audit_value_depth value) (deepest_value value),
  )

  -- A body field is revealed, with its value and size, if it has a key and a value, the policy
  -- reveals bodies, the size is within a nonzero maximum, the key is an element of the list of the
  -- policy, and no chain of values, each standing in the one before, is longer than 64. In every
  -- other case only its size is kept.
  pub fold_body_field-cases :
      (k : Option AuditFieldKey) (v : Option AuditValue)
      → ((key : AuditFieldKey) × (value : AuditValue) × (k ≡ some key)
          × (v ≡ some value)
          × IsRevealable policy key n value
          × (fold_body_field policy k n v ≡ revealed AuditFieldClass.body value n))
        ⊎ (((key : AuditFieldKey) (value : AuditValue)
              → k ≡ some key
              → v ≡ some value
              → ¬ IsRevealable policy key n value)
            × (fold_body_field policy k n v ≡ omitted AuditFieldClass.body n))
  unfolding fold_body_field guard
  fold_body_field-cases none v = inr (λ key value e f r. cc, refl)
  fold_body_field-cases (some key) none = inr (λ key' value e f r. cc, refl)
  fold_body_field-cases (some key) (some value) = elim (Bool-cases (guard key value)) [
    | inl g ↦ inl (key, value, refl, refl, guard-IsRevealable key value g, rw g refl)
    | inr g ↦ inr (
      λ key' value' e f r.
          let p : key' ≡ key = cc in
          let q : value' ≡ value = cc in
          let t : guard key' value' ≡ true = IsRevealable-guard key' value' r in
          let w : guard key value ≡ true =
            subst (λ (z : AuditFieldKey). guard z value ≡ true) p
              (subst (λ (z : AuditValue). guard key' z ≡ true) q t) in
          cc,
      rw g refl,
    )
  ]

module _ (hmac_sha256 : List ℕ → Text → List ℕ) (policy : RedactionPolicy) where
  -- What two fields of a class must have in common to be folded alike.
  unfoldable pub IsAlike :
      AuditFieldClass → (label label' : Option Text) (v v' : Option AuditValue) → Type 0
  IsAlike AuditFieldClass.public label label' v v' = v ≡ v'
  IsAlike AuditFieldClass.identifier label label' v v' =
      (policy.identifier_mode ≢ RedactionMode.reveal) ⊎ (v ≡ v')
  IsAlike AuditFieldClass.path label label' v v' =
      (policy.path_mode ≢ RedactionMode.hmac_sha256)
      ⊎ (map (hmac_sha256 policy.hmac_key) label ≡ map (hmac_sha256 policy.hmac_key) label')
  IsAlike AuditFieldClass.body label label' v v' = Unit {0}
  IsAlike AuditFieldClass.secret label label' v v' = Unit {0}

  fold_by_mode_iff :
      (m : RedactionMode) (c : AuditFieldClass) (n : ℕ) (v v' : Option AuditValue)
      → (fold_by_mode m c n v ≡ fold_by_mode m c n v') ↔ ((m ≢ RedactionMode.reveal) ⊎ (v ≡ v'))
  unfolding fold_by_mode
  fold_by_mode_iff RedactionMode.reveal c n none none = (λ e. inr refl, λ s. refl)
  fold_by_mode_iff RedactionMode.reveal c n (some x) (some y) =
      (λ e. inr (cc), λ s. elim s [ inl a ↦ absurd (a refl) | inr q ↦ cc ])
  fold_by_mode_iff RedactionMode.reveal c n none (some y) =
      (λ e. cc, λ s. elim s [ inl a ↦ absurd (a refl) | inr q ↦ cc ])
  fold_by_mode_iff RedactionMode.reveal c n (some x) none =
      (λ e. cc, λ s. elim s [ inl a ↦ absurd (a refl) | inr q ↦ cc ])
  fold_by_mode_iff RedactionMode.hmac_sha256 c n v v' = (λ e. inl (λ q. cc), λ s. refl)
  fold_by_mode_iff RedactionMode.omit c n v v' = (λ e. inl (λ q. cc), λ s. refl)

  fold_path_iff :
      (m : RedactionMode) (n : ℕ) (l l' : Option Text)
      → (fold_path hmac_sha256 policy m n l ≡ fold_path hmac_sha256 policy m n l') ↔ (
          (m ≢ RedactionMode.hmac_sha256)
          ⊎ (map (hmac_sha256 policy.hmac_key) l ≡ map (hmac_sha256 policy.hmac_key) l'))
  unfolding fold_path
  fold_path_iff RedactionMode.hmac_sha256 n none none = (λ e. inr refl, λ s. refl)
  fold_path_iff RedactionMode.hmac_sha256 n (some x) (some y) =
      (λ e. inr (cc), λ s. elim s [ inl a ↦ absurd (a refl) | inr q ↦ cc ])
  fold_path_iff RedactionMode.hmac_sha256 n none (some y) =
      (λ e. cc, λ s. elim s [ inl a ↦ absurd (a refl) | inr q ↦ cc ])
  fold_path_iff RedactionMode.hmac_sha256 n (some x) none =
      (λ e. cc, λ s. elim s [ inl a ↦ absurd (a refl) | inr q ↦ cc ])
  fold_path_iff RedactionMode.reveal n l l' = (λ e. inl (λ q. cc), λ s. refl)
  fold_path_iff RedactionMode.omit n l l' = (λ e. inl (λ q. cc), λ s. refl)

  -- Under any policy and digest, two fields of one class and size, each with or without a label
  -- and a value, are folded alike exactly in these cases: public ones with the same value;
  -- identifiers with the same value, or under a mode that does not reveal them; paths with the
  -- same digest of the label or none in both, or under a mode that does not digest them; bodies
  -- without a key, and secrets, always. So a path tells no more of its label than the digest.
  pub fold_audit_field_iff :
      (c : AuditFieldClass) (n : ℕ) (label label' : Option Text) (v v' : Option AuditValue)
      → (fold_audit_field hmac_sha256 policy c n label v
          ≡ fold_audit_field hmac_sha256 policy c n label' v')
        ↔ IsAlike c label label' v v'
  unfolding fold_audit_field fold_body_field class_mode IsAlike
  fold_audit_field_iff AuditFieldClass.public n label label' v v' =
      let (a, b) = fold_by_mode_iff RedactionMode.reveal AuditFieldClass.public n v v' in
      (λ e. elim (a e) [ inl x ↦ absurd (x refl) | inr q ↦ q ], λ q. b (inr q))
  fold_audit_field_iff AuditFieldClass.identifier n label label' v v' =
      fold_by_mode_iff policy.identifier_mode AuditFieldClass.identifier n v v'
  fold_audit_field_iff AuditFieldClass.path n label label' v v' =
      fold_path_iff policy.path_mode n label label'
  fold_audit_field_iff AuditFieldClass.body n label label' v v' = (λ e. tt, λ s. refl)
  fold_audit_field_iff AuditFieldClass.secret n label label' v v' = (λ e. tt, λ s. refl)
