-- ===== src/Audit/Redaction/Depth.antt =====
-- src/audit.rs, `audit_value_depth`: the depth of a value is that of its deepest chain of values.
use tsumugi.Base.{
  ℕ, suc, ◌+◌, ◌≤◌, ◌≡◌, refl, List, subst, max, leb, ◌⊎◌, inl, inr, Bool-cases, arith,
}
use tsumugi.Audit.Payload.{
  AuditEntries, AuditField, AuditFieldClass, AuditFields, AuditValue, revealed, hmac, omitted,
  scalar, sequence, object, nil, cons, end, entry,
}
use tsumugi.Audit.Redaction.{audit_value_depth, fields_depth, entries_depth, field_depth}

-- So many values stand one in the other, the outermost first. A field without its value counts as one.
mutual
  pub data ValueChain : AuditValue → ℕ → Type 0 where
    stops : {v : AuditValue} {d : ℕ} → d ≡ 1 → ValueChain v d
    in_sequence : {fs : AuditFields} {d : ℕ} → FieldsChain fs d → ValueChain (sequence fs) (suc d)
    in_object : {es : AuditEntries} {d : ℕ} → EntriesChain es d → ValueChain (object es) (suc d)

  pub data FieldsChain : AuditFields → ℕ → Type 0 where
    first : {f : AuditField} {fs : AuditFields} {d : ℕ} → FieldChain f d → FieldsChain (cons f fs) d
    later :
        {f : AuditField} {fs : AuditFields} {d : ℕ} → FieldsChain fs d → FieldsChain (cons f fs) d

  pub data EntriesChain : AuditEntries → ℕ → Type 0 where
    at_entry :
        {name : List ℕ} {f : AuditField} {es : AuditEntries} {d : ℕ}
        → FieldChain f d
        → EntriesChain (entry name f es) d
    past_entry :
        {name : List ℕ} {f : AuditField} {es : AuditEntries} {d : ℕ}
        → EntriesChain es d
        → EntriesChain (entry name f es) d

  pub data FieldChain : AuditField → ℕ → Type 0 where
    in_value :
        {c : AuditFieldClass} {v : AuditValue} {n d : ℕ}
        → ValueChain v d
        → FieldChain (revealed c v n) d
    folded : {f : AuditField} {d : ℕ} → d ≡ 1 → FieldChain f d

pos-depth : (v : AuditValue) → 1 ≤ audit_value_depth v
unfolding audit_value_depth
pos-depth (scalar s) = omega arith
pos-depth (sequence fs) = omega arith
pos-depth (object es) = omega arith

pos-field_depth : (f : AuditField) → 1 ≤ field_depth f
unfolding field_depth
pos-field_depth (revealed c v n) = pos-depth v
pos-field_depth (hmac c x n) = omega arith
pos-field_depth (omitted c n) = omega arith

-- No chain is longer.
mutual
  unfolding audit_value_depth

  pub ValueChain-le : {v : AuditValue} {d : ℕ} → ValueChain v d → d ≤ audit_value_depth v
  ValueChain-le (stops {v} e) = omega (arith, e, pos-depth v)
  ValueChain-le (in_sequence c) = omega (arith, FieldsChain-le c)
  ValueChain-le (in_object c) = omega (arith, EntriesChain-le c)

  FieldsChain-le : {fs : AuditFields} {d : ℕ} → FieldsChain fs d → d ≤ fields_depth fs
  FieldsChain-le (first c) = omega (arith, FieldChain-le c)
  FieldsChain-le (later c) = omega (arith, FieldsChain-le c)

  EntriesChain-le : {es : AuditEntries} {d : ℕ} → EntriesChain es d → d ≤ entries_depth es
  EntriesChain-le (at_entry c) = omega (arith, FieldChain-le c)
  EntriesChain-le (past_entry c) = omega (arith, EntriesChain-le c)

  FieldChain-le : {f : AuditField} {d : ℕ} → FieldChain f d → d ≤ field_depth f
  FieldChain-le (in_value c) = ValueChain-le c
  FieldChain-le (folded {f} e) = omega (arith, e, pos-field_depth f)

max_of : (P : ℕ → Type 0) (a b : ℕ) → P a → (b ≡ 0) ⊎ P b → P (max a b)
max_of P a b x (inl e) = let q : a ≡ max a b = omega (arith, e) in subst P q x
max_of P a b x (inr y) = elim (Bool-cases (leb a b)) [
  | inl h ↦ let q : b ≡ max a b = ground (arith, h) in subst P q y
  | inr h ↦ let q : a ≡ max a b = ground (arith, h) in subst P q x
]

-- One step further in than a chain of the parts, or just the value itself.
one_more :
    (P : ℕ → Type 0) (Q : ℕ → Type 0) (b : ℕ)
    → P 1
    → ((d : ℕ) → Q d → P (suc d))
    → (b ≡ 0) ⊎ Q b
    → P (1 + b)
one_more P Q b x f (inl e) = let q : 1 ≡ 1 + b = omega (arith, e) in subst P q x
one_more P Q b x f (inr y) = let q : suc b ≡ 1 + b = omega arith in subst P q (f b y)

-- One chain is as long.
mutual
  unfolding audit_value_depth

  pub deepest_value : (v : AuditValue) → ValueChain v (audit_value_depth v)
  deepest_value (scalar s) = stops refl
  deepest_value (sequence fs) =
      one_more (ValueChain (sequence fs)) (FieldsChain fs) (fields_depth fs) (stops refl)
        (λ d c. in_sequence c) (deepest_fields fs)
  deepest_value (object es) =
      one_more (ValueChain (object es)) (EntriesChain es) (entries_depth es) (stops refl)
        (λ d c. in_object c) (deepest_entries es)

  deepest_fields : (fs : AuditFields) → (fields_depth fs ≡ 0) ⊎ FieldsChain fs (fields_depth fs)
  deepest_fields nil = inl refl
  deepest_fields (cons f fs) = inr (
      max_of (FieldsChain (cons f fs)) (field_depth f) (fields_depth fs) (first (deepest_field f))
        (past_first (deepest_fields fs)))
    where
      past_first :
          (fields_depth fs ≡ 0) ⊎ FieldsChain fs (fields_depth fs)
          → (fields_depth fs ≡ 0) ⊎ FieldsChain (cons f fs) (fields_depth fs)
      past_first (inl e) = inl e
      past_first (inr c) = inr (later c)

  deepest_entries :
      (es : AuditEntries) → (entries_depth es ≡ 0) ⊎ EntriesChain es (entries_depth es)
  deepest_entries end = inl refl
  deepest_entries (entry x f es) = inr (
      max_of (EntriesChain (entry x f es)) (field_depth f) (entries_depth es)
        (at_entry (deepest_field f)) (past_first (deepest_entries es)))
    where
      past_first :
          (entries_depth es ≡ 0) ⊎ EntriesChain es (entries_depth es)
          → (entries_depth es ≡ 0) ⊎ EntriesChain (entry x f es) (entries_depth es)
      past_first (inl e) = inl e
      past_first (inr c) = inr (past_entry c)

  deepest_field : (f : AuditField) → FieldChain f (field_depth f)
  deepest_field (revealed c v n) = in_value (deepest_value v)
  deepest_field (hmac c x n) = folded refl
  deepest_field (omitted c n) = folded refl
