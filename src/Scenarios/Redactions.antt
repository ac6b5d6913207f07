-- ===== src/Scenarios/Redactions.antt =====
-- A policy of src/audit.rs that reveals one body field of up to 100 bytes.
use tsumugi.Base.{ℕ, ◌≡◌, ◌↔◌, ◌⊎◌, Option, some, none, List, [], ◌∷◌}
use tsumugi.Audit.Payload.{
  Text, AuditDirection, AuditFieldClass, AuditFieldKey, AuditScalar, AuditValue, RedactionMode,
  revealed, omitted, scalar,
}
use tsumugi.Audit.Redaction.{RedactionPolicy, fold_audit_field, fold_body_field}
use tsumugi.Audit.Redaction.Laws.{
  IsAlike, IsRevealable, fold_audit_field_iff, fold_body_field-cases,
}

abbrev key : AuditFieldKey
key = record { operation = 1 ∷ []; direction = AuditDirection.request; field = 2 ∷ [] }

abbrev policy : RedactionPolicy
policy = record {
  policy_id = [];
  identifier_mode = RedactionMode.reveal;
  path_mode = RedactionMode.reveal;
  body_mode = RedactionMode.reveal;
  reveal_body_fields = key ∷ [];
  hmac_key = 9 ∷ [];
  max_revealed_body_bytes = 100;
}

-- In place of the digest.
digest : List ℕ → Text → List ℕ
digest k label = k

abbrev small : AuditValue
small = scalar (AuditScalar.utf8 (65 ∷ []))

abbrev hashing : RedactionPolicy
hashing = record policy { path_mode = RedactionMode.hmac_sha256 }

fold_audit_field_iff_example :
    (fold_audit_field digest hashing AuditFieldClass.path 1 (some (65 ∷ [])) none
      ≡ fold_audit_field digest hashing AuditFieldClass.path 1 (some (66 ∷ [])) (some small))
    ↔ IsAlike digest hashing AuditFieldClass.path
        (some (65 ∷ []))
        (some (66 ∷ []))
        none
        (some small)
fold_audit_field_iff_example =
    fold_audit_field_iff digest hashing AuditFieldClass.path 1 (some (65 ∷ [])) (some (66 ∷ []))
      none (some small)

fold_body_field-cases_example :
    ((k : AuditFieldKey) × (value : AuditValue) × ◌≡◌ {A = Option AuditFieldKey} (some key) (some k)
      × ◌≡◌ {A = Option AuditValue} (some small) (some value)
      × IsRevealable policy k 1 value
      × (fold_body_field policy (some key) 1 (some small) ≡ revealed AuditFieldClass.body value 1))
    ⊎ (((k : AuditFieldKey) (value : AuditValue)
          → ◌≡◌ {A = Option AuditFieldKey} (some key) (some k)
          → ◌≡◌ {A = Option AuditValue} (some small) (some value)
          → ¬ IsRevealable policy k 1 value)
        × (fold_body_field policy (some key) 1 (some small) ≡ omitted AuditFieldClass.body 1))
fold_body_field-cases_example = fold_body_field-cases policy 1 (some key) (some small)
