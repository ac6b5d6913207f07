-- ===== src/Audit/Redaction.antt =====
-- src/audit.rs §9.1: the redaction policy, and how one field of a payload is folded under it. The
-- digest of a path is a parameter: key and label to the bytes of the digest.
pub mod Depth
pub mod Laws
use tsumugi.Base.{
  same_text, ℕ, suc, ◌+◌, Bool, true, false, ◌&&◌, ◌||◌, Option, none, some, List, [], ◌∷◌, leb,
  ltb, ◌==◌, if◌then◌else◌, max,
}
use tsumugi.Audit.Payload.{
  Text, AuditDirection, AuditEntries, AuditField, AuditFieldClass, AuditFieldKey, AuditFields,
  AuditValue, RedactionMode, request, response, revealed, hmac, omitted, scalar, sequence, object,
  nil, cons, end, entry,
}

-- `reveal_body_fields` is a set: its keys, in any order.
pub record RedactionPolicy : Type 0 where
  pub policy_id : Text
  pub identifier_mode : RedactionMode
  pub path_mode : RedactionMode
  pub body_mode : RedactionMode
  pub reveal_body_fields : List AuditFieldKey
  pub hmac_key : List ℕ
  pub max_revealed_body_bytes : ℕ

abbrev pub is_reveal : RedactionMode → Bool
is_reveal RedactionMode.reveal = true
is_reveal _ = false

-- The derived equalities.
same_direction : AuditDirection → AuditDirection → Bool
same_direction request request = true
same_direction response response = true
same_direction _ _ = false

same_field_key : AuditFieldKey → AuditFieldKey → Bool
unfolding same_text same_direction
same_field_key a b =
    same_text a.operation b.operation
    && same_direction a.direction b.direction
    && same_text a.field b.field

unfoldable pub holds_key : AuditFieldKey → List AuditFieldKey → Bool
unfolding same_field_key
holds_key key [] = false
holds_key key (k ∷ ks) = let rest = holds_key key ks in same_field_key key k || rest

abbrev pub max_audit_value_depth : ℕ
max_audit_value_depth = 64

unfoldable mutual
  pub audit_value_depth : AuditValue → ℕ
  audit_value_depth (scalar s) = 1
  audit_value_depth (sequence items) = 1 + fields_depth items
  audit_value_depth (object map) = 1 + entries_depth map

  -- The largest depth of the fields, 0 without any.
  pub fields_depth : AuditFields → ℕ
  fields_depth nil = 0
  fields_depth (cons f fs) = max (field_depth f) (fields_depth fs)

  pub entries_depth : AuditEntries → ℕ
  entries_depth end = 0
  entries_depth (entry name f es) = max (field_depth f) (entries_depth es)

  pub field_depth : AuditField → ℕ
  field_depth (revealed c value n) = audit_value_depth value
  field_depth (hmac c digest n) = 1
  field_depth (omitted c n) = 1

unfoldable pub allows_body_reveal : RedactionPolicy → AuditFieldKey → ℕ → Bool
allows_body_reveal policy key original_bytes =
    is_reveal policy.body_mode
    && ltb 0 policy.max_revealed_body_bytes
    && leb original_bytes policy.max_revealed_body_bytes
    && holds_key key policy.reveal_body_fields

unfoldable pub fold_body_field :
    RedactionPolicy → Option AuditFieldKey → ℕ → Option AuditValue → AuditField
fold_body_field policy (some key) original_bytes (some value) =
    if allows_body_reveal policy key original_bytes
      && leb (audit_value_depth value) max_audit_value_depth
    then revealed AuditFieldClass.body value original_bytes
    else omitted AuditFieldClass.body original_bytes
fold_body_field policy _ original_bytes _ = omitted AuditFieldClass.body original_bytes

unfoldable pub class_mode : RedactionPolicy → AuditFieldClass → RedactionMode
class_mode policy AuditFieldClass.public = RedactionMode.reveal
class_mode policy AuditFieldClass.identifier = policy.identifier_mode
class_mode policy AuditFieldClass.path = policy.path_mode
class_mode policy AuditFieldClass.body = policy.body_mode
class_mode policy AuditFieldClass.secret = RedactionMode.omit

-- The branch of `Public` and `Identifier`.
unfoldable pub fold_by_mode : RedactionMode → AuditFieldClass → ℕ → Option AuditValue → AuditField
fold_by_mode RedactionMode.reveal class original_bytes (some value) =
    revealed class value original_bytes
fold_by_mode _ class original_bytes _ = omitted class original_bytes

module _ (hmac_sha256 : List ℕ → Text → List ℕ) where
  -- The branch of `Path`.
  unfoldable pub fold_path : RedactionPolicy → RedactionMode → ℕ → Option Text → AuditField
  fold_path policy RedactionMode.hmac_sha256 original_bytes (some label) =
      hmac AuditFieldClass.path (hmac_sha256 policy.hmac_key label) original_bytes
  fold_path policy _ original_bytes _ = omitted AuditFieldClass.path original_bytes

  unfoldable pub fold_audit_field :
      RedactionPolicy → AuditFieldClass → ℕ → Option Text → Option AuditValue → AuditField
  fold_audit_field policy AuditFieldClass.secret n label value = omitted AuditFieldClass.secret n
  fold_audit_field policy AuditFieldClass.path n label value =
      fold_path policy policy.path_mode n label
  fold_audit_field policy AuditFieldClass.body n label value = fold_body_field policy none n value
  fold_audit_field policy AuditFieldClass.public n label value =
      fold_by_mode (class_mode policy AuditFieldClass.public) AuditFieldClass.public n value
  fold_audit_field policy AuditFieldClass.identifier n label value =
      fold_by_mode (class_mode policy AuditFieldClass.identifier) AuditFieldClass.identifier n value
