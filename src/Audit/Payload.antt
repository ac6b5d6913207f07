-- ===== src/Audit/Payload.antt =====
-- src/audit.rs §9: the values that an audit event may carry. A `String` is the list of its UTF-8
-- bytes, a `BTreeMap` the list of its entries in key order.
use tsumugi.Base.{ℕ, Bool, List, ℤ}
pub use tsumugi.Base.{Text}

pub data AuditFieldClass : Type 0 where
  public identifier path body secret : AuditFieldClass

pub data RedactionMode : Type 0 where
  reveal hmac_sha256 omit : RedactionMode

pub data AuditDirection : Type 0 where
  request response : AuditDirection

pub record AuditFieldKey : Type 0 where
  pub operation : Text
  pub direction : AuditDirection
  pub field : Text

pub data AuditScalar : Type 0 where
  null : AuditScalar
  bool : Bool → AuditScalar
  int : ℤ → AuditScalar
  float : ℕ → AuditScalar
  utf8 bytes : List ℕ → AuditScalar

mutual
  pub data AuditValue : Type 0 where
    scalar : AuditScalar → AuditValue
    sequence : AuditFields → AuditValue
    object : AuditEntries → AuditValue

  -- `Vec<AuditField>`
  pub data AuditFields : Type 0 where
    nil : AuditFields
    cons : AuditField → AuditFields → AuditFields

  -- `BTreeMap<String, AuditField>`
  pub data AuditEntries : Type 0 where
    end : AuditEntries
    entry : List ℕ → AuditField → AuditEntries → AuditEntries

  pub data AuditField : Type 0 where
    revealed : AuditFieldClass → AuditValue → (original_bytes : ℕ) → AuditField
    hmac : AuditFieldClass → (digest : List ℕ) → (original_bytes : ℕ) → AuditField
    omitted : AuditFieldClass → (original_bytes : ℕ) → AuditField

pub record AuditPayload : Type 0 where
  pub fields : AuditEntries
