-- ===== src/Audit/Event.antt =====
-- src/audit.rs §7: the envelope, the eight kinds of event, and the size estimate that the journal
-- and the drain queue share.
use tsumugi.Base.{ℕ, ◌+◌, Bool, List, [], ◌∷◌, Option, none, some, ℤ, length, saturating_add}
use tsumugi.Budget.Types.{BudgetConfig, BudgetResource, BudgetUsage}
use tsumugi.Audit.Payload.{Text, AuditPayload}

-- src/scheduler.rs
pub data AdmissionPhase : Type 0 where
  created linked : AdmissionPhase

pub data AuditYieldReason : Type 0 where
  admission_queued : AdmissionPhase → AuditYieldReason
  slice_fuel_exhausted explicit_yield : AuditYieldReason
  host_call_pending : (call_id : ℕ) → AuditYieldReason
  audit_backpressure scheduler_preempted host_paused : AuditYieldReason

pub data CapabilityDecisionKind : Type 0 where
  allow deny : CapabilityDecisionKind

pub data HostCallOutcome : Type 0 where
  success denied host_error cancelled detached : HostCallOutcome

pub data EffectStatus : Type 0 where
  no_effect committed unknown : EffectStatus

pub data BudgetChargeReason : Type 0 where
  statement expression operation function loop host_call : BudgetChargeReason
  bulk_elements bulk_bytes allocation source input output : BudgetChargeReason

pub BudgetChargeReason-discrete : Discrete BudgetChargeReason
BudgetChargeReason-discrete = hlevel

pub data ExecutionMode : Type 0 where
  live record_run replay : ExecutionMode

-- src/embedding.rs
pub data Backend : Type 0 where
  tree_walk vm_experimental : Backend

pub record HostTimestamp : Type 0 where
  pub unix_nanoseconds : ℤ

pub record AuditFrame : Type 0 where
  pub function : Text
  pub module_id : Text
  pub line : ℕ

pub record AuditError : Type 0 where
  pub code : Text
  pub message_id : Text
  pub module_id : Option Text
  pub line : Option ℕ
  pub column : Option ℕ
  pub trace : List AuditFrame
  pub omitted_trace_frames : ℕ

pub data AuditErrorPayload : Type 0 where
  full : AuditError → AuditErrorPayload
  emergency :
      (code message_id : Text) (full_error_bytes : ℕ) (full_error_sha256 : List ℕ)
      → AuditErrorPayload

pub data TerminalOutcome : Type 0 where
  completed : TerminalOutcome
  exited : ℕ → TerminalOutcome
  denied link_error runtime_error host_error : TerminalOutcome
  budget_exceeded : BudgetResource → TerminalOutcome
  deadline_exceeded cancelled audit_failure internal_failure : TerminalOutcome
  record_failure replay_mismatch : TerminalOutcome

pub data AuditEvent : Type 0 where
  execution_started :
      (engine_version : Text) (backend : Backend) (rules_revision heap_accounting_revision : ℕ)
      (budget : BudgetConfig) (capability_policy_hash : List ℕ) (redaction_policy_id : Text)
      (mode : ExecutionMode)
      → AuditEvent
  capability_decision :
      (operation_id : ℕ) (call_id : Option ℕ) (capability action : Text) (resource : AuditPayload)
      (decision : CapabilityDecisionKind) (rule_id : Text)
      → AuditEvent
  host_call_started :
      (operation_id call_id : ℕ) (function : Text) (request : AuditPayload) (request_bytes : ℕ)
      → AuditEvent
  host_call_finished :
      (operation_id call_id : ℕ) (outcome : HostCallOutcome) (response : AuditPayload)
      (response_bytes : ℕ) (error_code : Option Text) (effect_status : EffectStatus)
      → AuditEvent
  budget_charged :
      (resource : BudgetResource) (committed_delta released_delta usage_after : ℕ)
      (peak_after : Option ℕ) (charge_count : ℕ) (reason : BudgetChargeReason)
      → AuditEvent
  yielded : (reason : AuditYieldReason) (poll_index : ℕ) (usage : BudgetUsage) → AuditEvent
  resumed : (previous_reason : AuditYieldReason) (poll_index : ℕ) (usage : BudgetUsage) → AuditEvent
  terminal :
      (outcome : TerminalOutcome) (error : Option AuditErrorPayload) (usage : BudgetUsage)
      (import_graph_hash : Option (List ℕ)) (context_committed host_effects_may_remain : Bool)
      → AuditEvent

pub record AuditEnvelope : Type 0 where
  pub schema_version : ℕ
  pub execution_id : ℕ
  pub source_hash : List ℕ
  pub language_revision : Text
  pub sequence : ℕ
  pub timestamp : HostTimestamp
  pub event : AuditEvent

-- `trace.iter().map(|f| f.function.len() + 16).sum()`
pub trace_bytes : List AuditFrame → ℕ
trace_bytes [] = 0
trace_bytes (f ∷ fs) = length f.function + 16 + trace_bytes fs

pub error_bytes : Option AuditErrorPayload → ℕ
unfolding trace_bytes
error_bytes none = 0
error_bytes (some (AuditErrorPayload.full e)) =
    length e.code + length e.message_id + trace_bytes e.trace
error_bytes (some (AuditErrorPayload.emergency code message_id n h)) =
    length code + length message_id + 40

unfoldable pub estimate_event_bytes : AuditEvent → ℕ
unfolding error_bytes
estimate_event_bytes (execution_started version b r h c p policy m) =
    saturating_add (saturating_add 256 (length version)) (length policy)
estimate_event_bytes (terminal o error u g c h) = saturating_add 128 (error_bytes error)
estimate_event_bytes _ = 128

unfoldable pub estimate_envelope_overhead_bytes : Text → ℕ
estimate_envelope_overhead_bytes revision = saturating_add 74 (length revision)

unfoldable pub estimate_encoded_bytes : AuditEnvelope → ℕ
unfolding estimate_envelope_overhead_bytes estimate_event_bytes
estimate_encoded_bytes e =
    saturating_add (estimate_envelope_overhead_bytes e.language_revision)
      (estimate_event_bytes e.event)
