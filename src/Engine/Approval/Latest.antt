-- ===== src/Engine/Approval/Latest.antt =====
-- Which decision on a checkpoint counts: core/engine/approval.go.
use workflow_execution_engin.Prelude.{
  String, ◌≡◌, refl, ap, ◌∙◌, ◌≢◌, Bool, Option, none, some, List, [], ◌∷◌, arith, ◌==◌, eq_iff,
  if◌then◌else◌, get_or, Map, lookup, at, at-insert,
}
use workflow_execution_engin.Domain.Error.{ok}
use mathlib.Core.List.{foldl}
use workflow_execution_engin.Domain.Event
use workflow_execution_engin.Domain.Event.{Event, EventType}
use workflow_execution_engin.Engine.Approval.{
  ApprovalStatus, no_status, approval_pending, approval_granted, approval_refused, ApprovalRecord,
  no_record, string_payload, record_approval, approval_records, decided, requested,
}

-- the status that an event gives to a checkpoint, if it is about it
abbrev pub verdict : EventType → Option ApprovalStatus
verdict Event.approval_requested = some approval_pending
verdict Event.approval_granted = some approval_granted
verdict Event.approval_rejected = some approval_refused
verdict _ = none

abbrev pub speaks : String → Event → Bool
speaks id ev = string_payload ev.payload "checkpointId" == id

-- the status that the last event about a checkpoint gives it
abbrev pub latest : String → ApprovalStatus → List Event → ApprovalStatus
latest id st [] = st
latest id st (ev ∷ evs) = latest id (if speaks id ev then get_or (verdict ev.type) st else st) evs

status_of : String → Map ApprovalRecord → ApprovalStatus
status_of id m = (at id no_record m).status

record_approval-status :
    (id : String) (out : Map ApprovalRecord) (ev : Event)
    → id ≢ ""
    → status_of id (record_approval out ev)
      ≡ (if speaks id ev then get_or (verdict ev.type) (status_of id out) else status_of id out)
unfolding record_approval status_of
record_approval-status id out ev n =
    let c = string_payload ev.payload "checkpointId" in
    ground (
      arith,
      eq_iff c id,
      eq_iff c "",
      ap (λ (r : ApprovalRecord). r.status) (at-insert c id (requested ev) no_record out),
      ap (λ (r : ApprovalRecord). r.status)
          (at-insert c id (decided approval_granted ev (at c no_record out)) no_record out),
      ap (λ (r : ApprovalRecord). r.status)
          (at-insert c id (decided approval_refused ev (at c no_record out)) no_record out),
    )

record_all-status :
    (id : String) (evs : List Event) (out : Map ApprovalRecord)
    → id ≢ ""
    → status_of id (foldl record_approval out evs) ≡ latest id (status_of id out) evs
record_all-status id [] out n = refl
record_all-status id (ev ∷ evs) out n =
    record_all-status id evs (record_approval out ev) n
    ∙ ap (λ st. latest id st evs) (record_approval-status id out ev n)

-- The status of a checkpoint is the one that the last request, grant or rejection about it in the
-- log gives; a checkpoint that no such event names has none.
pub approval_records-latest :
    (id : String) (evs : List Event)
    → id ≢ ""
    → (at id no_record (approval_records (ok evs))).status ≡ latest id no_status evs
unfolding approval_records status_of at lookup
approval_records-latest id evs n = record_all-status id evs [] n
