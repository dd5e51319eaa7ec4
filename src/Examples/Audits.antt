-- ===== src/Examples/Audits.antt =====
-- A log of two nodes read back, and compared with an earlier one.
use workflow_execution_engin.Prelude.{
  String, ◌≡◌, refl, some, List, [], ◌∷◌, lookup, insert, at, pos, filter,
}
use workflow_execution_engin.Domain.Value.{Fields, member, float, field, end}
use workflow_execution_engin.Domain.Error.{ok}
use workflow_execution_engin.Domain.Event.{EventType, Event}
use workflow_execution_engin.Domain.Event
use workflow_execution_engin.Engine.Types.{succeeded, skipped, pending}
use workflow_execution_engin.Engine.Resume.{Snapshot, snapshot_of}
use workflow_execution_engin.Replay.{
  NodeRecord, bare_record, Timeline, any_finished, audit, divergence, removed,
}
use workflow_execution_engin.Replay.Divergences.{is_about, divergence-listed}
use workflow_execution_engin.Replay.States.{state_in, audit-states}
use workflow_execution_engin.Examples.Samples.{whole, pipeline, no_budget, options}

abbrev logged : EventType → String → Fields → Event
logged t id p = record {
  type = t;
  timestamp = 0;
  execution_id = "run";
  node_id = id;
  prev_hash = "";
  payload = p;
}

-- plan succeeded, write was not on the way
abbrev log : List Event
log =
    logged Event.worker_finished "plan" (field "costUsd" (float 2) end)
    ∷ logged Event.execution_finished "" end
    ∷ []

abbrev frozen : Snapshot
frozen = snapshot_of pipeline options []

abbrev planned : NodeRecord
planned = record (bare_record succeeded) { cost_usd = 2 }

abbrev read_back : Timeline
read_back = record {
  execution_id = "run";
  workflow = pipeline;
  budget = no_budget;
  events = log;
  nodes = ("plan", planned) ∷ ("write", bare_record skipped) ∷ [];
  spent_cost_usd = 2;
  spent_tokens = pos 0;
  definition_hashes = [];
  workers = [];
  inputs = [];
  connection_refs = [];
}

audited : audit whole pos (λ h. ok h) "run" (ok frozen) (ok log) ≡ ok read_back
unfolding audit lookup insert at member
audited = refl

audit-states_example : state_in "write" read_back.nodes ≡ some skipped
unfolding lookup any_finished
audit-states_example =
    audit-states whole pos (λ h. ok h) "run" "write" frozen log read_back refl audited

-- an earlier run of a workflow with one more node
abbrev earlier : Timeline
earlier = record read_back { nodes = ("old", bare_record pending) ∷ ("plan", planned) ∷ [] }

divergence-listed_example :
    filter (is_about "old") (divergence earlier read_back)
    ≡ record {
      node_id = "old";
      status = removed;
      original_hash = "";
      new_hash = "";
      original_content = "";
      new_content = "";
    }
      ∷ []
unfolding lookup
divergence-listed_example = divergence-listed earlier read_back "old" refl refl
