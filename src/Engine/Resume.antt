-- ===== src/Engine/Resume.antt =====
-- core/engine/resume.go: a run restarted from its snapshot and its events; and core/replay/reexecute.go:
-- a recorded workflow run again. The log and the artifact store are parameters.
use workflow_execution_engin.Prelude.{
  ℕ, zero, suc, ◌+◌, String, Bool, true, false, not, Option, none, some, List, [], ◌∷◌, ◌++◌, ◌==◌,
  if◌then◌else◌, length, Map, insert, erase, at, ℤ, pos,
}
use workflow_execution_engin.Domain.Value.{text_member}
use workflow_execution_engin.Domain.Workflow.{
  ArtifactType, no_artifact_type, artifact_of, Node, Edge, Worker, Budget, Workflow,
}
use workflow_execution_engin.Domain.Error.{Error, plain, wrapped, Fallible, ok, err}
use mathlib.Core.List.{foldl}
use workflow_execution_engin.Domain.Event
use workflow_execution_engin.Domain.Event.{Event}
use workflow_execution_engin.Engine.Types.{
  RunOptions, ConnectionRef, NodeOutput, unset_cache, Emission,
}
use workflow_execution_engin.Engine.Scheduler.Graph.{append_at}
use workflow_execution_engin.Engine.Scheduler.Loop.{prepare, begin_run}
pub mod Descendants
pub mod Pins

pub record Snapshot : Type 0 where
  pub workflow : Workflow
  pub budget : Budget
  pub concurrency : ℤ
  pub definition_hashes : Map String
  pub workers : Map Worker
  pub inputs : Map String
  pub connection_refs : Map ConnectionRef
  pub allow_unattended_mutations : Bool

-- the snapshot that a fresh run writes, with the inputs that it resolved
abbrev pub snapshot_of : Workflow → RunOptions → (inputs : Map String) → Snapshot
snapshot_of wf opts inputs = record {
  workflow = wf;
  budget = opts.budget;
  concurrency = opts.concurrency;
  definition_hashes = opts.definition_hashes;
  workers = opts.workers;
  inputs = inputs;
  connection_refs = opts.connection_refs;
  allow_unattended_mutations = opts.allow_unattended_mutations;
}

-- hashByNode, typeByNode and finished
pub record Progress : Type 0 where
  pub hash_by_node : Map String
  pub type_by_node : Map ArtifactType
  pub finished : Map Bool

abbrev write_some {ℓ} : {A : Type ℓ} → String → Option A → Map A → Map A
write_some k none m = m
write_some k (some v) m = insert k v m

abbrev artifact_of_text : Option String → Option ArtifactType
artifact_of_text none = none
artifact_of_text (some t) = some (artifact_of t)

unfoldable pub record_event : Progress → Event → Progress
unfolding text_member artifact_of
record_event p ev = elim ev.type [
  | Event.artifact_created ↦ record p {
    hash_by_node = write_some ev.node_id (text_member ev.payload "hash") p.hash_by_node;
    type_by_node =
        write_some ev.node_id (artifact_of_text (text_member ev.payload "type")) p.type_by_node;
  }
  | Event.worker_finished ↦ record p { finished = insert ev.node_id true p.finished }
  | _ ↦ p
]

abbrev pub progress_of : List Event → Progress
progress_of events =
    foldl record_event (record { hash_by_node = []; type_by_node = []; finished = [] }) events

-- The loop over the finished nodes.
unfoldable pub load_finished :
    (get : String → Fallible String) → Progress → Map Bool → Fallible (Map NodeOutput)
load_finished get p [] = ok []
load_finished get p ((id, b) ∷ rest) =
    let others = load_finished get p rest in
    let hash = at id "" p.hash_by_node in
    if hash == "" then others else elim (get hash) [
      | err e ↦ err (wrapped "engine: resume: reload artifact" e)
      | ok content ↦ elim others [
        | err e ↦ err e
        | ok m ↦ ok (
            insert id
              (record {
                hash = hash;
                content = content;
                type = at id no_artifact_type p.type_by_node;
              })
              m)
      ]
    ]

unfoldable pub reconstruct :
    (get : String → Fallible String)
    → Fallible Snapshot
    → Fallible (List Event)
    → Fallible (Snapshot × Map NodeOutput)
unfolding record_event load_finished
reconstruct get (err e) events = err (wrapped "engine: resume" e)
reconstruct get (ok snap) (err e) = err (wrapped "engine: resume" e)
reconstruct get (ok snap) (ok events) =
    let p = progress_of events in
    elim (load_finished get p p.finished) [ err e ↦ err e | ok m ↦ ok (snap, m) ]

abbrev pub resume_opts : (execution_id : String) → Snapshot → RunOptions
resume_opts execution_id snap = record {
  execution_id = execution_id;
  concurrency = snap.concurrency;
  budget = snap.budget;
  retry_backoff = pos 0;
  retry_backoff_max = pos 0;
  cache = unset_cache;
  definition_hashes = snap.definition_hashes;
  workers = snap.workers;
  inputs = snap.inputs;
  connection_refs = snap.connection_refs;
  allow_unattended_mutations = snap.allow_unattended_mutations;
}

unfoldable pub node_by_id : List Node → String → Option Node
node_by_id [] id = none
node_by_id (n ∷ ns) id = if n.id == id then some n else node_by_id ns id

abbrev add_child : Map (List String) → Edge → Map (List String)
add_child m e = append_at e.source e.target m

abbrev pub children_of : List Edge → Map (List String)
children_of es = foldl add_child [] es

-- The loop of descendantsInclusive; `none` where the fuel runs out.
unfoldable pub flood : ℕ → Map (List String) → (queue : List String) → Map Bool → Option (Map Bool)
flood zero children queue seen = none
flood (suc fuel) children [] seen = some seen
flood (suc fuel) children (id ∷ queue) seen =
    let skip = flood fuel children queue seen in
    let rest = flood fuel children (queue ++ at id [] children) (insert id true seen) in
    if at id false seen then skip else rest

unfoldable pub descendants_inclusive : Workflow → String → Option (Map Bool)
unfolding flood
descendants_inclusive wf start = flood (length wf.edges + 2) (children_of wf.edges) (start ∷ []) []

abbrev pub erase_all {ℓ} : {A : Type ℓ} → Map Bool → Map A → Map A
erase_all [] m = m
erase_all ((id, b) ∷ ids) m = erase_all ids (erase id m)

-- What Resume and ResumeFrom pass to run: the workflow, the options, and the nodes that are done.
abbrev pub Restart : Type 0
Restart = Workflow × RunOptions × Map NodeOutput

unfoldable pub resume : String → Fallible (Snapshot × Map NodeOutput) → Fallible Restart
resume execution_id (err e) = err e
resume execution_id (ok (snap, done)) = ok (snap.workflow, resume_opts execution_id snap, done)

-- `none` where the loop over the descendants runs out of fuel
unfoldable pub resume_from :
    String → (from_node : String) → Fallible (Snapshot × Map NodeOutput) → Option (Fallible Restart)
unfolding node_by_id descendants_inclusive
resume_from execution_id from_node (err e) = some (err e)
resume_from execution_id from_node (ok (snap, done)) =
    elim (node_by_id snap.workflow.nodes from_node) [
      | none ↦ some (err (plain "engine: resume-from: node not in workflow"))
      | some n ↦ elim (descendants_inclusive snap.workflow from_node) [
        | none ↦ none
        | some ids ↦ some (ok (snap.workflow, resume_opts execution_id snap, erase_all ids done))
      ]
    ]

-- The options of Reexecuter.Reexecute.
abbrev pub reexecute_opts : (new_execution_id : String) → Snapshot → RunOptions
reexecute_opts new_execution_id snap = record {
  execution_id = new_execution_id;
  concurrency = snap.concurrency;
  budget = snap.budget;
  retry_backoff = pos 0;
  retry_backoff_max = pos 0;
  cache = unset_cache;
  definition_hashes = [];
  workers = [];
  inputs = [];
  connection_refs = [];
  allow_unattended_mutations = false;
}

-- Reexecute, as far as run before its loop
unfoldable pub reexecute :
    (written : Option Error)
    → (new_execution_id : String) → Fallible Snapshot
    → Fallible (Map String × List Emission)
unfolding begin_run
reexecute written new_execution_id (err e) = err (wrapped "replay: reexecute" e)
reexecute written new_execution_id (ok snap) =
    prepare true written snap.workflow (reexecute_opts new_execution_id snap)
