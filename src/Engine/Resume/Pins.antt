-- ===== src/Engine/Resume/Pins.antt =====
-- What a restarted run takes from its snapshot, and what it leaves out.
use workflow_execution_engin.Prelude.{
  String, ◌≡◌, refl, ap, Bool, true, false, Option, none, List, [], Map, lookup,
}
use workflow_execution_engin.Domain.Workflow.{Workflow}
use workflow_execution_engin.Domain.Error.{missing_input, Error, is, Fallible, ok, err}
use workflow_execution_engin.Engine.Types.{RunOptions, Emission}
use workflow_execution_engin.Engine.Inputs.{resolve_workflow_inputs}
use workflow_execution_engin.Engine.Inputs.Laws.{needs, defaults, resolve_workflow_inputs_missing}
use workflow_execution_engin.Engine.Inputs.Again.{resolve_workflow_inputs_again}
use workflow_execution_engin.Engine.Scheduler.Loop.{prepare, begin_run}
use workflow_execution_engin.Engine.Resume.{Snapshot, snapshot_of, resume_opts, reexecute}

begin_run_inputs :
    (fresh : Bool) (wf : Workflow) (r : Fallible (Map String)) (inputs : Map String)
    (es : List Emission)
    → begin_run fresh none wf r ≡ ok (inputs, es)
    → r ≡ ok inputs
unfolding begin_run
begin_run_inputs fresh wf (err e) inputs es h = cc
begin_run_inputs true wf (ok m) inputs es h = cc
begin_run_inputs false wf (ok m) inputs es h = cc

-- A resumed run sees the inputs that the original run resolved: where a run got past its inputs, a
-- resume from the snapshot that it wrote does too, with the same values, and emits no event of a
-- start.
pub resume_inputs :
    (id : String) (wf : Workflow) (opts : RunOptions) (inputs : Map String) (es : List Emission)
    → prepare true none wf opts ≡ ok (inputs, es)
    → prepare false none wf (resume_opts id (snapshot_of wf opts inputs)) ≡ ok (inputs, [])
unfolding begin_run
resume_inputs id wf opts inputs es h = ap (begin_run false none wf) (
    resolve_workflow_inputs_again wf.inputs opts.inputs inputs
      (begin_run_inputs true wf (resolve_workflow_inputs wf.inputs opts.inputs) inputs es h))

-- A recorded run of a workflow that has a required input without a default is never run again by
-- Reexecute, whatever values the record holds: it stops with ErrMissingInput.
pub reexecute_missing :
    (written : Option Error) (id : String) (snap : Snapshot) (n : String)
    → needs n snap.workflow.inputs ≡ true
    → defaults n snap.workflow.inputs ≡ false
    → (e : Error) × (reexecute written id (ok snap) ≡ err e) × (is missing_input e ≡ true)
unfolding reexecute begin_run is lookup
reexecute_missing written id snap n r d =
    let (e, p, m) = resolve_workflow_inputs_missing n snap.workflow.inputs [] refl r d in
    (_, ap (begin_run true written snap.workflow) p, m)
