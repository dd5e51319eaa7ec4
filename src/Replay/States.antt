-- ===== src/Replay/States.antt =====
-- The states of the nodes in a timeline: core/replay/audit.go.
use workflow_execution_engin.Prelude.{
  String, ◌≡◌, refl, sym, ap, ◌∙◌, inl, inr, Bool, true, false, ◌||◌, Option, none, some, List, [],
  ◌∷◌, map, arith, ◌==◌, eq_iff, if◌then◌else◌, Bool-cases, get_or, Map, lookup, insert, at,
  lookup-insert, ℤ, mem,
}
use mathlib.Core.Path.{subst}
use workflow_execution_engin.Domain.Value.{Float64, Fields, FloatOps}
use workflow_execution_engin.Domain.Workflow.{Node}
use workflow_execution_engin.Domain.Error.{Fallible, ok, err}
use workflow_execution_engin.Domain.Event.{EventType, Event}
use workflow_execution_engin.Domain.Event
use workflow_execution_engin.Engine.Types.{NodeState, unset, succeeded, failed, skipped, pending}
use workflow_execution_engin.Engine.Resume.{Snapshot}
use workflow_execution_engin.Replay.{
  NodeRecord, bare_record, record_at, Timeline, apply_event, collect_event, collect_events,
  any_finished, is_finished, missing_state, Totals, fill_loaded, fill_known, fill_node, and_then,
  fill_nodes, timeline_of, no_totals, audit,
}

-- what an event says about the end of its node
abbrev pub verdict : EventType → NodeState → NodeState
verdict Event.worker_finished st = succeeded
verdict Event.failure st = failed
verdict _ st = st

-- The state of a node by the events that name it: none where none does, and otherwise what the last
-- WorkerFinished or Failure among them says.
abbrev pub last_state : String → List Event → Option NodeState → Option NodeState
last_state id [] o = o
last_state id (ev ∷ evs) o =
    last_state id evs (if ev.node_id == id then some (verdict ev.type (get_or o unset)) else o)

abbrev pub ends_run : EventType → Bool
ends_run Event.execution_finished = true
ends_run _ = false

-- some event of the log is of type ExecutionFinished
abbrev pub ran_to_end : List Event → Bool
ran_to_end [] = false
ran_to_end (ev ∷ evs) = ends_run ev.type || ran_to_end evs

any_finished-ran : (evs : List Event) → any_finished evs ≡ ran_to_end evs
unfolding any_finished
any_finished-ran [] = refl
any_finished-ran (ev ∷ evs) =
    ap (λ b. b || any_finished evs) (same_end ev.type)
    ∙ ap (λ b. ends_run ev.type || b) (any_finished-ran evs)
  where
    same_end : (t : EventType) → is_finished t ≡ ends_run t
    same_end Event.execution_finished = refl
    same_end _ = refl

abbrev pub recorded : Option NodeRecord → Option NodeState
recorded none = none
recorded (some r) = some r.state

abbrev pub state_in : String → Map NodeRecord → Option NodeState
state_in id m = recorded (lookup id m)

insert-recorded :
    (k id : String) (r : NodeRecord) (m : Map NodeRecord)
    → state_in id (insert k r m) ≡ (if k == id then some r.state else state_in id m)
insert-recorded k id r m =
    ap recorded (lookup-insert k id r m)
    ∙ elim (Bool-cases (k == id)) [ inl e ↦ rw e refl | inr e ↦ rw e refl ]

recorded_or :
    (o : Option NodeRecord) → (get_or o (bare_record unset)).state ≡ get_or (recorded o) unset
recorded_or none = refl
recorded_or (some r) = refl

abbrev pub filled : Bool → NodeState → Option NodeState → Option NodeState
filled b st o = if b then some (get_or o st) else o

filled_twice :
    (a b : Bool) (st : NodeState) (o : Option NodeState)
    → filled b st (filled a st o) ≡ filled (a || b) st o
filled_twice true true st o = refl
filled_twice true false st o = refl
filled_twice false true st o = refl
filled_twice false false st o = refl

abbrev is_ok : Fallible Timeline → Bool
is_ok (ok tl) = true
is_ok (err e) = false

abbrev state_read : String → Fallible Timeline → Option NodeState
state_read id (ok tl) = state_in id tl.nodes
state_read id (err e) = none

module _ (ops : FloatOps) (to_int : Float64 → ℤ) where
  apply_event-state :
      (t : EventType) (p : Fields) (r : NodeRecord)
      → (apply_event ops to_int t p r).state ≡ verdict t r.state
  unfolding apply_event
  apply_event-state Event.execution_started p r = refl
  apply_event-state Event.execution_finished p r = refl
  apply_event-state Event.worker_started p r = refl
  apply_event-state Event.worker_finished p r = refl
  apply_event-state Event.tool_called p r = refl
  apply_event-state Event.tool_result p r = refl
  apply_event-state Event.artifact_created p r = refl
  apply_event-state Event.contract_validated p r = refl
  apply_event-state Event.contract_violation p r = refl
  apply_event-state Event.retry p r = refl
  apply_event-state Event.failure p r = refl
  apply_event-state Event.cache_hit p r = refl
  apply_event-state Event.cache_miss p r = refl
  apply_event-state Event.budget_warning p r = refl
  apply_event-state Event.budget_exceeded p r = refl
  apply_event-state Event.approval_requested p r = refl
  apply_event-state Event.approval_granted p r = refl
  apply_event-state Event.approval_rejected p r = refl
  apply_event-state Event.cancelled p r = refl
  apply_event-state (Event.other_event s) p r = refl

  record_at-state :
      (k : String) (m : Map NodeRecord)
      → (record_at ops to_int k m).state ≡ get_or (state_in k m) unset
  unfolding at
  record_at-state k m = recorded_or (lookup k m)

  collect_event-state :
      (ev : Event) (m : Map NodeRecord) (id : String)
      → (id == "") ≡ false
      → state_in id (collect_event ops to_int ev m) ≡ (
          if ev.node_id == id
          then some (verdict ev.type (get_or (state_in id m) unset))
          else state_in id m)
  unfolding collect_event
  collect_event-state ev m id n =
      let r = apply_event ops to_int ev.type ev.payload (record_at ops to_int ev.node_id m) in
      elim (Bool-cases (ev.node_id == "")) [
        | inl e ↦
            let apart : (ev.node_id == id) ≡ false =
              subst (λ j. (j == id) ≡ false) (sym ((eq_iff ev.node_id "").0 e))
                (ground (arith, n, eq_iff "" id, eq_iff id "")) in
            rw (collect_event, e, apart) refl
        | inr e ↦ elim (Bool-cases (ev.node_id == id)) [
          | inr q ↦ rw (collect_event, e, q) (insert-recorded ev.node_id id r m ∙ rw q refl)
          | inl q ↦
              let old =
                record_at-state ev.node_id m
                ∙ ap (λ j. get_or (state_in j m) unset) ((eq_iff ev.node_id id).0 q) in
              let new =
                apply_event-state ev.type ev.payload (record_at ops to_int ev.node_id m)
                ∙ ap (verdict ev.type) old in
              rw (collect_event, e, q) (insert-recorded ev.node_id id r m ∙ rw q (ap some new))
        ]
      ]

  collect_events-state :
      (evs : List Event) (m : Map NodeRecord) (id : String)
      → (id == "") ≡ false
      → state_in id (collect_events ops to_int evs m) ≡ last_state id evs (state_in id m)
  unfolding collect_events
  collect_events-state [] m id n = refl
  collect_events-state (ev ∷ evs) m id n =
      collect_events-state evs (collect_event ops to_int ev m) id n
      ∙ ap (last_state id evs) (collect_event-state ev m id n)

  -- what filling in some of the nodes does to the states
  abbrev Fills : Bool → (String → Bool) → Totals → Fallible Totals → Type 0
  Fills finished those t (err e) = Unit
  Fills finished those t (ok u) =
      (id : String)
      → state_in id u.nodes ≡ (
          if those id
          then some (get_or (state_in id t.nodes) (missing_state finished))
          else state_in id t.nodes)

  -- the record at a name, by a name that is equal
  same_state :
      (k id : String) (m : Map NodeRecord) (o : Option NodeRecord)
      → lookup k m ≡ o
      → (k == id) ≡ true
      → state_in id m ≡ recorded o
  same_state k id m o q e =
      subst (λ j. recorded (lookup j m) ≡ recorded o) ((eq_iff k id).0 e) (ap recorded q)

  fill_loaded-Fills :
      (finished : Bool) (k : String) (r : NodeRecord) (f : Fallible String) (t : Totals)
      → lookup k t.nodes ≡ some r
      → Fills finished (λ id. k == id) t (fill_loaded ops to_int k r f t)
  unfolding fill_loaded
  fill_loaded-Fills finished k r (err x) t q = tt
  fill_loaded-Fills finished k r (ok c) t q = λ id.
      insert-recorded k id (record r { content = c }) t.nodes ∙ elim (Bool-cases (k == id)) [
        | inl e ↦ rw (e, same_state k id t.nodes (some r) q e) refl
        | inr e ↦ rw e refl
      ]

  fill_node-Fills :
      (load : String → Fallible String) (finished : Bool) (k : String) (o : Option NodeRecord)
      (t : Totals)
      → lookup k t.nodes ≡ o
      → Fills finished (λ id. k == id) t (fill_node ops to_int load finished k o t)
  unfolding fill_node fill_known
  fill_node-Fills load finished k none t q = λ id.
      insert-recorded k id (bare_record (missing_state finished)) t.nodes
      ∙ elim (Bool-cases (k == id)) [
        | inl e ↦ rw (e, same_state k id t.nodes none q e) refl
        | inr e ↦ rw e refl
      ]
  fill_node-Fills load finished k (some r) t q = elim (Bool-cases (r.hash == "")) [
    | inr h ↦ rw h (fill_loaded-Fills finished k r (load r.hash) t q)
    | inl h ↦ rw h (λ id. elim (Bool-cases (k == id)) [
      | inl e ↦ rw (e, same_state k id t.nodes (some r) q e) refl
      | inr e ↦ rw e refl
    ])
  ]

  composed_Fills :
      (finished : Bool) (k : String) (ks : List String) (t u : Totals) (f : Fallible Totals)
      → ((id : String)
          → state_in id u.nodes ≡ (
              if k == id
              then some (get_or (state_in id t.nodes) (missing_state finished))
              else state_in id t.nodes))
      → Fills finished (mem ks) u f
      → Fills finished (mem (k ∷ ks)) t f
  composed_Fills finished k ks t u (err e) h g = tt
  composed_Fills finished k ks t u (ok v) h g = λ id.
      let st = missing_state finished in
      g id
      ∙ ap (filled (mem ks id) st) (h id)
      ∙ filled_twice (k == id) (mem ks id) st (state_in id t.nodes)

  joined_Fills :
      (finished : Bool) (k : String) (ks : List String) (t : Totals) (f : Fallible Totals)
      (next : Totals → Fallible Totals)
      → Fills finished (λ id. k == id) t f
      → ((u : Totals) → Fills finished (mem ks) u (next u))
      → Fills finished (mem (k ∷ ks)) t (and_then f next)
  joined_Fills finished k ks t (err e) next h g = tt
  joined_Fills finished k ks t (ok u) next h g = composed_Fills finished k ks t u (next u) h (g u)

  fill_nodes-Fills :
      (load : String → Fallible String) (finished : Bool) (ns : List Node) (t : Totals)
      → Fills finished
          (mem (map (λ (n : Node). n.id) ns))
          t
          (fill_nodes ops to_int load finished ns t)
  unfolding fill_nodes
  fill_nodes-Fills load finished [] t = λ id. refl
  fill_nodes-Fills load finished (n ∷ ns) t =
      joined_Fills finished n.id (map (λ (n : Node). n.id) ns) t
        (fill_node ops to_int load finished n.id (lookup n.id t.nodes) t)
        (fill_nodes ops to_int load finished ns)
        (fill_node-Fills load finished n.id (lookup n.id t.nodes) t refl)
        (fill_nodes-Fills load finished ns)

  timeline_of-state :
      (execution id : String) (snap : Snapshot) (events : List Event) (tl : Timeline) (t : Totals)
      (f : Fallible Totals)
      → Fills (any_finished events) (mem (map (λ (n : Node). n.id) snap.workflow.nodes)) t f
      → timeline_of execution snap events f ≡ ok tl
      → state_in id tl.nodes
        ≡ filled
            (mem (map (λ (n : Node). n.id) snap.workflow.nodes) id)
            (missing_state (any_finished events))
            (state_in id t.nodes)
  timeline_of-state execution id snap events tl t (err e) h r = absurd (ground (arith, ap is_ok r))
  timeline_of-state execution id snap events tl t (ok u) h r = sym (ap (state_read id) r) ∙ h id

  -- A read back of a log: where Audit returns a timeline, each name but "" has there the state that the
  -- last WorkerFinished or Failure event of that name says, and no state where events name it but none
  -- of these. A name that no event has stands in the timeline exactly where it is a node of the
  -- snapshot's workflow, as skipped where the log has an ExecutionFinished event and as pending
  -- otherwise.
  pub audit-states :
      (load : String → Fallible String) (execution id : String) (snap : Snapshot)
      (events : List Event) (tl : Timeline)
      → (id == "") ≡ false
      → audit ops to_int load execution (ok snap) (ok events) ≡ ok tl
      → state_in id tl.nodes
        ≡ filled
            (mem (map (λ (n : Node). n.id) snap.workflow.nodes) id)
            (if ran_to_end events then skipped else pending)
            (last_state id events none)
  unfolding audit lookup
  audit-states load execution id snap events tl n q =
      let start = no_totals (collect_events ops to_int events []) in
      timeline_of-state execution id snap events tl start
        (fill_nodes ops to_int load (any_finished events) snap.workflow.nodes start)
        (fill_nodes-Fills load (any_finished events) snap.workflow.nodes start) q
      ∙ ap
          (filled (mem (map (λ (n : Node). n.id) snap.workflow.nodes) id)
            (missing_state (any_finished events)))
          (collect_events-state events [] id n)
      ∙ ap
          (λ b.
            filled (mem (map (λ (n : Node). n.id) snap.workflow.nodes) id)
              (if b then skipped else pending) (last_state id events none))
          (any_finished-ran events)
