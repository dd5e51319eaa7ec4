-- ===== src/Engine/Node/Outcome.antt =====
-- How the result of a node agrees with the events of the log: core/engine/node.go.
use workflow_execution_engin.Prelude.{
  ℕ, suc, ◌+◌, String, ◌≡◌, refl, ap, ◌∙◌, ◌⊎◌, inl, inr, Bool, true, false, ◌&&◌, Option, none,
  some, List, [], ◌∷◌, ◌++◌, arith, ◌==◌, eq_refl, if◌then◌else◌, Bool-cases, is_some, lookup, ℤ,
  pos, ◌≤ℤ◌,
}
use workflow_execution_engin.Domain.Value.{float, int, Fields, end, field}
use workflow_execution_engin.Domain.Error.{
  approval_required, Error, is, Violation, as_violation, Fallible, ok, err,
}
use workflow_execution_engin.Domain.Event
use workflow_execution_engin.Domain.Event.{EventType}
use workflow_execution_engin.Engine.Types.{NodeResult, Emission, CacheMode}
use workflow_execution_engin.Engine.Retry.{with_retry}
use workflow_execution_engin.Engine.Retry.Bounds.{with_retry_ends}
use workflow_execution_engin.Cache.{Entry}
use workflow_execution_engin.Engine.Node.{
  NodeRequest, Services, NodeRun, note, note_all, store_result, failure_fields, finished_fields,
  artifact_fields, reads_cache, cache_key_for, after_call, call, attempt, on_retry, fail_attempts,
  store_error, note_success, remember, finish_node, hit_run, load_entry, find_entry, cache_hit,
  after_retries, run_attempts, missed, after_lookup, execute_node,
}

abbrev pub is_finished : EventType → Bool
is_finished Event.worker_finished = true
is_finished _ = false

abbrev pub is_failure : EventType → Bool
is_failure Event.failure = true
is_failure _ = false

-- the last event is of a node and passes a test
abbrev pub last_is : (EventType → Bool) → String → List Emission → Bool
last_is p id [] = false
last_is p id (e ∷ []) = p e.type && (e.node_id == id)
last_is p id (e ∷ f ∷ es) = last_is p id (f ∷ es)

last_is-append :
    (p : EventType → Bool) (id : String) (es : List Emission) (e : Emission)
    → last_is p id (es ++ (e ∷ [])) ≡ (p e.type && (e.node_id == id))
last_is-append p id [] e = refl
last_is-append p id (x ∷ []) e = refl
last_is-append p id (x ∷ y ∷ es) e = last_is-append p id (y ∷ es) e

-- the result of a node and the end of its events
abbrev pub Agrees : String → NodeRun × Fallible NodeResult → Type 0
Agrees id (s, ok res) = last_is is_finished id s.emitted ≡ true
Agrees id (s, err e) = is approval_required e ≡ false → last_is is_failure id s.emitted ≡ true

abbrev pub IfSome : {A : Type 0} → (A → Type 0) → Option A → Type 0
IfSome P none = Unit
IfSome P (some x) = P x

noted :
    (p : EventType → Bool) (id : String) (t : EventType) (fields : Fields) (s : NodeRun)
    → p t ≡ true
    → last_is p id (note id t fields s).emitted ≡ true
noted p id t fields s h =
    last_is-append p id s.emitted (record { type = t; node_id = id; payload = fields })
    ∙ rw h (eq_refl id)

module _ (sv : Services) where
  remember-emitted :
      (mode : CacheMode) (key : String) (res : NodeResult) (s : NodeRun)
      → (remember sv mode key res s).emitted ≡ s.emitted
  remember-emitted mode key res s = ground arith

  fail_attempts-Agrees :
      (id : String) (e : Error) (s : NodeRun) → Agrees id (fail_attempts sv id e s)
  unfolding fail_attempts
  fail_attempts-Agrees id e s =
      let fields = failure_fields sv id e in
      elim (Bool-cases (is approval_required e)) [
        | inl a ↦ rw a (λ h. cc)
        | inr n ↦ rw n (elim (Bool-cases (is_some (as_violation e))) [
          | inl v ↦ rw v (λ h.
              noted is_failure id Event.failure fields (note id Event.contract_violation fields s)
                refl)
          | inr w ↦ rw w (λ h. noted is_failure id Event.failure fields s refl)
        ])
      ]

  store_result-Agrees :
      (mode : CacheMode) (key id : String) (s : NodeRun) (r : Fallible String)
      → Agrees id (store_result sv mode key id s r)
  unfolding store_result
  store_result-Agrees mode key id s (err e) =
      λ h. noted is_failure id Event.failure (failure_fields sv id (store_error sv id e)) s refl
  store_result-Agrees mode key id s (ok hash) =
      let res = record s.res { hash = hash } in
      let s' = if res.validated then note id Event.contract_validated end s else s in
      ap (last_is is_finished id) (remember-emitted mode key res (note_success sv id res s))
      ∙ noted is_finished id Event.worker_finished (finished_fields res)
          (note id Event.artifact_created (artifact_fields sv res.hash res.type) s') refl

  finish_node-Agrees :
      (mode : CacheMode) (key id : String) (s : NodeRun) (e : Option Error)
      → Agrees id (finish_node sv mode key id s e)
  unfolding finish_node
  finish_node-Agrees mode key id s (some e) = fail_attempts-Agrees id e s
  finish_node-Agrees mode key id s none = store_result-Agrees mode key id s (sv.put s.res.content)

  -- what the result of a lookup means
  abbrev HitAgrees : String → (NodeRun × NodeResult) ⊎ Option Fields → Type 0
  HitAgrees id (inl (s, res)) = last_is is_finished id s.emitted ≡ true
  HitAgrees id (inr fields) = Unit

  load_entry-HitAgrees :
      (id key : String) (s : NodeRun) (entry : Entry) (r : Fallible String)
      → HitAgrees id (load_entry sv id key s entry r)
  unfolding load_entry
  load_entry-HitAgrees id key s entry (err e) = tt
  load_entry-HitAgrees id key s entry (ok content) =
      noted is_finished id Event.worker_finished
        (field "costUsd" (float 0) (field "tokens" (int (pos 0)) end))
        (hit_run sv id (record entry { key = key }) s) refl

  find_entry-HitAgrees :
      (id key : String) (s : NodeRun) (o : Option Entry) → HitAgrees id (find_entry sv id key s o)
  unfolding find_entry
  find_entry-HitAgrees id key s none = tt
  find_entry-HitAgrees id key s (some entry) =
      load_entry-HitAgrees id key s entry (sv.get entry.artifact_hash)

  lookup-HitAgrees :
      (b : Bool) (id key : String) (s : NodeRun)
      → HitAgrees id (if b then cache_hit sv id key s else inr none)
  unfolding cache_hit
  lookup-HitAgrees true id key s = find_entry-HitAgrees id key s (lookup key s.cache)
  lookup-HitAgrees false id key s = tt

  module _ (fuel : ℕ) (max_retries : ℤ) (backoff : ℕ → ℤ) (interrupted : ℕ → ℤ → Option Error)
      (mode : CacheMode) (req : NodeRequest) (id : String) where
    after_retries-Agrees :
        (key : String) (o : Option (NodeRun × Option Error))
        → IfSome
            (Agrees id)
            (after_retries sv fuel max_retries backoff interrupted mode req id key o)
    unfolding after_retries
    after_retries-Agrees key none = tt
    after_retries-Agrees key (some (s, e)) = finish_node-Agrees mode key id s e

    run_attempts-Agrees :
        (key : String) (s : NodeRun)
        → IfSome
            (Agrees id)
            (run_attempts sv fuel max_retries backoff interrupted mode req id key s)
    unfolding run_attempts
    run_attempts-Agrees key s =
        after_retries-Agrees key
          (with_retry max_retries backoff (attempt sv req id) (on_retry sv id) interrupted fuel s)

    after_lookup-Agrees :
        (key : String) (s : NodeRun) (l : (NodeRun × NodeResult) ⊎ Option Fields)
        → HitAgrees id l
        → IfSome
            (Agrees id)
            (after_lookup sv fuel max_retries backoff interrupted mode req id key s l)
    unfolding after_lookup
    after_lookup-Agrees key s (inl (s', res)) h = h
    after_lookup-Agrees key s (inr fields) h =
        run_attempts-Agrees key
          (missed sv fuel max_retries backoff interrupted mode req id key fields s)

    execute_node-Agrees :
        (s : NodeRun)
        → IfSome (Agrees id) (execute_node sv fuel max_retries backoff interrupted mode req id s)
    unfolding execute_node
    execute_node-Agrees s =
        let key = cache_key_for sv mode req.node req.inputs req.workflow_inputs in
        let s' = note id Event.worker_started end s in
        elim (Bool-cases (key == "")) [
          | inl b ↦ rw b (run_attempts-Agrees key s')
          | inr b ↦ rw b (
              after_lookup-Agrees key s'
                (if reads_cache mode then cache_hit sv id key s' else inr none)
                (lookup-HitAgrees (reads_cache mode) id key s'))
        ]

  after_call_err :
      (r : Fallible NodeResult) (s : NodeRun) (e : Error)
      → (after_call sv r s).1 ≡ some e
      → r ≡ err e
  unfolding after_call
  after_call_err (ok res) s e h = cc
  after_call_err (err e') s e h = cc

  module _ (max_transient contract_bound : ℕ) (backoff : ℕ → ℤ) (interrupted : ℕ → ℤ → Option Error)
      (bounded : (req : NodeRequest) (n : ℕ) (e : Error) (v : Violation)
        → (sv.execute req n).1 ≡ err e
        → as_violation e ≡ some v
        → v.max_retries ≤ℤ pos contract_bound)
      (mode : CacheMode) (req : NodeRequest) (id : String) where
    abbrev pub fuel : ℕ
    fuel = suc (max_transient + contract_bound)

    attempts_end :
        (s : NodeRun)
        → (r : NodeRun × Option Error) × (with_retry
              (pos max_transient)
              backoff
              (attempt sv req id)
              (on_retry sv id)
              interrupted
              fuel
              s
            ≡ some r)
    unfolding attempt
    attempts_end s =
        with_retry_ends max_transient contract_bound backoff (attempt sv req id) (on_retry sv id)
          interrupted
          (λ t e v h.
            bounded (record req { retry_feedback = t.feedback }) t.calls e v
              (after_call_err (call sv req t).1
                (note_all id (call sv req t).0 (record t { calls = suc t.calls })) e h))
          s

    run_attempts_end :
        (key : String) (s : NodeRun)
        → is_some (run_attempts sv fuel (pos max_transient) backoff interrupted mode req id key s)
          ≡ true
    unfolding run_attempts after_retries
    run_attempts_end key s = let (r, e) = attempts_end s in rw e refl

    after_lookup_end :
        (key : String) (s : NodeRun) (l : (NodeRun × NodeResult) ⊎ Option Fields)
        → is_some (after_lookup sv fuel (pos max_transient) backoff interrupted mode req id key s l)
          ≡ true
    unfolding after_lookup
    after_lookup_end key s (inl (s', res)) = refl
    after_lookup_end key s (inr fields) =
        run_attempts_end key
          (missed sv fuel (pos max_transient) backoff interrupted mode req id key fields s)

    execute_node_end :
        (s : NodeRun)
        → is_some (execute_node sv fuel (pos max_transient) backoff interrupted mode req id s)
          ≡ true
    unfolding execute_node
    execute_node_end s =
        let key = cache_key_for sv mode req.node req.inputs req.workflow_inputs in
        let s' = note id Event.worker_started end s in
        elim (Bool-cases (key == "")) [
          | inl b ↦ rw b (run_attempts_end key s')
          | inr b ↦ rw b (
              after_lookup_end key s'
                (if reads_cache mode then cache_hit sv id key s' else inr none))
        ]

    some-Agrees :
        (o : Option (NodeRun × Fallible NodeResult))
        → is_some o ≡ true
        → IfSome (Agrees id) o
        → (r : NodeRun × Fallible NodeResult) × (o ≡ some r) × Agrees id r
    some-Agrees none p h = cc
    some-Agrees (some r) p h = (r, refl, h)

    -- Where no contract asks for more than `contract_bound` retries, a node ends within the fuel, and
    -- its log ends as it did: after a result, from the cache or from the executor, the last event is
    -- the node's WorkerFinished; after an error, other than one that waits for an approval, it is its
    -- Failure.
    pub execute_node_ends :
        (s : NodeRun)
        → (r : NodeRun × Fallible NodeResult) × (execute_node sv fuel
              (pos max_transient)
              backoff
              interrupted
              mode
              req
              id
              s
            ≡ some r)
          × Agrees id r
    execute_node_ends s =
        some-Agrees (execute_node sv fuel (pos max_transient) backoff interrupted mode req id s)
          (execute_node_end s)
          (execute_node-Agrees fuel (pos max_transient) backoff interrupted mode req id s)
