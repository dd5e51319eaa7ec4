-- ===== src/Engine/Node.antt =====
-- core/engine/node.go: one node, with its cache entry, its retries, its artifact and its events. The
-- executor, the artifact store, the cache key and the text of an error are parameters, and so is the
-- time at which a context ends. The cache is the index of core/cache/store.go, once it is loaded.
use workflow_execution_engin.Prelude.{
  ℕ, suc, String, ◌⊎◌, inl, inr, Bool, true, false, not, ◌&&◌, Option, none, some, List, [], ◌∷◌,
  ◌++◌, ◌==◌, leb, if◌then◌else◌, is_some, get_or, length, Map, lookup, insert, ℤ, pos,
}
use workflow_execution_engin.Domain.Value.{
  float, int, text, array, object, Items, nil, cons, Fields, end, field,
}
use workflow_execution_engin.Domain.Workflow.{ArtifactType, no_artifact_type, artifact_text, Node}
use workflow_execution_engin.Domain.Error.{
  approval_required, kind_cache, kind_artifact, Error, wrapped, contract_violation, is, Violation,
  as_violation, Fallible, ok, err,
}
use workflow_execution_engin.Domain.Diagnostic.{wrap, payload}
use workflow_execution_engin.Domain.Event
use workflow_execution_engin.Domain.Event.{EventType}
use workflow_execution_engin.Engine.Types.{
  NodeInput, NodeResult, ConnectionRef, Emission, CacheMode, unset_cache, cache_on, cache_off,
  cache_read_only,
}
use workflow_execution_engin.Engine.Approval.{ApprovalRecord}
use workflow_execution_engin.Engine.Retry.{with_retry}
pub mod Outcome
pub mod Cached
use workflow_execution_engin.Cache.{Entry}

pub record NodeRequest : Type 0 where
  pub node : Node
  pub inputs : List NodeInput
  pub retry_feedback : String
  pub workflow_inputs : Map String
  pub connection_refs : Map ConnectionRef
  pub execution_id : String
  pub approvals : Map ApprovalRecord
  pub allow_unattended_mutations : Bool

-- What a node needs from its surroundings. `execute req n` is the n-th call of the executor in this
-- run of the node, with the events that it emits; `key_of` is none where the executor is no
-- CacheKeyer or the node is not cacheable; `has_cache` says whether a cache is wired.
pub record Services : Type 0 where
  pub describe : Error → String
  pub execute : NodeRequest → ℕ → List (EventType × Fields) × Fallible NodeResult
  pub put : String → Fallible String
  pub get : String → Fallible String
  pub key_of : Node → List NodeInput → Map String → Option String
  pub has_cache : Bool
  pub now : String

pub record NodeRun : Type 0 where
  pub emitted : List Emission
  pub feedback : String
  pub calls : ℕ
  pub res : NodeResult
  pub cache : Map Entry

abbrev pub no_result : NodeResult
no_result = record {
  content = "";
  type = no_artifact_type;
  mime_type = "";
  cost_usd = 0;
  tokens = pos 0;
  hash = "";
  validated = false;
  context_hashes = [];
}

abbrev pub note : String → EventType → Fields → NodeRun → NodeRun
note id t fields s = record s {
  emitted = s.emitted ++ (record { type = t; node_id = id; payload = fields } ∷ []);
}

pub note_all : String → List (EventType × Fields) → NodeRun → NodeRun
note_all id [] s = s
note_all id ((t, fields) ∷ es) s = note_all id es (note id t fields s)

abbrev pub reads_cache : CacheMode → Bool
reads_cache cache_on = true
reads_cache cache_read_only = true
reads_cache _ = false

abbrev pub writes_cache : CacheMode → Bool
writes_cache cache_on = true
writes_cache _ = false

-- normalizeCacheMode
unfoldable pub normalize_cache_mode : (has_cache : Bool) → CacheMode → CacheMode
normalize_cache_mode false m = cache_off
normalize_cache_mode true unset_cache = cache_on
normalize_cache_mode true m = m

pub texts : List String → Items
texts [] = nil
texts (s ∷ ss) = cons (text s) (texts ss)

-- the payload of WorkerFinished
abbrev pub finished_fields : NodeResult → Fields
finished_fields res = field "costUsd" (float res.cost_usd) (
    field "tokens" (int res.tokens) (
      if leb (length res.context_hashes) 0
      then end
      else field "contextHashes" (array (texts res.context_hashes)) end))

module _ (sv : Services) where
  -- cacheKeyFor, where "" is no key
  unfoldable pub cache_key_for : CacheMode → Node → List NodeInput → Map String → String
  cache_key_for cache_off node inputs wf_inputs = ""
  cache_key_for mode node inputs wf_inputs =
      if sv.has_cache then get_or (sv.key_of node inputs wf_inputs) "" else ""

  abbrev pub failure_fields : String → Error → Fields
  failure_fields id e =
      field "error" (text (sv.describe e))
        (field "diagnostic" (object (payload sv.describe e id)) end)

  abbrev keep_feedback : Option Violation → NodeRun → NodeRun
  keep_feedback none s = s
  keep_feedback (some v) s = record s { feedback = v.feedback }

  unfoldable pub after_call : Fallible NodeResult → NodeRun → NodeRun × Option Error
  after_call (ok res) s = (record s { res = res }, none)
  after_call (err e) s = (keep_feedback (as_violation e) s, some e)

  abbrev pub call : NodeRequest → NodeRun → List (EventType × Fields) × Fallible NodeResult
  call req s = sv.execute (record req { retry_feedback = s.feedback }) s.calls

  -- One call of the function that withRetry repeats.
  unfoldable pub attempt : NodeRequest → String → NodeRun → NodeRun × Option Error
  unfolding note_all after_call
  attempt req id s =
      after_call (call req s).1 (note_all id (call req s).0 (record s { calls = suc s.calls }))

  unfoldable pub on_retry : String → ℕ → Error → NodeRun → NodeRun
  on_retry id n e s =
      note id Event.retry
        (field "attempt" (int (pos n)) (
          field "reason" (text (sv.describe e))
            (field "diagnostic" (object (payload sv.describe e id)) end)))
        s

  -- A failure for good: the events, but none for a run that waits for an approval.
  unfoldable pub fail_attempts : String → Error → NodeRun → NodeRun × Fallible NodeResult
  fail_attempts id e s =
      if is approval_required e
      then (s, err e)
      else if is_some (as_violation e)
      then (
        note id Event.failure (failure_fields id e)
            (note id Event.contract_violation (failure_fields id e) s),
        err e,
      )
      else (note id Event.failure (failure_fields id e) s, err e)

  abbrev pub store_error : String → Error → Error
  store_error id e =
      wrap (wrapped "store node artifact" e) kind_artifact "artifact_store_failed" id "artifact.put"
        "artifact could not be persisted"
        "reduce output size or check workspace storage permissions"

  abbrev pub artifact_fields : String → ArtifactType → Fields
  artifact_fields hash t = field "hash" (text hash) (field "type" (text (artifact_text t)) end)

  -- the events of a node whose artifact is stored
  abbrev note_success : String → NodeResult → NodeRun → NodeRun
  note_success id res s =
      let s' = if res.validated then note id Event.contract_validated end s else s in
      note id Event.worker_finished (finished_fields res)
        (note id Event.artifact_created (artifact_fields res.hash res.type) s')

  -- s.cache.Put: the error is dropped
  abbrev remember : CacheMode → String → NodeResult → NodeRun → NodeRun
  remember mode key res s =
      if not (key == "") && writes_cache mode
      then record s {
        cache =
            insert key
              (record {
                key = key;
                artifact_hash = res.hash;
                artifact_type = res.type;
                cost_usd = res.cost_usd;
                tokens = res.tokens;
                created_at = sv.now;
              })
              s.cache;
      }
      else s

  -- what follows the write of the artifact
  unfoldable pub store_result :
      CacheMode → (key id : String) → NodeRun → Fallible String → NodeRun × Fallible NodeResult
  unfolding artifact_text texts
  store_result mode key id s (err e) =
      (note id Event.failure (failure_fields id (store_error id e)) s, err (store_error id e))
  store_result mode key id s (ok hash) =
      let res = record s.res { hash = hash } in
      (remember mode key res (note_success id res s), ok res)

  -- What follows the attempts.
  unfoldable pub finish_node :
      CacheMode → (key id : String) → NodeRun → Option Error → NodeRun × Fallible NodeResult
  unfolding fail_attempts store_result
  finish_node mode key id s (some e) = fail_attempts id e s
  finish_node mode key id s none = store_result mode key id s (sv.put s.res.content)

  -- the result of a hit with its events, or the payload of the miss
  abbrev pub Lookup : Type 0
  Lookup = (NodeRun × NodeResult) ⊎ Option Fields

  abbrev pub hit_run : (id : String) → Entry → NodeRun → NodeRun
  hit_run id entry s =
      note id Event.artifact_created (artifact_fields entry.artifact_hash entry.artifact_type) (
        note id Event.cache_hit
          (field "key" (text entry.key) (
            field "savedCostUsd" (float entry.cost_usd)
              (field "savedTokens" (int entry.tokens) end)))
          s)

  -- the entry, with what the store says of its artifact
  unfoldable pub load_entry : (id key : String) → NodeRun → Entry → Fallible String → Lookup
  unfolding artifact_text
  load_entry id key s entry (err e) =
      let e' =
        wrap e kind_cache "cache_artifact_missing" id "cache.hit"
          "cache entry referenced an artifact that is no longer stored"
          "clear this cache entry or rerun the node to refresh it" in
      inr (
        some (
          field "key" (text key) (
            field "artifact" (text entry.artifact_hash)
              (field "diagnostic" (object (payload sv.describe e' id)) end))))
  load_entry id key s entry (ok content) = inl (
    note id Event.worker_finished (field "costUsd" (float 0) (field "tokens" (int (pos 0)) end))
        (hit_run id (record entry { key = key }) s),
    record no_result { content = content; type = entry.artifact_type; hash = entry.artifact_hash },
  )

  unfoldable pub find_entry : (id key : String) → NodeRun → Option Entry → Lookup
  unfolding load_entry
  find_entry id key s none = inr none
  find_entry id key s (some entry) = load_entry id key s entry (sv.get entry.artifact_hash)

  unfoldable pub cache_hit : (id key : String) → NodeRun → Lookup
  unfolding find_entry
  cache_hit id key s = find_entry id key s (lookup key s.cache)

  module _ (fuel : ℕ) (max_retries : ℤ) (backoff : ℕ → ℤ) (interrupted : ℕ → ℤ → Option Error)
      (mode : CacheMode) (req : NodeRequest) (id : String) where
    unfoldable pub after_retries :
        (key : String) → Option (NodeRun × Option Error) → Option (NodeRun × Fallible NodeResult)
    unfolding finish_node
    after_retries key none = none
    after_retries key (some (s', e)) = some (finish_node mode key id s' e)

    -- the attempts and what follows them; `none` where the fuel runs out
    unfoldable pub run_attempts : (key : String) → NodeRun → Option (NodeRun × Fallible NodeResult)
    unfolding with_retry attempt on_retry after_retries
    run_attempts key s =
        after_retries key
          (with_retry max_retries backoff (attempt req id) (on_retry id) interrupted fuel s)

    abbrev pub missed : String → Option Fields → NodeRun → NodeRun
    missed key none s = note id Event.cache_miss (field "key" (text key) end) s
    missed key (some fields) s = note id Event.cache_miss fields s

    unfoldable pub after_lookup : String → NodeRun → Lookup → Option (NodeRun × Fallible NodeResult)
    unfolding run_attempts
    after_lookup key s (inl (s', res)) = some (s', ok res)
    after_lookup key s (inr fields) = run_attempts key (missed key fields s)

    unfoldable pub execute_node : NodeRun → Option (NodeRun × Fallible NodeResult)
    unfolding after_lookup cache_key_for cache_hit
    execute_node s =
        let key = cache_key_for mode req.node req.inputs req.workflow_inputs in
        let s' = note id Event.worker_started end s in
        if key == ""
        then run_attempts key s'
        else after_lookup key s' (if reads_cache mode then cache_hit id key s' else inr none)
