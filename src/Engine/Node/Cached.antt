-- ===== src/Engine/Node/Cached.antt =====
-- What a cache entry saves: cacheHit of core/engine/node.go.
use workflow_execution_engin.Prelude.{
  ℕ, String, ◌≡◌, refl, ap, ◌∙◌, ◌≢◌, inl, true, false, Option, some, arith, ◌==◌, eq_iff, lookup,
  ℤ, pos,
}
use workflow_execution_engin.Domain.Value.{float, int, end, field}
use workflow_execution_engin.Domain.Error.{Error, ok}
use workflow_execution_engin.Domain.Event
use workflow_execution_engin.Engine.Types.{NodeResult, CacheMode}
use workflow_execution_engin.Cache.{Entry}
use workflow_execution_engin.Engine.Node.{
  NodeRequest, Services, NodeRun, note, no_result, reads_cache, cache_key_for, hit_run, load_entry,
  find_entry, cache_hit, after_lookup, execute_node,
}

-- the result of a hit
abbrev pub cached_result : Entry → String → NodeResult
cached_result entry content = record no_result {
  content = content;
  type = entry.artifact_type;
  hash = entry.artifact_hash;
}

module _ (sv : Services) where
  abbrev hit : String → String → Entry → String → NodeRun → NodeRun × NodeResult
  hit id key entry content s = (
    note id Event.worker_finished (field "costUsd" (float 0) (field "tokens" (int (pos 0)) end))
        (hit_run sv id (record entry { key = key }) s),
    cached_result entry content,
  )

  cache_hit-found :
      (id key : String) (entry : Entry) (content : String) (s : NodeRun)
      → lookup key s.cache ≡ some entry
      → sv.get entry.artifact_hash ≡ ok content
      → cache_hit sv id key s ≡ inl (hit id key entry content s)
  unfolding cache_hit find_entry load_entry
  cache_hit-found id key entry content s e p =
      ap (find_entry sv id key s) e ∙ ap (load_entry sv id key s entry) p

  module _ (fuel : ℕ) (max_retries : ℤ) (backoff : ℕ → ℤ) (interrupted : ℕ → ℤ → Option Error)
      (mode : CacheMode) (req : NodeRequest) (id : String) where
    -- With a mode that reads the cache, a node whose key has an entry whose artifact is stored
    -- returns that artifact at no cost: the executor is not called, and the cache stays as it was.
    pub execute_node_hit :
        (s : NodeRun) (key : String) (entry : Entry) (content : String)
        → reads_cache mode ≡ true
        → cache_key_for sv mode req.node req.inputs req.workflow_inputs ≡ key
        → key ≢ ""
        → lookup key s.cache ≡ some entry
        → sv.get entry.artifact_hash ≡ ok content
        → (t : NodeRun) × (execute_node sv fuel max_retries backoff interrupted mode req id s
            ≡ some (t, ok (cached_result entry content)))
          × (t.calls ≡ s.calls)
          × (t.cache ≡ s.cache)
    unfolding execute_node after_lookup
    execute_node_hit s key entry content m k n e p =
        let s' = note id Event.worker_started end s in
        let t = (hit id key entry content s').0 in
        (
          t,
          rw (k, named, m)
              (ap (after_lookup sv fuel max_retries backoff interrupted mode req id key s')
                (cache_hit-found id key entry content s' e p)),
          refl,
          refl,
        )
      where
        named : (key == "") ≡ false
        named = ground (arith, eq_iff key "")
