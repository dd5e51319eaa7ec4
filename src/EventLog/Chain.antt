-- ===== src/EventLog/Chain.antt =====
-- What the hash chain of core/eventlog promises.
use workflow_execution_engin.Prelude.{
  ℕ, suc, String, ◌≡◌, ◌≢◌, inl, inr, Bool, true, false, Option, none, some, List, [], ◌∷◌, ◌++◌,
  arith, ◌==◌, eq_iff, if◌then◌else◌, Option-cases, lookup, insert, at,
}
use workflow_execution_engin.Domain.Error.{Error, Fallible, ok, err}
use workflow_execution_engin.Domain.Event.{Event}
use workflow_execution_engin.EventLog.{Codec, Log, intact, too_long, snapshot_hash, verify_lines}

module _ (c : Codec) where
  -- A line that the log can read back: what package encoding/json promises of an event of less than
  -- the largest size.
  pub record IsLine (line : String) (ev : Event) : Type 0 where
    pub fits : too_long c line ≡ false
    pub trimmed : c.trim line ≡ line
    pub filled : (line == "") ≡ false
    pub decoded : c.decode line ≡ some ev

  -- the hash that the chain has reached after some lines
  abbrev pub chain_end : String → List String → String
  chain_end prev [] = prev
  chain_end prev (line ∷ lines) =
      let raw = c.trim line in
      if raw == "" then chain_end prev lines else chain_end (c.hash raw) lines

  -- the events that are read, and one more
  abbrev pub and_event : Fallible (List Event) → Event → Fallible (List Event)
  and_event (err e) ev = err e
  and_event (ok evs) ev = ok (evs ++ (ev ∷ []))

  abbrev is_ok : Fallible (List Event) → Bool
  is_ok (ok evs) = true
  is_ok (err e) = false

  -- The log of an execution ends in a whole line and verifies, and the cached head, if there is one,
  -- is the end of its chain.
  pub record IsChained (l : Log) (id : String) : Type 0 where
    pub whole : at id false l.torn ≡ false
    pub sound : verify_lines c 0 (snapshot_hash c l id) (at id [] l.files) ≡ intact
    pub head :
        (h : String)
        → lookup id l.heads ≡ some h
        → h ≡ chain_end (snapshot_hash c l id) (at id [] l.files)

  abbrev pub next_hash : Log → String → String
  next_hash l id = chain_end (snapshot_hash c l id) (at id [] l.files)

  -- the hash that a line records of the one before it
  abbrev pub recorded : String → Option String
  recorded line = elim (c.decode (c.trim line)) [ none ↦ none | some ev ↦ some ev.prev_hash ]

  verify_lines-recorded :
      (n : ℕ) (prev : String) (before : List String) (next : String) (rest : List String)
      → verify_lines c n prev (before ++ (next ∷ rest)) ≡ intact
      → (c.trim next == "") ≡ false
      → recorded next ≡ some (chain_end prev before)
  unfolding verify_lines
  verify_lines-recorded n prev [] next rest h f = elim (Option-cases (c.decode (c.trim next))) [
    | inl d ↦ ground arith
    | inr (ev, d) ↦ ground (arith, eq_iff ev.prev_hash prev)
  ]
  verify_lines-recorded n prev (l ∷ before) next rest h f = ground (
    arith,
    verify_lines-recorded n prev before next rest,
    verify_lines-recorded (suc n) (c.hash (c.trim l)) before next rest,
  )

  -- Two logs that go on with the same line after stretches that end in different hashes are not both
  -- intact: an edit, a deletion or a reordering of lines is found at the next line that was recorded
  -- after it, unless the hashes collide.
  pub verify_lines-tampered :
      (prev : String) (before before' : List String) (next : String) (rest rest' : List String)
      → (c.trim next == "") ≡ false
      → chain_end prev before ≢ chain_end prev before'
      → verify_lines c 0 prev (before ++ (next ∷ rest)) ≡ intact
      → verify_lines c 0 prev (before' ++ (next ∷ rest')) ≢ intact
  verify_lines-tampered prev before before' next rest rest' f d h h' =
      let a = verify_lines-recorded 0 prev before next rest h f in
      let b = verify_lines-recorded 0 prev before' next rest' h' f in d cc

  -- a write to a file that ends in a whole line
  abbrev add_line : String → String → Log → Log
  add_line id line l = record l {
    files = insert id (at id [] l.files ++ (line ∷ [])) l.files;
    torn = insert id false l.torn;
    heads = insert id (c.hash line) l.heads;
  }

  -- the event as it is written
  abbrev pub chained : Log → String → Event → Event
  chained l id ev = record ev { prev_hash = next_hash l id }
