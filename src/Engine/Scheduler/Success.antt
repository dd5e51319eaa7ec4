-- ===== src/Engine/Scheduler/Success.antt =====
-- Which runs succeed, by the states that the loop of core/engine/scheduler.go leaves.
use workflow_execution_engin.Prelude.{
  String, ◌≡◌, refl, sym, ap, ◌∙◌, ◌↔◌, inl, inr, Bool, true, false, not, ◌&&◌, ◌||◌, none, some,
  List, [], ◌∷◌, map, arith, ◌==◌, eq_iff, eq_refl, if◌then◌else◌, Bool-cases, is_some, Map, lookup,
  insert, at, at-insert, mem, is_distinct,
}
use mathlib.Core.Path.{subst}
use workflow_execution_engin.Domain.Event.{execution_succeeded}
use workflow_execution_engin.Engine.Types.{NodeState, unset, pending, failed, skipped, is_pending}
use workflow_execution_engin.Engine.Scheduler.Graph.{Graph}
use workflow_execution_engin.Engine.Scheduler.Coordinator.{Coordinator, state_of}
use workflow_execution_engin.Engine.Scheduler.Loop.{skip_one, skip_unused, finalize}
use workflow_execution_engin.Engine.Scheduler.Verdict.{any_state, is_open, finalize_closed}

abbrev pub names : Map NodeState → List String
names m = map (λ (e : String × NodeState). e.0) m

mem-insert :
    (k x : String) (st : NodeState) (m : Map NodeState)
    → mem (names (insert k st m)) x ≡ ((k == x) || mem (names m) x)
unfolding insert
mem-insert k x st [] = refl
mem-insert k x st ((j, w) ∷ m) =
    ground (arith, mem-insert k x st m, eq_iff j k, eq_iff j x, eq_iff k x)

insert_distinct :
    (k : String) (st : NodeState) (m : Map NodeState)
    → is_distinct (names (insert k st m)) ≡ is_distinct (names m)
unfolding insert
insert_distinct k st [] = refl
insert_distinct k st ((j, w) ∷ m) =
    ground (arith, insert_distinct k st m, mem-insert k j st m, eq_iff j k, eq_iff k j)

any_state-at :
    (id : String) (m : Map NodeState)
    → any_state is_open m ≡ false
    → is_open (at id unset m) ≡ false
unfolding at lookup
any_state-at id [] h = refl
any_state-at id ((j, w) ∷ m) h = ground (arith, any_state-at id m)

at_absent : (id : String) (m : Map NodeState) → mem (names m) id ≡ false → at id unset m ≡ unset
unfolding at lookup
at_absent id [] h = refl
at_absent id ((j, w) ∷ m) h = ground (arith, at_absent id m)

at-any_state :
    (m : Map NodeState)
    → is_distinct (names m) ≡ true
    → ((id : String) → is_open (at id unset m) ≡ false)
    → any_state is_open m ≡ false
unfolding at lookup
at-any_state [] d h = refl
at-any_state ((j, w) ∷ m) d h = ground (
  arith,
  h j,
  eq_refl j,
  at-any_state m (ground (arith, d)) (λ id. closed id (ground (arith, d)) (h id)),
)
  where
    closed :
        (id : String)
        → mem (names m) j ≡ false
        → is_open (at id unset ((j, w) ∷ m)) ≡ false
        → is_open (at id unset m) ≡ false
    closed id n k = elim (Bool-cases (j == id)) [
      | inr q ↦ ground (arith, k)
      | inl q ↦
          ap is_open (at_absent id m (subst (λ x. mem (names m) x ≡ false) ((eq_iff j id).0 q) n))
    ]

-- a node that is pending is skipped
abbrev skipped_if : Bool → NodeState → NodeState
skipped_if b st = if b && is_pending st then skipped else st

skipped_twice :
    (a b : Bool) (st : NodeState) → skipped_if b (skipped_if a st) ≡ skipped_if (a || b) st
skipped_twice a b st = ground arith

skip_one-state :
    (k id : String) (s : Coordinator)
    → state_of (skip_one k s) id ≡ skipped_if (k == id) (state_of s id)
unfolding skip_one
skip_one-state k id s = elim (Bool-cases (is_pending (state_of s k))) [
  | inl p ↦ rw p (at-insert k id skipped unset s.state ∙ written p)
  | inr p ↦ rw p (kept p)
]
  where
    written :
        is_pending (state_of s k) ≡ true
        → (if k == id then skipped else state_of s id) ≡ skipped_if (k == id) (state_of s id)
    written p = elim (Bool-cases (k == id)) [
      | inr q ↦ rw q refl
      | inl q ↦
          let here = subst (λ x. is_pending (state_of s x) ≡ true) ((eq_iff k id).0 q) p in
          rw (q, here) refl
    ]

    kept : is_pending (state_of s k) ≡ false → state_of s id ≡ skipped_if (k == id) (state_of s id)
    kept p = elim (Bool-cases (k == id)) [
      | inr q ↦ rw q refl
      | inl q ↦
          let here = subst (λ x. is_pending (state_of s x) ≡ false) ((eq_iff k id).0 q) p in
          rw (q, here) refl
    ]

skip_unused-state :
    (id : String) (fb : Map Bool) (s : Coordinator)
    → state_of (skip_unused fb s) id ≡ skipped_if (is_some (lookup id fb)) (state_of s id)
unfolding skip_unused lookup
skip_unused-state id [] s = refl
skip_unused-state id ((k, b) ∷ fb) s =
    skip_unused-state id fb (skip_one k s)
    ∙ ap (skipped_if (is_some (lookup id fb))) (skip_one-state k id s)
    ∙ skipped_twice (k == id) (is_some (lookup id fb)) (state_of s id)
    ∙ ap (λ b. skipped_if b (state_of s id)) (found (k == id))
  where
    found :
        (q : Bool) → (q || is_some (lookup id fb)) ≡ is_some (if q then some b else lookup id fb)
    found true = refl
    found false = refl

skip_one_distinct :
    (k : String) (s : Coordinator)
    → is_distinct (names (skip_one k s).state) ≡ is_distinct (names s.state)
unfolding skip_one
skip_one_distinct k s = ground (arith, insert_distinct k skipped s.state)

skip_unused_distinct :
    (fb : Map Bool) (s : Coordinator)
    → is_distinct (names (skip_unused fb s).state) ≡ is_distinct (names s.state)
unfolding skip_unused
skip_unused_distinct [] s = refl
skip_unused_distinct ((k, b) ∷ fb) s =
    skip_unused_distinct fb (skip_one k s) ∙ skip_one_distinct k s

-- the states that let a run succeed: a node may stay pending only as a fallback
abbrev pub is_settled : (fallback : Bool) → NodeState → Bool
is_settled fallback pending = fallback
is_settled fallback failed = false
is_settled fallback _ = true

open_settled : (b : Bool) (st : NodeState) → is_open (skipped_if b st) ≡ not (is_settled b st)
open_settled true pending = refl
open_settled false pending = refl
open_settled true _ = refl
open_settled false _ = refl

finalize_settled :
    (b : Bool) (st : NodeState) → (is_open (skipped_if b st) ≡ false) ↔ (is_settled b st ≡ true)
finalize_settled b st =
    (λ h. ground (arith, open_settled b st), λ h. ground (arith, open_settled b st))

-- Where the map of the states has no key twice, a run succeeds exactly where it was not halted, no
-- node is failed, and every node that is still pending is the fallback of another.
pub finalize_succeeded :
    (g : Graph) (execution : String) (s : Coordinator)
    → is_distinct (names s.state) ≡ true
    → ((finalize g execution s).0.state ≡ execution_succeeded) ↔ (
        (s.halt_err ≡ none)
        × ((id : String) → is_settled (is_some (lookup id g.fallback_only)) (state_of s id) ≡ true))
finalize_succeeded g execution s d =
    let e = finalize_closed g execution s in
    let t = skip_unused g.fallback_only s in
    (
      λ h. ((e.0 h).0, λ id. settled id (any_state-at id t.state (e.0 h).1)),
      λ h. e.1 (
        h.0,
        at-any_state t.state (skip_unused_distinct g.fallback_only s ∙ d)
            (λ id. closed id (h.1 id)),
      ),
    )
  where
    settled :
        (id : String)
        → is_open (state_of (skip_unused g.fallback_only s) id) ≡ false
        → is_settled (is_some (lookup id g.fallback_only)) (state_of s id) ≡ true
    settled id h =
        (finalize_settled (is_some (lookup id g.fallback_only)) (state_of s id)).0
          (sym (ap is_open (skip_unused-state id g.fallback_only s)) ∙ h)

    closed :
        (id : String)
        → is_settled (is_some (lookup id g.fallback_only)) (state_of s id) ≡ true
        → is_open (state_of (skip_unused g.fallback_only s) id) ≡ false
    closed id h =
        ap is_open (skip_unused-state id g.fallback_only s)
        ∙ (finalize_settled (is_some (lookup id g.fallback_only)) (state_of s id)).1 h
