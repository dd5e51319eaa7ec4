-- ===== src/Store/Collecting.antt =====
-- GarbageCollect of core/store/artifact_store.go.
use workflow_execution_engin.Prelude.{
  String, ◌≡◌, refl, ◌∙◌, inl, inr, Bool, true, false, not, ◌&&◌, Option, none, some, List, [], ◌∷◌,
  arith, ◌==◌, Bool-cases, Option-cases, is_some, mem, differ, Map, lookup, erase, lookup-erase, ℤ,
}
use mathlib.Core.Path.{}
use workflow_execution_engin.Domain.Error.{Error}
use workflow_execution_engin.Store.{
  File, Store, Io, Stats, Collected, counts, entries_of, is_kept, Verdict, stop, pass, retain,
  discard, judge_entry, judge_removal, collect, garbage_collect, keep_file, remove_file, names,
  no_stats,
}

module _ (io : Io) (keep : Map Bool) (older_than : Option ℤ) where
  -- an artifact that is not to be kept
  abbrev pub is_garbage : String → Option File → Bool
  is_garbage n none = false
  is_garbage n (some f) = counts n f && not (is_kept keep older_than n f)

  -- whether a verdict agrees with the file
  abbrev Matches : String → Option File → Verdict → Type 0
  Matches n o (stop e) = Unit
  Matches n o pass = is_garbage n o ≡ false
  Matches n o (retain k) = is_garbage n o ≡ false
  Matches n o (discard k) = is_garbage n o ≡ true

  judge_removal-Matches :
      (n : String) (f : File)
      → counts n f ≡ true
      → Matches n (some f) (judge_removal io keep older_than n f)
  unfolding judge_removal
  judge_removal-Matches n f c = elim (Bool-cases (is_kept keep older_than n f)) [
    | inl k ↦ rw k (rw (c, k) refl)
    | inr k ↦ elim (Option-cases (io.remove n)) [
      | inl q ↦ rw (k, q) (rw (c, k) refl)
      | inr (e, q) ↦ rw (k, q) tt
    ]
  ]

  judge_entry-Matches :
      (n : String) (o : Option File) → Matches n o (judge_entry io keep older_than n o)
  unfolding judge_entry
  judge_entry-Matches n none = tt
  judge_entry-Matches n (some f) = elim (Bool-cases (counts n f)) [
    | inr c ↦ rw c (rw c refl)
    | inl c ↦ elim (Option-cases (io.info n)) [
      | inl q ↦ rw (c, q) (judge_removal-Matches n f c)
      | inr (e, q) ↦ rw (c, q) tt
    ]
  ]

  -- what holds of the loop's result, for each verdict on its first entry
  collect-cases :
      (Q : Collected → Type 0) (k : String) (ns : List String) (st : Stats) (m : Map File)
      → ((e : Error) → Q (record { stats = st; failure = some e; files = m }))
      → (is_garbage k (lookup k m) ≡ false
          → (st' : Stats) → Q (collect io keep older_than ns st' m))
      → (is_garbage k (lookup k m) ≡ true
          → (st' : Stats) → Q (collect io keep older_than ns st' (erase k m)))
      → Q (collect io keep older_than (k ∷ ns) st m)
  unfolding collect
  collect-cases Q k ns st m stopped kept gone =
      by_verdict (judge_entry io keep older_than k (lookup k m))
        (judge_entry-Matches k (lookup k m))
    where
      by_verdict :
          (v : Verdict)
          → Matches k (lookup k m) v
          → Q (elim v as (λ _. Collected) [
            | stop e ↦ record { stats = st; failure = some e; files = m }
            | pass ↦ collect io keep older_than ns st m
            | retain n ↦ collect io keep older_than ns (keep_file n st) m
            | discard n ↦ collect io keep older_than ns (remove_file n st) (erase k m)
          ])
      by_verdict (stop e) h = stopped e
      by_verdict pass h = kept h st
      by_verdict (retain n) h = kept h (keep_file n st)
      by_verdict (discard n) h = gone h (remove_file n st)

  collect-keeps :
      (ns : List String) (st : Stats) (m : Map File) (n : String)
      → is_garbage n (lookup n m) ≡ false
      → lookup n (collect io keep older_than ns st m).files ≡ lookup n m
  unfolding collect
  collect-keeps [] st m n g = refl
  collect-keeps (k ∷ ns) st m n g =
      collect-cases (λ c. lookup n c.files ≡ lookup n m) k ns st m (λ e. refl)
        (λ j st'. collect-keeps ns st' m n g)
        (λ j st'.
          let d = differ (λ x. is_garbage x (lookup x m)) k n j g in
          let same : lookup n (erase k m) ≡ lookup n m = lookup-erase k n m ∙ rw d refl in
          collect-keeps ns st' (erase k m) n (rw same g) ∙ same)

  collect-removes :
      (ns : List String) (st : Stats) (m : Map File) (n : String)
      → (collect io keep older_than ns st m).failure ≡ none
      → is_garbage n (lookup n m) ≡ true
      → mem ns n ≡ true
      → lookup n (collect io keep older_than ns st m).files ≡ none
  unfolding collect
  collect-removes [] st m n e g k = absurd (ground arith)
  collect-removes (k ∷ ns) st m n e g h =
      collect-cases (λ c. c.failure ≡ none → lookup n c.files ≡ none) k ns st m
        (λ x q. absurd (ground arith))
        (λ j st' q.
          let d = differ (λ x. not (is_garbage x (lookup x m))) k n (rw j refl) (rw g refl) in
          collect-removes ns st' m n q g (rw d at h))
        (λ j st' q. elim (Bool-cases (k == n)) [
          | inl p ↦
              let none_left : lookup n (erase k m) ≡ none = lookup-erase k n m ∙ rw p refl in
              collect-keeps ns st' (erase k m) n (rw none_left refl) ∙ none_left
          | inr p ↦
              let same : lookup n (erase k m) ≡ lookup n m = lookup-erase k n m ∙ rw p refl in
              collect-removes ns st' (erase k m) n q (rw same g) (rw p at h)
        ])
        e

  garbage_there : (n : String) (o : Option File) → is_garbage n o ≡ true → is_some o ≡ true
  garbage_there n none g = absurd (ground arith)
  garbage_there n (some f) g = refl

  names-mem :
      (m : Map File) (n : String)
      → is_some (lookup n m) ≡ true
      → mem (names io keep older_than m) n ≡ true
  unfolding lookup
  names-mem [] n k = absurd (ground arith)
  names-mem ((j, f) ∷ m) n k = ground (arith, names-mem m n)

  -- A collection removes nothing that is to be kept, even where it fails half way: a name that keep
  -- holds, a file that is young enough, a directory and a temporary file stay as they were; and where
  -- it succeeds, every other file is gone.
  pub garbage_collect-exact :
      (s : Store) (n : String)
      → let c = garbage_collect io keep older_than s in
        let there = lookup n (entries_of s) in
        let after = lookup n (entries_of c.2) in
        (is_garbage n there ≡ false → after ≡ there)
        × (c.1 ≡ none → is_garbage n there ≡ true → after ≡ none)
  unfolding garbage_collect lookup
  garbage_collect-exact s n = elim (Option-cases s.dir) [
    | inl d ↦ rw d (λ g. refl, λ e g. refl)
    | inr (m, d) ↦ elim (Option-cases io.read_dir) [
      | inr (x, q) ↦ rw (d, q) (λ g. refl, λ e g. absurd (ground arith))
      | inl q ↦
          let ns = names io keep older_than m in
          let st = no_stats io keep older_than in
          rw (d, q)
            (
              λ g. collect-keeps ns st m n g,
              λ e g. collect-removes ns st m n e g (names-mem m n (garbage_there n (lookup n m) g)),
            )
    ]
  ]
