-- ===== src/Store/Putting.antt =====
-- PutReader of core/store/artifact_store.go: which of its branches write, and what they write.
use workflow_execution_engin.Prelude.{
  String, ◌≡◌, refl, sym, ap, ◌⊎◌, inl, inr, true, false, Option, none, some, arith, Bool-cases,
  Option-cases, is_some, get_or, lookup, ℤ, ◌+ℤ◌, leb_ℤ, wrap64,
}
use mathlib.Core.Path.{subst}
use workflow_execution_engin.Domain.Error.{Error, wrapped, Fallible, ok, err}
use workflow_execution_engin.Store.{
  Bytes, Store, Io, Stream, PutResult, stored, limited, refused, within, entries_of,
  move_into_place, total_bytes, judge_quota, is_limit, too_large, temp_file, commit, store_new,
  store_hashed, finish_put, check_total_quota,
}

abbrev pub result_hash : PutResult → Option String
result_hash (stored h) = some h
result_hash (limited e) = none
result_hash (refused e) = none

module _ (sha : Bytes → String) (io : Io) where
  -- nothing was renamed
  pub record Unmoved (t : Stream) (failure : Option Error) (s : Store) (p : PutResult × Store)
      : Type 0 where
    pub same : p.1 ≡ s
    pub there :
        (h : String)
        → result_hash p.0 ≡ some h
        → (h ≡ sha t.hashed)
          × (is_some (lookup h (entries_of s)) ≡ true)
          × (failure ≡ none)
          × (within s.max_artifact_bytes t.total ≡ true)

  -- the temporary file was renamed
  pub record Moved (t : Stream) (failure : Option Error) (s : Store) (p : PutResult × Store)
      : Type 0 where
    pub is : p ≡ (stored (sha t.hashed), move_into_place io (sha t.hashed) (temp_file sha io t) s)
    pub fresh : is_some (lookup (sha t.hashed) (entries_of s)) ≡ false
    pub clean : failure ≡ none
    pub fits : within s.max_artifact_bytes t.total ≡ true
    pub quota : check_total_quota io t.total s ≡ none

  -- a branch that returns early, without a hash
  returned :
      (t : Stream) (failure : Option Error) (s : Store) (r : PutResult) (p : PutResult × Store)
      → result_hash r ≡ none
      → (r, s) ≡ p
      → Unmoved t failure s p ⊎ Moved t failure s p
  returned t failure s r p n e =
      subst (λ q. Unmoved t failure s q ⊎ Moved t failure s q) e
        (inl (record { same = refl; there = λ h q. absurd (ground arith) }))

  judge_quota_refuses :
      (max n : ℤ) (used : Fallible ℤ) (r : PutResult)
      → judge_quota max n used ≡ some r
      → result_hash r ≡ none
  judge_quota_refuses max n (err x) r e = sym (ap (λ o. result_hash (get_or o r)) e)
  judge_quota_refuses max n (ok used) r e = elim (Bool-cases (leb_ℤ (wrap64 (used +ℤ n)) max)) [
    | inl k ↦ absurd (ground arith)
    | inr k ↦ sym (ap (λ o. result_hash (get_or o r)) (rw k at e))
  ]

  check_total_quota_refuses :
      (n : ℤ) (s : Store) (r : PutResult) → check_total_quota io n s ≡ some r → result_hash r ≡ none
  unfolding check_total_quota
  check_total_quota_refuses n s r e = elim (Bool-cases (is_limit s.max_total_bytes)) [
    | inl k ↦ judge_quota_refuses s.max_total_bytes n (total_bytes io s.dir) r (rw k at e)
    | inr k ↦ absurd (ground arith)
  ]

  module _ (t : Stream) (s : Store) where
    abbrev target : String
    target = sha t.hashed

    abbrev Case : PutResult × Store → Type 0
    Case p = Unmoved t none s p ⊎ Moved t none s p

    store_new_cases :
        within s.max_artifact_bytes t.total ≡ true
        → is_some (lookup target (entries_of s)) ≡ false
        → Case (store_new sha io target t.total (temp_file sha io t) s)
    unfolding store_new commit
    store_new_cases k l = elim (Option-cases (check_total_quota io t.total s)) [
      | inr (r, c) ↦
          returned t none s r _ (check_total_quota_refuses t.total s r c) (rw (store_new, c) refl)
      | inl c ↦ elim (Option-cases io.close) [
        | inr (e, a) ↦
            returned t none s (refused (wrapped "store: close" e)) _ refl
              (rw (store_new, c, commit, a) refl)
        | inl a ↦ elim (Option-cases io.rename) [
          | inr (e, b) ↦
              returned t none s (refused (wrapped "store: commit" e)) _ refl
                (rw (store_new, c, commit, a, b) refl)
          | inl b ↦
              rw (store_new, c, commit, a, b)
                (inr (record { is = refl; fresh = l; clean = refl; fits = k; quota = c }))
        ]
      ]
    ]

    store_hashed_cases :
        within s.max_artifact_bytes t.total ≡ true
        → Case (store_hashed sha io target t.total (temp_file sha io t) s)
    unfolding store_hashed
    store_hashed_cases k = elim (Option-cases (io.stat target)) [
      | inr (e, q) ↦
          returned t none s (refused (wrapped "store: stat" e)) _ refl (rw (store_hashed, q) refl)
      | inl q ↦ elim (Bool-cases (is_some (lookup target (entries_of s)))) [
        | inl l ↦
            rw (store_hashed, q, l)
              (inl (record {
                same = refl;
                there = λ h p.
                    let e = ap (λ o. get_or o h) p in
                    (sym e, subst (λ j. is_some (lookup j (entries_of s)) ≡ true) e l, refl, k);
              }))
        | inr l ↦ rw (store_hashed, q, l) (store_new_cases k l)
      ]
    ]

  pub finish_put_cases :
      (t : Stream) (failure : Option Error) (s : Store)
      → Unmoved t failure s (finish_put sha io (t, failure) s)
        ⊎ Moved t failure s (finish_put sha io (t, failure) s)
  unfolding finish_put
  finish_put_cases t (some e) s = returned t (some e) s (refused e) _ refl refl
  finish_put_cases t none s = elim (Bool-cases (within s.max_artifact_bytes t.total)) [
    | inr k ↦ returned t none s (too_large sha io s.max_artifact_bytes t) _ refl (rw k refl)
    | inl k ↦ rw k (store_hashed_cases t s k)
  ]
