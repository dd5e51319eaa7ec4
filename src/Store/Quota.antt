-- ===== src/Store/Quota.antt =====
-- The quota of core/store/artifact_store.go: the artifacts never take more bytes than it allows.
use workflow_execution_engin.Prelude.{
  ℕ, ◌+◌, ◌≤◌, ◌<◌, String, ◌≡◌, refl, sym, ap, ◌∙◌, inl, inr, Bool, true, false, none, some, List,
  [], ◌∷◌, arith, eq_iff, if◌then◌else◌, Bool-cases, Option-cases, is_some, length, Map, lookup,
  insert, erase, lookup-erase, ℤ, pos, leb_ℤ,
}
use mathlib.Core.Path.{subst}
use workflow_execution_engin.Domain.Error.{Fallible, ok, err}
use workflow_execution_engin.Store.{
  Bytes, File, Store, Io, Reader, Stream, is_limit, is_temp, counts, entries_of, remove_temp,
  move_into_place, with_temp, temp_file, sum_sizes, total_bytes, PutResult, judge_quota,
  check_total_quota, finish_put, cleaned, put_reader, stream_to_temp,
}
use workflow_execution_engin.Store.Streaming.{joined, IsWhole, stream_to_temp-IsWhole, wrap64_small}
use workflow_execution_engin.Store.Putting.{finish_put_cases}

-- the bytes of the artifacts
abbrev pub used : Map File → ℕ
used [] = 0
used ((name, f) ∷ m) = let rest = used m in if counts name f then length f.content + rest else rest

module _ (k : String) (temp : is_temp k ≡ true) where
  used-insert_temp : (f : File) (m : Map File) → used (insert k f m) ≡ used m
  unfolding insert
  used-insert_temp f [] = ground (arith, temp)
  used-insert_temp f ((j, g) ∷ m) = ground (arith, temp, eq_iff j k, used-insert_temp f m)

  used-erase_temp : (m : Map File) → used (erase k m) ≡ used m
  unfolding erase
  used-erase_temp [] = refl
  used-erase_temp ((j, g) ∷ m) = ground (arith, temp, eq_iff j k, used-erase_temp m)

used-insert_new :
    (k : String) (f : File) (m : Map File)
    → is_some (lookup k m) ≡ false
    → used (insert k f m) ≤ used m + length f.content
unfolding insert lookup
used-insert_new k f [] h = ground arith
used-insert_new k f ((j, g) ∷ m) h = ground (arith, used-insert_new k f m)

value_or : {A : Type 0} → A → Fallible A → A
value_or d (ok x) = x
value_or d (err e) = d

ok_injective : {A : Type 0} {x y : A} → ok x ≡ ok y → x ≡ y
unfolding value_or
ok_injective {x} e = ap (λ r. value_or x r) e

sum_sizes-used :
    (io : Io) (m : Map File) (a : ℕ) (r : ℤ)
    → sum_sizes io m (pos a) ≡ ok r
    → a + used m < 9223372036854775808
    → r ≡ pos (a + used m)
unfolding sum_sizes
sum_sizes-used io [] a r e h = sym (ok_injective e) ∙ ap pos (omega arith)
sum_sizes-used io ((name, f) ∷ m) a r e h = elim (Bool-cases (counts name f)) [
  | inr c ↦ rw c (sum_sizes-used io m a r (rw c at e) (rw c at h))
  | inl c ↦ elim (Option-cases (io.info name)) [
    | inr (x, q) ↦ absurd (ground (arith, c, q, e))
    | inl q ↦
        let small = wrap64_small a (length f.content) (ground (arith, c, h)) in
        let rest =
          sum_sizes-used io m (a + length f.content) r
            (subst (λ z. sum_sizes io m z ≡ ok r) small (rw (c, q) at e)) (ground (arith, c, h)) in
        rw c (rest ∙ ap pos (omega arith))
  ]
]

total_bytes-used :
    (io : Io) (s : Store) (r : ℤ)
    → total_bytes io s.dir ≡ ok r
    → used (entries_of s) < 9223372036854775808
    → r ≡ pos (used (entries_of s))
unfolding total_bytes
total_bytes-used io s r e h = elim (Option-cases s.dir) [
  | inl d ↦ rw d (sym (ok_injective (rw d at e)))
  | inr (m, d) ↦ elim (Option-cases io.read_dir) [
    | inr (x, q) ↦ absurd (ground arith)
    | inl q ↦
        rw d (
          sum_sizes-used io m 0 r (rw (d, q) at e) (omega (arith, rw d at h))
          ∙ ap pos (omega arith))
  ]
]

-- what the check of the quota lets through
check_total_quota_allows :
    (io : Io) (n M : ℕ) (s : Store)
    → check_total_quota io (pos n) s ≡ none
    → s.max_total_bytes ≡ pos M
    → 0 < M
    → used (entries_of s) + n < 9223372036854775808
    → used (entries_of s) + n ≤ M
unfolding check_total_quota
check_total_quota_allows io n M s e max p b =
    by_total (total_bytes io s.dir) refl (rw (max, limit) at e)
  where
    limit : is_limit (pos M) ≡ true
    limit = ground arith

    allowed :
        (k : Bool) (r : PutResult)
        → leb_ℤ (pos (used (entries_of s) + n)) (pos M) ≡ k
        → (if k then none else some r) ≡ none
        → used (entries_of s) + n ≤ M
    allowed true r q j = ground (arith, q)
    allowed false r q j = absurd (ground arith)

    by_total :
        (t : Fallible ℤ)
        → total_bytes io s.dir ≡ t
        → judge_quota (pos M) (pos n) t ≡ none
        → used (entries_of s) + n ≤ M
    by_total (err x) q j = absurd (ground arith)
    by_total (ok u) q j = allowed (leb_ℤ (pos (used (entries_of s) + n)) (pos M)) _ refl (
        rw (total_bytes-used io s u q (omega (arith, b)), wrap64_small (used (entries_of s)) n b) at
          j)

module _ (sha : Bytes → String) (io : Io) (temp : is_temp io.temp_name ≡ true) where
  used-remove_temp : (s : Store) → used (entries_of (remove_temp io s)) ≡ used (entries_of s)
  used-remove_temp s = elim (Bool-cases (is_some (io.remove io.temp_name))) [
    | inl k ↦ rw k refl
    | inr k ↦ rw k (used-erase_temp io.temp_name temp (entries_of s))
  ]

  module _ (t : Stream) (s : Store) (M : ℕ) (limit : s.max_total_bytes ≡ pos M) (positive : 0 < M)
      (inside : used (entries_of s) ≤ M) where
    abbrev temped : Store
    temped = with_temp sha io t s

    temped-used : used (entries_of temped) ≡ used (entries_of s)
    temped-used = used-insert_temp io.temp_name temp (temp_file sha io t) (entries_of s)

    moved-used :
        IsWhole t
        → is_some (lookup (sha t.hashed) (entries_of temped)) ≡ false
        → check_total_quota io t.total temped ≡ none
        → M + length t.hashed < 9223372036854775808
        → used (entries_of (move_into_place io (sha t.hashed) (temp_file sha io t) temped)) ≤ M
    moved-used w fresh q b =
        let erased = erase io.temp_name (entries_of temped) in
        let allowed =
          check_total_quota_allows io (length t.hashed) M temped
            (subst (λ z. check_total_quota io z temped ≡ none) w.counted q) limit positive
            (omega (arith, temped-used, inside, b)) in
        let new =
          used-insert_new (sha t.hashed) (temp_file sha io t) erased
            (ground (arith, fresh, lookup-erase io.temp_name (sha t.hashed) (entries_of temped))) in
        omega (
          arith,
          allowed,
          new,
          used-erase_temp io.temp_name temp (entries_of temped),
          ap (λ (l : List ℕ). length l) w.same,
        )

  cleaned-used :
      (r : Reader) (s : Store) (M : ℕ)
      → s.max_total_bytes ≡ pos M
      → 0 < M
      → M + length (joined r.chunks) < 9223372036854775808
      → used (entries_of s) ≤ M
      → let t = stream_to_temp io r s.max_artifact_bytes in
        used (entries_of (cleaned sha io (finish_put sha io t (with_temp sha io t.0 s))).1) ≤ M
  cleaned-used r s M e p b h =
      let t = stream_to_temp io r s.max_artifact_bytes in
      elim (finish_put_cases sha io t.0 t.1 (with_temp sha io t.0 s)) [
        | inl u ↦ omega (
          arith,
          used-remove_temp (finish_put sha io t (with_temp sha io t.0 s)).1,
          ap (λ x. used (entries_of x)) u.same,
          temped-used t.0 s M e p h,
          h,
        )
        | inr m ↦
            let w =
              stream_to_temp-IsWhole io r s.max_artifact_bytes t.0 (ap (λ x. (t.0, x)) m.clean)
                m.fits (omega (arith, b)) in
            omega (
              arith,
              used-remove_temp (finish_put sha io t (with_temp sha io t.0 s)).1,
              ap (λ x. used (entries_of x.1)) m.is,
              moved-used t.0 s M e p h w.0 m.fresh m.quota
                  (omega (arith, b, ap (λ (l : List ℕ). length l) w.1)),
            )
      ]

  -- The artifacts never take more bytes than the total limit: where they do not before PutReader,
  -- they do not afterwards, whatever is read and whatever fails.
  pub put_reader-used :
      (r : Reader) (s : Store) (M : ℕ)
      → s.max_total_bytes ≡ pos M
      → 0 < M
      → M + length (joined r.chunks) < 9223372036854775808
      → used (entries_of s) ≤ M
      → used (entries_of (put_reader sha io r s).1) ≤ M
  unfolding put_reader
  put_reader-used r s M e p b h = elim (Option-cases io.mkdir) [
    | inr (x, q) ↦ rw q h
    | inl q ↦ elim (Option-cases io.create) [
      | inr (x, k) ↦ rw (q, k) h
      | inl k ↦ rw (q, k) (cleaned-used r s M e p b h)
    ]
  ]
