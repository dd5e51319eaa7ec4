-- ===== src/Store/Laws.antt =====
-- What PutReader of core/store/artifact_store.go promises: the artifact store as a map from hashes to
-- contents.
use workflow_execution_engin.Prelude.{
  ◌<◌, String, ◌≡◌, refl, sym, ap, ◌∙◌, inl, inr, true, false, Option, none, some, arith, ◌==◌,
  eq_iff, eq_refl, if◌then◌else◌, Bool-cases, Option-cases, is_some, get_or, length, lookup, insert,
  erase,
}
use mathlib.Core.Path.{subst}
use workflow_execution_engin.Domain.Error.{Error, ok}
use workflow_execution_engin.Store.{
  Bytes, Store, Io, Reader, Stream, PutResult, within, is_temp, entries_of, remove_temp,
  move_into_place, with_temp, temp_file, finish_put, cleaned, put_reader, stream_to_temp,
  read_found, get,
}
use workflow_execution_engin.Store.Streaming.{joined, IsWhole, stream_to_temp-IsWhole}
use workflow_execution_engin.Store.Views.{
  view_of, view, view-insert_temp, view-erase_temp, view-insert, IsAddressed,
  IsAddressed-insert_temp, IsAddressed-erase, IsAddressed-insert,
}
use workflow_execution_engin.Store.Putting.{result_hash, Unmoved, Moved, finish_put_cases}

-- What a call that returned a hash does to the map: the content is there under the hash, unless
-- something is there already. A call that returned none does nothing.
abbrev pub model_put : Option String → Bytes → (String → Option Bytes) → String → Option Bytes
model_put none content v n = v n
model_put (some h) content v n = if h == n then some (get_or (v n) content) else v n

model_put_there :
    (o : Option String) (content : Bytes) (v : String → Option Bytes) (n : String)
    → ((h : String) → o ≡ some h → is_some (v h) ≡ true)
    → model_put o content v n ≡ v n
model_put_there none content v n there = refl
model_put_there (some h) content v n there = elim (Bool-cases (h == n)) [
  | inr k ↦ rw k refl
  | inl k ↦ elim (Option-cases (v n)) [
    | inr (b, q) ↦ rw (k, q) refl
    | inl q ↦
        absurd
          (ground (arith, q, subst (λ j. is_some (v j) ≡ true) ((eq_iff h n).0 k) (there h refl)))
  ]
]

model_put_new :
    (h : String) (content : Bytes) (v : String → Option Bytes) (n : String)
    → v h ≡ none
    → (if h == n then some content else v n) ≡ model_put (some h) content v n
model_put_new h content v n absent = elim (Bool-cases (h == n)) [
  | inr k ↦ rw k refl
  | inl k ↦ rw (k, subst (λ j. v j ≡ none) ((eq_iff h n).0 k) absent) refl
]

module _ (sha : Bytes → String) (io : Io) (temp : is_temp io.temp_name ≡ true)
    (hex : (b : Bytes) → is_temp (sha b) ≡ false) where
  view-remove_temp : (s : Store) (n : String) → view (remove_temp io s) n ≡ view s n
  view-remove_temp s n = elim (Bool-cases (is_some (io.remove io.temp_name))) [
    | inl k ↦ rw k refl
    | inr k ↦ rw k (view-erase_temp io.temp_name temp (entries_of s) n)
  ]

  view-with_temp : (t : Stream) (s : Store) (n : String) → view (with_temp sha io t s) n ≡ view s n
  view-with_temp t s n = view-insert_temp io.temp_name temp (temp_file sha io t) (entries_of s) n

  -- an artifact that is there is shown
  there-shown :
      (h : String) (s : Store)
      → IsAddressed sha (entries_of s)
      → is_temp h ≡ false
      → is_some (lookup h (entries_of s)) ≡ true
      → is_some (view s h) ≡ true
  there-shown h s a n k = elim (Option-cases (lookup h (entries_of s))) [
    | inl q ↦ absurd (ground arith)
    | inr (f, q) ↦ rw (q, (a.named h f q n).0, n) refl
  ]

  absent-shown :
      (h : String) (s : Store) → is_some (lookup h (entries_of s)) ≡ false → view s h ≡ none
  absent-shown h s k = elim (Option-cases (lookup h (entries_of s))) [
    | inl q ↦ rw q refl
    | inr (f, q) ↦ absurd (ground arith)
  ]

  module _ (content : Bytes) (t : Stream) (failure : Option Error) (s : Store)
      (whole : failure ≡ none
        → within s.max_artifact_bytes t.total ≡ true
        → IsWhole t × (t.hashed ≡ content))
      (a : IsAddressed sha (entries_of s)) where
    abbrev temped : Store
    temped = with_temp sha io t s

    abbrev Kept : PutResult × Store → Type 0
    Kept p =
        ((h : String) → result_hash p.0 ≡ some h → h ≡ sha content)
        × ((n : String)
            → view (remove_temp io p.1) n ≡ model_put (result_hash p.0) content (view s) n)
        × IsAddressed sha (entries_of (remove_temp io p.1))

    temped-IsAddressed : IsAddressed sha (entries_of temped)
    temped-IsAddressed =
        IsAddressed-insert_temp sha io.temp_name (temp_file sha io t) (entries_of s) temp a

    remove_temp-IsAddressed :
        (u : Store)
        → IsAddressed sha (entries_of u)
        → IsAddressed sha (entries_of (remove_temp io u))
    remove_temp-IsAddressed u b = elim (Bool-cases (is_some (io.remove io.temp_name))) [
      | inl k ↦ rw k b
      | inr k ↦ rw k (IsAddressed-erase sha io.temp_name (entries_of u) b)
    ]

    Unmoved-Kept : (p : PutResult × Store) → Unmoved sha io t failure temped p → Kept p
    Unmoved-Kept p u =
        let is_hash : (h : String) → result_hash p.0 ≡ some h → h ≡ sha content =
          λ h q. let r = u.there h q in r.0 ∙ ap sha (whole r.2 r.3).1 in
        let shown : (h : String) → result_hash p.0 ≡ some h → is_some (view s h) ≡ true = λ h q.
          ap is_some (sym (view-with_temp t s h))
          ∙ there-shown h temped temped-IsAddressed (rw (is_hash h q) (hex content))
              (u.there h q).1 in
        (
          is_hash,
          λ n.
              ap (λ x. view (remove_temp io x) n) u.same
              ∙ view-remove_temp temped n
              ∙ view-with_temp t s n
              ∙ sym (model_put_there (result_hash p.0) content (view s) n shown),
          rw u.same (remove_temp-IsAddressed temped temped-IsAddressed),
        )

    Moved-Kept : (p : PutResult × Store) → Moved sha io t failure temped p → Kept p
    Moved-Kept p m =
        let w = whole m.clean m.fits in
        let f = temp_file sha io t in
        let erased = erase io.temp_name (entries_of temped) in
        let placed = move_into_place io (sha t.hashed) f temped in
        let back : (n : String) → view_of erased n ≡ view s n =
          λ n. view-erase_temp io.temp_name temp (entries_of temped) n ∙ view-with_temp t s n in
        let absent =
          sym (view-with_temp t s (sha t.hashed)) ∙ absent-shown (sha t.hashed) temped m.fresh in
        subst Kept (sym m.is) (
          λ h q. sym (ap (λ o. get_or o h) q) ∙ ap sha w.1,
          λ n.
              view-remove_temp placed n
              ∙ view-insert (sha t.hashed) f erased n (rw (hex t.hashed) refl)
              ∙ ap (λ v. if sha t.hashed == n then some t.written else v) (back n)
              ∙ ap (λ b. if sha t.hashed == n then some b else view s n) (w.0.same ∙ w.1)
              ∙ model_put_new (sha t.hashed) content (view s) n absent,
          remove_temp-IsAddressed placed (
              subst (λ b. IsAddressed sha (insert (sha b) f erased)) w.0.same
                (IsAddressed-insert sha f erased refl
                  (IsAddressed-erase sha io.temp_name (entries_of temped) temped-IsAddressed))),
        )

  put_kept :
      (r : Reader) (s : Store)
      → length (joined r.chunks) < 9223372036854775808
      → IsAddressed sha (entries_of s)
      → let t = stream_to_temp io r s.max_artifact_bytes in
        let p = cleaned sha io (finish_put sha io t (with_temp sha io t.0 s)) in
        ((h : String) → result_hash p.0 ≡ some h → h ≡ sha (joined r.chunks))
        × ((n : String) → view p.1 n ≡ model_put (result_hash p.0) (joined r.chunks) (view s) n)
        × IsAddressed sha (entries_of p.1)
  put_kept r s b a =
      let max = s.max_artifact_bytes in
      let t = stream_to_temp io r max in
      let whole : t.1 ≡ none
          → within max t.0.total ≡ true
          → IsWhole t.0 × (t.0.hashed ≡ joined r.chunks) =
        λ f k.
          let w = stream_to_temp-IsWhole io r max t.0 (ap (λ e. (t.0, e)) f) k b in (w.0, w.1) in
      elim (finish_put_cases sha io t.0 t.1 (with_temp sha io t.0 s)) [
        | inl u ↦ Unmoved-Kept (joined r.chunks) t.0 t.1 s whole a _ u
        | inr m ↦ Moved-Kept (joined r.chunks) t.0 t.1 s whole a _ m
      ]

  put_cases :
      (r : Reader) (s : Store)
      → length (joined r.chunks) < 9223372036854775808
      → IsAddressed sha (entries_of s)
      → let p = put_reader sha io r s in
        ((h : String) → result_hash p.0 ≡ some h → h ≡ sha (joined r.chunks))
        × ((n : String) → view p.1 n ≡ model_put (result_hash p.0) (joined r.chunks) (view s) n)
        × IsAddressed sha (entries_of p.1)
  unfolding put_reader
  put_cases r s b a = elim (Option-cases io.mkdir) [
    | inr (e, q) ↦ rw q (λ h k. absurd (ground arith), λ n. refl, a)
    | inl q ↦ elim (Option-cases io.create) [
      | inr (e, k) ↦ rw (q, k) (λ h j. absurd (ground arith), λ n. refl, a)
      | inl k ↦ rw (q, k) (put_kept r s b a)
    ]
  ]

  -- PutReader refines a map from hashes to contents: where the names of hashes are not those of
  -- temporary files, and every artifact is named by the hash of its content, a call that returns a
  -- hash returns the one of everything that was read, and has the effect of a write under that hash
  -- that keeps what is there; a call that fails, at whatever point, has no effect.
  pub put_reader-model_put :
      (r : Reader) (s : Store)
      → length (joined r.chunks) < 9223372036854775808
      → IsAddressed sha (entries_of s)
      → let p = put_reader sha io r s in
        ((h : String) → result_hash p.0 ≡ some h → h ≡ sha (joined r.chunks))
        × ((n : String) → view p.1 n ≡ model_put (result_hash p.0) (joined r.chunks) (view s) n)
  put_reader-model_put r s b a = ((put_cases r s b a).0, (put_cases r s b a).1)

  -- Whatever is read and whatever fails, after PutReader every artifact is still named by the hash of
  -- its content.
  pub put_reader-IsAddressed :
      (r : Reader) (s : Store)
      → length (joined r.chunks) < 9223372036854775808
      → IsAddressed sha (entries_of s)
      → IsAddressed sha (entries_of (put_reader sha io r s).1)
  put_reader-IsAddressed r s b a = (put_cases r s b a).2

  -- What PutReader stored is what Get reads: where a call returned a hash, Get of that hash, if the
  -- file can be read, succeeds with bytes of that hash, the hash of everything that was read.
  pub put_reader-get :
      (r : Reader) (s : Store) (later : Io) (h : String)
      → length (joined r.chunks) < 9223372036854775808
      → IsAddressed sha (entries_of s)
      → result_hash (put_reader sha io r s).0 ≡ some h
      → later.read_file h ≡ none
      → (content : Bytes) × (get later h (put_reader sha io r s).1 ≡ ok content)
        × (sha content ≡ sha (joined r.chunks))
  unfolding get
  put_reader-get r s later h b a q e =
      let u = (put_reader sha io r s).1 in
      let c = put_cases r s b a in
      let same = c.0 h q in
      elim (Option-cases (lookup h (entries_of u))) [
        | inr (f, k) ↦
            let d = c.2.named h f k (rw same (hex (joined r.chunks))) in
            (f.content, rw (k, read_found, e, d.0) refl, d.1 ∙ same)
        | inl k ↦
            let hidden : view u h ≡ none = rw k refl in
            absurd (
              ground (
                arith,
                hidden,
                c.1 h ∙ ap (λ o. model_put o (joined r.chunks) (view s) h) q,
                eq_refl h,
              ))
      ]
