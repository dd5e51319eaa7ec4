-- ===== src/Store/Streaming.antt =====
-- What streamToTemp leaves in the temporary file: core/store/artifact_store.go.
use workflow_execution_engin.Prelude.{
  ℕ, ◌+◌, ◌<◌, ◌≡◌, refl, sym, ap, ◌∙◌, inl, inr, true, Option, none, some, List, [], ◌∷◌, ◌++◌,
  arith, Bool-cases, Option-cases, length, length-append, ℤ, pos, ◌+ℤ◌, wrap64,
}
use workflow_execution_engin.Domain.Error.{Error}
use workflow_execution_engin.Store.{
  Bytes, Io, Reader, Stream, within, count_chunk, write_chunk, stream_chunks, read_error,
  empty_stream, stream_to_temp,
}
use mathlib.Core.List.{append-nil, append_assoc}
use mathlib.Core.Path.{subst}

-- all that a reader gives
abbrev pub joined : List Bytes → Bytes
joined [] = []
joined (c ∷ cs) = c ++ joined cs

pub wrap64_small : (a b : ℕ) → a + b < 9223372036854775808 → wrap64 (pos a +ℤ pos b) ≡ pos (a + b)
unfolding wrap64 ◌+ℤ◌
wrap64_small a b h = ground arith

-- everything that was counted was written
pub record IsWhole (s : Stream) : Type 0 where
  pub same : s.written ≡ s.hashed
  pub counted : s.total ≡ pos (length s.hashed)

count_chunk-IsWhole :
    (c : Bytes) (s : Stream)
    → length s.hashed + length c < 9223372036854775808
    → IsWhole s
    → IsWhole (write_chunk c (count_chunk c s))
unfolding count_chunk
count_chunk-IsWhole c s h w = record {
  same = ap (λ l. l ++ c) w.same;
  counted =
      rw (w.counted, wrap64_small (length s.hashed) (length c) h)
        (ap pos (sym (length-append s.hashed c)));
}

read_error-none : (o : Option Error) → read_error o ≡ none → o ≡ none
read_error-none none e = refl
read_error-none (some x) e = absurd (ground arith)

-- the loop returned without an error, and was not cut short
abbrev Done : Io → ℤ → Option Error → List Bytes → Stream → Stream → Type 0
Done io max failure chunks s t =
    (stream_chunks io max failure chunks s ≡ (t, none)) × (within max t.total ≡ true)

module _ (io : Io) (max : ℤ) (failure : Option Error) where
  -- one chunk was read, and the loop went on
  Done-next :
      (x : ℕ) (xs : Bytes) (cs : List Bytes) (s t : Stream)
      → Done io max failure ((x ∷ xs) ∷ cs) s t
      → Done io max failure cs (write_chunk (x ∷ xs) (count_chunk (x ∷ xs) s)) t
  unfolding stream_chunks
  Done-next x xs cs s t d =
      let c = count_chunk (x ∷ xs) s in
      elim (Bool-cases (within max c.total)) [
        | inl k ↦ elim (Option-cases (io.write (x ∷ xs))) [
          | inl n ↦ (sym (rw (k, n) refl) ∙ d.0, d.1)
          | inr (e, q) ↦ absurd (ground arith)
        ]
        | inr k ↦ absurd (ground arith)
      ]

  stream_chunks-IsWhole :
      (chunks : List Bytes) (s t : Stream)
      → Done io max failure chunks s t
      → length s.hashed + length (joined chunks) < 9223372036854775808
      → IsWhole s
      → IsWhole t × (t.hashed ≡ s.hashed ++ joined chunks) × (failure ≡ none)
  unfolding stream_chunks
  stream_chunks-IsWhole [] s t d b w =
      let e = ap (λ p. p.0) d.0 in
      (
        subst IsWhole e w,
        ap (λ (u : Stream). u.hashed) (sym e) ∙ sym (append-nil s.hashed),
        read_error-none failure (ap (λ p. p.1) d.0),
      )
  stream_chunks-IsWhole ([] ∷ cs) s t d b w = stream_chunks-IsWhole cs s t d b w
  stream_chunks-IsWhole ((x ∷ xs) ∷ cs) s t d b w =
      let c = write_chunk (x ∷ xs) (count_chunk (x ∷ xs) s) in
      let r =
        stream_chunks-IsWhole cs c t (Done-next x xs cs s t d)
          (omega (arith, b, length-append s.hashed (x ∷ xs), length-append (x ∷ xs) (joined cs)))
          (count_chunk-IsWhole (x ∷ xs) s (omega (arith, b, length-append (x ∷ xs) (joined cs)))
            w) in
      (r.0, r.1 ∙ append_assoc s.hashed (x ∷ xs) (joined cs), r.2)

-- What a stream that ended well leaves: all the bytes are hashed, written and counted.
pub stream_to_temp-IsWhole :
    (io : Io) (r : Reader) (max : ℤ) (t : Stream)
    → stream_to_temp io r max ≡ (t, none)
    → within max t.total ≡ true
    → length (joined r.chunks) < 9223372036854775808
    → IsWhole t × (t.hashed ≡ joined r.chunks) × (r.failure ≡ none)
unfolding stream_to_temp
stream_to_temp-IsWhole io r max t e k b =
    stream_chunks-IsWhole io max r.failure r.chunks empty_stream t (e, k) (omega (arith, b))
      (record { same = refl; counted = refl })
