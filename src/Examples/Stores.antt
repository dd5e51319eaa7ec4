-- ===== src/Examples/Stores.antt =====
-- An artifact store with one artifact, to which a second is added.
use workflow_execution_engin.Prelude.{
  ◌≤◌, String, ◌≡◌, refl, true, false, none, some, List, [], ◌∷◌, arith, lookup, insert, erase, pos,
  ◌+ℤ◌, wrap64,
}
use workflow_execution_engin.Domain.Error.{ok}
use workflow_execution_engin.Store.{
  Bytes, Store, Io, Reader, is_temp, entries_of, put_reader, get, garbage_collect,
}
use workflow_execution_engin.Store.Views.{view, IsAddressed}
use workflow_execution_engin.Store.Putting.{result_hash}
use workflow_execution_engin.Store.Laws.{
  model_put, put_reader-model_put, put_reader-IsAddressed, put_reader-get,
}
use workflow_execution_engin.Store.Quota.{used, put_reader-used}
use workflow_execution_engin.Store.Collecting.{is_garbage, garbage_collect-exact}

-- in place of SHA-256: as many letters as bytes
abbrev tally : Bytes → String
tally [] = "x"
tally (b ∷ bs) = String.◌∷◌ "x" (tally bs)

tally_hex : (b : Bytes) → is_temp (tally b) ≡ false
unfolding is_temp
tally_hex [] = refl
tally_hex (b ∷ bs) = refl

-- every call succeeds
abbrev calm : Io
calm = record {
  mkdir = none;
  create = none;
  close = none;
  rename = none;
  read_dir = none;
  write = λ b. none;
  stat = λ n. none;
  info = λ n. none;
  remove = λ n. none;
  read_file = λ n. none;
  temp_name = "tmp-1";
  now = pos 7;
}

abbrev of_chunks : List Bytes → Reader
of_chunks cs = record { chunks = cs; failure = none }

abbrev empty_store : Store
empty_store = record { dir = none; max_artifact_bytes = pos 8; max_total_bytes = pos 8 }

empty-IsAddressed : IsAddressed tally (entries_of empty_store)
unfolding lookup
empty-IsAddressed = record { named = λ n f e h. absurd (ground arith) }

abbrev two_chunks : Reader
two_chunks = of_chunks ((1 ∷ 2 ∷ []) ∷ (3 ∷ []) ∷ [])

abbrev one_stored : Store
one_stored = (put_reader tally calm two_chunks empty_store).1

temp_named : is_temp calm.temp_name ≡ true
unfolding is_temp
temp_named = refl

one_stored-IsAddressed : IsAddressed tally (entries_of one_stored)
one_stored-IsAddressed =
    put_reader-IsAddressed tally calm temp_named tally_hex two_chunks empty_store (omega arith)
      empty-IsAddressed

abbrev next_chunk : Reader
next_chunk = of_chunks ((9 ∷ 8 ∷ []) ∷ [])

put_reader-IsAddressed_example :
    IsAddressed tally (entries_of (put_reader tally calm next_chunk one_stored).1)
put_reader-IsAddressed_example =
    put_reader-IsAddressed tally calm temp_named tally_hex next_chunk one_stored (omega arith)
      one_stored-IsAddressed

put_reader-model_put_example :
    ((h : String)
      → result_hash (put_reader tally calm next_chunk one_stored).0 ≡ some h
      → h ≡ tally (9 ∷ 8 ∷ []))
    × ((n : String)
        → view (put_reader tally calm next_chunk one_stored).1 n
          ≡ model_put
              (result_hash (put_reader tally calm next_chunk one_stored).0)
              (9 ∷ 8 ∷ [])
              (view one_stored)
              n)
put_reader-model_put_example =
    put_reader-model_put tally calm temp_named tally_hex next_chunk one_stored (omega arith)
      one_stored-IsAddressed

stored_two : result_hash (put_reader tally calm next_chunk one_stored).0 ≡ some "xxx"
unfolding put_reader insert erase lookup wrap64 ◌+ℤ◌ is_temp
stored_two = refl

put_reader-get_example :
    (content : Bytes) × (get calm "xxx" (put_reader tally calm next_chunk one_stored).1
      ≡ ok content)
    × (tally content ≡ tally (9 ∷ 8 ∷ []))
put_reader-get_example =
    put_reader-get tally calm temp_named tally_hex next_chunk one_stored calm "xxx" (omega arith)
      one_stored-IsAddressed stored_two refl

one_stored-used : used (entries_of one_stored) ≤ 8
unfolding put_reader insert erase lookup wrap64 ◌+ℤ◌ is_temp
one_stored-used = omega arith

one_stored-limit : one_stored.max_total_bytes ≡ pos 8
unfolding put_reader insert erase lookup wrap64 ◌+ℤ◌ is_temp
one_stored-limit = refl

put_reader-used_example : used (entries_of (put_reader tally calm next_chunk one_stored).1) ≤ 8
put_reader-used_example =
    put_reader-used tally calm temp_named next_chunk one_stored 8 one_stored-limit (omega arith)
      (omega arith) one_stored-used

garbage_collect-exact_example :
    (is_garbage calm [] none "xxxx" (lookup "xxxx" (entries_of one_stored)) ≡ false
      → lookup "xxxx" (entries_of (garbage_collect calm [] none one_stored).2)
        ≡ lookup "xxxx" (entries_of one_stored))
    × ((garbage_collect calm [] none one_stored).1 ≡ none
        → is_garbage calm [] none "xxxx" (lookup "xxxx" (entries_of one_stored)) ≡ true
        → lookup "xxxx" (entries_of (garbage_collect calm [] none one_stored).2) ≡ none)
garbage_collect-exact_example = garbage_collect-exact calm [] none one_stored "xxxx"
