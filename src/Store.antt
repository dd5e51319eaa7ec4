-- ===== src/Store.antt =====
-- core/store/artifact_store.go: the artifact store, a directory of files that are named by the hash
-- of their content. What the operating system answers is an argument (Io); a name is one entry of
-- the directory. The mutex makes each call one step.
use workflow_execution_engin.Prelude.{
  ℕ, zero, suc, ◌-◌, String, Bool, false, not, ◌&&◌, ◌||◌, Option, none, some, List, [], ◌∷◌, ◌++◌,
  map, if◌then◌else◌, is_some, get_or, length, Map, lookup, insert, erase, at, ℤ, pos, ◌+ℤ◌, leb_ℤ,
  ltb_ℤ, wrap64, has_prefix,
}
use workflow_execution_engin.Domain.Error.{Error, plain, wrapped, Fallible, ok, err}
pub mod Streaming
pub mod Views
pub mod Putting
pub mod Laws
pub mod Quota
pub mod Collecting

abbrev pub Bytes : Type 0
Bytes = List ℕ

pub record File : Type 0 where
  pub content : Bytes
  pub modified : ℤ
  pub is_dir : Bool

-- `dir` is none where the directory does not exist
pub record Store : Type 0 where
  pub dir : Option (Map File)
  pub max_artifact_bytes : ℤ
  pub max_total_bytes : ℤ

-- NewWithOptions, with the limits that the options set, over the directory that is there
abbrev pub new_with_limits :
    (max_artifact_bytes max_total_bytes : Option ℤ) → Option (Map File) → Store
new_with_limits artifact total dir = record {
  dir = dir;
  max_artifact_bytes = get_or artifact (pos 33554432);
  max_total_bytes = get_or total (pos 1073741824);
}

-- The errors that the calls of the package os return, if any, and the name that CreateTemp picks.
pub record Io : Type 0 where
  pub mkdir : Option Error
  pub create : Option Error
  pub close : Option Error
  pub rename : Option Error
  pub read_dir : Option Error
  pub write : Bytes → Option Error
  pub stat : String → Option Error
  pub info : String → Option Error
  pub remove : String → Option Error
  pub read_file : String → Option Error
  pub temp_name : String
  pub now : ℤ

-- The texts of a stream: what each Read returns, and the error that ends it, where it is not io.EOF.
pub record Reader : Type 0 where
  pub chunks : List Bytes
  pub failure : Option Error

-- LimitError. `seen` are the bytes that its preview is made of.
pub record LimitError : Type 0 where
  pub code : String
  pub limit : ℤ
  pub actual : ℤ
  pub seen : Bytes

-- what PutReader returns
pub data PutResult : Type 0 where
  stored : (hash : String) → PutResult
  limited : LimitError → PutResult
  refused : Error → PutResult

-- the first n bytes
abbrev pub take_bytes : ℕ → Bytes → Bytes
take_bytes zero bs = []
take_bytes (suc n) [] = []
take_bytes (suc n) (b ∷ bs) = b ∷ take_bytes n bs

abbrev pub is_limit : ℤ → Bool
is_limit max = ltb_ℤ (pos 0) max

-- What streamToTemp has done: the bytes that were hashed and written, their number, and the preview.
pub record Stream : Type 0 where
  pub hashed : Bytes
  pub written : Bytes
  pub total : ℤ
  pub preview : Bytes

abbrev pub within : ℤ → ℤ → Bool
within max total = not (is_limit max) || leb_ℤ total max

-- a chunk is counted, hashed, and kept in the preview
unfoldable pub count_chunk : Bytes → Stream → Stream
count_chunk chunk s = record s {
  total = wrap64 (s.total +ℤ pos (length chunk));
  hashed = s.hashed ++ chunk;
  preview = s.preview ++ take_bytes (1024 - length s.preview) chunk;
}

abbrev pub write_chunk : Bytes → Stream → Stream
write_chunk chunk s = record s { written = s.written ++ chunk }

-- the error that ends a stream, other than io.EOF
abbrev pub read_error : Option Error → Option Error
read_error none = none
read_error (some e) = some (wrapped "store: read artifact stream" e)

-- the loop of streamToTemp
unfoldable pub stream_chunks :
    Io → (max : ℤ) → Option Error → List Bytes → Stream → Stream × Option Error
unfolding count_chunk
stream_chunks io max failure [] s = (s, read_error failure)
stream_chunks io max failure ([] ∷ chunks) s = stream_chunks io max failure chunks s
stream_chunks io max failure ((b ∷ bs) ∷ chunks) s =
    let c = count_chunk (b ∷ bs) s in
    let rest = stream_chunks io max failure chunks (write_chunk (b ∷ bs) c) in
    if within max c.total
    then (elim (io.write (b ∷ bs)) [ none ↦ rest | some e ↦ (c, some (wrapped "store: write" e)) ])
    else (c, none)

abbrev pub empty_stream : Stream
empty_stream = record { hashed = []; written = []; total = pos 0; preview = [] }

unfoldable pub stream_to_temp : Io → Reader → (max : ℤ) → Stream × Option Error
unfolding stream_chunks
stream_to_temp io r max = stream_chunks io max r.failure r.chunks empty_stream

unfoldable pub is_temp : String → Bool
unfolding has_prefix
is_temp name = has_prefix name "tmp-"

abbrev pub counts : String → File → Bool
counts name f = not (f.is_dir || is_temp name)

-- the loop of totalBytes
unfoldable pub sum_sizes : Io → Map File → ℤ → Fallible ℤ
sum_sizes io [] total = ok total
sum_sizes io ((name, f) ∷ entries) total =
    let rest = sum_sizes io entries (wrap64 (total +ℤ pos (length f.content))) in
    let skip = sum_sizes io entries total in
    if counts name f
    then (elim (io.info name) [ none ↦ rest | some e ↦ err (wrapped "store: quota stat" e) ])
    else skip

unfoldable pub total_bytes : Io → Option (Map File) → Fallible ℤ
unfolding sum_sizes
total_bytes io none = ok (pos 0)
total_bytes io (some m) = elim io.read_dir [
  | none ↦ sum_sizes io m (pos 0)
  | some e ↦ err (wrapped "store: quota read dir" e)
]

abbrev pub over_quota : ℤ → ℤ → ℤ → PutResult
over_quota max used incoming = limited (record {
  code = "artifact_quota_exceeded";
  limit = max;
  actual = wrap64 (used +ℤ incoming);
  seen = [];
})

abbrev pub judge_quota : (max incoming : ℤ) → Fallible ℤ → Option PutResult
judge_quota max incoming (err e) = some (refused e)
judge_quota max incoming (ok used) =
    if leb_ℤ (wrap64 (used +ℤ incoming)) max then none else some (over_quota max used incoming)

-- none where the artifact may be stored
unfoldable pub check_total_quota : Io → ℤ → Store → Option PutResult
unfolding total_bytes
check_total_quota io incoming s =
    if is_limit s.max_total_bytes
    then judge_quota s.max_total_bytes incoming (total_bytes io s.dir)
    else none

abbrev pub entries_of : Store → Map File
entries_of s = get_or s.dir []

-- the deferred os.Remove of the temporary file
abbrev pub remove_temp : Io → Store → Store
remove_temp io s =
    if is_some (io.remove io.temp_name)
    then s
    else record s { dir = some (erase io.temp_name (entries_of s)) }

-- os.Rename of the temporary file
abbrev pub move_into_place : Io → String → File → Store → Store
move_into_place io hash f s = record s {
  dir = some (insert hash f (erase io.temp_name (entries_of s)));
}

module _ (sha : Bytes → String) (io : Io) where
  -- what follows the checks
  unfoldable pub commit : String → File → Store → PutResult × Store
  commit hash f s = elim io.close [
    | some e ↦ (refused (wrapped "store: close" e), s)
    | none ↦ elim io.rename [
      | some e ↦ (refused (wrapped "store: commit" e), s)
      | none ↦ (stored hash, move_into_place io hash f s)
    ]
  ]

  unfoldable pub store_new : String → ℤ → File → Store → PutResult × Store
  unfolding commit check_total_quota
  store_new hash n f s = elim (check_total_quota io n s) [
    | some r ↦ (r, s)
    | none ↦ commit hash f s
  ]

  -- the stat of the target: an artifact that is there is not written again
  unfoldable pub store_hashed : String → ℤ → File → Store → PutResult × Store
  unfolding store_new
  store_hashed hash n f s = elim (io.stat hash) [
    | some e ↦ (refused (wrapped "store: stat" e), s)
    | none ↦ if is_some (lookup hash (entries_of s)) then (stored hash, s) else store_new hash n f s
  ]

  abbrev pub too_large : ℤ → Stream → PutResult
  too_large max t =
      limited
        (record { code = "artifact_too_large"; limit = max; actual = t.total; seen = t.preview })

  abbrev pub temp_file : Stream → File
  temp_file t = record { content = t.written; modified = io.now; is_dir = false }

  unfoldable pub finish_put : Stream × Option Error → Store → PutResult × Store
  unfolding store_hashed
  finish_put (t, some e) s = (refused e, s)
  finish_put (t, none) s =
      if within s.max_artifact_bytes t.total
      then store_hashed (sha t.hashed) t.total (temp_file t) s
      else (too_large s.max_artifact_bytes t, s)

  -- the temporary file, with what was written to it
  abbrev pub with_temp : Stream → Store → Store
  with_temp t s = record s { dir = some (insert io.temp_name (temp_file t) (entries_of s)) }

  abbrev pub cleaned : PutResult × Store → PutResult × Store
  cleaned (r, s) = (r, remove_temp io s)

  unfoldable pub put_reader : Reader → Store → PutResult × Store
  unfolding finish_put stream_to_temp
  put_reader r s = elim io.mkdir [
    | some e ↦ (refused (wrapped "store: create dir" e), s)
    | none ↦ elim io.create [
      | some e ↦ (refused (wrapped "store: temp file" e), record s { dir = some (entries_of s) })
      | none ↦
          let t = stream_to_temp io r s.max_artifact_bytes in
          cleaned (finish_put t (with_temp t.0 s))
    ]
  ]

  abbrev pub put : Bytes → Store → PutResult × Store
  put content = put_reader (record { chunks = content ∷ []; failure = none })

module _ (io : Io) where
  abbrev pub read_found : String → Option File → Fallible Bytes
  read_found hash none = err (plain "store: artifact not found")
  read_found hash (some f) = elim (io.read_file hash) [
    | some e ↦ err (wrapped "store: read" e)
    | none ↦ if f.is_dir then err (plain "store: read: is a directory") else ok f.content
  ]

  unfoldable pub get : String → Store → Fallible Bytes
  get hash s = read_found hash (lookup hash (entries_of s))

  unfoldable pub has : String → Store → Bool
  has hash s = is_some (lookup hash (entries_of s)) && not (is_some (io.stat hash))

pub record Stats : Type 0 where
  pub removed_files : ℤ
  pub removed_bytes : ℤ
  pub kept_files : ℤ
  pub kept_bytes : ℤ

abbrev pub plus64 : ℤ → ℕ → ℤ
plus64 a n = wrap64 (a +ℤ pos n)

abbrev pub keep_file : ℕ → Stats → Stats
keep_file n st = record st {
  kept_files = plus64 st.kept_files 1;
  kept_bytes = plus64 st.kept_bytes n;
}

abbrev pub remove_file : ℕ → Stats → Stats
remove_file n st = record st {
  removed_files = plus64 st.removed_files 1;
  removed_bytes = plus64 st.removed_bytes n;
}

-- `older_than` is none for the zero time
abbrev pub is_kept : Map Bool → (older_than : Option ℤ) → String → File → Bool
is_kept keep none name f = at name false keep
is_kept keep (some t) name f = at name false keep || leb_ℤ t f.modified

-- What becomes of one entry; a file has its size.
pub data Verdict : Type 0 where
  stop : Error → Verdict
  pass : Verdict
  retain : ℕ → Verdict
  discard : ℕ → Verdict

-- What a collection leaves.
pub record Collected : Type 0 where
  pub stats : Stats
  pub failure : Option Error
  pub files : Map File

module _ (io : Io) (keep : Map Bool) (older_than : Option ℤ) where
  -- the tests on one entry, of which Info and Remove may fail
  unfoldable pub judge_removal : String → File → Verdict
  judge_removal name f =
      if is_kept keep older_than name f then retain (length f.content) else elim (io.remove name) [
        | some e ↦ stop (wrapped "store: gc remove" e)
        | none ↦ discard (length f.content)
      ]

  unfoldable pub judge_entry : String → Option File → Verdict
  unfolding judge_removal
  judge_entry name none = stop (plain "store: gc stat")
  judge_entry name (some f) =
      if counts name f
      then elim (io.info name) [
        | some e ↦ stop (wrapped "store: gc stat" e)
        | none ↦ judge_removal name f
      ]
      else pass

  -- the loop of GarbageCollect, over the names that ReadDir returned
  unfoldable pub collect : List String → Stats → Map File → Collected
  unfolding judge_entry
  collect [] st m = record { stats = st; failure = none; files = m }
  collect (name ∷ names) st m = elim (judge_entry name (lookup name m)) [
    | stop e ↦ record { stats = st; failure = some e; files = m }
    | pass ↦ collect names st m
    | retain n ↦ collect names (keep_file n st) m
    | discard n ↦ collect names (remove_file n st) (erase name m)
  ]

  abbrev pub no_stats : Stats
  no_stats = record {
    removed_files = pos 0;
    removed_bytes = pos 0;
    kept_files = pos 0;
    kept_bytes = pos 0;
  }

  abbrev pub names : Map File → List String
  names = map (λ (e : String × File). e.0)

  unfoldable pub garbage_collect : Store → Stats × Option Error × Store
  unfolding collect
  garbage_collect s = elim s.dir [
    | none ↦ (no_stats, none, s)
    | some m ↦ elim io.read_dir [
      | some e ↦ (no_stats, some (wrapped "store: gc read dir" e), s)
      | none ↦
          let c = collect (names m) no_stats m in
          (c.stats, c.failure, record s { dir = some c.files })
    ]
  ]
