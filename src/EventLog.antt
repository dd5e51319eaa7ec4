-- ===== src/EventLog.antt =====
-- core/eventlog: the append-only log of events of each execution, whose lines are chained by hashes,
-- and the frozen snapshot. A file is the list of its lines. The JSON encoding, bytes.TrimSpace, the
-- length in bytes and the hash of canonical.HashBytes are parameters. A file that is there can be read.
-- A write that fails may leave a part of its line, to which the next write is appended.
use workflow_execution_engin.Prelude.{
  ℕ, suc, String, Bool, not, Option, none, some, List, [], ◌∷◌, ◌++◌, ◌==◌, leb, if◌then◌else◌, Map,
  lookup, insert, at, append_text, true, false,
}
use workflow_execution_engin.Domain.Error.{Error, plain, wrapped, Fallible, ok, err}
use workflow_execution_engin.Domain.Event.{Event}
pub mod Chain

-- What the log takes from the standard library and from core/canonical.
pub record Codec : Type 0 where
  pub encode : Event → String
  pub decode : String → Option Event
  pub trim : String → String
  pub size : String → ℕ
  pub hash : String → String

-- The directory of the executions: snapshot.json and the lines of events.jsonl, where they exist,
-- whether the last of the lines lacks its line break, and the cached heads of the chains.
pub record Log : Type 0 where
  pub snapshots : Map String
  pub files : Map (List String)
  pub torn : Map Bool
  pub heads : Map String

-- maxLine
abbrev pub max_line : ℕ
max_line = 16777216

pub data Verified : Type 0 where
  intact : Verified
  -- a ChainError
  broken : (line : ℕ) (want got : String) → Verified
  unreadable : Error → Verified

-- How Append fails on its way to the disk: before the write, or in it, after a part of the line.
pub data Fault : Type 0 where
  not_written : Error → Fault
  cut_off : (written : String) → Error → Fault

-- The lines of a file after one more text is written to its end.
unfoldable pub extend : (torn : Bool) → List String → String → List String
unfolding append_text
extend false lines t = lines ++ (t ∷ [])
extend true [] t = t ∷ []
extend true (l ∷ []) t = append_text l t ∷ []
extend true (l ∷ k ∷ lines) t = l ∷ extend true (k ∷ lines) t

abbrev missing_log : Error
missing_log = wrapped "eventlog: open log" (plain "file does not exist")

abbrev pub scan_failure : Error
scan_failure = wrapped "eventlog: scanning" (plain "bufio.Scanner: token too long")

module _ (c : Codec) where
  -- genesisHash, where there is no snapshot
  unfoldable pub snapshot_hash : Log → String → String
  snapshot_hash l id = elim (lookup id l.snapshots) [ none ↦ "" | some bytes ↦ c.hash bytes ]

  -- bufio.Scanner has no room for the line break of a line that fills its buffer
  abbrev pub too_long : String → Bool
  too_long line = leb max_line (c.size line)

  -- The scan of headHash: the hash of the last line, or the head before it.
  unfoldable pub scan_head : (head : String) → List String → Fallible String
  scan_head head [] = ok head
  scan_head head (line ∷ lines) =
      let raw = c.trim line in
      let skip = scan_head head lines in
      let next = scan_head (c.hash raw) lines in
      if too_long line then err scan_failure else if raw == "" then skip else next

  unfoldable pub head_hash : Log → String → Fallible String
  unfolding scan_head snapshot_hash
  head_hash l id = elim (lookup id l.heads) [
    | some h ↦ ok h
    | none ↦ scan_head (snapshot_hash l id) (at id [] l.files)
  ]

  -- The line is written and the head of the chain moves to it.
  unfoldable pub write_line : String → String → Log → Log
  unfolding extend
  write_line id line l = record l {
    files = insert id (extend (at id false l.torn) (at id [] l.files) line) l.files;
    torn = insert id false l.torn;
    heads = insert id (c.hash line) l.heads;
  }

  -- what a failed write leaves: the file, with a part of the line where there is one
  unfoldable pub leave_part : String → String → Log → Log
  unfolding extend
  leave_part id part l =
      if part == "" then record l { files = insert id (at id [] l.files) l.files } else record l {
        files = insert id (extend (at id false l.torn) (at id [] l.files) part) l.files;
        torn = insert id true l.torn;
      }

  unfoldable pub fail_append : Fault → String → Log → Log × Option Error
  unfolding leave_part
  fail_append (not_written e) id l = (l, some e)
  fail_append (cut_off part e) id l = (leave_part id part l, some (wrapped "eventlog: append" e))

  -- `io` is what goes wrong in the encoding, the directory, the file or the write, if anything.
  unfoldable pub append_event : (io : Option Fault) → String → Event → Log → Log × Option Error
  unfolding head_hash write_line fail_append
  append_event io id ev l = elim (head_hash l id) [
    | err e ↦ (l, some e)
    | ok prev ↦ elim io [
      | some f ↦ fail_append f id l
      | none ↦ (write_line id (c.encode (record ev { prev_hash = prev })) l, none)
    ]
  ]

  -- One line of the walk of Verify, where it decodes.
  unfoldable pub verify_lines : (line : ℕ) (prev : String) → List String → Verified
  verify_lines n prev [] = intact
  verify_lines n prev (line ∷ lines) =
      let raw = c.trim line in
      let skip = verify_lines n prev lines in
      let next = verify_lines (suc n) (c.hash raw) lines in
      if too_long line
      then unreadable scan_failure
      else if raw == ""
      then skip
      else elim (c.decode raw) [
        | none ↦ unreadable (wrapped "eventlog: verify" (plain "invalid JSON"))
        | some ev ↦ if ev.prev_hash == prev then next else broken (suc n) prev ev.prev_hash
      ]

  unfoldable pub verify : Log → String → Verified
  unfolding verify_lines snapshot_hash
  verify l id = elim (lookup id l.files) [
    | none ↦ unreadable missing_log
    | some lines ↦ verify_lines 0 (snapshot_hash l id) lines
  ]

  -- One line of ReadAll, before the events of the others.
  unfoldable pub read_line : Fallible (List Event) → String → Fallible (List Event)
  read_line rest line =
      let raw = c.trim line in
      if too_long line then err scan_failure else if raw == "" then rest else elim (c.decode raw) [
        | none ↦ err (wrapped "eventlog: read" (plain "invalid JSON"))
        | some ev ↦ elim rest [ err e ↦ err e | ok evs ↦ ok (ev ∷ evs) ]
      ]

  unfoldable pub read_lines : List String → Fallible (List Event)
  unfolding read_line
  read_lines [] = ok []
  read_lines (line ∷ lines) = read_line (read_lines lines) line

  unfoldable pub read_all : Log → String → Fallible (List Event)
  unfolding read_lines
  read_all l id = elim (lookup id l.files) [
    | none ↦ err missing_log
    | some lines ↦ read_lines lines
  ]
