-- ===== src/Examples/Logs.antt =====
-- The theorems on the log, the approvals and a node, at concrete inputs.
use workflow_execution_engin.Prelude.{
  ℕ, suc, ◌+◌, String, ◌≡◌, refl, ◌≢◌, true, false, none, some, [], ◌∷◌, ◌++◌, ◌==◌, eq_iff,
  if◌then◌else◌, lookup, at, pos, ◌≤ℤ◌,
}
use workflow_execution_engin.Domain.Value.{text, end, field}
use workflow_execution_engin.Domain.Workflow.{artifact_json}
use workflow_execution_engin.Domain.Error.{Error, Violation, as_violation, Fallible, ok, err}
use workflow_execution_engin.Domain.Event
use workflow_execution_engin.Domain.Event.{Event}
use workflow_execution_engin.EventLog.{Codec, Log, intact, verify_lines}
use workflow_execution_engin.EventLog.Chain.{verify_lines-tampered}
use workflow_execution_engin.Engine.Types.{NodeResult, cache_on}
use workflow_execution_engin.Engine.Approval.{no_status, no_record, approval_records}
use workflow_execution_engin.Engine.Approval.Latest.{latest, approval_records-latest}
use workflow_execution_engin.Cache.{Entry, Cache, get, put, delete, ensure_loaded, load_file}
use workflow_execution_engin.Engine.Node.{
  NodeRequest, Services, NodeRun, no_result, execute_node, cache_key_for,
}
use workflow_execution_engin.Engine.Node.Outcome.{Agrees, execute_node_ends}
use workflow_execution_engin.Engine.Node.Cached.{cached_result, execute_node_hit}
use workflow_execution_engin.Examples.Samples.{yes_result, say, named_node}
use Prim.Native.String.{◌++◌ as append}
use workflow_execution_engin.Cache.Laws.{reopened, listed, put-reopened, delete-get}

apart : (a b : String) → (a == b) ≡ false → a ≢ b
apart a b h p = cc ((eq_iff a b).1 p)

abbrev event : String → Event
event prev = record {
  type = Event.execution_started;
  timestamp = 0;
  execution_id = "run";
  node_id = "";
  prev_hash = prev;
  payload = end;
}

-- a line is the hash that its event records, after a mark
abbrev marked : Codec
marked = record {
  encode = λ ev. append "#" ev.prev_hash;
  decode = λ s. some (event (if s == "#" then "" else if s == "##" then "#" else "?"));
  trim = λ s. s;
  size = λ s. 1;
  hash = λ s. s;
}

abbrev empty_log : Log
empty_log = record { snapshots = []; files = []; torn = []; heads = [] }

two_intact : verify_lines marked 0 "" (("#" ∷ []) ++ ("##" ∷ [])) ≡ intact
unfolding verify_lines
two_intact = refl

-- the first line is deleted
verify_lines-tampered_example : verify_lines marked 0 "" ([] ++ ("##" ∷ [])) ≢ intact
verify_lines-tampered_example =
    verify_lines-tampered marked "" ("#" ∷ []) [] "##" [] [] refl (apart "#" "" refl) two_intact

abbrev granted : Event
granted = record (event "") {
  type = Event.approval_granted;
  payload = field "checkpointId" (text "c") end;
}

approval_records-latest_example :
    (at "c" no_record (approval_records (ok (granted ∷ [])))).status
    ≡ latest "c" no_status (granted ∷ [])
approval_records-latest_example = approval_records-latest "c" (granted ∷ []) (apart "c" "" refl)

abbrev services : Services
services = record {
  describe = say;
  execute = λ req n. ([], ok yes_result);
  put = λ s. ok "h";
  get = λ s. ok "yes";
  key_of = λ n i w. some "k";
  has_cache = true;
  now = "";
}

abbrev request : NodeRequest
request = record {
  node = named_node "plan";
  inputs = [];
  retry_feedback = "";
  workflow_inputs = [];
  connection_refs = [];
  execution_id = "run";
  approvals = [];
  allow_unattended_mutations = false;
}

abbrev entry : Entry
entry = record {
  key = "k";
  artifact_hash = "h";
  artifact_type = artifact_json;
  cost_usd = 1;
  tokens = pos 3;
  created_at = "";
}

abbrev fresh_node : NodeRun
fresh_node = record {
  emitted = [];
  feedback = "";
  calls = 0;
  res = no_result;
  cache = ("k", entry) ∷ [];
}

never_fails :
    (req : NodeRequest) (n : ℕ) (e : Error) (v : Violation)
    → (services.execute req n).1 ≡ err e
    → as_violation e ≡ some v
    → v.max_retries ≤ℤ pos 0
never_fails req n e v h p = cc

execute_node_ends_example :
    (r : NodeRun × Fallible NodeResult) × (execute_node services
        (suc (2 + 0))
        (pos 2)
        (λ n. pos 0)
        (λ n d. none)
        cache_on
        request
        "plan"
        fresh_node
      ≡ some r)
    × Agrees "plan" r
execute_node_ends_example =
    execute_node_ends services 2 0 (λ n. pos 0) (λ n d. none) never_fails cache_on request "plan"
      fresh_node

has_key : cache_key_for services cache_on (named_node "plan") [] [] ≡ "k"
unfolding cache_key_for
has_key = refl

has_entry : lookup "k" fresh_node.cache ≡ some entry
unfolding lookup
has_entry = refl

execute_node_hit_example :
    (t : NodeRun) × (execute_node services 1
        (pos 0)
        (λ n. pos 0)
        (λ n d. none)
        cache_on
        request
        "plan"
        fresh_node
      ≡ some (t, ok (cached_result entry "yes")))
    × (t.calls ≡ 0)
    × (t.cache ≡ fresh_node.cache)
execute_node_hit_example =
    execute_node_hit services 1 (pos 0) (λ n. pos 0) (λ n d. none) cache_on request "plan"
      fresh_node "k" entry "yes" refl has_key (apart "k" "" refl) has_entry refl

-- a cache over a file with one entry
abbrev on_disk : Cache
on_disk = record { loaded = false; index = []; disk = some (ok (("k", entry) ∷ [])) }

on_disk_loads : (ensure_loaded on_disk).1 ≡ none
unfolding ensure_loaded load_file
on_disk_loads = refl

put-reopened_example :
    ((put none (record entry { key = "l" }) on_disk).1 ≡ none)
    × ((k : String)
        → (get k (reopened (put none (record entry { key = "l" }) on_disk).0)).1
          ≡ (if "l" == k then some (record entry { key = "l" }) else (get k on_disk).1))
put-reopened_example = put-reopened (record entry { key = "l" }) on_disk on_disk_loads

delete-get_example :
    ((delete none ("k" ∷ []) on_disk).2 ≡ none)
    × ((get "k" (delete none ("k" ∷ []) on_disk).0).1
        ≡ (if listed "k" ("k" ∷ []) then none else (get "k" on_disk).1))
delete-get_example = delete-get ("k" ∷ []) on_disk "k" on_disk_loads
