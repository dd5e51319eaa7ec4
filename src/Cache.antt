-- ===== src/Cache.antt =====
-- core/cache/store.go and inspect.go: the index of the node cache, in memory and on disk. The file
-- is what it decodes to; a file that cannot be read or decoded is an error, and is taken to leave
-- the index as it was.
use workflow_execution_engin.Prelude.{
  ℕ, suc, String, Bool, true, Option, none, some, List, [], ◌∷◌, leb, if◌then◌else◌, is_some, Map,
  lookup, insert, erase, ℤ,
}
use workflow_execution_engin.Domain.Value.{Float64}
use workflow_execution_engin.Domain.Workflow.{ArtifactType}
use workflow_execution_engin.Domain.Error.{Error, wrapped, Fallible, ok, err}
pub mod Laws

pub record Entry : Type 0 where
  pub key : String
  pub artifact_hash : String
  pub artifact_type : ArtifactType
  pub cost_usd : Float64
  pub tokens : ℤ
  pub created_at : String

-- `disk` is none where there is no file
pub record Cache : Type 0 where
  pub loaded : Bool
  pub index : Map Entry
  pub disk : Option (Fallible (Map Entry))

-- json.Unmarshal into the index: the entries of the file, and what else was there
unfoldable pub merge : Map Entry → Map Entry → Map Entry
merge index [] = index
merge index ((k, e) ∷ m) = insert k e (merge index m)

unfoldable pub load_file : Option (Fallible (Map Entry)) → Cache → Cache × Option Error
unfolding merge
load_file none c = (record c { loaded = true }, none)
load_file (some (err e)) c = (c, some (wrapped "cache: read index" e))
load_file (some (ok m)) c = (record c { loaded = true; index = merge c.index m }, none)

unfoldable pub ensure_loaded : Cache → Cache × Option Error
unfolding load_file
ensure_loaded c = if c.loaded then (c, none) else load_file c.disk c

-- `io` is the error of writing the new file or of putting it in place, if any
unfoldable pub save : (io : Option Error) → Cache → Cache × Option Error
save none c = (record c { disk = some (ok c.index) }, none)
save (some e) c = (c, some (wrapped "cache: commit index" e))

abbrev pub found : String → Cache × Option Error → Cache × Option Entry
found key (c, none) = (c, lookup key c.index)
found key (c, some e) = (c, none)

unfoldable pub get : String → Cache → Cache × Option Entry
unfolding ensure_loaded
get key c = found key (ensure_loaded c)

abbrev pub put_loaded : (io : Option Error) → Entry → Cache × Option Error → Cache × Option Error
put_loaded io e (c, some failure) = (c, some failure)
put_loaded io e (c, none) = save io (record c { index = insert e.key e c.index })

unfoldable pub put : (io : Option Error) → Entry → Cache → Cache × Option Error
unfolding ensure_loaded save
put io e c = put_loaded io e (ensure_loaded c)

abbrev pub looked_up : String → Cache × Option Error → Cache × Fallible (Option Entry)
looked_up key (c, some e) = (c, err e)
looked_up key (c, none) = (c, ok (lookup key c.index))

unfoldable pub inspect : String → Cache → Cache × Fallible (Option Entry)
unfolding ensure_loaded
inspect key c = looked_up key (ensure_loaded c)

unfoldable pub clear : (io : Option Error) → Cache → Cache × Option Error
unfolding save
clear io c = save io (record c { loaded = true; index = [] })

-- the loop of Delete, with the number of entries that it removed
unfoldable pub remove_all : List String → Map Entry → ℕ × Map Entry
remove_all [] m = (0, m)
remove_all (k ∷ ks) m =
    let there = remove_all ks (erase k m) in
    let absent = remove_all ks m in if is_some (lookup k m) then (suc there.0, there.1) else absent

abbrev pub saved : ℕ → Cache × Option Error → Cache × ℕ × Option Error
saved n (c, e) = (c, n, e)

abbrev pub delete_loaded :
    (io : Option Error) → List String → Cache × Option Error → Cache × ℕ × Option Error
delete_loaded io keys (c, some e) = (c, 0, some e)
delete_loaded io keys (c, none) =
    let r = remove_all keys c.index in
    let c' = record c { index = r.1 } in if leb r.0 0 then (c', 0, none) else saved r.0 (save io c')

unfoldable pub delete : (io : Option Error) → List String → Cache → Cache × ℕ × Option Error
unfolding ensure_loaded remove_all save
delete io keys c = delete_loaded io keys (ensure_loaded c)
