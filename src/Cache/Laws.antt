-- ===== src/Cache/Laws.antt =====
-- What the cache keeps: core/cache/store.go and inspect.go.
use workflow_execution_engin.Prelude.{
  String, ◌≡◌, refl, ◌∙◌, inl, inr, Bool, true, false, ◌||◌, Option, none, some, List, [], ◌∷◌,
  arith, ◌==◌, eq_iff, leb, if◌then◌else◌, Bool-cases, is_some, Map, lookup, insert, erase,
  lookup-insert, lookup-erase,
}
use workflow_execution_engin.Domain.Error.{Error, Fallible, ok, err}
use workflow_execution_engin.Cache.{
  Entry, Cache, merge, load_file, ensure_loaded, save, found, get, put_loaded, put, remove_all,
  delete_loaded, delete,
}

-- the cache of a later process, over the same file
abbrev pub reopened : Cache → Cache
reopened c = record { loaded = false; index = []; disk = c.disk }

merge-lookup :
    (m index : Map Entry) (k : String)
    → lookup k (merge index m) ≡ (if is_some (lookup k m) then lookup k m else lookup k index)
unfolding merge lookup
merge-lookup [] index k = refl
merge-lookup ((j, e) ∷ m) index k =
    ground (arith, lookup-insert j k e (merge index m), merge-lookup m index k)

merge-empty : (m : Map Entry) (k : String) → lookup k (merge [] m) ≡ lookup k m
unfolding lookup
merge-empty m k = ground (arith, merge-lookup m [] k)

put_loaded-reopened :
    (e : Entry) (r : Cache × Option Error)
    → r.1 ≡ none
    → ((put_loaded none e r).1 ≡ none)
      × ((k : String)
          → (get k (reopened (put_loaded none e r).0)).1
            ≡ (if e.key == k then some e else (found k r).1))
unfolding get ensure_loaded load_file save
put_loaded-reopened e (c, none) h =
    (refl, λ k. merge-empty (insert e.key e c.index) k ∙ lookup-insert e.key k e c.index)
put_loaded-reopened e (c, some failure) h = cc

-- Where the index can be loaded and written, Put succeeds, and a cache that is opened later on the
-- same file gives the new entry for its key, and for every other key what the cache gave before.
pub put-reopened :
    (e : Entry) (c : Cache)
    → (ensure_loaded c).1 ≡ none
    → ((put none e c).1 ≡ none)
      × ((k : String)
          → (get k (reopened (put none e c).0)).1 ≡ (if e.key == k then some e else (get k c).1))
unfolding put get
put-reopened e c h = put_loaded-reopened e (ensure_loaded c) h

abbrev pub listed : String → List String → Bool
listed k [] = false
listed k (j ∷ js) = (j == k) || listed k js

remove_all-lookup :
    (ks : List String) (m : Map Entry) (k : String)
    → lookup k (remove_all ks m).1 ≡ (if listed k ks then none else lookup k m)
unfolding remove_all
remove_all-lookup [] m k = refl
remove_all-lookup (j ∷ ks) m k = ground (
  arith,
  eq_iff j k,
  remove_all-lookup ks m k,
  remove_all-lookup ks (erase j m) k,
  lookup-erase j k m,
)

load_file_loaded :
    (d : Option (Fallible (Map Entry))) (c : Cache)
    → (load_file d c).1 ≡ none
    → (load_file d c).0.loaded ≡ true
unfolding load_file
load_file_loaded none c h = refl
load_file_loaded (some (err e)) c h = cc
load_file_loaded (some (ok m)) c h = refl

ensure_loaded_loaded : (c : Cache) → (ensure_loaded c).1 ≡ none → (ensure_loaded c).0.loaded ≡ true
unfolding ensure_loaded
ensure_loaded_loaded c h = ground (arith, load_file_loaded c.disk c)

get_loaded : (k : String) (c : Cache) → c.loaded ≡ true → (get k c).1 ≡ lookup k c.index
unfolding get ensure_loaded
get_loaded k c h = ground arith

delete_loaded-get :
    (ks : List String) (r : Cache × Option Error) (k : String)
    → r.1 ≡ none
    → r.0.loaded ≡ true
    → ((delete_loaded none ks r).2 ≡ none)
      × ((get k (delete_loaded none ks r).0).1 ≡ (if listed k ks then none else (found k r).1))
unfolding save
delete_loaded-get ks (c, some e) k h l = cc
delete_loaded-get ks (c, none) k h l = elim (Bool-cases (leb (remove_all ks c.index).0 0)) [
  | inl z ↦
      let c' = record c { index = (remove_all ks c.index).1 } in
      rw z (refl, get_loaded k c' l ∙ remove_all-lookup ks c.index k)
  | inr z ↦
      let m = (remove_all ks c.index).1 in
      let c' = record c { index = m; disk = some (ok m) } in
      rw z (refl, get_loaded k c' l ∙ remove_all-lookup ks c.index k)
]

-- Where the index can be loaded and written, Delete succeeds; afterwards none of the named keys has
-- an entry, and every other key has what it had.
pub delete-get :
    (ks : List String) (c : Cache) (k : String)
    → (ensure_loaded c).1 ≡ none
    → ((delete none ks c).2 ≡ none)
      × ((get k (delete none ks c).0).1 ≡ (if listed k ks then none else (get k c).1))
unfolding delete get
delete-get ks c k h = delete_loaded-get ks (ensure_loaded c) k h (ensure_loaded_loaded c h)
