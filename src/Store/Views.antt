-- ===== src/Store/Views.antt =====
-- The artifact store as a partial map from names to bytes, and what the operations of
-- core/store/artifact_store.go on its directory do to that map.
use workflow_execution_engin.Prelude.{
  String, ◌≡◌, refl, sym, ap, ◌∙◌, inl, inr, true, false, Option, none, some, arith, ◌==◌, eq_iff,
  if◌then◌else◌, Bool-cases, get_or, Map, lookup, insert, erase, lookup-insert, lookup-erase,
}
use mathlib.Core.Path.{subst}
use workflow_execution_engin.Store.{Bytes, File, Store, is_temp, counts, entries_of}

-- a file that is an artifact
abbrev pub shown : String → Option File → Option Bytes
shown name none = none
shown name (some f) = if counts name f then some f.content else none

abbrev pub view_of : Map File → String → Option Bytes
view_of m name = shown name (lookup name m)

abbrev pub view : Store → String → Option Bytes
view s = view_of (entries_of s)

temp-hidden : (n : String) (o : Option File) → is_temp n ≡ true → shown n o ≡ none
temp-hidden n none t = refl
temp-hidden n (some f) t = ground (arith, t)

module _ (k : String) (temp : is_temp k ≡ true) where
  at_temp : (n : String) → (k == n) ≡ true → is_temp n ≡ true
  at_temp n e = subst (λ j. is_temp j ≡ true) ((eq_iff k n).0 e) temp

  pub view-insert_temp :
      (f : File) (m : Map File) (n : String) → view_of (insert k f m) n ≡ view_of m n
  view-insert_temp f m n = rw (lookup-insert k n f m) (elim (Bool-cases (k == n)) [
    | inl e ↦
        rw e (temp-hidden n (some f) (at_temp n e) ∙ sym (temp-hidden n (lookup n m) (at_temp n e)))
    | inr e ↦ rw e refl
  ])

  pub view-erase_temp : (m : Map File) (n : String) → view_of (erase k m) n ≡ view_of m n
  view-erase_temp m n = rw (lookup-erase k n m) (elim (Bool-cases (k == n)) [
    | inl e ↦ rw e (sym (temp-hidden n (lookup n m) (at_temp n e)))
    | inr e ↦ rw e refl
  ])

pub view-insert :
    (k : String) (f : File) (m : Map File) (n : String)
    → counts k f ≡ true
    → view_of (insert k f m) n ≡ (if k == n then some f.content else view_of m n)
view-insert k f m n c = rw (lookup-insert k n f m) (elim (Bool-cases (k == n)) [
  | inl e ↦ rw (e, subst (λ j. counts j f ≡ true) ((eq_iff k n).0 e) c) refl
  | inr e ↦ rw e refl
])

-- every artifact is named by the hash of its content
pub record IsAddressed (sha : Bytes → String) (m : Map File) : Type 0 where
  pub named :
      (name : String) (f : File)
      → lookup name m ≡ some f
      → is_temp name ≡ false
      → (f.is_dir ≡ false) × (sha f.content ≡ name)

module _ (sha : Bytes → String) where
  -- Files whose names are temporary do not count.
  pub IsAddressed-insert_temp :
      (k : String) (f : File) (m : Map File)
      → is_temp k ≡ true
      → IsAddressed sha m
      → IsAddressed sha (insert k f m)
  IsAddressed-insert_temp k f m t a = record {
    named = λ n g e h. a.named n g (ground (arith, lookup-insert k n f m, eq_iff k n)) h;
  }

  pub IsAddressed-erase :
      (k : String) (m : Map File) → IsAddressed sha m → IsAddressed sha (erase k m)
  IsAddressed-erase k m a = record {
    named = λ n g e h. a.named n g (ground (arith, lookup-erase k n m)) h;
  }

  pub IsAddressed-insert :
      (f : File) (m : Map File)
      → f.is_dir ≡ false
      → IsAddressed sha m
      → IsAddressed sha (insert (sha f.content) f m)
  IsAddressed-insert f m d a = record {
    named = λ n g e h. elim (Bool-cases (sha f.content == n)) [
      | inl p ↦
          let same = ap (λ o. get_or o f) (rw (lookup-insert (sha f.content) n f m, p) at e) in
          subst (λ (u : File). (u.is_dir ≡ false) × (sha u.content ≡ n)) same
            (d, (eq_iff (sha f.content) n).0 p)
      | inr p ↦ a.named n g (ground (arith, lookup-insert (sha f.content) n f m)) h
    ];
  }
