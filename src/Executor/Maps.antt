-- ===== src/Executor/Maps.antt =====
-- Lemmas on the task map and the event registries of src/executor.rs.
use webuiboot.Base.{
  ◌≡◌, refl, Bool, true, false, not, ◌&&◌, ◌||◌, List, [], ◌∷◌, ◌++◌, Option, none, some, arith,
  ◌==◌, if◌then◌else◌,
}
use webuiboot.Executor.{
  TaskId, Registry, get, contains_key, insert, remove, retain_others, entries_of,
}

module _ {F : Type 0} (id j : TaskId) where
  pub contains_key-insert :
      (f : F) (ts : List (TaskId × F))
      → contains_key j (insert id f ts) ≡ (id == j || contains_key j ts)
  contains_key-insert f [] = refl
  contains_key-insert f ((k, g) ∷ ts) = ground (arith, contains_key-insert f ts)

  pub contains_key-remove :
      (ts : List (TaskId × F))
      → contains_key j (remove id ts) ≡ (not (id == j) && contains_key j ts)
  contains_key-remove [] = ground arith
  contains_key-remove ((k, g) ∷ ts) = ground (arith, contains_key-remove ts)

  pub get-insert :
      (f : F) (ts : List (TaskId × F))
      → get j (insert id f ts) ≡ (if id == j then some f else get j ts)
  get-insert f [] = refl
  get-insert f ((k, g) ∷ ts) = ground (arith, get-insert f ts)

  pub get-remove :
      (ts : List (TaskId × F)) → get j (remove id ts) ≡ (if id == j then none else get j ts)
  get-remove [] = ground arith
  get-remove ((k, g) ∷ ts) = ground (arith, get-remove ts)

module _ {F : Type 0} where
  abbrev pub is_some : Option F → Bool
  is_some none = false
  is_some (some f) = true

  pub contains_key-get :
      (j : TaskId) (ts : List (TaskId × F)) → contains_key j ts ≡ is_some (get j ts)
  contains_key-get j [] = refl
  contains_key-get j ((k, g) ∷ ts) = ground (arith, contains_key-get j ts)

-- some event wakes the task
abbrev pub has_entry : TaskId → Registry → Bool
has_entry id [] = false
has_entry id ((e, tid) ∷ r) = tid == id || has_entry id r

module _ (id j : TaskId) where
  pub has_entry-retain_others :
      (r : Registry) → has_entry j (retain_others id r) ≡ (not (id == j) && has_entry j r)
  has_entry-retain_others [] = ground arith
  has_entry-retain_others ((e, tid) ∷ r) = ground (arith, has_entry-retain_others r)

  pub has_entry-entries_of :
      (r : Registry) → has_entry j (entries_of id r) ≡ (id == j && has_entry id r)
  has_entry-entries_of [] = ground arith
  has_entry-entries_of ((e, tid) ∷ r) = ground (arith, has_entry-entries_of r)

pub has_entry-append :
    (j : TaskId) (r q : Registry) → has_entry j (r ++ q) ≡ (has_entry j r || has_entry j q)
has_entry-append j [] q = refl
has_entry-append j ((e, tid) ∷ r) q = ground (arith, has_entry-append j r q)

pub retain_others-append :
    (id : TaskId) (r q : Registry)
    → retain_others id (r ++ q) ≡ retain_others id r ++ retain_others id q
retain_others-append id [] q = refl
retain_others-append id ((e, tid) ∷ r) q = ground (arith, retain_others-append id r q)
