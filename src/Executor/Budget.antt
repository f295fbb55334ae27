-- ===== src/Executor/Budget.antt =====
-- How many polls the tasks of src/executor.rs have left, by a rank on their futures.
use webuiboot.Base.{
  ℕ, suc, ◌+◌, ◌<◌, ◌≤◌, ◌≡◌, List, [], ◌∷◌, some, arith, ◌==◌, Bool-cases, inl, inr,
}
use webuiboot.Executor.{TaskId, Poll, ready, pending, State, get, insert, remove, leave}
use mathlib.Core.Option.{some-injective}

module _ {F : Type 0} (rank : F → ℕ) where
  -- How many polls are left at most.
  abbrev pub total : List (TaskId × F) → ℕ
  total [] = 0
  total ((id, f) ∷ ts) = suc (rank f) + total ts

  pub total-remove-le : (id : TaskId) (ts : List (TaskId × F)) → total (remove id ts) ≤ total ts
  total-remove-le id [] = omega arith
  total-remove-le id ((j, f) ∷ ts) = ground (arith, total-remove-le id ts)

  pub total-remove-lt :
      (id : TaskId) (f : F) (ts : List (TaskId × F))
      → get id ts ≡ some f
      → total (remove id ts) < total ts
  total-remove-lt id f [] e = cc
  total-remove-lt id f ((j, g) ∷ ts) e =
      ground (arith, total-remove-lt id f ts, total-remove-le id ts)

  pub total-insert-lt :
      (id : TaskId) (f g : F) (ts : List (TaskId × F))
      → get id ts ≡ some f
      → rank g < rank f
      → total (insert id g ts) < total ts
  total-insert-lt id f g [] e h = cc
  total-insert-lt id f g ((j, f') ∷ ts) e h = elim (Bool-cases (j == id)) [
    | inl same ↦
        rw same (let e' : f' ≡ f = some-injective _ _ (rw same at e) in rw e' (omega arith))
    | inr other ↦ rw other (omega (arith, total-insert-lt id f g ts (rw other at e) h))
  ]

  -- The outcome of a poll of `f` leaves fewer polls.
  abbrev pub Falls : F → Poll F → Type 0
  Falls f ready = Unit
  Falls f (pending g) = rank g < rank f

module _ {F W : Type 0} (rank : F → ℕ) where
  pub total-leave-lt :
      (id : TaskId) (f : F) (outcome : Poll F) (t : State F W)
      → get id t.tasks ≡ some f
      → Falls rank f outcome
      → total rank (leave id outcome t).tasks < total rank t.tasks
  total-leave-lt id f ready t e h = total-remove-lt rank id f t.tasks e
  total-leave-lt id f (pending g) t e h = total-insert-lt rank id f g t.tasks e h
