-- ===== src/Orm/Prefetch.antt =====
-- Loading related rows in one query (core/orm/prefetch.go: Prefetch, PrefetchTx, dedupe,
-- groupByKey). The database answers a statement by rows, or fails.
pub mod Groups
pub mod Tests
use framework_kyrux.Prelude.{String, List, [], ◌∷◌, ◌++◌, map, Option, none, some, Result, ok, err}
use mathlib.Core.Logic.{ite}
use framework_kyrux.Prelude.{Bool, true, false, ◌≡◌}
use framework_kyrux.Orm.Model.{Arg, slice, OrmError}
use framework_kyrux.Orm.Query.{Query, where_in}
use framework_kyrux.Orm.Statements.{Statement, all_statement}

-- What the loading fails with: the builder, or the database.
pub data PrefetchError : Type 0 where
  unbuilt : OrmError → PrefetchError
  unanswered : PrefetchError

module _ {ℓ} {K : Type ℓ} (same : (a b : K) → Dec (a ≡ b)) where
  unfoldable pub is_among : K → List K → Bool
  is_among k [] = false
  is_among k (x ∷ xs) = ite (same x k) true (is_among k xs)

  -- The loop of dedupe, for the keys seen so far.
  unfoldable pub dedupe_from : List K → List K → List K
  unfolding is_among
  dedupe_from seen [] = []
  dedupe_from seen (k ∷ ks) = elim (is_among k seen) [
    | true ↦ dedupe_from seen ks
    | false ↦ k ∷ dedupe_from (k ∷ seen) ks
  ]

  unfoldable pub dedupe : List K → List K
  unfolding dedupe_from
  dedupe keys = dedupe_from [] keys

  module _ {κ} {R : Type κ} where
    -- `grouped[k] = append(grouped[k], item)`
    unfoldable pub add_to : K → R → List (K × List R) → List (K × List R)
    add_to k r [] = (k, r ∷ []) ∷ []
    add_to k r ((j, rs) ∷ groups) =
        ite (same j k) ((j, rs ++ r ∷ []) ∷ groups) ((j, rs) ∷ add_to k r groups)

    -- `grouped[k]`, nil where the key is missing
    unfoldable pub group_of : K → List (K × List R) → List R
    group_of k [] = []
    group_of k ((j, rs) ∷ groups) = ite (same j k) rs (group_of k groups)

    unfoldable pub group_from : (R → K) → List R → List (K × List R) → List (K × List R)
    unfolding add_to
    group_from key_of [] groups = groups
    group_from key_of (r ∷ rs) groups = group_from key_of rs (add_to (key_of r) r groups)

    unfoldable pub group_by_key : (R → K) → List R → List (K × List R)
    unfolding group_from
    group_by_key key_of rows = group_from key_of rows []

    -- Prefetch, on a query of all rows; `arg` is a key as an argument of the statement.
    unfoldable pub prefetch :
        {A : Type ℓ}
        → (K → A)
        → (Statement A → Option (List R))
        → Query A
        → String
        → List K
        → (R → K)
        → Result PrefetchError (List (K × List R))
    unfolding dedupe group_by_key
    prefetch arg answer q col [] key_of = ok []
    prefetch arg answer q col (k ∷ ks) key_of =
        elim (all_statement (where_in col (slice (map arg (dedupe (k ∷ ks))) ∷ []) q)) [
          | err e ↦ err (unbuilt e)
          | ok st ↦ elim (answer st) [
            | none ↦ err unanswered
            | some rows ↦ ok (group_by_key key_of rows)
          ]
        ]
