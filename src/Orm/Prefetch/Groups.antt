-- ===== src/Orm/Prefetch/Groups.antt =====
-- What Prefetch returns for each key, and which keys it asks for.
use framework_kyrux.Prelude.{
  ◌≡◌, refl, sym, ap, ◌∙◌, inl, inr, String, true, false, List, [], ◌∷◌, ◌++◌, map, Option, some,
  arith, Bool-cases, ok,
}
use mathlib.Core.Logic.{ite, ◌≢◌}
use mathlib.Core.List.{append-nil, append_assoc}
use framework_kyrux.Orm.Model.{slice}
use framework_kyrux.Orm.Query.{Query, where_in}
use framework_kyrux.Orm.Statements.{Statement, all_statement}
use framework_kyrux.Orm.Prefetch.{
  is_among, dedupe_from, dedupe, add_to, group_of, group_from, group_by_key, prefetch,
}

module _ {ℓ} {K : Type ℓ} (same : (a b : K) → Dec (a ≡ b)) where
  -- No key stands twice.
  abbrev pub IsDistinct : List K → Type 0
  IsDistinct [] = Unit
  IsDistinct (k ∷ ks) = (is_among same k ks ≡ false) × IsDistinct ks

  -- A key is asked for if it is among the keys and was not seen.
  dedupe_from-is_among :
      (seen ks : List K) (k : K)
      → is_among same k (dedupe_from same seen ks)
        ≡ (elim (is_among same k seen) [ true ↦ false | false ↦ is_among same k ks ])
  unfolding dedupe_from is_among
  dedupe_from-is_among seen [] k = ground arith
  dedupe_from-is_among seen (x ∷ ks) k =
      ground (arith, dedupe_from-is_among seen ks k, dedupe_from-is_among (x ∷ seen) ks k)

  dedupe_from-IsDistinct : (seen ks : List K) → IsDistinct (dedupe_from same seen ks)
  unfolding dedupe_from is_among
  dedupe_from-IsDistinct seen [] = tt
  dedupe_from-IsDistinct seen (x ∷ ks) = elim (Bool-cases (is_among same x seen)) [
    | inl e ↦ rw (e, dedupe_from) (dedupe_from-IsDistinct seen ks)
    | inr e ↦ rw (e, dedupe_from) (absent, dedupe_from-IsDistinct (x ∷ seen) ks)
  ]
    where
      absent : is_among same x (dedupe_from same (x ∷ seen) ks) ≡ false
      absent = ground (arith, dedupe_from-is_among (x ∷ seen) ks x)

  module _ {κ} {R : Type κ} (key_of : R → K) where
    -- The rows of a key, in their order.
    unfoldable pub rows_of : K → List R → List R
    rows_of k [] = []
    rows_of k (r ∷ rs) = ite (same (key_of r) k) (r ∷ rows_of k rs) (rows_of k rs)

    rows_of-append :
        (k : K) (r : R) (rs : List R) → rows_of k (r ∷ []) ++ rows_of k rs ≡ rows_of k (r ∷ rs)
    unfolding rows_of
    rows_of-append k r rs = ground arith

    group_of-add_to :
        (k : K) (r : R) (groups : List (K × List R))
        → group_of same k (add_to same (key_of r) r groups)
          ≡ group_of same k groups ++ rows_of k (r ∷ [])
    unfolding group_of add_to rows_of
    group_of-add_to k r [] = ground arith
    group_of-add_to k r ((j, rs) ∷ groups) =
        elim (same j (key_of r))
          as (λ d.
            group_of same k
              (ite d ((j, rs ++ r ∷ []) ∷ groups) ((j, rs) ∷ add_to same (key_of r) r groups))
            ≡ ite (same j k) rs (group_of same k groups) ++ ite (same (key_of r) k) (r ∷ []) []) [
              | yes p ↦ merged (same j k) (same (key_of r) k) p
              | no n ↦ apart (same j k) (same (key_of r) k) n (group_of-add_to k r groups)
            ]
      where
        merged :
            (c : Dec (j ≡ k)) (d : Dec (key_of r ≡ k))
            → j ≡ key_of r
            → ite c (rs ++ r ∷ []) (group_of same k groups)
              ≡ ite c rs (group_of same k groups) ++ ite d (r ∷ []) []
        merged (yes x) (yes y) p = refl
        merged (yes x) (no y) p = absurd (y (sym p ∙ x))
        merged (no x) (yes y) p = absurd (x (p ∙ y))
        merged (no x) (no y) p = sym (append-nil (group_of same k groups))

        apart :
            (c : Dec (j ≡ k)) (d : Dec (key_of r ≡ k))
            → ¬ (j ≡ key_of r)
            → group_of same k (add_to same (key_of r) r groups)
              ≡ group_of same k groups ++ ite d (r ∷ []) []
            → ite c rs (group_of same k (add_to same (key_of r) r groups))
              ≡ ite c rs (group_of same k groups) ++ ite d (r ∷ []) []
        apart (yes x) (yes y) n h = absurd (n (x ∙ sym y))
        apart (yes x) (no y) n h = sym (append-nil rs)
        apart (no x) d n h = h

    group_of-group_from :
        (k : K) (rs : List R) (groups : List (K × List R))
        → group_of same k (group_from same key_of rs groups)
          ≡ group_of same k groups ++ rows_of k rs
    unfolding group_from rows_of
    group_of-group_from k [] groups = sym (append-nil (group_of same k groups))
    group_of-group_from k (r ∷ rs) groups =
        group_of-group_from k rs (add_to same (key_of r) r groups)
        ∙ ap (λ l. l ++ rows_of k rs) (group_of-add_to k r groups)
        ∙ append_assoc (group_of same k groups) (rows_of k (r ∷ [])) (rows_of k rs)
        ∙ ap (λ l. group_of same k groups ++ l) (rows_of-append k r rs)

    -- Where there are keys, Prefetch asks for each of them once, in a statement that the builder
    -- makes, and gives each key, of the keys or not, exactly those of the answered rows that have
    -- it, in their order.
    pub prefetch_lem :
        {A : Type ℓ} (arg : K → A) (answer : Statement A → Option (List R)) (q : Query A)
        (col : String) (keys : List K) (st : Statement A) (rows : List R)
        → keys ≢ []
        → all_statement (where_in col (slice (map arg (dedupe same keys)) ∷ []) q) ≡ ok st
        → answer st ≡ some rows
        → (groups : List (K × List R)) × (prefetch same arg answer q col keys key_of ≡ ok groups)
          × ((k : K) → group_of same k groups ≡ rows_of k rows)
          × IsDistinct (dedupe same keys)
          × ((k : K) → is_among same k (dedupe same keys) ≡ is_among same k keys)
    unfolding prefetch dedupe group_by_key is_among group_of
    prefetch_lem arg answer q col [] st rows some_key built answered = absurd (some_key refl)
    prefetch_lem arg answer q col (x ∷ ks) st rows some_key built answered = (
      group_from same key_of rows [],
      rw (built, answered, prefetch) refl,
      λ k. group_of-group_from k rows [],
      dedupe_from-IsDistinct [] (x ∷ ks),
      λ k. dedupe_from-is_among [] (x ∷ ks) k,
    )
