-- ===== src/Environment/Blocks.antt =====
-- The blocks of a file begin at the lines of the signal key.
use framework_kyrux.Prelude.{
  ◌≡◌, refl, sym, ap, ◌∙◌, inl, inr, String, true, false, List, [], ◌∷◌, ◌++◌, map, Option, none,
  some, arith, str_eq, eq_iff, Bool-cases, Option-cases, dec_text, if◌then◌else◌,
}
use mathlib.Core.Logic.{ite}
use mathlib.Core.List.{append-nil}
use framework_kyrux.Prelude.Dict.{Dict, lookup, insert, lookup-insert}
use framework_kyrux.Prelude.Texts.{cut}
use framework_kyrux.Environment.{
  Environment, merge_missing, as_list, entries_of, keep_pending, blocks_from, get_blocks,
}

-- The values that the lines give to a key.
unfoldable pub values_of : String → List String → List String
values_of signal [] = []
values_of signal (l ∷ ls) =
    let rest = values_of signal ls in
    elim (cut b'=' l) [
      | none ↦ rest
      | some (key, value) ↦ if str_eq key signal then value ∷ rest else rest
    ]

merge_missing-kept :
    (signal value : String) (more block : Dict String)
    → lookup signal block ≡ some value
    → lookup signal (merge_missing more block) ≡ some value
unfolding merge_missing
merge_missing-kept signal value [] block h = h
merge_missing-kept signal value ((k, v) ∷ more) block h = elim (Option-cases (lookup k block)) [
  | inl e ↦
      rw (e, merge_missing)
        (merge_missing-kept signal value more (insert k v block)
          (lookup-insert k signal v block ∙ kept (dec_text k signal) e))
  | inr (w, e) ↦ rw (e, merge_missing) (merge_missing-kept signal value more block h)
]
  where
    kept :
        (d : Dec (k ≡ signal))
        → lookup k block ≡ none
        → ite d (some v) (lookup signal block) ≡ some value
    kept (yes same) e = absurd (ground arith)
    kept (no other) e = h

abbrev read : String → List (Dict String) → List (Option String)
read signal blocks = map (λ block. lookup signal block) blocks

some_values : List String → List (Option String)
some_values [] = []
some_values (v ∷ vs) = some v ∷ some_values vs

some_values-map : (vs : List String) → some_values vs ≡ map (λ v. some v) vs
unfolding some_values
some_values-map [] = refl
some_values-map (v ∷ vs) = ap (λ os. some v ∷ os) (some_values-map vs)

insert-other :
    (signal key v : String) (block : Dict String)
    → str_eq key signal ≡ false
    → lookup signal (insert key v block) ≡ lookup signal block
insert-other signal key v block n = lookup-insert key signal v block ∙ kept (dec_text key signal)
  where
    kept : (d : Dec (key ≡ signal)) → ite d (some v) (lookup signal block) ≡ lookup signal block
    kept (yes same) = absurd (ground (arith, eq_iff key signal))
    kept (no other) = refl

new_block :
    (signal key value : String) (pending : Dict String)
    → str_eq key signal ≡ true
    → lookup signal (merge_missing pending ((key, value) ∷ [])) ≡ some value
unfolding lookup
new_block signal key value pending e =
    merge_missing-kept signal value pending ((key, value) ∷ []) (first (dec_text key signal))
  where
    first : (d : Dec (key ≡ signal)) → ite d (some value) none ≡ some value
    first (yes same) = refl
    first (no other) = absurd (other ((eq_iff key signal).0 e))

read-append :
    (signal : String) (xs ys : List (Dict String))
    → read signal (xs ++ ys) ≡ read signal xs ++ read signal ys
read-append signal [] ys = refl
read-append signal (x ∷ xs) ys = ap (λ l. lookup signal x ∷ l) (read-append signal xs ys)

blocks_from-values_of :
    (signal prefix : String) (pending current : Option (Dict String)) (ls : List String)
    → read signal (blocks_from signal prefix pending current ls)
      ≡ read signal (as_list current) ++ some_values (values_of signal ls)
unfolding blocks_from values_of some_values
blocks_from-values_of signal prefix pending current [] =
    sym (append-nil (read signal (as_list current)))
blocks_from-values_of signal prefix pending current (l ∷ ls) =
    line (cut b'=' l) refl (λ pend cur. blocks_from-values_of signal prefix pend cur ls)
  where
    Goal : Type 0
    Goal =
        read signal (blocks_from signal prefix pending current (l ∷ ls))
        ≡ read signal (as_list current) ++ some_values (values_of signal (l ∷ ls))

    Rest : Type 0
    Rest =
        (pend cur : Option (Dict String))
        → read signal (blocks_from signal prefix pend cur ls)
          ≡ read signal (as_list cur) ++ some_values (values_of signal ls)

    line : (o : Option (String × String)) → cut b'=' l ≡ o → Rest → Goal
    line none e rest = rw (e, blocks_from, values_of) (rest pending current)
    line (some (key, value)) e rest = elim (Bool-cases (str_eq key signal)) [
      | inl x ↦
          let block = merge_missing (entries_of pending) ((key, value) ∷ []) in
          rw (e, x, blocks_from, values_of)
            (read-append signal (as_list current) (blocks_from signal prefix none (some block) ls)
              ∙ ap (λ bs. read signal (as_list current) ++ bs)
                  (rest none (some block)
                    ∙ ap (λ o. o ∷ some_values (values_of signal ls))
                        (new_block signal key value (entries_of pending) x)))
      | inr x ↦
          rw (e, x, blocks_from, values_of)
            (elim current
              as (λ cur.
                read signal (elim cur [
                  | some block ↦
                      blocks_from signal prefix pending (some (insert key value block)) ls
                  | none ↦ blocks_from signal prefix (keep_pending prefix key value pending) none ls
                ])
                ≡ read signal (as_list cur) ++ some_values (values_of signal ls)) [
                  | none ↦ rest (keep_pending prefix key value pending) none
                  | some block ↦
                      rest pending (some (insert key value block))
                      ∙ ap (λ o. o ∷ some_values (values_of signal ls))
                          (insert-other signal key value block x)
                ])
    ]

-- GetBlocks returns one block for each line of the signal key among the lines that Load kept, in
-- the lines' order, and each block gives to the signal key the value of its line: keys that stand
-- before the first such line, or after it, change none of them.
pub get_blocks-values_of :
    (signal : String) (env : Environment)
    → map (λ block. lookup signal block) (get_blocks signal env)
      ≡ map (λ v. some v) (values_of signal env.raw_lines)
unfolding get_blocks
get_blocks-values_of signal env =
    blocks_from-values_of signal _ (some []) none env.raw_lines
    ∙ some_values-map (values_of signal env.raw_lines)
