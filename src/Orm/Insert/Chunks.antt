-- ===== src/Orm/Insert/Chunks.antt =====
-- The chunks in which createAllInto inserts its rows.
use framework_kyrux.Prelude.{
  ℕ, zero, suc, ◌≡◌, ◌≤◌, refl, ap, ◌∙◌, List, [], ◌∷◌, ◌++◌, arith, length, length-take,
  length-drop, take, drop, All,
}
use framework_kyrux.Orm.Insert.{chunks_of, bulk_chunk_size}

module _ {ℓ} {B : Type ℓ} where
  abbrev pub together : List (List B) → List B
  together [] = []
  together (xs ∷ xss) = xs ++ together xss

  take-drop : (n : ℕ) (xs : List B) → take n xs ++ drop n xs ≡ xs
  take-drop zero xs = refl
  take-drop (suc n) [] = refl
  take-drop (suc n) (x ∷ xs) = ap (λ l. x ∷ l) (take-drop n xs)

  chunks_of-together :
      (fuel : ℕ) (rows : List B) → length rows ≤ fuel → together (chunks_of fuel rows) ≡ rows
  unfolding chunks_of
  chunks_of-together zero [] h = refl
  chunks_of-together zero (row ∷ rows) h = absurd (omega arith)
  chunks_of-together (suc fuel) [] h = refl
  chunks_of-together (suc fuel) (row ∷ rows) h =
      let rest =
        chunks_of-together fuel (drop bulk_chunk_size (row ∷ rows))
          (omega (arith, length-drop bulk_chunk_size (row ∷ rows))) in
      ap (λ l. take bulk_chunk_size (row ∷ rows) ++ l) rest ∙ take-drop bulk_chunk_size (row ∷ rows)

  chunks_of_sized :
      (fuel : ℕ) (rows : List B)
      → All (λ chunk. (1 ≤ length chunk) × (length chunk ≤ 500)) (chunks_of fuel rows)
  unfolding chunks_of
  chunks_of_sized zero rows = tt
  chunks_of_sized (suc fuel) [] = tt
  chunks_of_sized (suc fuel) (row ∷ rows) =
      let size = length-take bulk_chunk_size (row ∷ rows) in
      (
        (omega (arith, size), omega (arith, size)),
        chunks_of_sized fuel (drop bulk_chunk_size (row ∷ rows)),
      )

  -- The loop of createAllInto ends after at most one round for each row: its chunks are the rows,
  -- each once and in order, and every chunk has between 1 and 500 rows.
  pub chunks_of_lem :
      (rows : List B)
      → (together (chunks_of (length rows) rows) ≡ rows)
        × All (λ chunk. (1 ≤ length chunk) × (length chunk ≤ 500)) (chunks_of (length rows) rows)
  chunks_of_lem rows =
      (chunks_of-together (length rows) rows (omega arith), chunks_of_sized (length rows) rows)
