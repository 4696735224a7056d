-- ===== src/Graph/Chunks.antt =====
-- crates/core/src/graph/neo4j.rs: `chunk_rows`, the standard library's `chunks` written out. Each step
-- takes at least one row, so as many steps as there are rows are enough.
use aws_net_hound.Base.{
  ◌≡◌, refl, sym, ap, subst, ℕ, zero, suc, ◌-◌, ◌≤◌, ◌<◌, List, [], ◌∷◌, ◌++◌, length, concat, All,
  arith,
}

module _ {A : Type 0} where
  abbrev pub take : ℕ → List A → List A
  take zero xs = []
  take (suc n) [] = []
  take (suc n) (x ∷ xs) = x ∷ take n xs

  abbrev pub drop : ℕ → List A → List A
  drop zero xs = xs
  drop (suc n) [] = []
  drop (suc n) (x ∷ xs) = drop n xs

  abbrev pub chunks_within : ℕ → ℕ → List A → List (List A)
  chunks_within zero size rows = []
  chunks_within (suc fuel) size [] = []
  chunks_within (suc fuel) size (row ∷ rows) =
      take size (row ∷ rows) ∷ chunks_within fuel size (drop size (row ∷ rows))

  unfoldable pub chunk_rows : List A → ℕ → List (List A)
  chunk_rows rows size = chunks_within (length rows) size rows

  take-drop : (n : ℕ) (xs : List A) → take n xs ++ drop n xs ≡ xs
  take-drop zero xs = refl
  take-drop (suc n) [] = refl
  take-drop (suc n) (x ∷ xs) = rw (take-drop n xs) refl

  length-take : (n : ℕ) (xs : List A) → length (take n xs) ≤ n
  length-take zero xs = ground arith
  length-take (suc n) [] = ground arith
  length-take (suc n) (x ∷ xs) = omega (arith, length-take n xs)

  length-drop : (n : ℕ) (xs : List A) → length (drop n xs) ≡ length xs - n
  length-drop zero xs = omega arith
  length-drop (suc n) [] = omega arith
  length-drop (suc n) (x ∷ xs) = omega (arith, length-drop n xs)

  -- A chunk of the given size, or a smaller one that is not empty.
  abbrev pub IsChunk : ℕ → List A → Type 0
  IsChunk size chunk = (0 < length chunk) × (length chunk ≤ size)

  chunks_within_lem :
      (fuel size : ℕ) (rows : List A)
      → 0 < size
      → length rows ≤ fuel
      → (concat (chunks_within fuel size rows) ≡ rows)
        × All (IsChunk size) (chunks_within fuel size rows)
  chunks_within_lem zero size [] h k = (refl, tt)
  chunks_within_lem zero size (row ∷ rows) h k = absurd (omega (arith, k))
  chunks_within_lem (suc fuel) size [] h k = (refl, tt)
  chunks_within_lem (suc fuel) zero (row ∷ rows) h k = absurd (omega (arith, h))
  chunks_within_lem (suc fuel) (suc n) (row ∷ rows) h k =
      let (whole, each) =
        chunks_within_lem fuel (suc n) (drop n rows) h (omega (arith, k, length-drop n rows)) in
      (rw (whole, take-drop n rows) refl, ((omega arith, omega (arith, length-take n rows)), each))

  -- All chunks but the last have the size, and the last is a chunk.
  abbrev pub IsBatched : ℕ → List (List A) → Type 0
  IsBatched size [] = Unit
  IsBatched size (chunk ∷ []) = IsChunk size chunk
  IsBatched size (chunk ∷ next ∷ chunks) = (length chunk ≡ size) × IsBatched size (next ∷ chunks)

  length-take_of_drop : (n : ℕ) (xs : List A) → 0 < length (drop n xs) → length (take n xs) ≡ n
  length-take_of_drop zero xs h = refl
  length-take_of_drop (suc n) [] h = absurd (omega (arith, h))
  length-take_of_drop (suc n) (x ∷ xs) h = ap suc (length-take_of_drop n xs h)

  chunks_within-IsBatched :
      (fuel size : ℕ) (rows : List A)
      → 0 < size
      → length rows ≤ fuel
      → IsBatched size (chunks_within fuel size rows)
  chunks_within-IsBatched zero size rows h k = tt
  chunks_within-IsBatched (suc fuel) size [] h k = tt
  chunks_within-IsBatched (suc fuel) zero (row ∷ rows) h k = absurd (omega (arith, h))
  chunks_within-IsBatched (suc fuel) (suc n) (row ∷ rows) h k =
      go fuel (drop n rows) refl
        (chunks_within-IsBatched fuel (suc n) (drop n rows) h
          (omega (arith, k, length-drop n rows)))
        (omega (arith, k, length-drop n rows))
    where
      go :
          (fuel : ℕ) (rest : List A)
          → drop n rows ≡ rest
          → IsBatched (suc n) (chunks_within fuel (suc n) rest)
          → length rest ≤ fuel
          → IsBatched (suc n) ((row ∷ take n rows) ∷ chunks_within fuel (suc n) rest)
      go zero [] e b l = (omega arith, omega (arith, length-take n rows))
      go (suc fuel) [] e b l = (omega arith, omega (arith, length-take n rows))
      go zero (x ∷ rest) e b l = absurd (omega (arith, l))
      go (suc fuel) (x ∷ rest) e b l = (
        ap suc (length-take_of_drop n rows (subst (λ xs. 0 < length xs) (sym e) (omega arith))),
        b,
      )

  pub chunk_rows-IsBatched :
      (rows : List A) (size : ℕ) → 0 < size → IsBatched size (chunk_rows rows size)
  unfolding chunk_rows
  chunk_rows-IsBatched rows size h = chunks_within-IsBatched (length rows) size rows h (omega arith)

  -- For a positive size, the chunks in order are the rows, none of them is empty and none is longer
  -- than the size.
  pub chunk_rows_lem :
      (rows : List A) (size : ℕ)
      → 0 < size
      → (concat (chunk_rows rows size) ≡ rows) × All (IsChunk size) (chunk_rows rows size)
  unfolding chunk_rows
  chunk_rows_lem rows size h = chunks_within_lem (length rows) size rows h (omega arith)
