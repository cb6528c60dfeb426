-- ===== src/Ingest/Chunks.antt =====
-- The chunks of a job's raw data.
use cliff.Common.{
  ℕ, zero, suc, ◌+◌, ◌-◌, ◌*◌, ◌/◌, ◌≤◌, ◌<◌, ◌≡◌, refl, sym, ap, ◌∙◌, List, [], ◌∷◌, ◌++◌, arith,
  length, take, drop, take-append-drop,
}
use native.Mathlib.Nat.{add-mul, suc-mul, zero-mul, mul_comm, div-add-mod, mod-lt}
use cliff.Ingest.{ceiling, chunk_at}

module _ {A : Type 0} where
  -- the chunks that the loop slices from the one at `idx` on
  abbrev pub chunk_list : List A → ℕ → ℕ → ℕ → List (List A)
  chunk_list raw_data size zero idx = []
  chunk_list raw_data size (suc left) idx =
      chunk_at raw_data size idx ∷ chunk_list raw_data size left (suc idx)

  abbrev pub flatten : List (List A) → List A
  flatten [] = []
  flatten (xs ∷ xss) = xs ++ flatten xss

  drop-nil : (m : ℕ) → drop {A = A} m [] ≡ []
  drop-nil zero = refl
  drop-nil (suc m) = refl

  drop-drop : (m n : ℕ) (xs : List A) → drop m (drop n xs) ≡ drop (n + m) xs
  drop-drop m zero xs = ap (λ k. drop k xs) (omega arith)
  drop-drop m (suc n) [] = drop-nil m ∙ sym (drop-nil (suc n + m))
  drop-drop m (suc n) (x ∷ xs) =
      let more : suc (n + m) ≡ suc n + m = omega arith in
      drop-drop m n xs ∙ ap (λ k. drop k (x ∷ xs)) more

  drop-all : (m : ℕ) (xs : List A) → length xs ≤ m → drop m xs ≡ []
  drop-all zero [] h = refl
  drop-all zero (x ∷ xs) h = absurd (omega arith)
  drop-all (suc m) [] h = refl
  drop-all (suc m) (x ∷ xs) h = drop-all m xs (omega arith)

  flatten-chunks :
      (raw_data : List A) (size left idx : ℕ)
      → length raw_data ≤ (idx + left) * size
      → flatten (chunk_list raw_data size left idx) ≡ drop (idx * size) raw_data
  unfolding chunk_at
  flatten-chunks raw_data size zero idx h =
      sym (drop-all (idx * size) raw_data (omega (arith, add-mul idx 0 size)))
  flatten-chunks raw_data size (suc left) idx h =
      let rest : flatten (chunk_list raw_data size left (suc idx))
          ≡ drop (suc idx * size) raw_data =
        flatten-chunks raw_data size left (suc idx) (
          let same : idx + suc left ≡ suc idx + left = omega arith in
          omega (arith, ap (λ n. n * size) same)) in
      let step : drop (suc idx * size) raw_data ≡ drop size (drop (idx * size) raw_data) =
        ap (λ n. drop n raw_data) (suc-mul idx size) ∙ sym (drop-drop size (idx * size) raw_data) in
      ap (λ l. take size (drop (idx * size) raw_data) ++ l) (rest ∙ step)
      ∙ take-append-drop size (drop (idx * size) raw_data)

ceiling-covers : (n size : ℕ) → 0 < size → n ≤ ceiling n size * size
ceiling-covers n size h =
    let q = (n + size - 1) / size in
    omega (arith, div-add-mod (n + size - 1) size, mod-lt (n + size - 1) h, mul_comm q size)

-- The chunks that the loop slices, put one after the other, are the raw data, for each chunk size
-- above 0: no item is left out or repeated, and the order is kept.
pub chunks-cover :
    {A : Type 0} (raw_data : List A) (size : ℕ)
    → 0 < size
    → flatten (chunk_list raw_data size (ceiling (length raw_data) size) 0) ≡ raw_data
chunks-cover raw_data size h =
    let start : 0 * size ≡ 0 = zero-mul size in
    flatten-chunks raw_data size (ceiling (length raw_data) size) 0
      (omega (arith, ceiling-covers (length raw_data) size h))
    ∙ ap (λ n. drop n raw_data) start
