-- ===== src/Prelude/Chunks.antt =====
-- `slice::chunks` and `concat` of the standard library.
use Prim.Native.Nat.{ℕ, zero, suc, ◌≤◌, ◌<◌}
use mathlib.Core.Path.{◌≡◌, refl, sym, ap, ◌∙◌}
use mathlib.Core.List.{List, [], ◌∷◌, ◌++◌, append_assoc}
use native.Mathlib.Omega.{arith}
use blindkey.Prelude.Lists.{length, take, drop, All, take-append-drop, length-take, length-drop}

module _ {ℓ} {A : Type ℓ} where
  abbrev pub concat : List (List A) → List A
  concat [] = []
  concat (xs ∷ xss) = xs ++ concat xss

  chunks_fuel : ℕ → ℕ → List A → List (List A)
  chunks_fuel zero n xs = []
  chunks_fuel (suc f) n [] = []
  chunks_fuel (suc f) n (x ∷ xs) = take n (x ∷ xs) ∷ chunks_fuel f n (drop n (x ∷ xs))

  -- Pieces of `n` elements, the last one shorter; each takes an element at least.
  unfoldable pub chunks : ℕ → List A → List (List A)
  unfolding chunks_fuel
  chunks n xs = chunks_fuel (length xs) n xs

  abbrev pub IsPiece : ℕ → List A → Type 0
  IsPiece n xs = (0 < length xs) × (length xs ≤ n)

  chunks_fuel-IsPiece : (f n : ℕ) (xs : List A) → 0 < n → All (IsPiece n) (chunks_fuel f n xs)
  unfolding chunks_fuel
  chunks_fuel-IsPiece zero n xs h = tt
  chunks_fuel-IsPiece (suc f) n [] h = tt
  chunks_fuel-IsPiece (suc f) n (x ∷ xs) h = (
    (omega (arith, length-take n (x ∷ xs)), omega (arith, length-take n (x ∷ xs))),
    chunks_fuel-IsPiece f n (drop n (x ∷ xs)) h,
  )

  concat-chunks_fuel :
      (f n : ℕ) (xs : List A) → 0 < n → length xs ≤ f → concat (chunks_fuel f n xs) ≡ xs
  unfolding chunks_fuel
  concat-chunks_fuel zero n [] h k = refl
  concat-chunks_fuel zero n (x ∷ xs) h k = absurd (omega arith)
  concat-chunks_fuel (suc f) n [] h k = refl
  concat-chunks_fuel (suc f) n (x ∷ xs) h k =
      ap (λ t. take n (x ∷ xs) ++ t)
        (concat-chunks_fuel f n (drop n (x ∷ xs)) h (omega (arith, length-drop n (x ∷ xs))))
      ∙ take-append-drop n (x ∷ xs)

  pub chunks-IsPiece : (n : ℕ) (xs : List A) → 0 < n → All (IsPiece n) (chunks n xs)
  unfolding chunks
  chunks-IsPiece n xs h = chunks_fuel-IsPiece (length xs) n xs h

  pub concat-chunks : (n : ℕ) (xs : List A) → 0 < n → concat (chunks n xs) ≡ xs
  unfolding chunks
  concat-chunks n xs h = concat-chunks_fuel (length xs) n xs h (omega arith)

  pub concat-append : (xss yss : List (List A)) → concat (xss ++ yss) ≡ concat xss ++ concat yss
  concat-append [] yss = refl
  concat-append (xs ∷ xss) yss =
      ap (λ t. xs ++ t) (concat-append xss yss) ∙ sym (append_assoc xs (concat xss) (concat yss))
