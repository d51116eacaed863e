-- ===== src/Squirrel/Client/Chunks.antt =====
-- `slice::chunks` as `mvp_send` uses it (haysel/squirrel/src/transport/client.rs): the chunks are no
-- longer than asked for, and make up the data.
use hayselnut.Common.{
  ℕ, zero, suc, ◌≤◌, ◌≡◌, ◌∙◌, refl, ap, List, [], ◌∷◌, ◌++◌, All, length, take, drop, arith,
  length-take, length-drop, take-append-drop,
}
use hayselnut.Squirrel.Client.{chunks_from, chunks}

abbrev pub joined : List (List ℕ) → List ℕ
joined [] = []
joined (part ∷ parts) = part ++ joined parts

chunks_from-joined :
    (size fuel : ℕ) (xs : List ℕ) → length xs ≤ fuel → joined (chunks_from (suc size) fuel xs) ≡ xs
unfolding chunks_from
chunks_from-joined size zero [] h = refl
chunks_from-joined size zero (x ∷ xs) h = absurd (omega arith)
chunks_from-joined size (suc fuel) [] h = refl
chunks_from-joined size (suc fuel) (x ∷ xs) h =
    ap (λ ys. take (suc size) (x ∷ xs) ++ ys)
      (chunks_from-joined size fuel (drop (suc size) (x ∷ xs))
        (omega (arith, length-drop (suc size) (x ∷ xs))))
    ∙ take-append-drop (suc size) (x ∷ xs)

chunks_from-short :
    (size fuel : ℕ) (xs : List ℕ) → All (λ part. length part ≤ size) (chunks_from size fuel xs)
unfolding chunks_from
chunks_from-short size zero xs = tt
chunks_from-short size (suc fuel) [] = tt
chunks_from-short size (suc fuel) (x ∷ xs) =
    (omega (arith, length-take size (x ∷ xs)), chunks_from-short size fuel (drop size (x ∷ xs)))

pub chunks-joined : (size : ℕ) (xs : List ℕ) → joined (chunks (suc size) xs) ≡ xs
unfolding chunks
chunks-joined size xs = chunks_from-joined size (length xs) xs (omega arith)

pub chunks-short : (size : ℕ) (xs : List ℕ) → All (λ part. length part ≤ size) (chunks size xs)
unfolding chunks
chunks-short size xs = chunks_from-short size (length xs) xs

pub chunks-nil : (size : ℕ) → chunks size [] ≡ []
unfolding chunks chunks_from
chunks-nil size = refl
