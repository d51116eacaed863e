-- ===== src/CsSquirrel/Packet/Written.antt =====
-- Stores into a buffer, one behind the other.
use hayselnut.Common.{
  ℕ, ◌+◌, ◌≡◌, ◌≤◌, ◌∙◌, sym, ap, ap₂, List, [], ◌∷◌, ◌++◌, length, take, drop, arith, inl, inr,
  append_assoc, take-append, drop-append, drop-add, length-drop, List-cases,
}
use hayselnut.CsSquirrel.Packet.{write_at}

-- A store just behind what is written already extends it.
pub write_at_extends :
    (i : ℕ) (xs bytes buf : List ℕ)
    → length xs ≡ i
    → write_at i bytes (xs ++ drop i buf) ≡ (xs ++ bytes) ++ drop (i + length bytes) buf
unfolding write_at
write_at_extends i xs bytes buf e =
    ap₂ (λ a b. a ++ (bytes ++ b)) (take-append i xs (drop i buf) e)
      (drop-add i (length bytes) (xs ++ drop i buf)
        ∙ (ap (drop (length bytes)) (drop-append i xs (drop i buf) e)
            ∙ sym (drop-add i (length bytes) buf)))
    ∙ sym (append_assoc xs bytes (drop (i + length bytes) buf))

pub write_at_start : (bytes buf : List ℕ) → write_at 0 bytes buf ≡ bytes ++ drop (length bytes) buf
unfolding write_at take
write_at_start bytes buf =
    ap (λ n. bytes ++ drop n buf) (let e : 0 + length bytes ≡ length bytes = omega arith in e)

-- The byte at an offset can be told apart.
pub drop_uncons :
    (i : ℕ) (buf : List ℕ) → i + 1 ≤ length buf → (x : ℕ) × (drop i buf ≡ x ∷ drop (i + 1) buf)
unfolding drop
drop_uncons i buf h = elim (List-cases (drop i buf)) [
  | inl none ↦ absurd (omega (arith, length-drop i buf, ap length none))
  | inr (x, xs, e) ↦ (x, e ∙ ap (λ ys. x ∷ ys) (sym (drop-add i 1 buf ∙ ap (drop 1) e)))
]

-- A store of one byte over the first of what stands behind `xs`.
pub write_at_over :
    (i x y : ℕ) (xs ys : List ℕ)
    → length xs ≡ i
    → write_at i (y ∷ []) (xs ++ (x ∷ ys)) ≡ xs ++ (y ∷ ys)
unfolding write_at drop
write_at_over i x y xs ys e =
    ap₂ (λ a b. a ++ (y ∷ b)) (take-append i xs (x ∷ ys) e)
      (drop-add i 1 (xs ++ (x ∷ ys)) ∙ ap (drop 1) (drop-append i xs (x ∷ ys) e))
