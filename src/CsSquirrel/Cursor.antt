-- ===== src/CsSquirrel/Cursor.antt =====
-- The cursor over the data to send (`Cursor` of haysel/cs_squirrel/src/buf.rs).
use hayselnut.Common.{
  ℕ, zero, suc, ◌+◌, ◌-◌, ◌≤◌, ◌<◌, ◌≡◌, ◌∙◌, ◌⊎◌, inl, inr, refl, sym, ap, List, [], ◌∷◌, ◌++◌,
  All, Bool, ◌==◌, leb, if◌then◌else◌, length, take, drop, min, Option, none, some, Outcome,
  returns, panics, ◌>>=◌, arith, take-append-drop, drop-add, length-drop, length-take,
  nil_of_length,
}

-- A byte is a number.
pub record Cursor : Type 0 where
  pub inner : List ℕ
  pub last : Option (List ℕ)
  pub cursor : ℕ

abbrev pub new : List ℕ → Cursor
new buf = record { inner = buf; last = none; cursor = 0 }

abbrev pub done_sending : Cursor → Bool
done_sending c = length c.inner == c.cursor

unfoldable pub advance : ℕ → Cursor → Outcome (Option (List ℕ) × Cursor)
advance by c =
    let buf = drop c.cursor c.inner in
    let amnt = min (length buf) by in
    let part = take amnt buf in
    if done_sending c
    then returns (none, record c { last = none })
    else if leb c.cursor (length c.inner)
    then returns (some part, record c { cursor = c.cursor + amnt; last = some part })
    else panics

abbrev pub prev : Cursor → Option (List ℕ)
prev c = c.last

-- All that `advance` yields until it yields `None`, on fuel, and the cursor then.
abbrev pub drain : ℕ → ℕ → Cursor → Outcome (List (List ℕ) × Cursor)
drain zero by c = panics
drain (suc fuel) by c = advance by c >>= λ step. elim step.0 [
  | none ↦ returns ([], step.1)
  | some part ↦ drain fuel by step.1 >>= λ rest. returns (part ∷ rest.0, rest.1)
]

abbrev pub concat : List (List ℕ) → List ℕ
concat [] = []
concat (part ∷ parts) = part ++ concat parts

-- A part is not empty, and no longer than was asked for.
abbrev pub IsPart : ℕ → List ℕ → Type 0
IsPart by part = (1 ≤ length part) × (length part ≤ by)

-- Asked for at least one byte at a time, a cursor within its buffer yields what is left of the buffer, in
-- parts that are not empty and no longer than asked for, and is at the end then; one more unit of fuel
-- than bytes are left is enough.
pub drain_lem :
    (fuel by : ℕ) (c : Cursor)
    → 1 ≤ by
    → c.cursor ≤ length c.inner
    → length c.inner - c.cursor < fuel
    → (parts : List (List ℕ)) × (c' : Cursor) × (drain fuel by c ≡ returns (parts, c'))
      × (concat parts ≡ drop c.cursor c.inner)
      × All (IsPart by) parts
      × (c'.cursor ≡ length c.inner)
      × (c'.last ≡ none)
unfolding advance
drain_lem zero by c b within enough = absurd (omega arith)
drain_lem (suc fuel) by c b within enough =
    let cases : (length c.inner ≡ c.cursor) ⊎ (c.cursor < length c.inner) = omega arith in
    elim cases [
      | inl done ↦ (
        [],
        record c { last = none },
        ground (arith, done),
        sym (nil_of_length (drop c.cursor c.inner) (omega (arith, length-drop c.cursor c.inner))),
        _,
        sym done,
        refl,
      )
      | inr more ↦
          let buf = drop c.cursor c.inner in
          let amnt = min (length buf) by in
          let left = length-drop c.cursor c.inner in
          let size = length-take amnt buf in
          let (parts, c', yields, whole, fits, end, last) =
            drain_lem fuel by (record c { cursor = c.cursor + amnt; last = some (take amnt buf) }) b
              (omega (arith, left)) (omega (arith, left)) in
          (
            take amnt buf ∷ parts,
            c',
            ground (arith, more, yields),
            ap (λ xs. take amnt buf ++ xs) (whole ∙ drop-add c.cursor amnt c.inner)
                ∙ take-append-drop amnt buf,
            ((omega (arith, size, left), omega (arith, size)), fits),
            end,
            last,
          )
    ]
