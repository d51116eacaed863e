-- ===== src/Lightning/Bits.antt =====
-- The bits of a byte (the free functions of hayselnut/src/lightning/mod.rs). A byte is a number below 256.
use hayselnut.Common.{
  ℕ, zero, suc, ◌+◌, ◌-◌, ◌*◌, ◌/◌, ◌^◌, ◌<◌, ◌≡◌, ◌%◌, ◌∙◌, ap, sym, drop, refl, List, [], ◌∷◌,
  length, Bool, true, false, ◌==◌, leb, if◌then◌else◌, Outcome, returns, panics, ◌>>=◌, bit_and,
  bit_or, passes_under, passes_under-at, eq_of_==, arith, ltb, ltb→lt, ◌&&◌,
}

-- `bit`, counted from the most significant one.
abbrev pub bit : ℕ → ℕ → Outcome Bool
bit byte i =
    if leb i 7
    then returns (if bit_and (byte / 2 ^ (7 - i)) 1 == 1 then true else false)
    else panics

unfoldable pub bits : ℕ → Outcome (List Bool)
bits byte = do
  b0 ← bit byte 0
  b1 ← bit byte 1
  b2 ← bit byte 2
  b3 ← bit byte 3
  b4 ← bit byte 4
  b5 ← bit byte 5
  b6 ← bit byte 6
  b7 ← bit byte 7
  returns (b0 ∷ b1 ∷ b2 ∷ b3 ∷ b4 ∷ b5 ∷ b6 ∷ b7 ∷ [])

abbrev pub as_u8 : Bool → ℕ
as_u8 true = 1
as_u8 false = 0

-- The loop of `from_bits`, from the bit `i` on.
abbrev pub from_bits_loop : ℕ → ℕ → List Bool → ℕ
from_bits_loop byte i [] = byte
from_bits_loop byte i (b ∷ rest) = from_bits_loop (bit_or byte (as_u8 b * 2 ^ (7 - i))) (i + 1) rest

abbrev pub from_bits : List Bool → ℕ
from_bits bits = from_bits_loop 0 0 bits

-- The loop of `calculate_bitshift`, with `left` rounds left.
abbrev pub bitshift_loop : ℕ → ℕ → ℕ → ℕ
bitshift_loop mask i zero = 0
bitshift_loop mask i (suc left) =
    let more = bitshift_loop mask (i + 1) left in if bit_and mask (2 ^ i) == 1 then i else more

unfoldable pub calculate_bitshift : ℕ → ℕ
calculate_bitshift mask = bitshift_loop mask 0 7

-- `from_bits` after `bits`, where that does not panic.
abbrev gives : ℕ → Outcome (List Bool) → Bool
gives byte panics = false
gives byte (returns bs) = from_bits bs == byte

gives_lem :
    (byte : ℕ) (o : Outcome (List Bool))
    → gives byte o ≡ true
    → (o >>= λ bs. returns (from_bits bs)) ≡ returns byte
gives_lem byte panics h = ground (arith, h)
gives_lem byte (returns bs) h = ground (arith, h)

from_bits_table : passes_under 256 (λ byte. gives byte (bits byte)) ≡ true
unfolding passes_under bits
from_bits_table = refl

-- The bits of a byte can be taken without a panic, and `from_bits` gives the byte back.
pub from_bits-bits :
    (byte : ℕ) → byte < 256 → (bits byte >>= λ bs. returns (from_bits bs)) ≡ returns byte
from_bits-bits byte h = gives_lem byte (bits byte) (passes_under-at 256 _ byte from_bits_table h)

bitshift_table : passes_under 256 (λ mask. calculate_bitshift mask == 0) ≡ true
unfolding passes_under calculate_bitshift
bitshift_table = refl

-- The shift of every mask is 0, not the place of its lowest bit.
pub calculate_bitshift_zero : (mask : ℕ) → mask < 256 → calculate_bitshift mask ≡ 0
calculate_bitshift_zero mask h = eq_of_== _ _ (passes_under-at 256 _ mask bitshift_table h)

pub bits-returns : (byte : ℕ) → (bs : List Bool) × (bits byte ≡ returns bs) × (length bs ≡ 8)
unfolding bits
bits-returns byte = (_, refl, refl)

-- A test of the lists of a length is made at every one.
all_lists : ℕ → (List Bool → Bool) → Bool
all_lists zero p = p []
all_lists (suc n) p = all_lists n (λ bs. p (true ∷ bs)) && all_lists n (λ bs. p (false ∷ bs))

all_lists_sound :
    (n : ℕ) (p : List Bool → Bool) (bs : List Bool)
    → all_lists n p ≡ true
    → length bs ≡ n
    → p bs ≡ true
unfolding all_lists
all_lists_sound zero p [] h l = h
all_lists_sound zero p (b ∷ bs) h l = absurd (omega arith)
all_lists_sound (suc n) p [] h l = absurd (omega arith)
all_lists_sound (suc n) p (true ∷ bs) h l =
    all_lists_sound n (λ bs. p (true ∷ bs)) bs (ground (arith, h)) (omega arith)
all_lists_sound (suc n) p (false ∷ bs) h l =
    all_lists_sound n (λ bs. p (false ∷ bs)) bs (ground (arith, h)) (omega arith)

from_bits_small : all_lists 8 (λ bs. ltb (from_bits bs) 256) ≡ true
unfolding all_lists
from_bits_small = refl

pub from_bits_lt : (bs : List Bool) → length bs ≡ 8 → from_bits bs < 256
from_bits_lt bs l =
    ltb→lt _ _ (all_lists_sound 8 (λ bs. ltb (from_bits bs) 256) bs from_bits_small l)

-- The number that bits stand for, the most significant one first: each is worth 2 to the number of those behind it.
abbrev pub number : List Bool → ℕ
number [] = 0
number (true ∷ bs) = 2 ^ length bs + number bs
number (false ∷ bs) = number bs

both_of : (a b : Bool) → (a && b) ≡ true → (a ≡ true) × (b ≡ true)
both_of true b h = (refl, h)
both_of false b h = absurd (ground (arith, h))

-- Whether these are the bits of the byte, all of them and from the third one on.
abbrev stand_for : ℕ → Outcome (List Bool) → Bool
stand_for byte panics = false
stand_for byte (returns bs) = (number bs == byte) && (number (drop 2 bs) == byte % 64)

stand_for_table : passes_under 256 (λ byte. stand_for byte (bits byte)) ≡ true
unfolding passes_under bits drop
stand_for_table = refl

-- The bits of a byte are its binary digits, the most significant one first, and the last six of them those of
-- its remainder by 64.
pub number-bits :
    (byte : ℕ) (bs : List Bool)
    → byte < 256
    → bits byte ≡ returns bs
    → (number bs ≡ byte) × (number (drop 2 bs) ≡ byte % 64)
number-bits byte bs h e =
    let both : (number bs == byte) && (number (drop 2 bs) == byte % 64) ≡ true =
      ap (stand_for byte) (sym e) ∙ passes_under-at 256 _ byte stand_for_table h in
    let (whole, low) = both_of _ _ both in (eq_of_== _ _ whole, eq_of_== _ _ low)
