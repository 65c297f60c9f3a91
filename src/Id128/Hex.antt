-- ===== src/Id128/Hex.antt =====
-- The print of an id, and a reader of hexadecimal text that gives the bytes back.
use rust_systemd.Base.{
  ℕ, ◌+◌, ◌-◌, ◌*◌, ◌/◌, ◌%◌, ◌<◌, ◌≡◌, ◌&&◌, Option, none, some, [], ◌∷◌, arith, Bytes, ltb,
  if◌then◌else◌, All, length, refl, ap, ◌∙◌,
}
use mathlib.Core.List.{flat_map}
use rust_systemd.Id128.{Id128, hex_digit, hex_byte, display}

-- The value of a hexadecimal digit of either case.
pub digit_value : ℕ → Option ℕ
digit_value c =
    if ltb 47 c && ltb c 58
    then some (c - 48)
    else if ltb 96 c && ltb c 103
    then some (c - 87)
    else if ltb 64 c && ltb c 71
    then some (c - 55)
    else none

pair : Option ℕ → Option ℕ → Option Bytes → Option Bytes
pair (some h) (some l) (some bs) = some ((16 * h + l) ∷ bs)
pair _ _ _ = none

pub read_hex : Bytes → Option Bytes
unfolding digit_value pair
read_hex [] = some []
read_hex (h ∷ []) = none
read_hex (h ∷ l ∷ s) = pair (digit_value h) (digit_value l) (read_hex s)

digit_value-hex_digit : (n : ℕ) → n < 16 → digit_value (hex_digit n) ≡ some n
unfolding digit_value hex_digit
digit_value-hex_digit n h = ground arith

abbrev pub IsByte : ℕ → Type 0
IsByte b = b < 256

read_hex_step :
    (h l a b : ℕ) (s bs : Bytes)
    → digit_value h ≡ some a
    → digit_value l ≡ some b
    → read_hex s ≡ some bs
    → read_hex (h ∷ l ∷ s) ≡ some ((16 * a + b) ∷ bs)
unfolding pair
read_hex_step h l a b s bs p q r = unfold read_hex in rw (p, q, r)

read_hex-flat_map : (bs : Bytes) → All IsByte bs → read_hex (flat_map hex_byte bs) ≡ some bs
unfolding hex_byte flat_map
read_hex-flat_map [] h = unfold read_hex in refl
read_hex-flat_map (b ∷ bs) (h, hs) =
    read_hex_step (hex_digit (b / 16)) (hex_digit (b % 16)) (b / 16) (b % 16) (flat_map hex_byte bs)
      bs (digit_value-hex_digit (b / 16) (omega arith))
      (digit_value-hex_digit (b % 16) (omega arith)) (read_hex-flat_map bs hs)
    ∙ ap (λ (x : ℕ). some (x ∷ bs)) (omega arith)

-- Reading the print of an id as hexadecimal digits gives its bytes back, if they are bytes.
pub read_hex-display : (id : Id128) → All IsByte id.inner → read_hex (display id) ≡ some id.inner
unfolding display
read_hex-display id h = read_hex-flat_map id.inner h

length-flat_map : (bs : Bytes) → length (flat_map hex_byte bs) ≡ 2 * length bs
unfolding hex_byte flat_map
length-flat_map [] = refl
length-flat_map (b ∷ bs) = omega (arith, length-flat_map bs)

-- Two ids with the same print are the same.
pub display_unique :
    (a b : Id128) → All IsByte a.inner → All IsByte b.inner → display a ≡ display b → a ≡ b
display_unique a b ha hb e = ground (arith, read_hex-display a ha, read_hex-display b hb)
