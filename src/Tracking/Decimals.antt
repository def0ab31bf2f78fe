-- ===== src/Tracking/Decimals.antt =====
-- custom-tracking/shared/custom-tracking-decimal.utility.ts: decimals that are kept as texts.
pub mod Digits
mod Zeroes
mod Parsing
pub mod Order
pub mod Spelling
mod Tests
use sto_info_backend.Base.{
  ℕ, zero, suc, ◌-◌, max, Bool, true, false, not, ◌&&◌, ◌||◌, Option, none, some, [], ◌∷◌, ◌++◌,
  ◌==◌, leb, ltb, if◌then◌else◌, is_none,
}
use sto_info_backend.Texts.{Text, length, is_empty, is_same_text, is_text_below}
use sto_info_backend.Captains.{Sign, negative, equal, positive, flip, compare_numbers}

abbrev pub is_digit : ℕ → Bool
is_digit c = leb b'0' c && leb c b'9'

unfoldable pub all_digits : Text → Bool
all_digits [] = true
all_digits (c ∷ cs) = is_digit c && all_digits cs

-- `\d{1,n}` of the whole text
unfoldable pub is_run : ℕ → Text → Bool
unfolding all_digits
is_run n s = all_digits s && (not (is_empty s) && leb (length s) n)

-- The pieces of `split('.')`: the first, and what follows its point.
unfoldable pub first_piece : Text → Text
first_piece [] = []
first_piece (c ∷ cs) = let rest = first_piece cs in if c == b'.' then [] else c ∷ rest

unfoldable pub after_point : Text → Option Text
after_point [] = none
after_point (c ∷ cs) = let rest = after_point cs in if c == b'.' then some cs else rest

unfoldable pub is_fraction : Option Text → Bool
unfolding is_run
is_fraction none = true
is_fraction (some s) = is_run 10 s

unfoldable pub starts_negative : Text → Bool
starts_negative [] = false
starts_negative (c ∷ cs) = c == b'-'

unfoldable pub unsigned : Text → Text
unsigned [] = []
unsigned (c ∷ cs) = if c == b'-' then cs else c ∷ cs

-- DECIMAL_PATTERN
unfoldable pub is_decimal : Text → Bool
unfolding is_run first_piece after_point is_fraction unsigned
is_decimal s = is_run 19 (first_piece (unsigned s)) && is_fraction (after_point (unsigned s))

-- `replace(/^0+(?=\d)/, '')`
unfoldable pub drop_zeroes : Text → Text
drop_zeroes [] = []
drop_zeroes (c ∷ []) = c ∷ []
drop_zeroes (c ∷ d ∷ ds) =
    let rest = drop_zeroes (d ∷ ds) in if c == b'0' && is_digit d then rest else c ∷ d ∷ ds

unfoldable pub trim_zeroes : Text → Text
trim_zeroes [] = []
trim_zeroes (c ∷ cs) =
    let rest = trim_zeroes cs in if c == b'0' && is_empty rest then [] else c ∷ rest

unfoldable pub raw_fraction : Option Text → Text
unfolding first_piece
raw_fraction none = []
raw_fraction (some s) = first_piece s

pub record DecimalParts : Type 0 where
  pub is_negative : Bool
  pub whole : Text
  pub fraction : Text

-- 1000000000
abbrev pub max_numeric_magnitude : Text
max_numeric_magnitude = b'1' ∷ b'0' ∷ b'0' ∷ b'0' ∷ b'0' ∷ b'0' ∷ b'0' ∷ b'0' ∷ b'0' ∷ b'0' ∷ []

unfoldable pub is_too_large : Text → Bool
unfolding is_text_below
is_too_large whole =
    ltb (length max_numeric_magnitude) (length whole)
    || length whole == length max_numeric_magnitude && is_text_below max_numeric_magnitude whole

unfoldable pub is_zero : Text → Text → Bool
unfolding is_same_text
is_zero whole fraction = is_same_text whole (b'0' ∷ []) && is_empty fraction

unfoldable pub parts_in_range : Bool → Text → Text → Option DecimalParts
unfolding is_too_large is_zero
parts_in_range sign whole fraction =
    if is_too_large whole
    then none
    else some (record {
      is_negative = sign && not (is_zero whole fraction);
      whole = whole;
      fraction = fraction;
    })

unfoldable pub parse_decimal : Text → Option DecimalParts
unfolding is_decimal parts_in_range starts_negative unsigned first_piece after_point drop_zeroes
    trim_zeroes raw_fraction
parse_decimal s =
    if is_decimal s
    then parts_in_range (starts_negative s) (drop_zeroes (first_piece (unsigned s)))
        (trim_zeroes (raw_fraction (after_point (unsigned s))))
    else none

unfoldable pub is_exact_decimal : Text → Bool
unfolding parse_decimal
is_exact_decimal s = not (is_none (parse_decimal s))

unfoldable pub places_of : Option DecimalParts → ℕ
places_of none = 0
places_of (some parts) = length parts.fraction

unfoldable pub decimal_places : Text → ℕ
unfolding parse_decimal places_of
decimal_places s = places_of (parse_decimal s)

-- `padEnd(width, '0')`
unfoldable pub pad_end : ℕ → Text → Text
pad_end zero s = s
pad_end (suc n) [] = b'0' ∷ pad_end n []
pad_end (suc n) (c ∷ cs) = c ∷ pad_end n cs

unfoldable pub compare_texts : Text → Text → Sign
unfolding is_same_text is_text_below
compare_texts a b =
    if is_same_text a b then equal else if is_text_below a b then negative else positive

unfoldable pub compare_fractions : Text → Text → Sign
unfolding compare_texts pad_end
compare_fractions f g =
    compare_texts (pad_end (max (length f) (length g)) f) (pad_end (max (length f) (length g)) g)

unfoldable pub compare_magnitudes : DecimalParts → DecimalParts → Sign
unfolding is_same_text is_text_below compare_fractions
compare_magnitudes first second =
    if length first.whole == length second.whole
    then if is_same_text first.whole second.whole
      then compare_fractions first.fraction second.fraction
      else if is_text_below first.whole second.whole
      then negative
      else positive
    else compare_numbers (length first.whole) (length second.whole)

unfoldable pub compare_signed : Bool → Bool → Sign → Sign
compare_signed true true magnitude = flip magnitude
compare_signed true false magnitude = negative
compare_signed false true magnitude = positive
compare_signed false false magnitude = magnitude

unfoldable pub compare_parts : Option DecimalParts → Option DecimalParts → Sign
unfolding compare_signed compare_magnitudes
compare_parts none second = equal
compare_parts (some first) none = equal
compare_parts (some first) (some second) =
    compare_signed first.is_negative second.is_negative (compare_magnitudes first second)

unfoldable pub compare_decimals : Text → Text → Sign
unfolding parse_decimal compare_parts
compare_decimals left right = compare_parts (parse_decimal left) (parse_decimal right)

unfoldable pub spelling : DecimalParts → Text
spelling parts =
    let magnitude =
      if is_empty parts.fraction then parts.whole else parts.whole ++ b'.' ∷ parts.fraction in
    if parts.is_negative then b'-' ∷ magnitude else magnitude

unfoldable pub canonicalise_parts : Option DecimalParts → Option Text
unfolding spelling
canonicalise_parts none = none
canonicalise_parts (some parts) = some (spelling parts)

unfoldable pub canonicalise_decimal : Text → Option Text
unfolding parse_decimal canonicalise_parts
canonicalise_decimal s = canonicalise_parts (parse_decimal s)
