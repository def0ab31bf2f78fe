-- ===== src/Tracking/Decimals/Tests.antt =====
-- The decimals at concrete inputs.
use sto_info_backend.Base.{◌≡◌, refl, true, [], ◌∷◌, some}
use sto_info_backend.Texts.{Text, is_same_text, is_text_below}
use sto_info_backend.Captains.{negative}
use sto_info_backend.Tracking.Decimals.{
  all_digits, is_run, first_piece, after_point, is_fraction, starts_negative, unsigned, is_decimal,
  drop_zeroes, trim_zeroes, raw_fraction, is_too_large, is_zero, parts_in_range, parse_decimal,
  is_exact_decimal, compare_decimals, canonicalise_decimal, canonicalise_parts, spelling,
}
use sto_info_backend.Tracking.Decimals.Digits.{number, place_value}
use sto_info_backend.Tracking.Decimals.Spelling.{canonicalise_decimal-parse_decimal}
use sto_info_backend.Tracking.Decimals.Order.{compare_decimals-scaled}

-- -007.5
abbrev left : Text
left = b'-' ∷ b'0' ∷ b'0' ∷ b'7' ∷ b'.' ∷ b'5' ∷ []

-- -7.11
abbrev right : Text
right = b'-' ∷ b'7' ∷ b'.' ∷ b'1' ∷ b'1' ∷ []

-- 1000000000.5
abbrev beyond : Text
beyond = b'1' ∷ b'0' ∷ b'0' ∷ b'0' ∷ b'0' ∷ b'0' ∷ b'0' ∷ b'0' ∷ b'0' ∷ b'0' ∷ b'.' ∷ b'5' ∷ []

exact :
    (is_exact_decimal left ≡ true)
    × (is_exact_decimal right ≡ true)
    × (is_exact_decimal beyond ≡ true)
unfolding is_exact_decimal parse_decimal is_decimal is_run all_digits first_piece after_point
    is_fraction starts_negative unsigned drop_zeroes trim_zeroes raw_fraction is_too_large is_zero
    parts_in_range is_same_text is_text_below
exact = (refl, refl, refl)

compare_decimals-scaled_example : compare_decimals left right ≡ negative
unfolding starts_negative unsigned first_piece after_point raw_fraction number place_value
compare_decimals-scaled_example = compare_decimals-scaled left right exact.0 exact.1

-- -7.5
abbrev short : Text
short = b'-' ∷ b'7' ∷ b'.' ∷ b'5' ∷ []

canonicalise_decimal-parse_decimal_example :
    (t : Text) × (canonicalise_decimal left ≡ some t)
    × (parse_decimal t ≡ parse_decimal left)
    × (canonicalise_decimal t ≡ some t)
canonicalise_decimal-parse_decimal_example = canonicalise_decimal-parse_decimal left exact.0

spelled : canonicalise_decimal left ≡ some short
unfolding canonicalise_decimal canonicalise_parts spelling parse_decimal is_decimal is_run
    all_digits first_piece after_point is_fraction starts_negative unsigned drop_zeroes trim_zeroes
    raw_fraction is_too_large is_zero parts_in_range is_same_text is_text_below
spelled = refl
