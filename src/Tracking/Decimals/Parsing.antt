-- ===== src/Tracking/Decimals/Parsing.antt =====
-- The parts that are read of a text, and the number that it spells.
use sto_info_backend.Base.{
  ℕ, ◌+◌, ◌*◌, ◌^◌, ◌≤◌, ◌≡◌, refl, sym, ◌∙◌, ap, inl, inr, ◌⊎◌, Bool, true, false, not, ◌&&◌,
  Option, none, some, [], ◌∷◌, arith, ◌==◌, Bool-cases,
}
use sto_info_backend.Texts.{Text, length, is_empty, is_same_text}
use sto_info_backend.Tracking.Decimals.{
  all_digits, is_run, first_piece, after_point, is_fraction, starts_negative, unsigned, is_decimal,
  drop_zeroes, trim_zeroes, raw_fraction, DecimalParts, is_too_large, is_zero, parts_in_range,
  parse_decimal, is_exact_decimal,
}
use sto_info_backend.Tracking.Decimals.Digits.{place_value, number, positive_power}
use sto_info_backend.Tracking.Decimals.Zeroes.{
  number-drop_zeroes, all_digits-drop_zeroes, is_empty-drop_zeroes, drop_zeroes-leading,
  place_value-trim_zeroes, all_digits-trim_zeroes, length-trim_zeroes, trim_zeroes-zero,
  drop_zeroes_twice, trim_zeroes_twice, trim_zeroes-place_value,
}

-- The number that a text spells, times ten to the tenth and without its sign, read off the text itself.
abbrev pub magnitude_of : Text → Text → ℕ
magnitude_of whole fraction = number whole * 10 ^ 10 + place_value 10 fraction

-- What the parts that are read have.
pub record IsParts (p : DecimalParts) : Type 0 where
  pub digits : all_digits p.whole ≡ true
  pub few : length p.whole ≤ 10
  pub leading : (length p.whole ≤ 1) ⊎ (10 ^ length p.whole ≤ 10 * number p.whole)
  pub named : is_empty p.whole ≡ false
  pub places : all_digits p.fraction ≡ true
  pub fits : length p.fraction ≤ 10

zero_text :
    (s : Text)
    → all_digits s ≡ true
    → is_empty s ≡ false
    → length s ≤ 1
    → number s ≡ 0
    → is_same_text s (b'0' ∷ []) ≡ true
unfolding all_digits number place_value is_same_text
zero_text [] h n l e = cc
zero_text (c ∷ []) h n l e = ground (arith, h, e)
zero_text (c ∷ d ∷ ds) h n l e = absurd (omega (arith, l))

text_zero : (s : Text) → is_same_text s (b'0' ∷ []) ≡ true → number s ≡ 0
unfolding number place_value is_same_text
text_zero [] h = cc
text_zero (c ∷ []) h = ground (arith, h)
text_zero (c ∷ d ∷ ds) h = ground (arith, h)

pub first_piece-digits : (s : Text) → all_digits s ≡ true → first_piece s ≡ s
unfolding all_digits first_piece
first_piece-digits [] h = refl
first_piece-digits (c ∷ cs) h = ground (arith, h, first_piece-digits cs)

raw_fraction-is_fraction :
    (o : Option Text)
    → is_fraction o ≡ true
    → (all_digits (raw_fraction o) ≡ true) × (length (raw_fraction o) ≤ 10)
unfolding is_fraction raw_fraction is_run all_digits
raw_fraction-is_fraction none h = (refl, omega arith)
raw_fraction-is_fraction (some s) h =
    let digits : all_digits s ≡ true = ground (arith, h) in
    let few : length s ≤ 10 = ground (arith, h) in rw (first_piece-digits s digits) (digits, few)

single_digit :
    (s : Text) → number s ≡ 0 → (length s ≤ 1) ⊎ (10 ^ length s ≤ 10 * number s) → length s ≤ 1
single_digit s e (inl short) = short
single_digit s e (inr large) = absurd (omega (arith, e, large, positive_power (length s)))

is_zero_lem :
    (w f : Text)
    → all_digits w ≡ true
    → is_empty w ≡ false
    → all_digits f ≡ true
    → length f ≤ 10
    → is_zero (drop_zeroes w) (trim_zeroes f) ≡ (magnitude_of w f == 0)
unfolding is_zero
is_zero_lem w f hw named hf l = elim (Bool-cases (magnitude_of w f == 0)) [
  | inl nought ↦
      let whole : number w ≡ 0 = ground (arith, nought) in
      let rest : place_value 10 f ≡ 0 = ground (arith, nought) in
      let single =
        single_digit (drop_zeroes w) (number-drop_zeroes w ∙ whole) (drop_zeroes-leading w hw) in
      let zeroed =
        zero_text (drop_zeroes w) (all_digits-drop_zeroes w hw) (is_empty-drop_zeroes w ∙ named)
          single (number-drop_zeroes w ∙ whole) in
      let empty = trim_zeroes-zero 10 f hf l rest in rw (zeroed, empty, nought) refl
  | inr some_digit ↦ elim (Bool-cases (is_zero (drop_zeroes w) (trim_zeroes f))) [
    | inl zeroed ↦
        let whole = text_zero (drop_zeroes w) (ground (arith, zeroed)) in
        let rest = trim_zeroes-place_value 10 f (ground (arith, zeroed)) in
        absurd (ground (arith, some_digit, whole, rest, number-drop_zeroes w))
    | inr same ↦ same ∙ sym some_digit
  ]
]

-- What is read of a text: the parts, and the number that they spell.
pub record Reads (s : Text) (p : DecimalParts) : Type 0 where
  pub dropped : drop_zeroes p.whole ≡ p.whole
  pub trimmed : trim_zeroes p.fraction ≡ p.fraction
  pub ranged : is_too_large p.whole ≡ false
  pub signed : (p.is_negative && not (is_zero p.whole p.fraction)) ≡ p.is_negative
  pub parsed : parse_decimal s ≡ some p
  pub parts : IsParts p
  pub number_read :
      magnitude_of p.whole p.fraction
      ≡ magnitude_of (first_piece (unsigned s)) (raw_fraction (after_point (unsigned s)))
  pub sign_read : p.is_negative ≡ (starts_negative s && not (magnitude_of p.whole p.fraction == 0))

parts_in_range-parts :
    (sign : Bool) (w f : Text)
    → is_too_large w ≡ false
    → parts_in_range sign w f
      ≡ some (record { is_negative = sign && not (is_zero w f); whole = w; fraction = f })
unfolding parts_in_range
parts_in_range-parts sign w f h = rw h refl

few_digits : (w : Text) → is_too_large w ≡ false → length w ≤ 10
unfolding is_too_large
few_digits w h = ground (arith, h)

accepted :
    (s : Text)
    → is_exact_decimal s ≡ true
    → (is_decimal s ≡ true) × (is_too_large (drop_zeroes (first_piece (unsigned s))) ≡ false)
unfolding is_exact_decimal parse_decimal parts_in_range
accepted s h = ground (arith, h)

whole_run :
    (s : Text)
    → is_decimal s ≡ true
    → (all_digits (first_piece (unsigned s)) ≡ true)
      × (is_empty (first_piece (unsigned s)) ≡ false)
      × (is_fraction (after_point (unsigned s)) ≡ true)
unfolding is_decimal is_run
whole_run s h = ground (arith, h)

magnitude_of-stripped :
    (w f : Text) → magnitude_of (drop_zeroes w) (trim_zeroes f) ≡ magnitude_of w f
magnitude_of-stripped w f = omega (arith, number-drop_zeroes w, place_value-trim_zeroes 10 f)

and_twice : (a b : Bool) → (a && b && b) ≡ (a && b)
and_twice true true = refl
and_twice true false = refl
and_twice false b = refl

pub parse_decimal-Reads : (s : Text) → is_exact_decimal s ≡ true → (p : DecimalParts) × Reads s p
unfolding parse_decimal
parse_decimal-Reads s h =
    let (formed, ranged) = accepted s h in
    let (digits, named, rest) = whole_run s formed in
    let w = first_piece (unsigned s) in
    let f = raw_fraction (after_point (unsigned s)) in
    let (places, fits) = raw_fraction-is_fraction (after_point (unsigned s)) rest in
    (
      record {
        is_negative = starts_negative s && not (is_zero (drop_zeroes w) (trim_zeroes f));
        whole = drop_zeroes w;
        fraction = trim_zeroes f;
      },
      record {
        dropped = drop_zeroes_twice w;
        trimmed = trim_zeroes_twice f;
        ranged = ranged;
        signed = and_twice (starts_negative s) (not (is_zero (drop_zeroes w) (trim_zeroes f)));
        parsed =
            rw formed
              (parts_in_range-parts (starts_negative s) (drop_zeroes w) (trim_zeroes f) ranged);
        parts = record {
          digits = all_digits-drop_zeroes w digits;
          few = few_digits (drop_zeroes w) ranged;
          leading = drop_zeroes-leading w digits;
          named = is_empty-drop_zeroes w ∙ named;
          places = all_digits-trim_zeroes f places;
          fits = omega (arith, length-trim_zeroes f, fits);
        };
        number_read = magnitude_of-stripped w f;
        sign_read =
            ap (λ z. starts_negative s && not z)
              (is_zero_lem w f digits named places fits
                ∙ ap (λ m. m == 0) (sym (magnitude_of-stripped w f)));
      },
    )
