-- ===== src/Tracking/Decimals/Order.antt =====
-- The order of decimals.
use sto_info_backend.Base.{
  ℕ, suc, ◌+◌, ◌-◌, ◌*◌, ◌^◌, ◌≤◌, ◌<◌, ◌≡◌, ◌≢◌, sym, ◌∙◌, ap, inl, inr, ◌⊎◌, Bool, true, false,
  not, ◌&&◌, some, [], ◌∷◌, arith, ◌==◌,
}
use sto_info_backend.Texts.{Text, length, is_empty}
use sto_info_backend.Captains.{Sign, negative, equal, positive, compare_numbers}
use sto_info_backend.Tracking.Decimals.{
  all_digits, first_piece, after_point, starts_negative, unsigned, raw_fraction, DecimalParts,
  parse_decimal, is_exact_decimal, compare_texts, compare_fractions, compare_magnitudes,
  compare_signed, compare_parts, compare_decimals,
}
use sto_info_backend.Tracking.Decimals.Digits.{
  place_value, number, compare_numbers-below, compare_numbers-above, compare_numbers-same,
  compare_numbers_add, power_mono, place_value_bound, compare_texts-place_value,
  compare_fractions-place_value,
}
use sto_info_backend.Tracking.Decimals.Parsing.{magnitude_of, IsParts, Reads, parse_decimal-Reads}

abbrev shifted : Bool → ℕ → ℕ
shifted true m = 10 ^ 20 - m
shifted false m = 10 ^ 20 + m

-- The number that a text spells, times ten to the tenth, counted from minus ten to the twentieth.
abbrev pub scaled : Text → ℕ
scaled s =
    shifted (starts_negative s)
      (magnitude_of (first_piece (unsigned s)) (raw_fraction (after_point (unsigned s))))

number_bound : (s : Text) (k : ℕ) → all_digits s ≡ true → length s ≤ k → number s < 10 ^ k
unfolding number
number_bound s k h l = omega (arith, place_value_bound (length s) s h, power_mono (length s) k l)

length_named : (s : Text) → is_empty s ≡ false → 1 ≤ length s
length_named [] h = cc
length_named (c ∷ cs) h = omega arith

-- A shorter whole part is a smaller number.
number-shorter :
    (a b : DecimalParts)
    → IsParts a
    → IsParts b
    → length a.whole < length b.whole
    → number a.whole < number b.whole
number-shorter a b va vb h = elim vb.leading [
  | inl short ↦ absurd (omega (arith, h, short, length_named a.whole va.named))
  | inr large ↦ omega (
    arith,
    number_bound a.whole (length a.whole) va.digits (omega arith),
    power_mono (suc (length a.whole)) (length b.whole) (omega (arith, h)),
    large,
  )
]

trichotomy : (m n : ℕ) → (m < n) ⊎ ((n < m) ⊎ (m ≡ n))
trichotomy m n = ground arith

abbrev then_by : Sign → Sign → Sign
then_by negative t = negative
then_by equal t = t
then_by positive t = positive

then_by-compare_numbers :
    (m n f g : ℕ)
    → f < 10 ^ 10
    → g < 10 ^ 10
    → then_by (compare_numbers m n) (compare_numbers f g)
      ≡ compare_numbers (m * 10 ^ 10 + f) (n * 10 ^ 10 + g)
then_by-compare_numbers m n f g hf hg = elim (trichotomy m n) [
  | inl below ↦
      ap (λ s. then_by s (compare_numbers f g)) (compare_numbers-below m n below)
      ∙ sym (compare_numbers-below _ _ (omega (arith, below, hf)))
  | inr (inl above) ↦
      ap (λ s. then_by s (compare_numbers f g)) (compare_numbers-above m n above)
      ∙ sym (compare_numbers-above _ _ (omega (arith, above, hg)))
  | inr (inr same) ↦
      ap (λ s. then_by s (compare_numbers f g)) (compare_numbers-same m n same)
      ∙ sym (compare_numbers_add (m * 10 ^ 10) f g)
      ∙ ap (λ z. compare_numbers (m * 10 ^ 10 + f) (z * 10 ^ 10 + g)) same
]

compare_magnitudes-lengths :
    (p q : DecimalParts)
    → length p.whole ≢ length q.whole
    → compare_magnitudes p q ≡ compare_numbers (length p.whole) (length q.whole)
unfolding compare_magnitudes
compare_magnitudes-lengths p q h = ground (arith, h)

compare_magnitudes-texts :
    (p q : DecimalParts)
    → length p.whole ≡ length q.whole
    → compare_magnitudes p q
      ≡ then_by (compare_texts p.whole q.whole) (compare_fractions p.fraction q.fraction)
unfolding compare_magnitudes compare_texts
compare_magnitudes-texts p q h = ground (arith, h)

place_value_places : (s : Text) → all_digits s ≡ true → place_value 10 s < 10 ^ 10
place_value_places s h = place_value_bound 10 s h

compare_magnitudes-shorter :
    (p q : DecimalParts)
    → IsParts p
    → IsParts q
    → length p.whole < length q.whole
    → magnitude_of p.whole p.fraction < magnitude_of q.whole q.fraction
compare_magnitudes-shorter p q vp vq h =
    omega (arith, number-shorter p q vp vq h, place_value_places p.fraction vp.places)

compare_whole :
    (p q : DecimalParts)
    → IsParts p
    → IsParts q
    → length p.whole ≡ length q.whole
    → compare_texts p.whole q.whole ≡ compare_numbers (number p.whole) (number q.whole)
unfolding number
compare_whole p q vp vq h =
    compare_texts-place_value (length p.whole) p.whole q.whole vp.digits vq.digits h (omega arith)
    ∙ ap (λ k. compare_numbers (place_value (length p.whole) p.whole) (place_value k q.whole)) h

compare_magnitudes_lem :
    (p q : DecimalParts)
    → IsParts p
    → IsParts q
    → compare_magnitudes p q
      ≡ compare_numbers (magnitude_of p.whole p.fraction) (magnitude_of q.whole q.fraction)
compare_magnitudes_lem p q vp vq = elim (trichotomy (length p.whole) (length q.whole)) [
  | inl below ↦
      compare_magnitudes-lengths p q (ground (arith, below))
      ∙ compare_numbers-below _ _ below
      ∙ sym (compare_numbers-below _ _ (compare_magnitudes-shorter p q vp vq below))
  | inr (inl above) ↦
      compare_magnitudes-lengths p q (ground (arith, above))
      ∙ compare_numbers-above _ _ above
      ∙ sym (compare_numbers-above _ _ (compare_magnitudes-shorter q p vq vp above))
  | inr (inr same) ↦
      compare_magnitudes-texts p q same
      ∙ ap (λ s. then_by s (compare_fractions p.fraction q.fraction)) (compare_whole p q vp vq same)
      ∙ ap (then_by (compare_numbers (number p.whole) (number q.whole))) (
          compare_fractions-place_value 10 p.fraction q.fraction vp.places vq.places vp.fits
            vq.fits)
      ∙ then_by-compare_numbers (number p.whole) (number q.whole) (place_value 10 p.fraction)
          (place_value 10 q.fraction) (place_value_places p.fraction vp.places)
          (place_value_places q.fraction vq.places)
]

-- The sign, with which a zero counts as positive.
compare_signed_lem :
    (a b : Bool) (m n : ℕ)
    → m < 10 ^ 20
    → n < 10 ^ 20
    → compare_signed (a && not (m == 0)) (b && not (n == 0)) (compare_numbers m n)
      ≡ compare_numbers (shifted a m) (shifted b n)
unfolding compare_signed
compare_signed_lem true true m n hm hn = ground (arith, hm, hn)
compare_signed_lem true false m n hm hn = ground (arith, hm, hn)
compare_signed_lem false true m n hm hn = ground (arith, hm, hn)
compare_signed_lem false false m n hm hn = sym (compare_numbers_add (10 ^ 20) m n)

magnitude_bound : (p : DecimalParts) → IsParts p → magnitude_of p.whole p.fraction < 10 ^ 20
magnitude_bound p v =
    omega (arith, number_bound p.whole 10 v.digits v.few, place_value_places p.fraction v.places)

scaled-Reads :
    (s : Text) (p : DecimalParts)
    → Reads s p
    → shifted (starts_negative s) (magnitude_of p.whole p.fraction) ≡ scaled s
scaled-Reads s p r = ap (shifted (starts_negative s)) r.number_read

-- Two texts that are decimals compare as the numbers that they spell, to the last digit: whatever zeroes are
-- written in front or behind, with or without a fraction, and a zero with a sign as one without.
pub compare_decimals-scaled :
    (left right : Text)
    → is_exact_decimal left ≡ true
    → is_exact_decimal right ≡ true
    → compare_decimals left right ≡ compare_numbers (scaled left) (scaled right)
unfolding compare_decimals compare_parts
compare_decimals-scaled left right hl hr =
    let (p, rp) = parse_decimal-Reads left hl in
    let (q, rq) = parse_decimal-Reads right hr in
    let m = magnitude_of p.whole p.fraction in
    let n = magnitude_of q.whole q.fraction in
    ap (λ o. compare_parts o (parse_decimal right)) rp.parsed
    ∙ ap (compare_parts (some p)) rq.parsed
    ∙ ap (compare_signed p.is_negative q.is_negative) (compare_magnitudes_lem p q rp.parts rq.parts)
    ∙ ap (λ b. compare_signed b q.is_negative (compare_numbers m n)) rp.sign_read
    ∙ ap (λ b. compare_signed (starts_negative left && not (m == 0)) b (compare_numbers m n))
        rq.sign_read
    ∙ compare_signed_lem (starts_negative left) (starts_negative right) m n
        (magnitude_bound p rp.parts) (magnitude_bound q rq.parts)
    ∙ ap (λ z. compare_numbers z (shifted (starts_negative right) n)) (scaled-Reads left p rp)
    ∙ ap (compare_numbers (scaled left)) (scaled-Reads right q rq)
