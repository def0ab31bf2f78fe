-- ===== src/Tracking/Decimals/Spelling.antt =====
-- The canonical spelling of a decimal.
use sto_info_backend.Base.{
  ◌≤◌, ◌≡◌, refl, sym, ◌∙◌, ap, inl, inr, Bool, true, false, not, ◌&&◌, none, some, [], ◌∷◌, ◌++◌,
  arith, Bool-cases, if◌then◌else◌,
}
use sto_info_backend.Texts.{Text, length, is_empty}
use sto_info_backend.Tracking.Decimals.{
  all_digits, is_run, first_piece, after_point, is_fraction, starts_negative, unsigned, is_decimal,
  drop_zeroes, trim_zeroes, raw_fraction, DecimalParts, is_too_large, is_zero, parts_in_range,
  parse_decimal, is_exact_decimal, spelling, canonicalise_parts, canonicalise_decimal,
}
use sto_info_backend.Tracking.Decimals.Parsing.{Reads, parse_decimal-Reads, first_piece-digits}

first_piece-append : (a b : Text) → all_digits a ≡ true → first_piece (a ++ b'.' ∷ b) ≡ a
unfolding first_piece all_digits
first_piece-append [] b h = refl
first_piece-append (c ∷ cs) b h = ground (arith, h, first_piece-append cs b)

after_point-append : (a b : Text) → all_digits a ≡ true → after_point (a ++ b'.' ∷ b) ≡ some b
unfolding after_point all_digits
after_point-append [] b h = refl
after_point-append (c ∷ cs) b h = ground (arith, h, after_point-append cs b)

after_point-digits : (a : Text) → all_digits a ≡ true → after_point a ≡ none
unfolding after_point all_digits
after_point-digits [] h = refl
after_point-digits (c ∷ cs) h = ground (arith, h, after_point-digits cs)

magnitude_text : Text → Text → Text
magnitude_text whole fraction = if is_empty fraction then whole else whole ++ b'.' ∷ fraction

empty_nil : (s : Text) → is_empty s ≡ true → s ≡ []
empty_nil [] h = refl
empty_nil (c ∷ cs) h = cc

first_piece-magnitude_text :
    (w f : Text) → all_digits w ≡ true → first_piece (magnitude_text w f) ≡ w
unfolding magnitude_text
first_piece-magnitude_text w f h = elim (Bool-cases (is_empty f)) [
  | inl e ↦ rw e (first_piece-digits w h)
  | inr e ↦ rw e (first_piece-append w f h)
]

raw_fraction-magnitude_text :
    (w f : Text)
    → all_digits w ≡ true
    → all_digits f ≡ true
    → raw_fraction (after_point (magnitude_text w f)) ≡ f
unfolding magnitude_text raw_fraction
raw_fraction-magnitude_text w f h hf = elim (Bool-cases (is_empty f)) [
  | inl e ↦ rw (e, after_point-digits w h) (sym (empty_nil f e))
  | inr e ↦ rw (e, after_point-append w f h) (first_piece-digits f hf)
]

is_fraction-magnitude_text :
    (w f : Text)
    → all_digits w ≡ true
    → all_digits f ≡ true
    → length f ≤ 10
    → is_fraction (after_point (magnitude_text w f)) ≡ true
unfolding magnitude_text is_fraction is_run
is_fraction-magnitude_text w f h hf l = elim (Bool-cases (is_empty f)) [
  | inl e ↦ rw (e, after_point-digits w h) refl
  | inr e ↦ rw (e, after_point-append w f h) (ground (arith, hf, e, l))
]

unsigned_spelling :
    (sign : Bool) (w f : Text)
    → all_digits w ≡ true
    → is_empty w ≡ false
    → (unsigned (if sign then b'-' ∷ magnitude_text w f else magnitude_text w f)
        ≡ magnitude_text w f)
      × (starts_negative (if sign then b'-' ∷ magnitude_text w f else magnitude_text w f) ≡ sign)
unfolding magnitude_text unsigned starts_negative all_digits
unsigned_spelling sign [] f h n = cc
unsigned_spelling true (c ∷ cs) f h n = (refl, refl)
unsigned_spelling false (c ∷ cs) f h n = ground (arith, h)

is_decimal-pieces :
    (s w f : Text)
    → first_piece (unsigned s) ≡ w
    → is_fraction (after_point (unsigned s)) ≡ true
    → all_digits w ≡ true
    → is_empty w ≡ false
    → length w ≤ 10
    → is_decimal s ≡ true
unfolding is_decimal is_run
is_decimal-pieces s w f e fr h n l = rw e (ground (arith, fr, h, n, l))

-- A text with the pieces of parts that nothing is left out of is read as them.
parse_decimal-pieces :
    (s : Text) (p : DecimalParts)
    → is_decimal s ≡ true
    → starts_negative s ≡ p.is_negative
    → first_piece (unsigned s) ≡ p.whole
    → raw_fraction (after_point (unsigned s)) ≡ p.fraction
    → drop_zeroes p.whole ≡ p.whole
    → trim_zeroes p.fraction ≡ p.fraction
    → is_too_large p.whole ≡ false
    → (p.is_negative && not (is_zero p.whole p.fraction)) ≡ p.is_negative
    → parse_decimal s ≡ some p
unfolding parse_decimal parts_in_range
parse_decimal-pieces s p formed sign whole rest dropped trimmed ranged signed =
    rw (formed, sign, whole, rest, dropped, trimmed, ranged, signed) refl

parse_decimal-spelling :
    (s : Text) (p : DecimalParts) → Reads s p → parse_decimal (spelling p) ≡ some p
unfolding spelling magnitude_text
parse_decimal-spelling s p r =
    let w = p.whole in
    let f = p.fraction in
    let v = r.parts in
    let (bare, sign) = unsigned_spelling p.is_negative w f v.digits v.named in
    let first = ap first_piece bare ∙ first_piece-magnitude_text w f v.digits in
    let rest =
      ap (λ t. raw_fraction (after_point t)) bare
      ∙ raw_fraction-magnitude_text w f v.digits v.places in
    let fraction =
      ap (λ t. is_fraction (after_point t)) bare
      ∙ is_fraction-magnitude_text w f v.digits v.places v.fits in
    parse_decimal-pieces (spelling p) p
      (is_decimal-pieces (spelling p) w f first fraction v.digits v.named v.few) sign first rest
      r.dropped r.trimmed r.ranged r.signed

-- Every decimal has a canonical spelling, which is read as the same parts, so that it is a decimal as well
-- and its own canonical spelling.
pub canonicalise_decimal-parse_decimal :
    (s : Text)
    → is_exact_decimal s ≡ true
    → (t : Text) × (canonicalise_decimal s ≡ some t)
      × (parse_decimal t ≡ parse_decimal s)
      × (canonicalise_decimal t ≡ some t)
unfolding canonicalise_decimal canonicalise_parts
canonicalise_decimal-parse_decimal s h =
    let (p, r) = parse_decimal-Reads s h in
    let read = parse_decimal-spelling s p r in
    (spelling p, ap canonicalise_parts r.parsed, read ∙ sym r.parsed, ap canonicalise_parts read)
