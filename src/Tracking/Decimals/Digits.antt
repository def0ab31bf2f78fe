-- ===== src/Tracking/Decimals/Digits.antt =====
-- The number that a text of digits spells.
use sto_info_backend.Base.{
  ℕ, zero, suc, ◌+◌, ◌-◌, ◌*◌, ◌^◌, ◌≤◌, ◌<◌, ◌≡◌, refl, sym, ◌∙◌, ap, inl, inr, ◌⊎◌, max, true, [],
  ◌∷◌, arith,
}
use sto_info_backend.Texts.{Text, length, is_same_text, is_text_below}
use sto_info_backend.Captains.{negative, equal, positive, compare_numbers}
use sto_info_backend.Tracking.Decimals.{
  is_digit, all_digits, pad_end, compare_texts, compare_fractions,
}

-- The value of the digits where the first stands for so many tens.
unfoldable pub place_value : ℕ → Text → ℕ
place_value k [] = 0
place_value zero (c ∷ cs) = 0
place_value (suc k) (c ∷ cs) = (c - b'0') * 10 ^ k + place_value k cs

unfoldable pub number : Text → ℕ
unfolding place_value
number s = place_value (length s) s

pub compare_numbers-below : (m n : ℕ) → m < n → compare_numbers m n ≡ negative
compare_numbers-below m n h = ground (arith, h)

pub compare_numbers-above : (m n : ℕ) → n < m → compare_numbers m n ≡ positive
compare_numbers-above m n h = ground (arith, h)

pub compare_numbers-same : (m n : ℕ) → m ≡ n → compare_numbers m n ≡ equal
compare_numbers-same m n h = ground (arith, h)

pub mul_mono : (a b p : ℕ) → a ≤ b → a * p ≤ b * p
mul_mono zero b p h = omega arith
mul_mono (suc a) zero p h = absurd (omega arith)
mul_mono (suc a) (suc b) p h = omega (arith, mul_mono a b p (omega (arith, h)))

pub positive_power : (k : ℕ) → 0 < 10 ^ k
positive_power zero = omega arith
positive_power (suc k) = omega (arith, positive_power k)

pub power_mono : (m n : ℕ) → m ≤ n → 10 ^ m ≤ 10 ^ n
power_mono zero n h = positive_power n
power_mono (suc m) zero h = absurd (omega arith)
power_mono (suc m) (suc n) h = omega (arith, power_mono m n (omega (arith, h)))

pub place_value_bound : (k : ℕ) (s : Text) → all_digits s ≡ true → place_value k s < 10 ^ k
unfolding place_value all_digits
place_value_bound k [] h = positive_power k
place_value_bound zero (c ∷ cs) h = omega arith
place_value_bound (suc k) (c ∷ cs) h =
    let digit : is_digit c ≡ true = ground (arith, h) in
    let rest : all_digits cs ≡ true = ground (arith, h) in
    let small : c - b'0' ≤ 9 = ground (arith, digit) in
    omega (arith, mul_mono (c - b'0') 9 (10 ^ k) small, place_value_bound k cs rest)

-- A smaller first digit makes the smaller number.
place_value-first :
    (k x y : ℕ) (xs ys : Text)
    → b'0' ≤ x
    → x < y
    → all_digits xs ≡ true
    → place_value (suc k) (x ∷ xs) < place_value (suc k) (y ∷ ys)
unfolding place_value
place_value-first k x y xs ys low below h = omega (
  arith,
  mul_mono (suc (x - b'0')) (y - b'0') (10 ^ k) (omega (arith, low, below)),
  place_value_bound k xs h,
)

compare_texts-cons :
    (x y : ℕ) (xs ys : Text)
    → (x < y × (compare_texts (x ∷ xs) (y ∷ ys) ≡ negative))
      ⊎ ((y < x × (compare_texts (x ∷ xs) (y ∷ ys) ≡ positive))
          ⊎ ((x ≡ y) × (compare_texts (x ∷ xs) (y ∷ ys) ≡ compare_texts xs ys)))
unfolding compare_texts is_same_text is_text_below
compare_texts-cons x y xs ys = ground arith

pub compare_numbers_add : (a m n : ℕ) → compare_numbers (a + m) (a + n) ≡ compare_numbers m n
compare_numbers_add a m n = ground arith

-- Texts of as many digits are in the order of their numbers.
pub compare_texts-place_value :
    (k : ℕ) (a b : Text)
    → all_digits a ≡ true
    → all_digits b ≡ true
    → length a ≡ length b
    → length a ≤ k
    → compare_texts a b ≡ compare_numbers (place_value k a) (place_value k b)
unfolding place_value all_digits compare_texts is_same_text
compare_texts-place_value k [] [] ha hb same fits = sym (compare_numbers-same 0 0 refl)
compare_texts-place_value k [] (y ∷ ys) ha hb same fits = absurd (omega (arith, same))
compare_texts-place_value k (x ∷ xs) [] ha hb same fits = absurd (omega (arith, same))
compare_texts-place_value zero (x ∷ xs) (y ∷ ys) ha hb same fits = absurd (omega (arith, fits))
compare_texts-place_value (suc k) (x ∷ xs) (y ∷ ys) ha hb same fits =
    let dx : is_digit x ≡ true = ground (arith, ha) in
    let dy : is_digit y ≡ true = ground (arith, hb) in
    let hxs : all_digits xs ≡ true = ground (arith, ha) in
    let hys : all_digits ys ≡ true = ground (arith, hb) in
    elim (compare_texts-cons x y xs ys) [
      | inl (below, e) ↦
          e
          ∙ sym (
              compare_numbers-below _ _
                (place_value-first k x y xs ys (ground (arith, dx)) below hxs))
      | inr (inl (above, e)) ↦
          e
          ∙ sym (
              compare_numbers-above _ _
                (place_value-first k y x ys xs (ground (arith, dy)) above hys))
      | inr (inr (eq, e)) ↦
          e
          ∙ compare_texts-place_value k xs ys hxs hys (omega (arith, same)) (omega (arith, fits))
          ∙ sym (compare_numbers_add ((x - b'0') * 10 ^ k) (place_value k xs) (place_value k ys))
          ∙ ap
              (λ z.
                compare_numbers ((x - b'0') * 10 ^ k + place_value k xs)
                  ((z - b'0') * 10 ^ k + place_value k ys))
              eq
    ]

place_value-pad_end : (k w : ℕ) (s : Text) → place_value k (pad_end w s) ≡ place_value k s
unfolding place_value pad_end
place_value-pad_end k zero s = refl
place_value-pad_end zero (suc w) [] = refl
place_value-pad_end (suc k) (suc w) [] = omega (arith, place_value-pad_end k w [])
place_value-pad_end zero (suc w) (c ∷ cs) = refl
place_value-pad_end (suc k) (suc w) (c ∷ cs) =
    ap (λ n. (c - b'0') * 10 ^ k + n) (place_value-pad_end k w cs)

all_digits-pad_end : (w : ℕ) (s : Text) → all_digits s ≡ true → all_digits (pad_end w s) ≡ true
unfolding all_digits pad_end
all_digits-pad_end zero s h = h
all_digits-pad_end (suc w) [] h = all_digits-pad_end w [] refl
all_digits-pad_end (suc w) (c ∷ cs) h = ground (arith, h, all_digits-pad_end w cs)

length-pad_end : (w : ℕ) (s : Text) → length s ≤ w → length (pad_end w s) ≡ w
unfolding pad_end
length-pad_end zero [] h = refl
length-pad_end zero (c ∷ cs) h = absurd (omega (arith, h))
length-pad_end (suc w) [] h = ap suc (length-pad_end w [] (omega arith))
length-pad_end (suc w) (c ∷ cs) h = ap suc (length-pad_end w cs (omega (arith, h)))

pub compare_fractions-place_value :
    (k : ℕ) (f g : Text)
    → all_digits f ≡ true
    → all_digits g ≡ true
    → length f ≤ k
    → length g ≤ k
    → compare_fractions f g ≡ compare_numbers (place_value k f) (place_value k g)
unfolding compare_fractions
compare_fractions-place_value k f g hf hg lf lg =
    let w = max (length f) (length g) in
    let wide = length-pad_end w f (omega arith) in
    let wide' = length-pad_end w g (omega arith) in
    compare_texts-place_value k (pad_end w f) (pad_end w g) (all_digits-pad_end w f hf)
      (all_digits-pad_end w g hg) (wide ∙ sym wide') (omega (arith, wide, lf, lg))
    ∙ ap (λ n. compare_numbers n (place_value k (pad_end w g))) (place_value-pad_end k w f)
    ∙ ap (λ n. compare_numbers (place_value k f) n) (place_value-pad_end k w g)
