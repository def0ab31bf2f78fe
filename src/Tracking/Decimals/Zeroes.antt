-- ===== src/Tracking/Decimals/Zeroes.antt =====
-- The zeroes that are left out of a text of digits.
use sto_info_backend.Base.{
  ℕ, zero, suc, ◌+◌, ◌-◌, ◌*◌, ◌^◌, ◌≤◌, ◌≡◌, refl, sym, ◌∙◌, ap, inl, inr, ◌⊎◌, true, ◌&&◌, [],
  ◌∷◌, arith, ◌==◌, Bool-cases,
}
use sto_info_backend.Texts.{Text, length, is_empty}
use sto_info_backend.Tracking.Decimals.{is_digit, all_digits, drop_zeroes, trim_zeroes}
use sto_info_backend.Tracking.Decimals.Digits.{place_value, number, mul_mono, positive_power}

pub number-drop_zeroes : (s : Text) → number (drop_zeroes s) ≡ number s
unfolding number place_value drop_zeroes
number-drop_zeroes [] = refl
number-drop_zeroes (c ∷ []) = refl
number-drop_zeroes (c ∷ d ∷ ds) = ground (arith, number-drop_zeroes (d ∷ ds))

pub all_digits-drop_zeroes : (s : Text) → all_digits s ≡ true → all_digits (drop_zeroes s) ≡ true
unfolding all_digits drop_zeroes
all_digits-drop_zeroes [] h = refl
all_digits-drop_zeroes (c ∷ []) h = h
all_digits-drop_zeroes (c ∷ d ∷ ds) h = ground (arith, h, all_digits-drop_zeroes (d ∷ ds))

pub is_empty-drop_zeroes : (s : Text) → is_empty (drop_zeroes s) ≡ is_empty s
unfolding drop_zeroes
is_empty-drop_zeroes [] = refl
is_empty-drop_zeroes (c ∷ []) = refl
is_empty-drop_zeroes (c ∷ d ∷ ds) = ground (arith, is_empty-drop_zeroes (d ∷ ds))

power_suc : (k : ℕ) → 10 ^ suc k ≡ 10 * 10 ^ k
power_suc k = omega arith

number_large : (c : ℕ) (cs : Text) → 1 ≤ c - b'0' → 10 ^ length (c ∷ cs) ≤ 10 * number (c ∷ cs)
unfolding number place_value
number_large c cs h =
    let whole : 10 ^ length (c ∷ cs) ≡ 10 * 10 ^ length cs = power_suc (length cs) in
    omega (arith, whole, mul_mono 1 (c - b'0') (10 ^ length cs) h)

-- Without leading zeroes, a longer text of digits spells the larger number.
pub drop_zeroes-leading :
    (s : Text)
    → all_digits s ≡ true
    → (length (drop_zeroes s) ≤ 1) ⊎ (10 ^ length (drop_zeroes s) ≤ 10 * number (drop_zeroes s))
unfolding all_digits drop_zeroes number place_value
drop_zeroes-leading [] h = inl (omega arith)
drop_zeroes-leading (c ∷ []) h = inl (omega arith)
drop_zeroes-leading (c ∷ d ∷ ds) h = elim (Bool-cases (c == b'0')) [
  | inl zeroed ↦
      let digit : is_digit d ≡ true = ground (arith, h) in
      let rest : all_digits (d ∷ ds) ≡ true = ground (arith, h) in
      rw (zeroed, digit) (drop_zeroes-leading (d ∷ ds) rest)
  | inr kept ↦
      let digit : is_digit c ≡ true = ground (arith, h) in
      let large : 1 ≤ c - b'0' = ground (arith, digit, kept) in
      inr (rw kept (number_large c (d ∷ ds) large))
]

empty-nil : (s : Text) → is_empty s ≡ true → s ≡ []
empty-nil [] h = refl
empty-nil (c ∷ cs) h = cc

place_value-cons :
    (k c : ℕ) (a b : Text)
    → ((j : ℕ) → place_value j a ≡ place_value j b)
    → place_value k (c ∷ a) ≡ place_value k (c ∷ b)
unfolding place_value
place_value-cons zero c a b h = refl
place_value-cons (suc k) c a b h = ap (λ n. (c - b'0') * 10 ^ k + n) (h k)

place_value-zero :
    (k c : ℕ) (cs : Text)
    → c ≡ b'0'
    → trim_zeroes cs ≡ []
    → ((j : ℕ) → place_value j (trim_zeroes cs) ≡ place_value j cs)
    → place_value k (c ∷ cs) ≡ 0
unfolding place_value
place_value-zero zero c cs zeroed e h = refl
place_value-zero (suc k) c cs zeroed e h =
    let rest : place_value k cs ≡ 0 = sym (h k) ∙ ap (place_value k) e in
    let none_left : c - b'0' ≡ 0 = omega (arith, zeroed) in rw (none_left, rest) (omega arith)

pub place_value-trim_zeroes : (k : ℕ) (s : Text) → place_value k (trim_zeroes s) ≡ place_value k s
unfolding place_value trim_zeroes
place_value-trim_zeroes k [] = refl
place_value-trim_zeroes k (c ∷ cs) = elim (Bool-cases (c == b'0' && is_empty (trim_zeroes cs))) [
  | inl dropped ↦ rw dropped (
      sym (
        place_value-zero k c cs (ground (arith, dropped))
          (empty-nil (trim_zeroes cs) (ground (arith, dropped)))
          (λ k. place_value-trim_zeroes k cs)))
  | inr kept ↦
      rw kept (place_value-cons k c (trim_zeroes cs) cs (λ k. place_value-trim_zeroes k cs))
]

pub all_digits-trim_zeroes : (s : Text) → all_digits s ≡ true → all_digits (trim_zeroes s) ≡ true
unfolding all_digits trim_zeroes
all_digits-trim_zeroes [] h = refl
all_digits-trim_zeroes (c ∷ cs) h = ground (arith, h, all_digits-trim_zeroes cs)

pub length-trim_zeroes : (s : Text) → length (trim_zeroes s) ≤ length s
unfolding trim_zeroes
length-trim_zeroes [] = omega arith
length-trim_zeroes (c ∷ cs) = ground (arith, length-trim_zeroes cs)

-- The digits of zero are all zeroes.
pub trim_zeroes-zero :
    (k : ℕ) (s : Text)
    → all_digits s ≡ true
    → length s ≤ k
    → place_value k s ≡ 0
    → is_empty (trim_zeroes s) ≡ true
unfolding all_digits trim_zeroes place_value
trim_zeroes-zero k [] h l e = refl
trim_zeroes-zero zero (c ∷ cs) h l e = absurd (omega (arith, l))
trim_zeroes-zero (suc k) (c ∷ cs) h l e = elim (Bool-cases (c == b'0')) [
  | inl zeroed ↦ ground (
    arith,
    zeroed,
    trim_zeroes-zero k cs (ground (arith, h)) (omega (arith, l)) (omega (arith, e)),
  )
  | inr kept ↦
      let digit : is_digit c ≡ true = ground (arith, h) in
      let large : 1 ≤ c - b'0' = ground (arith, digit, kept) in
      absurd (omega (arith, e, positive_power k, mul_mono 1 (c - b'0') (10 ^ k) large))
]

pub trim_zeroes-place_value :
    (k : ℕ) (s : Text) → is_empty (trim_zeroes s) ≡ true → place_value k s ≡ 0
unfolding place_value
trim_zeroes-place_value k s h =
    sym (place_value-trim_zeroes k s) ∙ ap (place_value k) (empty-nil (trim_zeroes s) h)

pub drop_zeroes_twice : (s : Text) → drop_zeroes (drop_zeroes s) ≡ drop_zeroes s
unfolding drop_zeroes
drop_zeroes_twice [] = refl
drop_zeroes_twice (c ∷ []) = refl
drop_zeroes_twice (c ∷ d ∷ ds) = ground (arith, drop_zeroes_twice (d ∷ ds))

pub trim_zeroes_twice : (s : Text) → trim_zeroes (trim_zeroes s) ≡ trim_zeroes s
unfolding trim_zeroes
trim_zeroes_twice [] = refl
trim_zeroes_twice (c ∷ cs) = ground (arith, trim_zeroes_twice cs)
