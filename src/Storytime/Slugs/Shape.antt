-- ===== src/Storytime/Slugs/Shape.antt =====
-- The shape of a slug: its length and its characters.
use sto_info_backend.Base.{
  ℕ, zero, suc, ◌+◌, ◌-◌, ◌≤◌, ◌<◌, ◌≡◌, refl, Bool, true, false, not, ◌&&◌, ◌||◌, Option, none,
  some, [], ◌∷◌, ◌++◌, arith, ◌==◌,
}
use sto_info_backend.Store.Order.{take}
use sto_info_backend.Storytime.Slugs.{
  Text, length, is_empty, is_alphanumeric, hyphenate, drop_leading_hyphens, trim_trailing_hyphens,
  normalise_to_slug, or_fallback, from_title, from_desired, build_stem, digits, suffix,
  build_candidate,
}

abbrev pub is_slug_char : ℕ → Bool
is_slug_char c = is_alphanumeric c || c == b'-'

unfoldable pub all_slug_chars : Text → Bool
all_slug_chars [] = true
all_slug_chars (c ∷ cs) = is_slug_char c && all_slug_chars cs

-- What a slug has to be.
pub record IsSlug (s : Text) : Type 0 where
  pub fits : length s ≤ 220
  pub named : is_empty s ≡ false
  pub spelled : all_slug_chars s ≡ true

length-take : (n : ℕ) (s : Text) → length (take n s) ≤ n
unfolding take
length-take zero s = omega arith
length-take (suc n) [] = omega arith
length-take (suc n) (c ∷ cs) = omega (arith, length-take n cs)

length-append : (s t : Text) → length (s ++ t) ≡ length s + length t
length-append [] t = omega arith
length-append (c ∷ cs) t = omega (arith, length-append cs t)

length-trim : (s : Text) → length (trim_trailing_hyphens s) ≤ length s
unfolding trim_trailing_hyphens
length-trim [] = omega arith
length-trim (c ∷ cs) = ground (arith, length-trim cs)

chars-take : (n : ℕ) (s : Text) → all_slug_chars s ≡ true → all_slug_chars (take n s) ≡ true
unfolding take all_slug_chars
chars-take zero s h = refl
chars-take (suc n) [] h = refl
chars-take (suc n) (c ∷ cs) h = ground (arith, h, chars-take n cs)

chars-append :
    (s t : Text)
    → all_slug_chars s ≡ true
    → all_slug_chars t ≡ true
    → all_slug_chars (s ++ t) ≡ true
unfolding all_slug_chars
chars-append [] t h k = k
chars-append (c ∷ cs) t h k = ground (arith, h, chars-append cs t)

chars-trim : (s : Text) → all_slug_chars s ≡ true → all_slug_chars (trim_trailing_hyphens s) ≡ true
unfolding trim_trailing_hyphens all_slug_chars
chars-trim [] h = refl
chars-trim (c ∷ cs) h = ground (arith, h, chars-trim cs)

chars-drop : (s : Text) → all_slug_chars s ≡ true → all_slug_chars (drop_leading_hyphens s) ≡ true
unfolding drop_leading_hyphens all_slug_chars
chars-drop [] h = refl
chars-drop (c ∷ cs) h = ground (arith, h, chars-drop cs)

chars-hyphenate : (run : Bool) (s : Text) → all_slug_chars (hyphenate run s) ≡ true
unfolding hyphenate all_slug_chars
chars-hyphenate run [] = refl
chars-hyphenate run (c ∷ cs) = ground (arith, chars-hyphenate (not (is_alphanumeric c)) cs)

chars-normalise :
    (fold : Text → Text) (s : Text) (n : ℕ) → all_slug_chars (normalise_to_slug fold s n) ≡ true
unfolding normalise_to_slug
chars-normalise fold s n =
    chars-trim _ (chars-take n _ (chars-trim _ (chars-drop _ (chars-hyphenate false (fold s)))))

length-normalise : (fold : Text → Text) (s : Text) (n : ℕ) → length (normalise_to_slug fold s n) ≤ n
unfolding normalise_to_slug
length-normalise fold s n =
    let cut = trim_trailing_hyphens (drop_leading_hyphens (hyphenate false (fold s))) in
    omega (arith, length-trim (take n cut), length-take n cut)

or_fallback-IsSlug : (s : Text) → length s ≤ 220 → all_slug_chars s ≡ true → IsSlug (or_fallback s)
unfolding or_fallback all_slug_chars
or_fallback-IsSlug [] l h = record { fits = omega arith; named = refl; spelled = refl }
or_fallback-IsSlug (c ∷ cs) l h = record { fits = l; named = refl; spelled = h }

from_title-IsSlug :
    (fold : Text → Text) (s title : Text)
    → length s ≤ 220
    → all_slug_chars s ≡ true
    → IsSlug (from_title fold s title)
unfolding from_title
from_title-IsSlug fold [] title l h =
    or_fallback-IsSlug (normalise_to_slug fold title 220) (length-normalise fold title 220)
      (chars-normalise fold title 220)
from_title-IsSlug fold (c ∷ cs) title l h = record { fits = l; named = refl; spelled = h }

pub build_stem-IsSlug :
    (fold : Text → Text) (o : Option Text) (title : Text) → IsSlug (build_stem fold o title)
unfolding build_stem from_desired all_slug_chars
build_stem-IsSlug fold none title = from_title-IsSlug fold [] title (omega arith) refl
build_stem-IsSlug fold (some s) title =
    from_title-IsSlug fold (normalise_to_slug fold s 220) title (length-normalise fold s 220)
      (chars-normalise fold s 220)

digits_bounds : (n : ℕ) → n < 1000 → (length (digits n) ≤ 3) × (all_slug_chars (digits n) ≡ true)
unfolding digits all_slug_chars
digits_bounds n h = ground (arith, h)

append-named : (s : Text) (c : ℕ) (t : Text) → is_empty (s ++ c ∷ t) ≡ false
append-named [] c t = refl
append-named (x ∷ xs) c t = refl

pub build_candidate-IsSlug :
    (stem : Text) (attempt : ℕ)
    → attempt < 200
    → IsSlug stem
    → IsSlug (build_candidate stem attempt)
unfolding build_candidate suffix all_slug_chars
build_candidate-IsSlug stem zero h v = v
build_candidate-IsSlug stem (suc n) h v =
    let d = digits (suc n + 1) in
    let (short, spelled) = digits_bounds (suc n + 1) (omega arith) in
    let cut = take (220 - length (b'-' ∷ d)) stem in
    record {
      fits =
          omega (arith, length-append cut (b'-' ∷ d), length-take (220 - length (b'-' ∷ d)) stem);
      named = append-named cut b'-' d;
      spelled = chars-append cut (b'-' ∷ d) (chars-take _ stem v.spelled) (ground (arith, spelled));
    }
