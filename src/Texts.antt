-- ===== src/Texts.antt =====
-- A text as the list of its UTF-16 code units, for the code that reads one character by character.
use sto_info_backend.Base.{ℕ, suc, Bool, true, false, ◌&&◌, ◌||◌, List, [], ◌∷◌, ◌==◌, ltb}

abbrev pub Text : Type 0
Text = List ℕ

abbrev pub length : Text → ℕ
length [] = 0
length (x ∷ xs) = suc (length xs)

abbrev pub is_empty : Text → Bool
is_empty [] = true
is_empty (x ∷ xs) = false

-- `===`
unfoldable pub is_same_text : Text → Text → Bool
is_same_text [] [] = true
is_same_text [] (y ∷ ys) = false
is_same_text (x ∷ xs) [] = false
is_same_text (x ∷ xs) (y ∷ ys) = x == y && is_same_text xs ys

-- `<`
unfoldable pub is_text_below : Text → Text → Bool
is_text_below [] [] = false
is_text_below [] (y ∷ ys) = true
is_text_below (x ∷ xs) [] = false
is_text_below (x ∷ xs) (y ∷ ys) = ltb x y || x == y && is_text_below xs ys
