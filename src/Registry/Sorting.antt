-- ===== src/Registry/Sorting.antt =====
-- sort.Strings: ascending order of texts by their code points, which is that of their UTF-8 bytes.
use mcp_swagger.Prelude.{
  ◌≡◌, refl, Bool, true, false, ◌||◌, ◌&&◌, List, [], ◌∷◌, arith, ltb, ◌==◌, if◌then◌else◌,
}
use mcp_swagger.Text.{Text}

unfoldable pub text_ltb : Text → Text → Bool
text_ltb s [] = false
text_ltb [] (b ∷ t) = true
text_ltb (a ∷ s) (b ∷ t) = let rest = text_ltb s t in ltb a b || a == b && rest

unfoldable pub insert : Text → List Text → List Text
unfolding text_ltb
insert x [] = x ∷ []
insert x (y ∷ ys) = let rest = insert x ys in if text_ltb y x then y ∷ rest else x ∷ y ∷ ys

unfoldable pub sort_texts : List Text → List Text
unfolding insert
sort_texts [] = []
sort_texts (x ∷ xs) = insert x (sort_texts xs)

-- No text is under the one before it.
abbrev pub IsAscending : List Text → Type 0
IsAscending [] = Unit {0}
IsAscending (x ∷ []) = Unit {0}
IsAscending (x ∷ y ∷ ys) = (text_ltb y x ≡ false) × IsAscending (y ∷ ys)

text_ltb_asym : (s t : Text) → text_ltb s t ≡ true → text_ltb t s ≡ false
unfolding text_ltb
text_ltb_asym s [] h = ground arith
text_ltb_asym [] (b ∷ t) h = refl
text_ltb_asym (a ∷ s) (b ∷ t) h = ground (arith, text_ltb_asym s t)

IsAscending-insert : (x : Text) (xs : List Text) → IsAscending xs → IsAscending (insert x xs)
unfolding insert
IsAscending-insert x [] h = tt
IsAscending-insert x (y ∷ []) h = ground (arith, text_ltb_asym y x)
IsAscending-insert x (y ∷ z ∷ zs) h =
    let rest = IsAscending-insert x (z ∷ zs) h.1 in ground (arith, rest, text_ltb_asym y x)

-- The sorted list is ascending.
pub sort_texts-IsAscending : (xs : List Text) → IsAscending (sort_texts xs)
unfolding sort_texts
sort_texts-IsAscending [] = tt
sort_texts-IsAscending (x ∷ xs) = IsAscending-insert x (sort_texts xs) (sort_texts-IsAscending xs)
