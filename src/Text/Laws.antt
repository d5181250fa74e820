-- ===== src/Text/Laws.antt =====
-- Laws of the text functions: comparison decides equality, trimming and case mapping are
-- idempotent and commute.
use mcp_swagger.Prelude.{
  ◌≢◌, false, ℕ, ◌≡◌, refl, ◌↔◌, inl, inr, true, ◌&&◌, [], ◌∷◌, arith, ◌==◌, ==_iff, Bool-cases,
  &&_true,
}
use mcp_swagger.Text.{
  Text, text_eq, is_empty, is_space, upper_char, lower_char, to_upper, trim_left, trim_right,
  trim_space,
}

pub text_eq→eq : (s t : Text) → text_eq s t ≡ true → s ≡ t
unfolding text_eq
text_eq→eq [] [] h = refl
text_eq→eq [] (y ∷ ys) h = cc
text_eq→eq (x ∷ xs) [] h = cc
text_eq→eq (x ∷ xs) (y ∷ ys) h =
    let parts = &&_true (x == y) (text_eq xs ys) h in
    cc ((==_iff x y).0 parts.0, text_eq→eq xs ys parts.1)

pub text_eq_refl : (s : Text) → text_eq s s ≡ true
unfolding text_eq
text_eq_refl [] = refl
text_eq_refl (x ∷ xs) = rw ((==_iff x x).1 refl) (text_eq_refl xs)

pub text_eq_iff : (s t : Text) → (text_eq s t ≡ true) ↔ (s ≡ t)
text_eq_iff s t = (text_eq→eq s t, λ e. rw e (text_eq_refl t))

-- A space stays a space under the case mappings, and nothing becomes one.
pub is_space-upper_char : (c : ℕ) → is_space (upper_char c) ≡ is_space c
unfolding is_space upper_char
is_space-upper_char c = ground arith

pub upper_char_idem : (c : ℕ) → upper_char (upper_char c) ≡ upper_char c
unfolding upper_char
upper_char_idem c = ground arith

pub lower_char_idem : (c : ℕ) → lower_char (lower_char c) ≡ lower_char c
unfolding lower_char
lower_char_idem c = ground arith

pub to_upper_idem : (s : Text) → to_upper (to_upper s) ≡ to_upper s
unfolding to_upper
to_upper_idem [] = refl
to_upper_idem (c ∷ s) = cc (upper_char_idem c, to_upper_idem s)

pub trim_right_idem : (s : Text) → trim_right (trim_right s) ≡ trim_right s
unfolding trim_right
trim_right_idem [] = refl
trim_right_idem (c ∷ s) = elim (Bool-cases (is_space c && is_empty (trim_right s))) [
  | inl gone ↦ rw gone
  | inr kept ↦ rw kept (rw (trim_right_idem s, kept))
]

trim_left-trim_right : (s : Text) → trim_left (trim_right (trim_left s)) ≡ trim_right (trim_left s)
unfolding trim_left trim_right
trim_left-trim_right [] = refl
trim_left-trim_right (c ∷ s) = ground (arith, trim_left-trim_right s)

pub trim_space_idem : (s : Text) → trim_space (trim_space s) ≡ trim_space s
unfolding trim_space
trim_space_idem s = rw (trim_left-trim_right s) (trim_right_idem (trim_left s))

trim_left-to_upper : (s : Text) → trim_left (to_upper s) ≡ to_upper (trim_left s)
unfolding trim_left to_upper
trim_left-to_upper [] = refl
trim_left-to_upper (c ∷ s) = ground (arith, is_space-upper_char c, trim_left-to_upper s)

is_empty-to_upper : (s : Text) → is_empty (to_upper s) ≡ is_empty s
unfolding to_upper
is_empty-to_upper [] = refl
is_empty-to_upper (c ∷ s) = refl

trim_right-to_upper : (s : Text) → trim_right (to_upper s) ≡ to_upper (trim_right s)
unfolding trim_right to_upper
trim_right-to_upper [] = refl
trim_right-to_upper (c ∷ s) =
    ground (arith, is_space-upper_char c, trim_right-to_upper s, is_empty-to_upper (trim_right s))

pub trim_space-to_upper : (s : Text) → trim_space (to_upper s) ≡ to_upper (trim_space s)
unfolding trim_space
trim_space-to_upper s = rw (trim_left-to_upper s) (trim_right-to_upper (trim_left s))

-- A normalised name, `strings.ToUpper(strings.TrimSpace(s))`, is its own normal form.
pub upper_trim_idem :
    (s : Text) → to_upper (trim_space (to_upper (trim_space s))) ≡ to_upper (trim_space s)
upper_trim_idem s =
    rw (trim_space-to_upper (trim_space s), trim_space_idem s) (to_upper_idem (trim_space s))

-- Texts that compare unequal are different.
pub text_ne : (s t : Text) → text_eq s t ≡ false → s ≢ t
text_ne s t h e = ground (arith, text_eq_iff s t)
