-- ===== src/Contract/Ink.antt =====
-- Messages that are not blank, and lists of messages with one of them.
use mcp_swagger.Prelude.{
  ◌≡◌, refl, Bool, true, false, not, ◌&&◌, ◌||◌, List, [], ◌∷◌, ◌++◌, arith, any,
}
use mcp_swagger.Text.{Text, is_empty, is_space, trim_left, trim_right, trim_space, member}
use mcp_swagger.Text.Laws.{trim_space_idem}
use mcp_swagger.Policy.{is_nil}
use mcp_swagger.Contract.Schema.{unique_strings}

-- Some code point is no space.
abbrev pub has_ink : Text → Bool
has_ink [] = false
has_ink (c ∷ t) = not (is_space c) || has_ink t

has_ink-trim_left : (t : Text) → has_ink (trim_left t) ≡ has_ink t
unfolding trim_left
has_ink-trim_left [] = refl
has_ink-trim_left (c ∷ t) = ground (arith, has_ink-trim_left t)

is_empty-trim_right : (t : Text) → is_empty (trim_right t) ≡ not (has_ink t)
unfolding trim_right
is_empty-trim_right [] = refl
is_empty-trim_right (c ∷ t) = ground (arith, is_empty-trim_right t)

is_empty-trim_space : (t : Text) → is_empty (trim_space t) ≡ not (has_ink t)
unfolding trim_space
is_empty-trim_space t = ground (arith, is_empty-trim_right (trim_left t), has_ink-trim_left t)

pub has_ink-append : (s t : Text) → has_ink t ≡ true → has_ink (s ++ t) ≡ true
has_ink-append [] t h = h
has_ink-append (c ∷ s) t h = ground (arith, has_ink-append s t h)

has_ink-trim_space : (t : Text) → has_ink (trim_space t) ≡ has_ink t
has_ink-trim_space t =
    ground (arith, is_empty-trim_space t, is_empty-trim_space (trim_space t), trim_space_idem t)

-- No message, or blank ones only.
abbrev pub clean : List Text → Bool
clean [] = true
clean (t ∷ ts) = not (has_ink t) && clean ts

pub clean-append : (ss ts : List Text) → clean (ss ++ ts) ≡ (clean ss && clean ts)
clean-append [] ts = refl
clean-append (s ∷ ss) ts = ground (arith, clean-append ss ts)

pub clean-unique_strings : (ts : List Text) → clean (unique_strings ts) ≡ clean ts
unfolding unique_strings member any
clean-unique_strings [] = refl
clean-unique_strings (t ∷ ts) =
    ground (arith, clean-unique_strings ts, is_empty-trim_space t, has_ink-trim_space t)

pub is_nil-unique_strings : (ts : List Text) → is_nil (unique_strings ts) ≡ clean ts
unfolding unique_strings member any
is_nil-unique_strings [] = refl
is_nil-unique_strings (t ∷ ts) = ground (arith, is_nil-unique_strings ts, is_empty-trim_space t)

pub clean-append2 :
    (ss ts : List Text) (a b : Bool) → clean ss ≡ a → clean ts ≡ b → clean (ss ++ ts) ≡ (a && b)
clean-append2 ss ts a b ha hb = ground (arith, clean-append ss ts)

pub clean-append3 :
    (ss ts us : List Text) (a b c : Bool)
    → clean ss ≡ a
    → clean ts ≡ b
    → clean us ≡ c
    → clean (ss ++ ts ++ us) ≡ (a && b && c)
clean-append3 ss ts us a b c ha hb hc =
    ground (arith, clean-append (ss ++ ts) us, clean-append ss ts)
