-- ===== src/Prepare/Segments.antt =====
-- The slashes of an expanded path are those of the template: url.PathEscape leaves none in a value.
use mcp_swagger.Prelude.{
  ◌≡◌, refl, ap, sym, ◌∙◌, ℕ, ◌+◌, ◌/◌, ◌%◌, Bool, true, false, ◌||◌, none, List, [], ◌∷◌, ◌++◌,
  ◌==◌, All, any, count, count-append, arith, if◌then◌else◌, if_rule,
}
use mcp_swagger.Text.{Text, is_space, is_empty, trim_space, trim_left, trim_right, member}
use mcp_swagger.Text.Laws.{trim_space_idem}
use mcp_swagger.Dict.{Dict}
use mcp_swagger.Contract.Checks.{is_blank}
use mcp_swagger.Contract.Schema.{unique_strings, unique_from}
use mcp_swagger.Prepare.Template.{
  Piece, literal, placeholder, pieces_from, utf8, is_path_byte, hex_digit, escape_bytes,
  path_escape, value_at, or_empty, resolved_path, missing_names, expand_path_template,
}

abbrev pub slashes : Text → ℕ
slashes = count (λ c. c == 47)

-- The slashes outside the names of the placeholders.
abbrev pub literal_slashes : List Piece → ℕ
literal_slashes [] = 0
literal_slashes (literal t ∷ pieces) = slashes t + literal_slashes pieces
literal_slashes (placeholder name ∷ pieces) = literal_slashes pieces

path_byte_no_slash : (b : ℕ) → is_path_byte b ≡ true → (b == 47) ≡ false
unfolding is_path_byte any
path_byte_no_slash b h = ground arith

hex_no_slash : (n : ℕ) → (hex_digit n == 47) ≡ false
hex_no_slash n = ground arith

slashes-escape_bytes : (bs : Text) → slashes (escape_bytes bs) ≡ 0
unfolding count
slashes-escape_bytes [] = refl
slashes-escape_bytes (b ∷ bs) = ground (
  arith,
  slashes-escape_bytes bs,
  path_byte_no_slash b,
  hex_no_slash (b / 16),
  hex_no_slash (b % 16),
)

slashes-path_escape : (t : Text) → slashes (path_escape t) ≡ 0
unfolding path_escape count
slashes-path_escape [] = refl
slashes-path_escape (c ∷ t) = omega (
  arith,
  slashes-escape_bytes (utf8 c),
  slashes-path_escape t,
  count-append (λ c. c == 47) (escape_bytes (utf8 c)) (path_escape t),
)

space_no_slash : (c : ℕ) → is_space c ≡ true → (c == 47) ≡ false
unfolding is_space
space_no_slash c h = ground arith

slashes-trim_left : (t : Text) → slashes (trim_left t) ≡ slashes t
unfolding trim_left count
slashes-trim_left [] = refl
slashes-trim_left (c ∷ t) = ground (arith, slashes-trim_left t, space_no_slash c)

slashes-trim_right : (t : Text) → slashes (trim_right t) ≡ slashes t
unfolding trim_right count
slashes-trim_right [] = refl
slashes-trim_right (c ∷ t) = ground (arith, slashes-trim_right t, space_no_slash c)

slashes-trim_space : (t : Text) → slashes (trim_space t) ≡ slashes t
unfolding trim_space
slashes-trim_space t = slashes-trim_right (trim_left t) ∙ slashes-trim_left t

abbrev pub IsBlank : Text → Type 0
IsBlank t = trim_space t ≡ []

pub empty_nil : (t : Text) → is_empty t ≡ true → t ≡ []
empty_nil [] h = refl
empty_nil (c ∷ t) h = ground arith

pub unique_from_nil : (ts : List Text) → unique_from [] ts ≡ [] → All IsBlank ts
unfolding member
unique_from_nil [] = λ h. tt
unique_from_nil (t ∷ ts) =
    if_rule (λ us. us ≡ [] → All IsBlank (t ∷ ts))
      (is_empty (trim_space t) || member (trim_space t) []) (unique_from [] ts)
      (trim_space t ∷ unique_from (trim_space t ∷ []) ts)
      (λ blank h. (empty_nil (trim_space t) (ground arith), unique_from_nil ts h))
      λ kept h. ground arith

unfilled : (name : Text) → IsBlank (trim_space name) → slashes (123 ∷ name ++ 125 ∷ []) ≡ 0
unfolding count
unfilled name blank = omega (
  arith,
  count-append (λ c. c == 47) name (125 ∷ []),
  slashes-trim_space name,
  ap slashes (sym (trim_space_idem name) ∙ blank),
)

module _ (name kept value rest : Text) (names : List Text) (n : ℕ) where
  placeholder_slashes :
      (blank : Bool)
      → (IsBlank (trim_space name) → slashes kept ≡ 0)
      → slashes value ≡ 0
      → (All IsBlank names → slashes rest ≡ n)
      → All IsBlank (if blank then trim_space name ∷ names else names)
      → slashes (if blank then kept ++ rest else value ++ rest) ≡ n
  placeholder_slashes true none_kept none_value in_rest h =
      omega (arith, none_kept h.0, in_rest h.1, count-append (λ c. c == 47) kept rest)
  placeholder_slashes false none_kept none_value in_rest h =
      omega (arith, none_value, in_rest h, count-append (λ c. c == 47) value rest)

resolved_slashes :
    (pieces : List Piece) (params : Dict Text)
    → All IsBlank (missing_names pieces params)
    → slashes (resolved_path pieces params) ≡ literal_slashes pieces
unfolding resolved_path missing_names count
resolved_slashes [] params = λ h. refl
resolved_slashes (literal t ∷ pieces) params = λ h. omega (
  arith,
  resolved_slashes pieces params h,
  count-append (λ c. c == 47) t (resolved_path pieces params),
)
resolved_slashes (placeholder name ∷ pieces) params =
    placeholder_slashes name (123 ∷ name ++ 125 ∷ [])
      (path_escape (or_empty (value_at params name))) (resolved_path pieces params)
      (missing_names pieces params) (literal_slashes pieces) (is_blank (value_at params name))
      (unfilled name) (slashes-path_escape (or_empty (value_at params name)))
      (resolved_slashes pieces params)

-- Where no parameter is missing, the expanded path has as many slashes as its template has outside
-- the placeholders: a value of a parameter adds no segment.
pub expand_path_template-slashes :
    (template : Text) (params : Dict Text) (path : Text)
    → expand_path_template template params ≡ (path, [])
    → slashes path ≡ literal_slashes (pieces_from none template)
unfolding expand_path_template unique_strings
expand_path_template-slashes template params path h =
    let pieces = pieces_from none template in
    ap (λ r. slashes r.0) (sym h)
    ∙ resolved_slashes pieces params
        (unique_from_nil (missing_names pieces params) (ap (λ r. r.1) h))
