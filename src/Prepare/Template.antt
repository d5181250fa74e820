-- ===== src/Prepare/Template.antt =====
-- expandPathTemplate and url.PathEscape. The regular expression \{([^{}]+)\} is the scanner
-- `pieces_from`: `name` is what follows an open brace.
use mcp_swagger.Prelude.{
  ℕ, ◌+◌, ◌/◌, ◌%◌, Bool, ◌&&◌, ◌||◌, Option, none, some, List, [], ◌∷◌, ◌++◌, ltb, leb, ◌==◌, any,
  if◌then◌else◌,
}
use mcp_swagger.Text.{Text, codes, is_empty, trim_space}
use mcp_swagger.Dict.{Dict, get}
use mcp_swagger.Contract.Checks.{is_blank}
use mcp_swagger.Contract.Schema.{unique_strings}

pub data Piece : Type 0 where
  literal : Text → Piece
  placeholder : Text → Piece

unfoldable pub pieces_from : Option Text → Text → List Piece
pieces_from none [] = []
pieces_from (some name) [] = literal (123 ∷ name) ∷ []
pieces_from none (c ∷ t) =
    let opened = pieces_from (some []) t in
    let rest = pieces_from none t in if c == 123 then opened else literal (c ∷ []) ∷ rest
pieces_from (some name) (c ∷ t) =
    let opened = pieces_from (some []) t in
    let closed = pieces_from none t in
    let longer = pieces_from (some (name ++ c ∷ [])) t in
    if c == 123
    then literal (123 ∷ name) ∷ opened
    else if c == 125
    then (if is_empty name then literal (codes "{}") ∷ closed else placeholder name ∷ closed)
    else longer

-- The bytes of a code point in UTF-8.
unfoldable pub utf8 : ℕ → List ℕ
utf8 c =
    if ltb c 0x80
    then c ∷ []
    else if ltb c 0x800
    then (0xc0 + c / 64) ∷ (0x80 + c % 64) ∷ []
    else if ltb c 0x10000
    then (0xe0 + c / 4096) ∷ (0x80 + c / 64 % 64) ∷ (0x80 + c % 64) ∷ []
    else (0xf0 + c / 262144) ∷ (0x80 + c / 4096 % 64) ∷ (0x80 + c / 64 % 64) ∷ (0x80 + c % 64) ∷ []

abbrev pub hex_digit : ℕ → ℕ
hex_digit n = if ltb n 10 then 48 + n else 55 + n

-- The bytes that url.PathEscape leaves as they are: letters, digits and -_.~$&+=:@
unfoldable pub is_path_byte : ℕ → Bool
is_path_byte b =
    (leb 97 b && leb b 122)
    || (leb 65 b && leb b 90)
    || (leb 48 b && leb b 57)
    || any (λ c. c == b) (codes "-_.~$&+=:@")

abbrev pub escape_bytes : List ℕ → Text
escape_bytes [] = []
escape_bytes (b ∷ bs) =
    let rest = escape_bytes bs in
    if is_path_byte b then b ∷ rest else 37 ∷ hex_digit (b / 16) ∷ hex_digit (b % 16) ∷ rest

-- url.PathEscape
unfoldable pub path_escape : Text → Text
unfolding utf8 is_path_byte
path_escape [] = []
path_escape (c ∷ t) = escape_bytes (utf8 c) ++ path_escape t

abbrev pub value_at : Dict Text → Text → Option Text
value_at params name = get (trim_space name) params

abbrev pub or_empty : Option Text → Text
or_empty none = []
or_empty (some t) = t

unfoldable pub resolved_path : List Piece → Dict Text → Text
unfolding path_escape
resolved_path [] params = []
resolved_path (literal t ∷ pieces) params = t ++ resolved_path pieces params
resolved_path (placeholder name ∷ pieces) params =
    let rest = resolved_path pieces params in
    if is_blank (value_at params name)
    then (123 ∷ name ++ 125 ∷ []) ++ rest
    else path_escape (or_empty (value_at params name)) ++ rest

unfoldable pub missing_names : List Piece → Dict Text → List Text
missing_names [] params = []
missing_names (literal t ∷ pieces) params = missing_names pieces params
missing_names (placeholder name ∷ pieces) params =
    let rest = missing_names pieces params in
    if is_blank (value_at params name) then trim_space name ∷ rest else rest

unfoldable pub expand_path_template : Text → Dict Text → Text × List Text
unfolding pieces_from resolved_path missing_names
expand_path_template path params =
    let pieces = pieces_from none path in
    (resolved_path pieces params, unique_strings (missing_names pieces params))
