-- ===== src/Prepare/Headers.antt =====
-- The default headers of a prepared request stand beside the ones that the input gives.
use mcp_swagger.Prelude.{
  Bool, true, false, not, ◌&&◌, if◌then◌else◌, ◌≡◌, refl, ap, ◌∙◌, Option, none, some, [], ◌∷◌,
  arith,
}
use mcp_swagger.Text.{Text, codes, text_eq, is_empty, to_lower, trim_space}
use mcp_swagger.Text.Laws.{text_eq_iff}
use mcp_swagger.Dict.{Dict, remove, put}
use mcp_swagger.Policy.{is_nil}
use mcp_swagger.Contract.Operation.{ExecuteInput}
use mcp_swagger.Input.Values.{find_header}
use mcp_swagger.Prepare.Body.{EncodedBody}
use mcp_swagger.Prepare.Request.{
  PrepareOptions, absent, with_default, default_headers, headers_with,
}

abbrev folded : Text → Text
folded name = to_lower (trim_space name)

find_header-folded :
    (headers : Dict Text) (name key : Text)
    → folded name ≡ folded key
    → find_header headers name ≡ find_header headers key
unfolding find_header
find_header-folded [] name key same = refl
find_header-folded ((j, v) ∷ headers) name key same =
    rw (same, find_header-folded headers name key same) refl

same_fold :
    (j key name : Text)
    → text_eq j key ≡ true
    → text_eq (folded j) (folded name) ≡ text_eq (folded key) (folded name)
same_fold j key name h = ap (λ k. text_eq (folded k) (folded name)) ((text_eq_iff j key).0 h)

find_header-remove :
    (headers : Dict Text) (key name : Text)
    → text_eq (folded key) (folded name) ≡ false
    → find_header (remove key headers) name ≡ find_header headers name
unfolding find_header remove
find_header-remove [] key name other = refl
find_header-remove ((j, v) ∷ headers) key name other =
    ground (arith, find_header-remove headers key name other, same_fold j key name)

-- The header of the name where the headers before have it, or else the default for the key.
abbrev pub fallback : Bool → Text → Option Text → Option Text
fallback applies value (some v) = some v
fallback applies value none = if applies then some value else none

abbrev pub header_or : Text → Text → Text → Option Text → Option Text
header_or key value name =
    fallback (not (is_empty value) && text_eq (folded key) (folded name)) value

find_header-put :
    (headers : Dict Text) (key value name : Text)
    → find_header (put key value headers) name
      ≡ (if text_eq (folded key) (folded name) then some value else find_header headers name)
unfolding find_header put
find_header-put headers key value name = ground (arith, find_header-remove headers key name)

-- The lookup of the key, by its folded name.
same_lookup :
    (headers : Dict Text) (key name : Text)
    → text_eq (folded key) (folded name) ≡ true
    → find_header headers key ≡ find_header headers name
same_lookup headers key name h =
    find_header-folded headers key name ((text_eq_iff (folded key) (folded name)).0 h)

defaulted :
    (filled same : Bool) (value : Text) (at_key at_name : Option Text)
    → (same ≡ true → at_key ≡ at_name)
    → (if filled && absent at_key then (if same then some value else at_name) else at_name)
      ≡ fallback (filled && same) value at_name
defaulted false same value at_key none h = refl
defaulted false same value at_key (some v) h = refl
defaulted true false value none none h = refl
defaulted true false value (some k) none h = refl
defaulted true false value none (some v) h = refl
defaulted true false value (some k) (some v) h = refl
defaulted true true value at_key none h = rw (h refl) refl
defaulted true true value at_key (some v) h = rw (h refl) refl

lookup_if :
    (b : Bool) (xs ys : Dict Text) (name : Text)
    → find_header (if b then xs else ys) name
      ≡ (if b then find_header xs name else find_header ys name)
lookup_if true xs ys name = refl
lookup_if false xs ys name = refl

find_header-with_default :
    (key value name : Text) (headers : Dict Text)
    → find_header (with_default key value headers) name
      ≡ header_or key value name (find_header headers name)
unfolding with_default
find_header-with_default key value name headers =
    let filled = not (is_empty value) in
    let at_key = find_header headers key in
    lookup_if (filled && absent at_key) (put key value headers) headers name
    ∙ ap (λ o. if filled && absent at_key then o else find_header headers name)
        (find_header-put headers key value name)
    ∙ defaulted filled (text_eq (folded key) (folded name)) value at_key (find_header headers name)
        (same_lookup headers key name)

-- What the header of a name is: that of the input, or else one of the defaults; the default of the
-- content type is there for a body that is not empty.
abbrev pub expected_header : PrepareOptions → ExecuteInput → EncodedBody → Text → Option Text
expected_header opts input body name =
    header_or (codes "Content-Type") (if is_nil body.bytes then [] else body.content_type) name (
      header_or (codes "Accept") opts.default_accept name
        (header_or (codes "User-Agent") opts.default_agent name (find_header input.headers name)))

nothing_more : (name : Text) (o : Option Text) → o ≡ header_or (codes "Content-Type") [] name o
nothing_more name none = refl
nothing_more name (some v) = refl

with_content_type :
    (empty : Bool) (content_type name : Text) (headers : Dict Text)
    → find_header
        (if empty then headers else with_default (codes "Content-Type") content_type headers)
        name
      ≡ header_or
          (codes "Content-Type")
          (if empty then [] else content_type)
          name
          (find_header headers name)
with_content_type true content_type name headers = nothing_more name (find_header headers name)
with_content_type false content_type name headers =
    find_header-with_default (codes "Content-Type") content_type name headers

pub find_header-headers_with :
    (opts : PrepareOptions) (input : ExecuteInput) (body : EncodedBody) (name : Text)
    → find_header (headers_with opts input body) name ≡ expected_header opts input body name
find_header-headers_with opts input body name =
    let ua = find_header-with_default (codes "User-Agent") opts.default_agent name input.headers in
    let accept =
      find_header-with_default (codes "Accept") opts.default_accept name
        (with_default (codes "User-Agent") opts.default_agent input.headers) in
    let defaults = accept ∙ ap (header_or (codes "Accept") opts.default_accept name) ua in
    with_content_type (is_nil body.bytes) body.content_type name (default_headers opts input)
    ∙ ap
        (header_or (codes "Content-Type") (if is_nil body.bytes then [] else body.content_type)
          name)
        defaults
