-- ===== src/Prepare/Filled.antt =====
-- Which placeholders of a template have a value where expandPathTemplate reports none as missing.
use mcp_swagger.Prelude.{
  ◌≡◌, ◌≢◌, refl, ap, sym, ◌∙◌, ◌⊎◌, inl, inr, Bool, true, false, Option, none, some, List, [], ◌∷◌,
  All, arith, if◌then◌else◌,
}
use mcp_swagger.Text.{Text, trim_space}
use mcp_swagger.Text.Laws.{trim_space_idem}
use mcp_swagger.Dict.{Dict, get}
use mcp_swagger.Contract.Checks.{is_blank}
use mcp_swagger.Contract.Schema.{unique_strings}
use mcp_swagger.Prepare.Template.{
  Piece, literal, placeholder, pieces_from, value_at, missing_names, expand_path_template,
}
use mcp_swagger.Prepare.Segments.{IsBlank, unique_from_nil}

-- A placeholder whose name is not blank has a parameter of that name that is not blank.
abbrev pub HasValue : Dict Text → Piece → Type 0
HasValue params (literal t) = Unit {0}
HasValue params (placeholder name) =
    (trim_space name ≡ [])
    ⊎ ((v : Text) × (get (trim_space name) params ≡ some v) × (trim_space v ≢ []))

given_value :
    (o : Option Text) → is_blank o ≡ false → (v : Text) × (o ≡ some v) × (trim_space v ≢ [])
given_value none h = ground arith
given_value (some v) h = (v, refl, λ blank. ground arith)

module _ (params : Dict Text) (name : Text) (names : List Text) (Rest : Type 0) where
  placeholder-HasValue :
      (blank : Bool)
      → is_blank (get (trim_space name) params) ≡ blank
      → (All IsBlank names → Rest)
      → All IsBlank (if blank then trim_space name ∷ names else names)
      → HasValue params (placeholder name) × Rest
  placeholder-HasValue true same rest h = (inl (sym (trim_space_idem name) ∙ h.0), rest h.1)
  placeholder-HasValue false same rest h =
      (inr (given_value (get (trim_space name) params) same), rest h)

All-HasValue :
    (pieces : List Piece) (params : Dict Text)
    → All IsBlank (missing_names pieces params)
    → All (HasValue params) pieces
unfolding missing_names
All-HasValue [] params = λ h. tt
All-HasValue (literal t ∷ pieces) params = λ h. (tt, All-HasValue pieces params h)
All-HasValue (placeholder name ∷ pieces) params =
    placeholder-HasValue params name (missing_names pieces params) (All (HasValue params) pieces)
      (is_blank (value_at params name)) refl (All-HasValue pieces params)

pub expanded-HasValue :
    (template : Text) (params : Dict Text) (path : Text)
    → expand_path_template template params ≡ (path, [])
    → All (HasValue params) (pieces_from none template)
unfolding expand_path_template unique_strings
expanded-HasValue template params path h =
    let pieces = pieces_from none template in
    All-HasValue pieces params (unique_from_nil (missing_names pieces params) (ap (λ r. r.1) h))
