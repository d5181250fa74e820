-- ===== src/Registry/Examples.antt =====
-- Tests of the registry, and its theorem where a name is registered twice.
use mcp_swagger.Prelude.{◌≡◌, refl, Option, none, some, List, [], ◌∷◌}
use mcp_swagger.Text.{Text, codes, text_eq}
use mcp_swagger.Dict.{get, put, remove}
use mcp_swagger.Registry.Sorting.{text_ltb, insert, sort_texts}
use mcp_swagger.Registry.{register, register_all, new_registry, list_tools}

abbrev pair_name : Text × Text → Text
pair_name t = t.0

abbrev tools : List (Option (Text × Text))
tools =
    some (codes "echo", codes "old")
    ∷ none
    ∷ some (codes "a", [])
    ∷ some (codes "echo", codes "new")
    ∷ []

listed_in_order :
    list_tools (new_registry pair_name tools)
    ≡ some (codes "a", []) ∷ some (codes "echo", codes "new") ∷ []
unfolding list_tools sort_texts insert text_ltb new_registry register_all register get put remove
    text_eq
listed_in_order = refl
