-- ===== src/Registry.antt =====
-- internal/tool/registry.go: the registry of tools. A nil Tool is `none`, and of a tool only the
-- name matters here.
pub mod Sorting
pub mod Lookup
pub mod Examples
use mcp_swagger.Prelude.{Option, none, some, List, [], ◌∷◌, map}
use mcp_swagger.Text.{Text}
use mcp_swagger.Dict.{Dict, get, put}
use mcp_swagger.Registry.Sorting.{sort_texts}

module _ {T : Type 0} (name_of : T → Text) where
  -- Register
  unfoldable pub register : Option T → Dict T → Dict T
  register none tools = tools
  register (some t) tools = put (name_of t) t tools

  unfoldable pub register_all : List (Option T) → Dict T → Dict T
  unfolding register
  register_all [] tools = tools
  register_all (t ∷ ts) tools = register_all ts (register t tools)

  unfoldable pub new_registry : List (Option T) → Dict T
  unfolding register_all
  new_registry ts = register_all ts []

module _ {T : Type 0} where
  abbrev pub names : Dict T → List Text
  names = map (λ entry. entry.0)

  -- List: r.tools[name] of the sorted names.
  unfoldable pub list_tools : Dict T → List (Option T)
  unfolding sort_texts
  list_tools tools = map (λ name. get name tools) (sort_texts (names tools))
