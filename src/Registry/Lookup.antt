-- ===== src/Registry/Lookup.antt =====
-- What the registry answers for a name.
use mcp_swagger.Prelude.{◌≡◌, refl, Option, none, some, List, [], ◌∷◌, if◌then◌else◌}
use mcp_swagger.Text.{Text, text_eq}
use mcp_swagger.Dict.{Dict, get, put, get-put}
use mcp_swagger.Registry.{register, register_all, new_registry}

module _ {T : Type 0} (name_of : T → Text) where
  -- The last tool of the name.
  abbrev pub last_named : Text → List (Option T) → Option T → Option T
  last_named name [] found = found
  last_named name (none ∷ ts) found = last_named name ts found
  last_named name (some t ∷ ts) found =
      last_named name ts (if text_eq (name_of t) name then some t else found)

  get-register_all :
      (name : Text) (ts : List (Option T)) (tools : Dict T)
      → get name (register_all name_of ts tools) ≡ last_named name ts (get name tools)
  unfolding register_all register
  get-register_all name [] tools = refl
  get-register_all name (none ∷ ts) tools = get-register_all name ts tools
  get-register_all name (some t ∷ ts) tools =
      rw (get-register_all name ts (put (name_of t) t tools), get-put (name_of t) name t tools) refl

  -- A new registry answers for a name with the last of its tools that has the name, nil tools left
  -- out, and with none where no tool has it.
  pub get-new_registry :
      (name : Text) (ts : List (Option T))
      → get name (new_registry name_of ts) ≡ last_named name ts none
  unfolding new_registry get
  get-new_registry name ts = get-register_all name ts []
