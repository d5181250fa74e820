-- ===== src/Resource/Examples.antt =====
-- Tests of the stores of resources, and their theorems at two stores that share a resource.
use mcp_swagger.Prelude.{◌≡◌, refl, none, some, [], ◌∷◌, ok, err, count, bit, not, ◌&&◌}
use mcp_swagger.Text.{codes, is_empty, text_eq, member}
use mcp_swagger.Resource.Store.{Descriptor, Item, not_found, Store}
use mcp_swagger.Dict.{get, put, remove}
use mcp_swagger.Resource.Memory.{identified, add, add_all, new_memory_store, find_uri, find}
use mcp_swagger.Resource.Composite.{
  descriptor_key, add_one, add_new, list_from, list_all_stores, new_composite_store, has_key,
  offers, list_has_each_key_once,
}

abbrev status : Descriptor
status = record {
  id = codes "status";
  name = [];
  description = [];
  uri = codes "resource://status";
  uri_template = [];
  mime_type = [];
}

abbrev docs : Descriptor
docs = record status { id = codes "docs"; uri = codes "docs:readme" }

abbrev status_item : Item
status_item = record { descriptor = status; text = codes "ok" }

abbrev docs_store : Store
docs_store = record { list_all = ok (docs ∷ docs ∷ []); find = λ id. err not_found }

abbrev status_store : Store
status_store = record { list_all = ok (status ∷ docs ∷ []); find = λ id. ok status_item }

nil_stores_are_dropped :
    new_composite_store (none ∷ some status_store ∷ none ∷ []) ≡ status_store ∷ []
unfolding new_composite_store
nil_stores_are_dropped = refl

listed : list_all_stores (docs_store ∷ status_store ∷ []) ≡ ok (docs ∷ status ∷ [])
unfolding list_all_stores list_from add_new add_one descriptor_key text_eq member
listed = refl

list_has_each_key_once_example :
    count (has_key (codes "docs:readme")) (docs ∷ status ∷ [])
    ≡ bit (
        not (is_empty (codes "docs:readme"))
        && offers (codes "docs:readme") (docs_store ∷ status_store ∷ []))
list_has_each_key_once_example =
    list_has_each_key_once (docs_store ∷ status_store ∷ []) (docs ∷ status ∷ [])
      (codes "docs:readme") listed

abbrev full_status : Item
full_status = record status_item {
  descriptor = record status {
    name = codes "status";
    description = codes "Server status resource";
    mime_type = codes "text/plain";
  };
}

abbrev unnamed : Item
unnamed = record { descriptor = record docs { id = [] }; text = codes "readme" }

found_by_uri :
    find (add_all (unnamed ∷ []) (new_memory_store [])) (codes "resource://status") ≡ ok full_status
unfolding find find_uri new_memory_store add_all add identified get put remove text_eq
found_by_uri = refl
