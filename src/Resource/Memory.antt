-- ===== src/Resource/Memory.antt =====
-- memory_store.go: items by identifier, with their URI as a second name. The loop of Get over the
-- map, whose order Go leaves open, is modelled in the order of the association list.
use mcp_swagger.Prelude.{
  ◌≡◌, ◌⊎◌, inl, inr, Option, none, some, List, [], ◌∷◌, arith, Result, ok, err, if◌then◌else◌,
}
use mcp_swagger.Text.{Text, codes, is_empty, text_eq}
use mcp_swagger.Text.Laws.{text_eq_iff}
use mcp_swagger.Dict.{Dict, get, put, get-put}
use mcp_swagger.Resource.Store.{Item, Failure, not_found}

pub record MemoryStore : Type 0 where
  pub items : Dict Item

-- The item under its identifier, which is the URI where it has none.
unfoldable pub identified : Item → Item
identified item =
    let d = item.descriptor in
    if is_empty d.id then record item { descriptor = record d { id = d.uri } } else item

unfoldable pub add : Item → MemoryStore → MemoryStore
unfolding identified
add item s =
    let named = identified item in record s { items = put named.descriptor.id named s.items }

abbrev status_item : Item
status_item = record {
  descriptor = record {
    id = codes "status";
    name = codes "status";
    description = codes "Server status resource";
    uri = codes "resource://status";
    uri_template = [];
    mime_type = codes "text/plain";
  };
  text = codes "ok";
}

unfoldable pub add_all : List Item → MemoryStore → MemoryStore
unfolding add
add_all [] s = s
add_all (item ∷ items) s = add_all items (add item s)

unfoldable pub new_memory_store : List Item → MemoryStore
unfolding add_all
new_memory_store [] = add_all (status_item ∷ []) (record { items = [] })
new_memory_store (item ∷ items) = add_all (item ∷ items) (record { items = [] })

-- The loop of Get over the candidates.
unfoldable pub find_uri : Text → Dict Item → Result Failure Item
find_uri id [] = err not_found
find_uri id ((key, item) ∷ items) =
    let rest = find_uri id items in if text_eq item.descriptor.uri id then ok item else rest

abbrev found_or_uri : Text → Dict Item → Option Item → Result Failure Item
found_or_uri id items none = find_uri id items
found_or_uri id items (some item) = ok item

-- Get
unfoldable pub find : MemoryStore → Text → Result Failure Item
unfolding find_uri
find s id = found_or_uri id s.items (get id s.items)

-- Every item stands under its identifier.
abbrev pub IsFiled : MemoryStore → Type 0
IsFiled s = (key : Text) (item : Item) → get key s.items ≡ some item → item.descriptor.id ≡ key

IsFiled-add : (item : Item) (s : MemoryStore) → IsFiled s → IsFiled (add item s)
unfolding add
IsFiled-add item s filed key found h =
    let named = identified item in
    let put_is = get-put named.descriptor.id key named s.items in
    let old = filed key found in ground (arith, put_is, text_eq_iff named.descriptor.id key)

IsFiled-add_all : (items : List Item) (s : MemoryStore) → IsFiled s → IsFiled (add_all items s)
unfolding add_all
IsFiled-add_all [] s filed = filed
IsFiled-add_all (item ∷ items) s filed =
    IsFiled-add_all items (add item s) (IsFiled-add item s filed)

IsFiled-empty : IsFiled (record { items = [] })
unfolding get
IsFiled-empty key item h = ground arith

IsFiled-new_memory_store : (items : List Item) → IsFiled (new_memory_store items)
unfolding new_memory_store
IsFiled-new_memory_store [] = IsFiled-add_all (status_item ∷ []) _ IsFiled-empty
IsFiled-new_memory_store (item ∷ items) = IsFiled-add_all (item ∷ items) _ IsFiled-empty

find_uri_sound :
    (id : Text) (item : Item) (items : Dict Item)
    → find_uri id items ≡ ok item
    → item.descriptor.uri ≡ id
unfolding find_uri
find_uri_sound id item [] h = ground arith
find_uri_sound id item ((key, i) ∷ items) h =
    ground (arith, text_eq_iff i.descriptor.uri id, find_uri_sound id item items)

found_or_uri_sound :
    (id : Text) (item : Item) (items : Dict Item) (o : Option Item)
    → found_or_uri id items o ≡ ok item
    → (o ≡ some item) ⊎ (item.descriptor.uri ≡ id)
found_or_uri_sound id item items none h = inr (find_uri_sound id item items h)
found_or_uri_sound id item items (some i) h = inl (ground arith)

-- From a new memory store with any items, after adding any items, an item that is found has the
-- identifier or the URI that was asked for.
pub find_sound :
    (made added : List Item) (id : Text) (item : Item)
    → find (add_all added (new_memory_store made)) id ≡ ok item
    → (item.descriptor.id ≡ id) ⊎ (item.descriptor.uri ≡ id)
unfolding find
find_sound made added id item h =
    let s = add_all added (new_memory_store made) in
    let filed = IsFiled-add_all added (new_memory_store made) (IsFiled-new_memory_store made) in
    ground (arith, found_or_uri_sound id item s.items (get id s.items) h, filed id item)
