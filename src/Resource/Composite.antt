-- ===== src/Resource/Composite.antt =====
-- composite_store.go: several stores as one. A nil store is `none`.
use mcp_swagger.Prelude.{
  ◌≡◌, refl, ◌↔◌, ◌⊎◌, inl, inr, ◌||◌, Bool, false, Option, none, some, List, [], ◌∷◌, ◌++◌, arith,
  Result, ok, err, ◌>>=◌, any, count, bit, count-append, not, ◌&&◌, if◌then◌else◌,
}
use mcp_swagger.Text.{Text, is_empty, text_eq, member}
use mcp_swagger.Text.Laws.{text_eq_iff}
use mcp_swagger.Resource.Store.{Descriptor, Item, Failure, not_found, failure, Store}

unfoldable pub new_composite_store : List (Option Store) → List Store
new_composite_store [] = []
new_composite_store (none ∷ stores) = new_composite_store stores
new_composite_store (some store ∷ stores) = store ∷ new_composite_store stores

-- The key by which List tells descriptors apart.
unfoldable pub descriptor_key : Descriptor → Text
descriptor_key d =
    let key = if is_empty d.uri_template then d.uri else d.uri_template in
    if is_empty key then d.id else key

-- The body of the inner loop of List: the keys seen and the output, in order.
unfoldable pub add_one : Descriptor → List Text × List Descriptor → List Text × List Descriptor
add_one d (seen, out) =
    let key = descriptor_key d in
    if is_empty key || member key seen then (seen, out) else (key ∷ seen, out ++ d ∷ [])

unfoldable pub add_new : List Descriptor → List Text × List Descriptor → List Text × List Descriptor
unfolding add_one
add_new [] acc = acc
add_new (d ∷ ds) acc = add_new ds (add_one d acc)

unfoldable pub list_from :
    List Store → List Text × List Descriptor → Result Failure (List Descriptor)
list_from [] acc = ok acc.1
list_from (store ∷ stores) acc = store.list_all >>= λ ds. list_from stores (add_new ds acc)

unfoldable pub list_all_stores : List Store → Result Failure (List Descriptor)
unfolding list_from add_new
list_all_stores stores = list_from stores ([], [])

abbrev found_or : Result Failure Item → Result Failure Item → Result Failure Item
found_or (ok item) rest = ok item
found_or (err not_found) rest = rest
found_or (err failure) rest = err failure

-- Get
unfoldable pub find_in_stores : List Store → Text → Result Failure Item
find_in_stores [] id = err not_found
find_in_stores (store ∷ stores) id = found_or (store.find id) (find_in_stores stores id)

abbrev pub has_key : Text → Descriptor → Bool
has_key key d = text_eq (descriptor_key d) key

abbrev pub lists_key : Text → Result Failure (List Descriptor) → Bool
lists_key key (ok ds) = any (has_key key) ds
lists_key key (err e) = false

-- Some store lists a descriptor with the key.
abbrev pub offers : Text → List Store → Bool
offers key [] = false
offers key (store ∷ stores) = lists_key key store.list_all || offers key stores

abbrev IsCounted : Text → List Text × List Descriptor → Type 0
IsCounted key acc = count (has_key key) acc.1 ≡ bit (member key acc.0)

module _ (key : Text) where
  add_one_counts :
      (d : Descriptor) (acc : List Text × List Descriptor)
      → IsCounted key acc
      → IsCounted key (add_one d acc)
        × (member key (add_one d acc).0 ≡ (member key acc.0 || not (is_empty key) && has_key key d))
  unfolding add_one member any count
  add_one_counts d (seen, out) h =
      let tail = count-append (has_key key) out (d ∷ []) in
      ground (arith, tail, text_eq_iff (descriptor_key d) key, text_eq_iff key (descriptor_key d))

  add_new_counts :
      (ds : List Descriptor) (acc : List Text × List Descriptor)
      → IsCounted key acc
      → IsCounted key (add_new ds acc)
        × (member key (add_new ds acc).0
            ≡ (member key acc.0 || not (is_empty key) && any (has_key key) ds))
  unfolding add_new any
  add_new_counts [] acc h = (h, ground arith)
  add_new_counts (d ∷ ds) acc h =
      let one = add_one_counts d acc h in
      let rest = add_new_counts ds (add_one d acc) one.0 in (rest.0, ground (arith, one.1, rest.1))

  abbrev AreCounted : List Store → List Text × List Descriptor → Type 0
  AreCounted stores acc =
      (out : List Descriptor)
      → IsCounted key acc
      → list_from stores acc ≡ ok out
      → count (has_key key) out ≡ bit (member key acc.0 || not (is_empty key) && offers key stores)

  list_next_counts :
      (stores : List Store) (r : Result Failure (List Descriptor))
      (acc : List Text × List Descriptor) (out : List Descriptor)
      → ((ds : List Descriptor) → AreCounted stores (add_new ds acc))
      → IsCounted key acc
      → (r >>= λ ds. list_from stores (add_new ds acc)) ≡ ok out
      → count (has_key key) out
        ≡ bit (member key acc.0 || not (is_empty key) && (lists_key key r || offers key stores))
  list_next_counts stores (err e) acc out rest h done = ground arith
  list_next_counts stores (ok ds) acc out rest h done =
      let new = add_new_counts ds acc h in
      let all = rest ds out new.0 done in ground (arith, new.1, all)

  list_from_counts :
      (stores : List Store) (acc : List Text × List Descriptor) → AreCounted stores acc
  unfolding list_from
  list_from_counts [] acc out h e = ground arith
  list_from_counts (store ∷ stores) acc out h e =
      list_next_counts stores store.list_all acc out
        (λ ds. list_from_counts stores (add_new ds acc)) h e

-- If the list of a composite store succeeds, it has one descriptor for each key that is not empty
-- and that one of its stores lists, and none for any other key.
pub list_has_each_key_once :
    (stores : List Store) (out : List Descriptor) (key : Text)
    → list_all_stores stores ≡ ok out
    → count (has_key key) out ≡ bit (not (is_empty key) && offers key stores)
unfolding list_all_stores count member any
list_has_each_key_once stores out key h = list_from_counts key stores ([], []) out refl h

-- The first store that does not answer "not found" for the identifier, and its answer.
abbrev pub IsFirstAnswer : Text → Item → List Store → Type 0
IsFirstAnswer id item [] = ⊥
IsFirstAnswer id item (store ∷ stores) =
    (store.find id ≡ ok item) ⊎ ((store.find id ≡ err not_found) × IsFirstAnswer id item stores)

found_or_ok :
    (r rest : Result Failure Item) (item : Item)
    → (found_or r rest ≡ ok item) ↔ ((r ≡ ok item) ⊎ ((r ≡ err not_found) × (rest ≡ ok item)))
found_or_ok (ok i) rest item = (λ h. inl h, λ h. ground arith)
found_or_ok (err not_found) rest item = (λ h. inr (refl, h), λ h. ground arith)
found_or_ok (err failure) rest item = (λ h. inl h, λ h. ground arith)

-- A composite store finds an item exactly when it is the answer of the first store that does not
-- answer "not found".
pub find-IsFirstAnswer :
    (id : Text) (item : Item) (stores : List Store)
    → (find_in_stores stores id ≡ ok item) ↔ IsFirstAnswer id item stores
unfolding find_in_stores
find-IsFirstAnswer id item [] = (λ h. ground arith, λ h. absurd h)
find-IsFirstAnswer id item (store ∷ stores) =
    let rest = find-IsFirstAnswer id item stores in
    let here = found_or_ok (store.find id) (find_in_stores stores id) item in
    ground (arith, rest, here)
