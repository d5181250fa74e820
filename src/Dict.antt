-- ===== src/Dict.antt =====
-- Go maps with string keys, as association lists. A loop over a map runs in the order of the
-- entries, where Go leaves the order open.
use mcp_swagger.Prelude.{◌≡◌, refl, Bool, Option, none, some, List, [], ◌∷◌, arith, if◌then◌else◌}
use mcp_swagger.Text.{Text, text_eq}
use mcp_swagger.Text.Laws.{text_eq_iff}

abbrev pub Dict {ℓ} : Type ℓ → Type ℓ
Dict V = List (Text × V)

module _ {ℓ} {V : Type ℓ} where
  -- v, ok := d[k]
  unfoldable pub get : Text → Dict V → Option V
  get k [] = none
  get k ((j, v) ∷ d) = if text_eq j k then some v else get k d

  -- delete(d, k)
  unfoldable pub remove : Text → Dict V → Dict V
  remove k [] = []
  remove k ((j, v) ∷ d) = let rest = remove k d in if text_eq j k then rest else (j, v) ∷ rest

  -- d[k] = v
  unfoldable pub put : Text → V → Dict V → Dict V
  unfolding remove
  put k v d = (k, v) ∷ remove k d

  pub get-remove :
      (k j : Text) (d : Dict V) → get j (remove k d) ≡ (if text_eq k j then none else get j d)
  unfolding get remove
  get-remove k j [] = ground arith
  get-remove k j ((i, v) ∷ d) =
      ground (arith, get-remove k j d, text_eq_iff i k, text_eq_iff i j, text_eq_iff k j)

  pub get-put :
      (k j : Text) (v : V) (d : Dict V)
      → get j (put k v d) ≡ (if text_eq k j then some v else get j d)
  unfolding get put
  get-put k j v d = ground (arith, get-remove k j d)

module _ {ℓ} {V : Type ℓ} where
  -- for k, v := range d { if p(k, v) { delete(d, k) } }
  unfoldable pub remove_if : (Text → V → Bool) → Dict V → Dict V
  remove_if p [] = []
  remove_if p ((k, v) ∷ d) = let rest = remove_if p d in if p k v then rest else (k, v) ∷ rest

  -- No key stands twice.
  abbrev pub HasUniqueKeys : Dict V → Type ℓ
  HasUniqueKeys [] = Unit
  HasUniqueKeys ((k, v) ∷ d) = (get k d ≡ none) × HasUniqueKeys d

  abbrev pub unless : (V → Bool) → Option V → Option V
  unless p none = none
  unless p (some v) = if p v then none else some v

  pub get-remove_if :
      (p : Text → V → Bool) (j : Text) (d : Dict V)
      → HasUniqueKeys d
      → get j (remove_if p d) ≡ unless (p j) (get j d)
  unfolding get remove_if
  get-remove_if p j [] u = refl
  get-remove_if p j ((k, v) ∷ d) u = ground (arith, get-remove_if p j d u.1, text_eq_iff k j)

  pub remove-HasUniqueKeys : (k : Text) (d : Dict V) → HasUniqueKeys d → HasUniqueKeys (remove k d)
  unfolding remove
  remove-HasUniqueKeys k [] u = u
  remove-HasUniqueKeys k ((j, v) ∷ d) u =
      ground (arith, get-remove k j d, remove-HasUniqueKeys k d u.1)

  pub put-HasUniqueKeys :
      (k : Text) (v : V) (d : Dict V) → HasUniqueKeys d → HasUniqueKeys (put k v d)
  unfolding put
  put-HasUniqueKeys k v d u =
      ground (arith, get-remove k k d, text_eq_iff k k, remove-HasUniqueKeys k d u)

  pub remove_if-HasUniqueKeys :
      (p : Text → V → Bool) (d : Dict V) → HasUniqueKeys d → HasUniqueKeys (remove_if p d)
  unfolding remove_if
  remove_if-HasUniqueKeys p [] u = u
  remove_if-HasUniqueKeys p ((k, v) ∷ d) u =
      ground (arith, get-remove_if p k d u.1, remove_if-HasUniqueKeys p d u.1)

pub ruleset dict_laws = (get-remove, get-put)
