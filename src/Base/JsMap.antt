-- ===== src/Base/JsMap.antt =====
-- JavaScript's `Map` with string keys, as the list of its entries in insertion order.
use lamp_light.Base.Text.{Text, ◌==◌, eq_iff}
use lamp_light.Base.Lists.{length}
use lamp_light.Base.Tests.{if◌then◌else◌}
use Prim.Native.Nat.{◌+◌, ◌≤◌}
use mathlib.Core.Path.{◌≡◌, refl}
use mathlib.Core.Option.{Option, none, some}
use mathlib.Core.List.{List, [], ◌∷◌, ◌++◌}
use native.Mathlib.Omega.{arith}

abbrev pub JsMap {ℓ} : Type ℓ → Type ℓ
JsMap V = List (Text × V)

module _ {ℓ} {V : Type ℓ} where
  -- `m.get(k)`
  unfoldable pub lookup : Text → JsMap V → Option V
  lookup key [] = none
  lookup key ((first, value) ∷ rest) = if first == key then some value else lookup key rest

  -- `m.delete(k)`
  unfoldable pub remove : Text → JsMap V → JsMap V
  remove k [] = []
  remove k ((j, v) ∷ m) = if j == k then remove k m else (j, v) ∷ remove k m

  -- `m.set(k, v)`: a key that is there keeps its place, a new one goes to the end.
  unfoldable pub insert : Text → V → JsMap V → JsMap V
  insert key value [] = (key, value) ∷ []
  insert key value ((first, old) ∷ rest) =
      if first == key then (key, value) ∷ rest else (first, old) ∷ insert key value rest

  -- No key stands twice.
  abbrev pub Distinct : JsMap V → Type ℓ
  Distinct [] = Unit
  Distinct ((k, v) ∷ m) = (lookup k m ≡ none) × Distinct m

  pub lookup-insert :
      (key other : Text) (value : V) (entries : JsMap V)
      → lookup other (insert key value entries)
        ≡ (if key == other then some value else lookup other entries)
  unfolding lookup insert
  lookup-insert key other value [] = refl
  lookup-insert key other value ((first, old) ∷ rest) = ground (
    arith,
    eq_iff key other,
    eq_iff first key,
    eq_iff first other,
    lookup-insert key other value rest,
  )

  pub lookup-remove :
      (k j : Text) (m : JsMap V) → lookup j (remove k m) ≡ (if k == j then none else lookup j m)
  unfolding lookup remove
  lookup-remove k j [] = ground arith
  lookup-remove k j ((i, w) ∷ m) =
      ground (arith, eq_iff k j, eq_iff i k, eq_iff i j, lookup-remove k j m)

  pub lookup-append :
      (k j : Text) (v : V) (m : JsMap V)
      → lookup k m ≡ none
      → lookup j (m ++ (k, v) ∷ []) ≡ (if k == j then some v else lookup j m)
  unfolding lookup
  lookup-append k j v [] h = refl
  lookup-append k j v ((i, w) ∷ m) h =
      ground (arith, eq_iff k j, eq_iff i k, eq_iff i j, lookup-append k j v m)

  -- A new key goes to the end.
  pub insert_new :
      (k : Text) (v : V) (m : JsMap V) → lookup k m ≡ none → insert k v m ≡ m ++ (k, v) ∷ []
  unfolding lookup insert
  insert_new k v [] h = refl
  insert_new k v ((i, w) ∷ m) h = ground (arith, insert_new k v m)

  pub remove-Distinct : (k : Text) (m : JsMap V) → Distinct m → Distinct (remove k m)
  unfolding remove
  remove-Distinct k [] d = tt
  remove-Distinct k ((i, w) ∷ m) (n, d) =
      ground (arith, remove-Distinct k m d, lookup-remove k i m, eq_iff i k)

  pub append-Distinct :
      (k : Text) (v : V) (m : JsMap V)
      → lookup k m ≡ none
      → Distinct m
      → Distinct (m ++ (k, v) ∷ [])
  unfolding lookup
  append-Distinct k v [] h d = (refl, tt)
  append-Distinct k v ((i, w) ∷ m) h (n, d) =
      ground (arith, append-Distinct k v m, lookup-append k i v m, eq_iff i k, eq_iff k i)

  pub length-remove-le : (k : Text) (m : JsMap V) → length (remove k m) ≤ length m
  unfolding remove
  length-remove-le k [] = omega arith
  length-remove-le k ((i, w) ∷ m) = ground (arith, length-remove-le k m)

  -- A key that is there stands once, so deleting it frees one place.
  pub length-remove :
      (k : Text) (v : V) (m : JsMap V) → lookup k m ≡ some v → length (remove k m) + 1 ≤ length m
  unfolding remove lookup
  length-remove k v [] h = cc
  length-remove k v ((i, w) ∷ m) h = ground (arith, length-remove-le k m, length-remove k v m)

  pub remove_absent : (k : Text) (m : JsMap V) → lookup k m ≡ none → remove k m ≡ m
  unfolding remove lookup
  remove_absent k [] h = refl
  remove_absent k ((i, w) ∷ m) h = ground (arith, remove_absent k m)
