-- ===== src/Db/Queries.antt =====
-- The shapes of query that the repositories use, over a table as a list of rows: a selection with
-- `limit 1` is `find`, `exists` is `any`, an inner join is `flat_map`.
use lamp_light.Base.{
  ◌≡◌, refl, sym, ap, ◌∙◌, Bool, true, false, some, List, [], ◌∷◌, ◌++◌, if◌then◌else◌, find, any,
  filter, All, All-mem, Memᴰ, arith, Bool-cases, inl, inr, ◌||◌,
}

module _ {ℓ} {A : Type ℓ} where
  abbrev pub flat_map {κ} : {B : Type κ} → (A → List B) → List A → List B
  flat_map f [] = []
  flat_map f (x ∷ xs) = f x ++ flat_map f xs

  -- Rows that no selection takes can be left out of the table beforehand.
  pub find-filter :
      (p q : A → Bool)
      → ((x : A) → p x ≡ true → q x ≡ true)
      → (xs : List A) → find p (filter q xs) ≡ find p xs
  find-filter p q imp [] = refl
  find-filter p q imp (x ∷ xs) = ground (arith, imp x, find-filter p q imp xs)

  pub any-filter :
      (p q : A → Bool)
      → ((x : A) → p x ≡ true → q x ≡ true)
      → (xs : List A) → any p (filter q xs) ≡ any p xs
  any-filter p q imp [] = refl
  any-filter p q imp (x ∷ xs) = ground (arith, imp x, any-filter p q imp xs)

  pub filter-filter :
      (p q : A → Bool)
      → ((x : A) → p x ≡ true → q x ≡ true)
      → (xs : List A) → filter p (filter q xs) ≡ filter p xs
  filter-filter p q imp [] = refl
  filter-filter p q imp (x ∷ xs) = ground (arith, imp x, filter-filter p q imp xs)

  pub flat_map-filter {κ} :
      {B : Type κ} (f : A → List B) (q : A → Bool)
      → ((x : A) → q x ≡ false → f x ≡ [])
      → (xs : List A) → flat_map f (filter q xs) ≡ flat_map f xs
  flat_map-filter f q no_row [] = refl
  flat_map-filter f q no_row (x ∷ xs) = elim (Bool-cases (q x)) [
    | inl kept ↦ rw kept (ap (λ r. f x ++ r) (flat_map-filter f q no_row xs))
    | inr left_out ↦ rw (left_out, no_row x left_out) (flat_map-filter f q no_row xs)
  ]

  -- A table that holds a fitting row has a first one.
  pub find_complete :
      (p : A → Bool) (xs : List A) (x : A)
      → Memᴰ x xs
      → p x ≡ true
      → (y : A) × (find p xs ≡ some y) × Memᴰ y xs × (p y ≡ true)
  find_complete p [] x m h = elim m [ ]
  find_complete p (z ∷ xs) x (Memᴰ.head e) h =
      let fits : p z ≡ true = ap p (sym e) ∙ h in (z, rw fits refl, Memᴰ.head refl, fits)
  find_complete p (z ∷ xs) x (Memᴰ.tail m) h = elim (Bool-cases (p z)) [
    | inl fits ↦ (z, rw fits refl, Memᴰ.head refl, fits)
    | inr other ↦
        let (y, found, member, good) = find_complete p xs x m h in
        (y, rw other found, Memᴰ.tail member, good)
  ]

  pub any_sound :
      (p : A → Bool) (xs : List A) → any p xs ≡ true → (x : A) × Memᴰ x xs × (p x ≡ true)
  any_sound p [] h = cc
  any_sound p (x ∷ xs) h = elim (Bool-cases (p x)) [
    | inl good ↦ (x, Memᴰ.head refl, good)
    | inr bad ↦
        let later : any p xs ≡ true = ground arith in
        let (y, m, good) = any_sound p xs later in (y, Memᴰ.tail m, good)
  ]

  pub any_complete : (p : A → Bool) (xs : List A) (x : A) → Memᴰ x xs → p x ≡ true → any p xs ≡ true
  any_complete p [] x m h = elim m [ ]
  any_complete p (z ∷ xs) x (Memᴰ.head e) h =
      let fits : p z ≡ true = ap p (sym e) ∙ h in rw fits refl
  any_complete p (z ∷ xs) x (Memᴰ.tail m) h = ground (arith, any_complete p xs x m h)

  -- A unique key: no two rows that `same` relates.
  abbrev pub Keyed : (A → A → Bool) → List A → Type ℓ
  Keyed same [] = Unit
  Keyed same (x ∷ xs) = All (λ y. same x y ≡ false) xs × Keyed same xs

-- `order by`: a stable sort, where `le` says that the first row may stand before the second.
module _ {ℓ} {A : Type ℓ} (le : A → A → Bool) where
  abbrev pub insert_row : A → List A → List A
  insert_row x [] = x ∷ []
  insert_row x (y ∷ ys) = if le x y then x ∷ y ∷ ys else y ∷ insert_row x ys

  abbrev pub order_by : List A → List A
  order_by [] = []
  order_by (x ∷ xs) = insert_row x (order_by xs)

  any-insert_row :
      (p : A → Bool) (x : A) (ys : List A) → any p (insert_row x ys) ≡ (p x || any p ys)
  any-insert_row p x [] = refl
  any-insert_row p x (y ∷ ys) = ground (arith, any-insert_row p x ys)

  -- A sort keeps what a table holds.
  pub any-order_by : (p : A → Bool) (xs : List A) → any p (order_by xs) ≡ any p xs
  any-order_by p [] = refl
  any-order_by p (x ∷ xs) = ground (arith, any-insert_row p x (order_by xs), any-order_by p xs)

  All-insert_row {κ} :
      (P : A → Type κ) (x : A) (ys : List A) → P x → All P ys → All P (insert_row x ys)
  All-insert_row P x [] h k = (h, tt)
  All-insert_row P x (y ∷ ys) h (p, k) = elim (Bool-cases (le x y)) [
    | inl first ↦ rw first (h, (p, k))
    | inr later ↦ rw later (p, All-insert_row P x ys h k)
  ]

  pub All-order_by {κ} : (P : A → Type κ) (xs : List A) → All P xs → All P (order_by xs)
  All-order_by P [] k = tt
  All-order_by P (x ∷ xs) (h, k) = All-insert_row P x (order_by xs) h (All-order_by P xs k)

-- Where the key is unique, the row that fits is the one that is found.
pub find-Keyed {ℓ} :
    {A : Type ℓ} (same : A → A → Bool) (p : A → Bool) (xs : List A) (x : A)
    → ((y z : A) → p y ≡ true → p z ≡ true → same y z ≡ true)
    → Keyed same xs
    → Memᴰ x xs
    → p x ≡ true
    → find p xs ≡ some x
find-Keyed same p [] x key k m h = elim m [ ]
find-Keyed same p (z ∷ xs) x key k (Memᴰ.head e) h =
    let fits : p z ≡ true = ap p (sym e) ∙ h in rw fits (ap some (sym e))
find-Keyed same p (z ∷ xs) x key k (Memᴰ.tail m) h = elim (Bool-cases (p z)) [
  | inl fits ↦ absurd (cc (key z x fits h, All-mem (λ y. same z y ≡ false) xs k.0 m))
  | inr other ↦ rw other (find-Keyed same p xs x key k.1 m h)
]
