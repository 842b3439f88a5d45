-- ===== src/Db/Tables.antt =====
-- Tables as lists of rows: what a selection answers after an insert, an update or a deletion.
use lamp_light.Base.{
  ◌≡◌, ◌≢◌, refl, sym, ap, ◌&&◌, inl, inr, Bool, true, false, not, none, some, List, [], ◌∷◌, ◌++◌,
  map, find, any, filter, All, if◌then◌else◌, arith, Bool-cases,
}
use lamp_light.Base.Text.{Text, ◌==◌, eq_iff}
use lamp_light.Db.Queries.{Keyed}

module _ {A : Type 0} where
  pub filter-append_out :
      (p : A → Bool) (xs : List A) (x : A) → p x ≡ false → filter p (xs ++ x ∷ []) ≡ filter p xs
  filter-append_out p [] x h = rw h refl
  filter-append_out p (y ∷ xs) x h = ground (arith, filter-append_out p xs x h)

  pub filter-filter_out :
      (p q : A → Bool)
      → ((x : A) → p x ≡ true → q x ≡ true)
      → (xs : List A) → filter p (filter q xs) ≡ filter p xs
  filter-filter_out p q imp [] = refl
  filter-filter_out p q imp (x ∷ xs) = ground (arith, imp x, filter-filter_out p q imp xs)

  pub All-filter {κ} :
      (P : A → Type κ) (q : A → Bool) (xs : List A) → All P xs → All P (filter q xs)
  All-filter P q [] h = tt
  All-filter P q (x ∷ xs) (h, k) = elim (Bool-cases (q x)) [
    | inl kept ↦ rw kept (h, All-filter P q xs k)
    | inr gone ↦ rw gone (All-filter P q xs k)
  ]

  pub filter-Keyed :
      (same : A → A → Bool) (q : A → Bool) (xs : List A) → Keyed same xs → Keyed same (filter q xs)
  filter-Keyed same q [] k = tt
  filter-Keyed same q (x ∷ xs) (n, k) = elim (Bool-cases (q x)) [
    | inl kept ↦ rw kept (All-filter (λ y. same x y ≡ false) q xs n, filter-Keyed same q xs k)
    | inr gone ↦ rw gone (filter-Keyed same q xs k)
  ]

  pub All-append_one {κ} :
      (P : A → Type κ) (xs : List A) (x : A) → All P xs → P x → All P (xs ++ x ∷ [])
  All-append_one P [] x h p = (p, tt)
  All-append_one P (y ∷ xs) x (h, k) p = (h, All-append_one P xs x k p)

  pub append-Keyed :
      (same : A → A → Bool) (xs : List A) (x : A)
      → Keyed same xs
      → All (λ y. same y x ≡ false) xs
      → Keyed same (xs ++ x ∷ [])
  append-Keyed same [] x k n = (tt, tt)
  append-Keyed same (y ∷ xs) x (h, k) (p, n) =
      (All-append_one (λ z. same y z ≡ false) xs x h p, append-Keyed same xs x k n)

  pub any-none : (p : A → Bool) (xs : List A) → any p xs ≡ false → All (λ y. p y ≡ false) xs
  any-none p [] h = tt
  any-none p (x ∷ xs) h = (ground arith, any-none p xs (ground arith))

pub find-none-filter :
    {A : Type 0} (p : A → Bool) (xs : List A) → find p xs ≡ none → filter (λ x. not (p x)) xs ≡ xs
find-none-filter p [] h = refl
find-none-filter p (x ∷ xs) h = ground (arith, find-none-filter p xs)

pub none_found : {A : Type 0} (p : A → Bool) (xs : List A) → any p xs ≡ false → find p xs ≡ none
none_found p [] h = refl
none_found p (x ∷ xs) h = ground (arith, none_found p xs)

pub other : (a b : Text) → a ≢ b → (b == a) ≡ false
other a b n = elim (Bool-cases (b == a)) [
  | inl same ↦ absurd (n (sym ((eq_iff b a).0 same)))
  | inr no_match ↦ no_match
]

module _ {A : Type 0} where
  -- `update … set … where`
  abbrev pub update : (A → Bool) → (A → A) → List A → List A
  update p f xs = map (λ x. if p x then f x else x) xs

  -- `delete … where`
  abbrev pub remove_rows : (A → Bool) → List A → List A
  remove_rows p xs = filter (λ x. not (p x)) xs

  pub any-update_out :
      (p q : A → Bool) (f : A → A)
      → ((x : A) → p x ≡ true → q (f x) ≡ false)
      → ((x : A) → q x ≡ true → p x ≡ true)
      → (xs : List A) → any q (update p f xs) ≡ false
  any-update_out p q f gone all [] = refl
  any-update_out p q f gone all (x ∷ xs) =
      ground (arith, gone x, all x, any-update_out p q f gone all xs)

  -- No new row fits where a row that fits after the change fitted before.
  pub any-update_stays :
      (p q : A → Bool) (f : A → A)
      → ((x : A) → q (f x) ≡ true → q x ≡ true)
      → (xs : List A) → any q xs ≡ false
      → any q (update p f xs) ≡ false
  any-update_stays p q f back [] h = refl
  any-update_stays p q f back (x ∷ xs) h = ground (arith, back x, any-update_stays p q f back xs)

  pub any-filter_stays :
      (p q : A → Bool) (xs : List A) → any q xs ≡ false → any q (filter p xs) ≡ false
  any-filter_stays p q [] h = refl
  any-filter_stays p q (x ∷ xs) h = ground (arith, any-filter_stays p q xs)

  pub find-append_none :
      (p : A → Bool) (xs ys : List A) → find p xs ≡ none → find p (xs ++ ys) ≡ find p ys
  find-append_none p [] ys h = refl
  find-append_none p (x ∷ xs) ys h = ground (arith, find-append_none p xs ys)

  pub any-remove_rows : (p : A → Bool) (xs : List A) → any p (remove_rows p xs) ≡ false
  any-remove_rows p [] = refl
  any-remove_rows p (x ∷ xs) = ground (arith, any-remove_rows p xs)

  pub All-mono {κ μ} :
      (P : A → Type κ) (Q : A → Type μ)
      → ((x : A) → P x → Q x)
      → (xs : List A) → All P xs
      → All Q xs
  All-mono P Q f [] h = tt
  All-mono P Q f (x ∷ xs) (h, k) = (f x h, All-mono P Q f xs k)

  pub All-map {κ} :
      (P : A → Type κ) (f : A → A) (xs : List A) → All (λ x. P (f x)) xs → All P (map f xs)
  All-map P f [] h = tt
  All-map P f (x ∷ xs) (h, k) = (h, All-map P f xs k)

  pub map-Keyed :
      (same : A → A → Bool) (f : A → A)
      → ((x y : A) → same x y ≡ false → same (f x) (f y) ≡ false)
      → (xs : List A) → Keyed same xs
      → Keyed same (map f xs)
  map-Keyed same f apart [] k = tt
  map-Keyed same f apart (x ∷ xs) (n, k) = (
    All-map (λ y. same (f x) y ≡ false) f xs
        (All-mono (λ y. same x y ≡ false) (λ y. same (f x) (f y) ≡ false) (apart x) xs n),
    map-Keyed same f apart xs k,
  )

  pub any_stronger :
      (p q : A → Bool)
      → ((x : A) → p x ≡ true → q x ≡ true)
      → (xs : List A) → any q xs ≡ false
      → any p xs ≡ false
  any_stronger p q imp [] h = refl
  any_stronger p q imp (x ∷ xs) h = ground (arith, imp x, any_stronger p q imp xs)

  -- A change that lets go of a row that it reaches, where the others that fit then fitted before.
  pub any-update_moves :
      (p q q' : A → Bool) (f : A → A)
      → ((x : A) → p x ≡ true → q' (f x) ≡ false)
      → ((x : A) → p x ≡ false → q x ≡ false → q' x ≡ false)
      → (xs : List A) → any q xs ≡ false
      → any q' (update p f xs) ≡ false
  any-update_moves p q q' f gone kept [] h = refl
  any-update_moves p q q' f gone kept (x ∷ xs) h =
      ground (arith, gone x, kept x, any-update_moves p q q' f gone kept xs)

  pub update-none : (p : A → Bool) (f : A → A) (xs : List A) → find p xs ≡ none → update p f xs ≡ xs
  update-none p f [] h = refl
  update-none p f (x ∷ xs) h = ground (arith, update-none p f xs)

  pub find-any_out :
      (p q : A → Bool) (xs : List A) (x : A) → any q xs ≡ false → find p xs ≡ some x → q x ≡ false
  find-any_out p q [] x h e = cc
  find-any_out p q (y ∷ xs) x h e = ground (arith, find-any_out p q xs x)

  pub filter-none : (p : A → Bool) (xs : List A) → any p xs ≡ false → filter p xs ≡ []
  filter-none p [] h = refl
  filter-none p (x ∷ xs) h = ground (arith, filter-none p xs)

  pub any-filter_and :
      (p q : A → Bool) (xs : List A) → any p (filter q xs) ≡ any (λ x. q x && p x) xs
  any-filter_and p q [] = refl
  any-filter_and p q (x ∷ xs) = ground (arith, any-filter_and p q xs)

  pub All-update {κ} :
      (P : A → Type κ) (p : A → Bool) (f : A → A)
      → ((x : A) → P x → P (f x))
      → (xs : List A) → All P xs
      → All P (update p f xs)
  All-update P p f keep [] h = tt
  All-update P p f keep (x ∷ xs) (h, k) = elim (Bool-cases (p x)) [
    | inl hit ↦ rw hit (keep x h, All-update P p f keep xs k)
    | inr miss ↦ rw miss (h, All-update P p f keep xs k)
  ]

  -- A new row is the one that an update by its key changes.
  pub find-update-append :
      (p : A → Bool) (f : A → A) (xs : List A) (x : A)
      → any p xs ≡ false
      → p x ≡ true
      → p (f x) ≡ true
      → find p (update p f (xs ++ x ∷ [])) ≡ some (f x)
  find-update-append p f [] x h k l = rw k (rw l refl)
  find-update-append p f (y ∷ xs) x h k l = ground (arith, find-update-append p f xs x)

  -- A change that keeps the key keeps which row is found.
  pub find-update :
      (p : A → Bool) (f : A → A) (xs : List A) (x : A)
      → ((y : A) → p y ≡ true → p (f y) ≡ true)
      → find p xs ≡ some x
      → find p (update p f xs) ≡ some (f x)
  find-update p f [] x keep e = cc
  find-update p f (y ∷ xs) x keep e = elim (Bool-cases (p y)) [
    | inl hit ↦
        let same : y ≡ x = ground arith in rw hit (rw (keep y hit) (ap (λ z. some (f z)) same))
    | inr miss ↦ rw miss (rw miss (find-update p f xs x keep (ground arith)))
  ]
