-- ===== src/Cache/Bounds.antt =====
-- ttl-cache.ts: the size cap and the keys of the map, which every operation keeps.
use lamp_light.Base.{
  ℕ, ◌+◌, ◌≤◌, ◌≡◌, Option, none, some, [], ◌∷◌, ◌++◌, leb, length, arith, Bool-cases, Option-cases,
  inl, inr, length-append,
}
use lamp_light.Base.Text.{Text, eq_iff, eq_refl}
use lamp_light.Base.JsMap.{
  JsMap, lookup, insert, remove, Distinct, lookup-remove, insert_new, remove-Distinct,
  append-Distinct, length-remove-le, length-remove, remove_absent,
}
use lamp_light.Cache.{Entry, TtlCache, get, set, evict, delete, or_else}

module _ {ℓ} {V : Type ℓ} where
  pub record IsValid (c : TtlCache V) : Type ℓ where
    pub bounded : length c.entries ≤ c.max_entries
    pub distinct : Distinct c.entries

  -- The map of a key written anew: no entry under it but the last.
  abbrev pub rewritten : Text → Entry V → JsMap (Entry V) → JsMap (Entry V)
  rewritten key e m = remove key m ++ (key, e) ∷ []

  gone : (key : Text) (m : JsMap (Entry V)) → lookup key (remove key m) ≡ none
  gone key m = ground (arith, lookup-remove key key m, eq_refl key)

  pub insert-remove :
      (key : Text) (e : Entry V) (m : JsMap (Entry V))
      → insert key e (remove key m) ≡ rewritten key e m
  insert-remove key e m = insert_new key e (remove key m) (gone key m)

  pub rewritten-Distinct :
      (key : Text) (e : Entry V) (m : JsMap (Entry V)) → Distinct m → Distinct (rewritten key e m)
  rewritten-Distinct key e m d = append-Distinct key e _ (gone key m) (remove-Distinct key m d)

  pub set-rewritten :
      (key : Text) (value : V) (over : Option ℕ) (now : ℕ) (c : TtlCache V)
      → (set key value over now c).entries
        ≡ evict c.max_entries (
            rewritten key
              (record { value = value; expires_at = now + or_else over c.ttl_ms })
              c.entries)
  unfolding set
  set-rewritten key value over now c = elim (Option-cases (lookup key c.entries)) [
    | inl absent ↦ rw (absent, insert_new _ _ _ absent, remove_absent _ _ absent)
    | inr (e, there) ↦ rw (there, insert-remove)
  ]

  pub length-evict-le : (max : ℕ) (m : JsMap (Entry V)) → length (evict max m) ≤ max
  unfolding evict
  length-evict-le max [] = omega arith
  length-evict-le max (e ∷ m) = ground (arith, length-evict-le max m)

  pub lookup-evict :
      (max : ℕ) (key : Text) (m : JsMap (Entry V)) (e : Entry V)
      → Distinct m
      → lookup key (evict max m) ≡ some e
      → lookup key m ≡ some e
  unfolding evict lookup
  lookup-evict max key [] e d h = h
  lookup-evict max key ((j, f) ∷ m) e (n, d) h =
      ground (arith, lookup-evict max key m e d, eq_iff j key)

  evict-none :
      (max : ℕ) (key : Text) (m : JsMap (Entry V))
      → lookup key m ≡ none
      → lookup key (evict max m) ≡ none
  unfolding evict lookup
  evict-none max key [] h = h
  evict-none max key ((j, f) ∷ m) h = ground (arith, evict-none max key m)

  pub evict-Distinct : (max : ℕ) (m : JsMap (Entry V)) → Distinct m → Distinct (evict max m)
  unfolding evict
  evict-Distinct max [] d = d
  evict-Distinct max ((j, f) ∷ m) (n, d) = ground (arith, evict-Distinct max m d)

  length-rewritten-le :
      (key : Text) (e : Entry V) (m : JsMap (Entry V)) (f : Entry V)
      → lookup key m ≡ some f
      → length (rewritten key e m) ≤ length m
  length-rewritten-le key e m f h =
      omega (arith, length-append (remove key m) ((key, e) ∷ []), length-remove key f m h)

  pub get-IsValid : (key : Text) (now : ℕ) (c : TtlCache V) → IsValid c → IsValid (get key now c).1
  unfolding get
  get-IsValid key now c v = elim (Option-cases (lookup key c.entries)) [
    | inl absent ↦ rw (absent, get) v
    | inr (e, there) ↦
        rw (there, get)
          (elim (Bool-cases (leb e.expires_at now)) [
            | inl late ↦ rw late (record {
              bounded = omega (arith, length-remove-le key c.entries, v.bounded);
              distinct = remove-Distinct key _ v.distinct;
            })
            | inr good ↦
                rw (good, insert-remove)
                  (record {
                    bounded = omega (arith, length-rewritten-le key e c.entries e there, v.bounded);
                    distinct = rewritten-Distinct key e _ v.distinct;
                  })
          ])
  ]

  pub set-IsValid :
      (key : Text) (value : V) (over : Option ℕ) (now : ℕ) (c : TtlCache V)
      → IsValid c
      → IsValid (set key value over now c)
  unfolding set
  set-IsValid key value over now c v = record {
    bounded = length-evict-le c.max_entries _;
    distinct =
        rw set-rewritten (evict-Distinct c.max_entries _ (rewritten-Distinct key _ _ v.distinct));
  }

  pub delete-IsValid : (key : Text) (c : TtlCache V) → IsValid c → IsValid (delete key c)
  delete-IsValid key c v = record {
    bounded = omega (arith, length-remove-le key c.entries, v.bounded);
    distinct = remove-Distinct key _ v.distinct;
  }
