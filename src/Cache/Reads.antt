-- ===== src/Cache/Reads.antt =====
-- ttl-cache.ts: what a read answers after a write, and which entry a full cache drops.
use lamp_light.Base.{
  ℕ, ◌+◌, ◌≤◌, ◌<◌, ◌≡◌, refl, ap, Option, none, some, [], ◌∷◌, ◌++◌, ltb, leb, if◌then◌else◌,
  length, arith, Bool-cases, Option-cases, inl, inr, length-append,
}
use lamp_light.Base.Text.{Text, ◌==◌, eq_iff, eq_refl}
use lamp_light.Base.JsMap.{JsMap, lookup, remove, lookup-remove, lookup-append, remove_absent}
use lamp_light.Cache.{Entry, TtlCache, get, set, evict, or_else}
use lamp_light.Cache.Bounds.{rewritten, insert-remove, set-rewritten}

module _ {ℓ} {V : Type ℓ} where
  -- The last entry survives in a cache that may hold one.
  lookup-evict-last :
      (max : ℕ) (key : Text) (e : Entry V) (m : JsMap (Entry V))
      → 0 < max
      → lookup key m ≡ none
      → lookup key (evict max (m ++ (key, e) ∷ [])) ≡ some e
  unfolding evict lookup
  lookup-evict-last max key e [] p h = ground (arith, eq_refl key)
  lookup-evict-last max key e ((j, f) ∷ m) p h =
      ground (arith, lookup-evict-last max key e m p, lookup-append key key e m, eq_refl key)

  evict_fits : (max : ℕ) (m : JsMap (Entry V)) → length m ≤ max → evict max m ≡ m
  unfolding evict
  evict_fits max [] h = refl
  evict_fits max (e ∷ m) h = ground arith

  -- In a cache that may hold an entry, a value that was set is read back before its deadline, and
  -- not from then on; the deadline counts from the write, by the time to live that the write names,
  -- or else by the cache's.
  pub get-set :
      (key : Text) (value : V) (over : Option ℕ) (now later : ℕ) (c : TtlCache V)
      → 0 < c.max_entries
      → (get key later (set key value over now c)).0
        ≡ (if ltb later (now + or_else over c.ttl_ms) then some value else none)
  unfolding get
  get-set key value over now later c p =
      let stored : lookup key (set key value over now c).entries
          ≡ some (record { value = value; expires_at = now + or_else over c.ttl_ms }) =
        rw set-rewritten (
          lookup-evict-last c.max_entries key _ (remove key c.entries) p
            (ground (arith, lookup-remove key key c.entries, eq_refl key))) in
      rw (stored, get) (ground arith)

  -- What an entry is worth at a time.
  abbrev pub live : ℕ → Option (Entry V) → Option V
  live now none = none
  live now (some e) = if leb e.expires_at now then none else some e.value

  abbrev pub unexpired : ℕ → Option (Entry V) → Option (Entry V)
  unexpired now none = none
  unexpired now (some e) = if leb e.expires_at now then none else some e

  pub get-live :
      (key : Text) (now : ℕ) (c : TtlCache V) → (get key now c).0 ≡ live now (lookup key c.entries)
  unfolding get
  get-live key now c = ground arith

  pub lookup-rewritten :
      (key j : Text) (e : Entry V) (m : JsMap (Entry V))
      → lookup j (rewritten key e m) ≡ (if key == j then some e else lookup j m)
  lookup-rewritten key j e m = ground (
    arith,
    lookup-append key j e (remove key m),
    lookup-remove key j m,
    lookup-remove key key m,
    eq_refl key,
  )

  pub lookup-get :
      (key j : Text) (now : ℕ) (c : TtlCache V)
      → lookup j (get key now c).1.entries
        ≡ (if key == j then unexpired now (lookup key c.entries) else lookup j c.entries)
  unfolding get
  lookup-get key j now c = elim (Option-cases (lookup key c.entries)) [
    | inl absent ↦ rw (absent, get) (ground (arith, eq_iff key j))
    | inr (e, there) ↦
        rw (there, get)
          (elim (Bool-cases (leb e.expires_at now)) [
            | inl late ↦ rw late (lookup-remove key j c.entries)
            | inr good ↦ rw (good, insert-remove) (lookup-rewritten key j e c.entries)
          ])
  ]

  -- A read changes nothing that a later read can see: whatever key was read, every key then
  -- answers as it would have without that read, expired entries that were dropped included.
  pub get-get :
      (key j : Text) (now later : ℕ) (c : TtlCache V)
      → now ≤ later
      → (get j later (get key now c).1).0 ≡ (get j later c).0
  get-get key j now later c h =
      rw (get-live, get-live, lookup-get)
        (elim (Option-cases (lookup key c.entries)) [
          | inl absent ↦ rw absent (ground (arith, eq_iff key j))
          | inr (e, there) ↦ rw there (ground (arith, eq_iff key j))
        ])

  evict_one :
      (max : ℕ) (oldest : Text × Entry V) (m : JsMap (Entry V))
      → length m ≡ max
      → evict max (oldest ∷ m) ≡ m
  unfolding evict
  evict_one max oldest m h = ground (arith, evict_fits max m)

  -- A write of a new key into a full cache that may hold an entry drops the first entry, the least
  -- recently used one, and keeps the others in their order.
  pub set_full :
      (key : Text) (value : V) (over : Option ℕ) (now : ℕ) (c : TtlCache V)
      (oldest : Text × Entry V) (others : JsMap (Entry V))
      → c.entries ≡ oldest ∷ others
      → length c.entries ≡ c.max_entries
      → lookup key c.entries ≡ none
      → (set key value over now c).entries
        ≡ others ++ (key, record { value = value; expires_at = now + or_else over c.ttl_ms }) ∷ []
  set_full key value over now c oldest others e full absent =
      let new_entry : Entry V = record {
        value = value;
        expires_at = now + or_else over c.ttl_ms;
      } in
      let sized : length (others ++ (key, new_entry) ∷ []) ≡ c.max_entries =
        omega (arith, length-append others ((key, new_entry) ∷ []), ap length e) in
      rw (set-rewritten, remove_absent _ _ absent, e) (evict_one c.max_entries oldest _ sized)
