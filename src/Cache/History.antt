-- ===== src/Cache/History.antt =====
-- ttl-cache.ts against an ideal cache that forgets nothing: a run of calls on both.
use lamp_light.Base.{
  ℕ, ◌+◌, ◌≤◌, ◌<◌, ◌≡◌, refl, sym, ap, ◌∙◌, Option, none, some, List, [], ◌∷◌, if◌then◌else◌,
  length, arith, Bool-cases, Option-cases, inl, inr,
}
use lamp_light.Base.Text.{Text, ◌==◌, eq_iff}
use lamp_light.Base.JsMap.{lookup, Distinct, lookup-remove}
use lamp_light.Cache.{Entry, TtlCache, new, get, set, delete, clear, or_else}
use lamp_light.Cache.Bounds.{
  IsValid, rewritten, set-rewritten, lookup-evict, rewritten-Distinct, get-IsValid, set-IsValid,
  delete-IsValid,
}
use lamp_light.Cache.Reads.{lookup-rewritten, lookup-get, get-live, live, unexpired}

-- The ideal cache: the last entry written under each key and not deleted since.
abbrev pub Ideal {ℓ} : Type ℓ → Type ℓ
Ideal V = Text → Option (Entry V)

-- A call with the time at which it is made.
pub data Call {ℓ} (V : Type ℓ) : Type ℓ where
  get_at : ℕ → Text → Call V
  set_at : ℕ → Text → V → Option ℕ → Call V
  delete_at : Text → Call V
  clear_all : Call V

module _ {ℓ} {V : Type ℓ} where
  unfoldable pub perform : Call V → TtlCache V → TtlCache V
  perform (get_at now k) c = (get k now c).1
  perform (set_at now k v over) c = set k v over now c
  perform (delete_at k) c = delete k c
  perform clear_all c = clear c

  unfoldable pub run : List (Call V) → TtlCache V → TtlCache V
  unfolding perform
  run [] c = c
  run (call ∷ calls) c = run calls (perform call c)

  unfoldable pub note : ℕ → Call V → Ideal V → Ideal V
  note ttl (get_at now k) m = m
  note ttl (set_at now k v over) m =
      λ j. if k == j then some (record { value = v; expires_at = now + or_else over ttl }) else m j
  note ttl (delete_at k) m = λ j. if k == j then none else m j
  note ttl clear_all m = λ j. none

  unfoldable pub written : ℕ → List (Call V) → Ideal V → Ideal V
  unfolding note
  written ttl [] m = m
  written ttl (call ∷ calls) m = written ttl calls (note ttl call m)

  record Tracks (ttl : ℕ) (max : ℕ) (c : TtlCache V) (m : Ideal V) : Type ℓ where
    valid : IsValid c
    time : c.ttl_ms ≡ ttl
    cap : c.max_entries ≡ max
    sound : (k : Text) (e : Entry V) → lookup k c.entries ≡ some e → m k ≡ some e

  get_fields :
      (k : Text) (now : ℕ) (c : TtlCache V)
      → ((get k now c).1.ttl_ms ≡ c.ttl_ms) × ((get k now c).1.max_entries ≡ c.max_entries)
  unfolding get
  get_fields k now c = ground arith

  set_fields :
      (k : Text) (v : V) (over : Option ℕ) (now : ℕ) (c : TtlCache V)
      → ((set k v over now c).ttl_ms ≡ c.ttl_ms)
        × ((set k v over now c).max_entries ≡ c.max_entries)
  unfolding set
  set_fields k v over now c = (refl, refl)

  unexpired_same :
      (now : ℕ) (o : Option (Entry V)) (e : Entry V) → unexpired now o ≡ some e → o ≡ some e
  unexpired_same now none e h = h
  unexpired_same now (some f) e h = ground arith

  pub sound_get :
      (now : ℕ) (k : Text) (c : TtlCache V) (m : Ideal V)
      → ((j : Text) (e : Entry V) → lookup j c.entries ≡ some e → m j ≡ some e)
      → (j : Text) (e : Entry V) → lookup j (get k now c).1.entries ≡ some e
      → m j ≡ some e
  sound_get now k c m s j e h = elim (Bool-cases (k == j)) [
    | inl same ↦
        let here : unexpired now (lookup k c.entries) ≡ some e =
          ground (arith, lookup-get k j now c) in
        let there : k ≡ j = (eq_iff k j).0 same in
        s j e (rw (← there) (unexpired_same now _ e here))
    | inr other ↦ s j e (ground (arith, lookup-get k j now c))
  ]

  pub sound_set :
      (now : ℕ) (k : Text) (v : V) (over : Option ℕ) (c : TtlCache V) (m : Ideal V)
      → Distinct c.entries
      → ((j : Text) (e : Entry V) → lookup j c.entries ≡ some e → m j ≡ some e)
      → (j : Text) (e : Entry V) → lookup j (set k v over now c).entries ≡ some e
      → note c.ttl_ms (set_at now k v over) m j ≡ some e
  unfolding note
  sound_set now k v over c m d s j e h =
      let new_entry : Entry V = record { value = v; expires_at = now + or_else over c.ttl_ms } in
      let kept =
        lookup-evict c.max_entries j (rewritten k new_entry c.entries) e
          (rewritten-Distinct k new_entry c.entries d)
          (ap (lookup j) (sym (set-rewritten k v over now c)) ∙ h) in
      ground (arith, kept, lookup-rewritten k j new_entry c.entries, s j e)

  perform-Tracks :
      (call : Call V) {ttl max : ℕ} {c : TtlCache V} {m : Ideal V}
      → Tracks ttl max c m
      → Tracks ttl max (perform call c) (note ttl call m)
  unfolding perform note lookup
  perform-Tracks (get_at now k) {c} {m} t = record {
    valid = get-IsValid k now c t.valid;
    time = (get_fields k now c).0 ∙ t.time;
    cap = (get_fields k now c).1 ∙ t.cap;
    sound = sound_get now k c m t.sound;
  }
  perform-Tracks (set_at now k v over) {c} {m} t = record {
    valid = set-IsValid k v over now c t.valid;
    time = (set_fields k v over now c).0 ∙ t.time;
    cap = (set_fields k v over now c).1 ∙ t.cap;
    sound = rw (← t.time) (sound_set now k v over c m t.valid.distinct t.sound);
  }
  perform-Tracks (delete_at k) {c} t = record {
    valid = delete-IsValid k c t.valid;
    time = t.time;
    cap = t.cap;
    sound = λ j e h. ground (arith, lookup-remove k j c.entries, t.sound j e);
  }
  perform-Tracks clear_all t = record {
    valid = record { bounded = omega arith; distinct = tt };
    time = t.time;
    cap = t.cap;
    sound = λ j e h. h;
  }

  run-Tracks :
      (calls : List (Call V)) {ttl max : ℕ} {c : TtlCache V} {m : Ideal V}
      → Tracks ttl max c m
      → Tracks ttl max (run calls c) (written ttl calls m)
  unfolding run written
  run-Tracks [] t = t
  run-Tracks (call ∷ calls) t = run-Tracks calls (perform-Tracks call t)

  new-Tracks : (max ttl : ℕ) → Tracks ttl max (new max ttl) (λ _. none)
  unfolding lookup
  new-Tracks max ttl = record {
    valid = record { bounded = omega arith; distinct = tt };
    time = refl;
    cap = refl;
    sound = λ k e h. h;
  }

  -- Whatever was called on a new cache, it never holds more entries than its cap.
  pub run-size :
      (max ttl : ℕ) (calls : List (Call V)) → length (run calls (new max ttl)).entries ≤ max
  run-size max ttl calls =
      let t = run-Tracks calls (new-Tracks max ttl) in omega (arith, t.valid.bounded, t.cap)

  -- Whatever was called on a new cache, a hit is the value last written under that key, whose
  -- deadline has not come, and which was not deleted since: the bound and the evictions can only
  -- lose entries.
  pub run-hit :
      (max ttl : ℕ) (calls : List (Call V)) (k : Text) (now : ℕ) (v : V)
      → (get k now (run calls (new max ttl))).0 ≡ some v
      → (e : Entry V) × (written ttl calls (λ _. none) k ≡ some e)
        × (e.value ≡ v)
        × (now < e.expires_at)
  run-hit max ttl calls k now v h =
      let t = run-Tracks calls (new-Tracks max ttl) in
      elim (Option-cases (lookup k (run calls (new max ttl)).entries)) [
        | inl absent ↦ absurd (cc (get-live k now (run calls (new max ttl)), ap (live now) absent))
        | inr (e, there) ↦
            let hit : live now (some e) ≡ some v =
              ap (live now) (sym there) ∙ sym (get-live k now _) ∙ h in
            (e, t.sound k e there, ground arith, ground arith)
      ]
