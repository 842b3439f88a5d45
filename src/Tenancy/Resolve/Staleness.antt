-- ===== src/Tenancy/Resolve/Staleness.antt =====
-- resolve.ts, the cache around `lookupUncached`: how old an answer can be. The directory changes
-- over time, requests run at once, and one that misses writes its answer some time after the read.
use lamp_light.Base.{
  ℕ, ◌+◌, ◌≤◌, ◌<◌, ◌≡◌, refl, sym, ap, ◌∙◌, ◌⊎◌, inl, inr, Option, none, some, List, [], ◌∷◌,
  arith, Bool-cases, Option-cases,
}
use lamp_light.Base.Text.{Text, ◌==◌, eq_iff, CaseMap}
use lamp_light.Base.JsMap.{lookup, lookup-remove}
use lamp_light.Cache.{Entry, TtlCache, get, set, delete, clear, or_else}
use lamp_light.Cache.Bounds.{IsValid, get-IsValid, set-IsValid, delete-IsValid}
use lamp_light.Cache.Reads.{get-live, live}
use lamp_light.Cache.History.{sound_get, sound_set, note, set_at}
use lamp_light.Tenancy.Resolve.{
  Tenant, Directory, TenantContext, context, CacheEntry, hit, miss, TenantCache, empty_cache,
  hit_ttl_ms, miss_ttl_ms, lookup_uncached, remember, resolve_host,
}

-- What is stored for a host, and what a stored entry answers.
abbrev stored : Text → Option Tenant → CacheEntry
stored host none = miss
stored host (some t) = hit (context t host)

abbrev answer : CacheEntry → Option TenantContext
answer miss = none
answer (hit t) = some t

abbrev ttl_of : CacheEntry → ℕ
ttl_of miss = miss_ttl_ms
ttl_of (hit t) = hit_ttl_ms

set_ttl :
    (k : Text) (v : CacheEntry) (over : Option ℕ) (now : ℕ) (c : TtlCache CacheEntry)
    → (set k v over now c).ttl_ms ≡ c.ttl_ms
unfolding set
set_ttl k v over now c = refl

live-some :
    (now : ℕ) (o : Option (Entry CacheEntry)) (v : CacheEntry)
    → live now o ≡ some v
    → (e : Entry CacheEntry) × (o ≡ some e) × (e.value ≡ v) × (now < e.expires_at)
live-some now none v h = cc
live-some now (some e) v h = (e, refl, ground arith, ground arith)

note_cases :
    (ttl now : ℕ) (k j : Text) (v : CacheEntry) (over : Option ℕ)
    (m : Text → Option (Entry CacheEntry)) (e : Entry CacheEntry)
    → note ttl (set_at now k v over) m j ≡ some e
    → ((k ≡ j) × (e ≡ record { value = v; expires_at = now + or_else over ttl })) ⊎ (m j ≡ some e)
unfolding note
note_cases ttl now k j v over m e h = elim (Bool-cases (k == j)) [
  | inl same ↦ inl ((eq_iff k j).0 same, ground arith)
  | inr other ↦ inr (ground arith)
]

-- `db w` is the directory at the time `w`; an answer is written at most `latency` after its read.
module _ (cm : CaseMap) (root : Text) (db : ℕ → Directory) (latency : ℕ) where
  abbrev pub at : ℕ → Text → Option Tenant
  at w host = lookup_uncached cm (db w) host root

  abbrev Fresh : Text → Entry CacheEntry → Type 0
  Fresh host e =
      (w : ℕ) × (e.value ≡ stored host (at w host)) × (e.expires_at ≤ w + latency + ttl_of e.value)

  record IsFresh (c : TenantCache) : Type 0 where
    valid : IsValid c
    time : c.ttl_ms ≡ hit_ttl_ms
    entries : (host : Text) (e : Entry CacheEntry) → lookup host c.entries ≡ some e → Fresh host e

  empty-IsFresh : IsFresh empty_cache
  unfolding lookup
  empty-IsFresh = record {
    valid = record { bounded = omega arith; distinct = tt };
    time = refl;
    entries = λ host e h. absurd (absent h);
  }
    where
      absent : {e : Entry CacheEntry} → ◌≡◌ {A = Option (Entry CacheEntry)} none (some e) → ⊥
      absent h = cc

  get_ttl : (k : Text) (now : ℕ) (c : TtlCache CacheEntry) → (get k now c).1.ttl_ms ≡ c.ttl_ms
  unfolding get
  get_ttl k now c = ground arith

  get-IsFresh : (k : Text) (now : ℕ) {c : TenantCache} → IsFresh c → IsFresh (get k now c).1
  get-IsFresh k now {c} f = record {
    valid = get-IsValid k now c f.valid;
    time = get_ttl k now c ∙ f.time;
    entries = λ host e h.
        f.entries host e (sound_get now k c (λ j. lookup j c.entries) (λ j x p. p) host e h);
  }

  delete-IsFresh : (k : Text) {c : TenantCache} → IsFresh c → IsFresh (delete k c)
  delete-IsFresh k {c} f = record {
    valid = delete-IsValid k c f.valid;
    time = f.time;
    entries = λ host e h. f.entries host e (ground (arith, lookup-remove k host c.entries));
  }

  clear-IsFresh : {c : TenantCache} → IsFresh c → IsFresh (clear c)
  unfolding lookup
  clear-IsFresh f = record {
    valid = record { bounded = omega arith; distinct = tt };
    time = f.time;
    entries = λ host e h. absurd (cc h);
  }

  new_entry-Fresh :
      (host j : Text) (w now ttl : ℕ) (value : CacheEntry) (over : Option ℕ) (e : Entry CacheEntry)
      → host ≡ j
      → value ≡ stored host (at w host)
      → or_else over ttl ≡ ttl_of value
      → now ≤ w + latency
      → e ≡ record { value = value; expires_at = now + or_else over ttl }
      → Fresh j e
  new_entry-Fresh host j w now ttl value over e same s t late is =
      let v : e.value ≡ value = ap (λ x. x.value) is in
      let x : e.expires_at ≡ now + or_else over ttl = ap (λ x. x.expires_at) is in
      let kept : ttl_of e.value ≡ ttl_of value = ap ttl_of v in
      (w, v ∙ s ∙ ap (λ h. stored h (at w h)) same, omega arith)

  -- A write of what the directory said at `w`.
  set-IsFresh :
      (host : Text) (w now : ℕ) (value : CacheEntry) (over : Option ℕ) {c : TenantCache}
      → value ≡ stored host (at w host)
      → or_else over hit_ttl_ms ≡ ttl_of value
      → now ≤ w + latency
      → IsFresh c
      → IsFresh (set host value over now c)
  set-IsFresh host w now value over {c} s t late f = record {
    valid = set-IsValid host value over now c f.valid;
    time = set_ttl host value over now c ∙ f.time;
    entries = λ j e h.
        elim (note_cases c.ttl_ms now host j value over (λ i. lookup i c.entries) e
          (sound_set now host value over c (λ i. lookup i c.entries) f.valid.distinct (λ i x p. p) j
            e h)) [
              | inl (same, is) ↦
                  new_entry-Fresh host j w now c.ttl_ms value over e same s
                    (ap (or_else over) f.time ∙ t) late is
              | inr old ↦ f.entries j e old
            ];
  }

  remember-IsFresh :
      (host : Text) (w now : ℕ) {c : TenantCache}
      → now ≤ w + latency
      → IsFresh c
      → IsFresh (remember cm host (at w host) now c).1
  unfolding remember
  remember-IsFresh host w now {c} late f = elim (Option-cases (at w host)) [
    | inl absent ↦
        rw (absent, remember)
          (set-IsFresh host w now miss (some miss_ttl_ms) (sym (ap (stored host) absent)) refl late
            f)
    | inr (t, found) ↦
        rw (found, remember)
          (set-IsFresh host w now (hit (context t host)) none (sym (ap (stored host) found)) refl
            late f)
  ]

  -- What other requests and the settings pages do to the shared cache, each at its own time: a
  -- read, the write of an answer that was read at an earlier time, and the two invalidations.
  pub data Event : Type 0 where
    read : Text → ℕ → Event
    write : (host : Text) (w now : ℕ) → now ≤ w + latency → Event
    drop : Text → Event
    drop_all : Event

  apply : Event → TenantCache → TenantCache
  apply (read host now) c = (get host now c).1
  apply (write host w now late) c = (remember cm host (at w host) now c).1
  apply (drop host) c = delete host c
  apply drop_all c = clear c

  pub after : List Event → TenantCache
  unfolding apply
  after [] = empty_cache
  after (e ∷ es) = apply e (after es)

  after-IsFresh : (es : List Event) → IsFresh (after es)
  unfolding after
  after-IsFresh [] = empty-IsFresh
  after-IsFresh (read host now ∷ es) = get-IsFresh host now (after-IsFresh es)
  after-IsFresh (write host w now late ∷ es) = remember-IsFresh host w now late (after-IsFresh es)
  after-IsFresh (drop host ∷ es) = delete-IsFresh host (after-IsFresh es)
  after-IsFresh (drop_all ∷ es) = clear-IsFresh (after-IsFresh es)

  abbrev pub in_context : Text → Option Tenant → Option TenantContext
  in_context host none = none
  in_context host (some t) = some (context t host)

  resolve_host-hit :
      (d : Directory) (host : Text) (asked answered : ℕ) (c : TenantCache) (v : CacheEntry)
      → (get host asked c).0 ≡ some v
      → (resolve_host cm d root host asked answered c).0 ≡ answer v
  unfolding resolve_host
  resolve_host-hit d host asked answered c miss h = rw (h, resolve_host) refl
  resolve_host-hit d host asked answered c (hit t) h = rw (h, resolve_host) refl

  pub resolve_host-none :
      (d : Directory) (host : Text) (asked answered : ℕ) (c : TenantCache)
      → (get host asked c).0 ≡ none
      → (resolve_host cm d root host asked answered c).0
        ≡ in_context host (lookup_uncached cm d host root)
  unfolding resolve_host remember
  resolve_host-none d host asked answered c h = rw (h, resolve_host) (ground arith)

  answer-stored : (host : Text) (o : Option Tenant) → answer (stored host o) ≡ in_context host o
  answer-stored host none = refl
  answer-stored host (some t) = refl

  -- How long an answer may be kept: a minute for an institute, five seconds for none.
  abbrev pub kept_for : Option TenantContext → ℕ
  kept_for none = 5000
  kept_for (some t) = 60000

  kept-ttl :
      (host : Text) (o : Option Tenant) → kept_for (in_context host o) ≡ ttl_of (stored host o)
  kept-ttl host none = refl
  kept-ttl host (some t) = refl

  -- Whatever happened to the cache before, in whatever order, an answer is what the directory said
  -- at some time `w`: the time of this request's own read, or less than the latency and the time to
  -- live before the request asked, which is a minute for an institute and five seconds for none.
  pub resolve_host-fresh :
      (es : List Event) (host : Text) (read_at asked answered : ℕ)
      → (w : ℕ) × ((resolve_host cm (db read_at) root host asked answered (after es)).0
          ≡ in_context host (at w host))
        × ((w ≡ read_at) ⊎ (asked < w + latency + kept_for (in_context host (at w host))))
  resolve_host-fresh es host read_at asked answered =
      let c = after es in
      elim (Option-cases (get host asked c).0) [
        | inl absent ↦
            (read_at, resolve_host-none (db read_at) host asked answered c absent, inl refl)
        | inr (v, cached) ↦
            let (e, there, is, early) =
              live-some asked (lookup host c.entries) v (sym (get-live host asked c) ∙ cached) in
            let (w, said, bound) = (after-IsFresh es).entries host e there in
            let kept : ttl_of e.value ≡ kept_for (in_context host (at w host)) =
              ap ttl_of said ∙ sym (kept-ttl host (at w host)) in
            (
              w,
              resolve_host-hit (db read_at) host asked answered c v cached
                  ∙ ap answer (sym is ∙ said)
                  ∙ answer-stored host (at w host),
              inr (omega arith),
            )
      ]
