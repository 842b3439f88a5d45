-- ===== src/Cache.antt =====
-- src/lib/cache/ttl-cache.ts: the bounded cache with a deadline for each entry. `now` is what
-- `Date.now()` answers, in milliseconds; the entries are a `Map`, oldest use first.
pub mod Bounds
pub mod Reads
pub mod History
use lamp_light.Base.{
  ℕ, suc, ◌+◌, Bool, true, false, Option, none, some, List, [], ◌∷◌, ltb, leb, if◌then◌else◌,
  length, is_some,
}
use lamp_light.Base.Text.{Text}
use lamp_light.Base.JsMap.{JsMap, lookup, insert, remove}

pub record Entry {ℓ} (V : Type ℓ) : Type ℓ where
  pub value : V
  pub expires_at : ℕ

pub record TtlCache {ℓ} (V : Type ℓ) : Type ℓ where
  pub max_entries : ℕ
  pub ttl_ms : ℕ
  pub entries : JsMap (Entry V)

-- `ttlMsOverride ?? this.ttlMs`
abbrev pub or_else : Option ℕ → ℕ → ℕ
or_else none d = d
or_else (some n) d = n

module _ {ℓ} {V : Type ℓ} where
  -- The constructor.
  abbrev pub new : ℕ → ℕ → TtlCache V
  new max_entries ttl_ms = record { max_entries = max_entries; ttl_ms = ttl_ms; entries = [] }

  abbrev pub delete : Text → TtlCache V → TtlCache V
  delete key c = record c { entries = remove key c.entries }

  abbrev pub clear : TtlCache V → TtlCache V
  clear c = record c { entries = [] }

  abbrev pub size : TtlCache V → ℕ
  size c = length c.entries

  -- A hit is put back at the end with its old deadline.
  unfoldable pub get : Text → ℕ → TtlCache V → Option V × TtlCache V
  get key now c = elim (lookup key c.entries) [
    | none ↦ (none, c)
    | some e ↦
        if leb e.expires_at now
        then (none, delete key c)
        else (some e.value, record c { entries = insert key e (remove key c.entries) })
  ]

  -- The loop at the end of `set`: the oldest entry goes while there are too many.
  unfoldable pub evict : ℕ → JsMap (Entry V) → JsMap (Entry V)
  evict max [] = []
  evict max (e ∷ m) = let rest = evict max m in if ltb max (suc (length m)) then rest else e ∷ m

  unfoldable pub set : Text → V → Option ℕ → ℕ → TtlCache V → TtlCache V
  set key value ttl_ms_override now c =
      let fresh = if is_some (lookup key c.entries) then remove key c.entries else c.entries in
      let e : Entry V = record {
        value = value;
        expires_at = now + or_else ttl_ms_override c.ttl_ms;
      } in
      record c { entries = evict c.max_entries (insert key e fresh) }
