-- ===== src/Tests/Cache.antt =====
-- Runs of src/lib/cache/ttl-cache.ts.
use lamp_light.Base.{ℕ, ◌≤◌, ◌<◌, ◌≡◌, refl, none, some, List, [], ◌∷◌, length}
use lamp_light.Base.Text.{Text, codes, ◌==◌}
use lamp_light.Base.JsMap.{lookup, insert, remove}
use lamp_light.Cache.{Entry, TtlCache, new, get, evict, set}
use lamp_light.Cache.History.{
  Call, set_at, get_at, delete_at, run, perform, written, run-size, run-hit,
}

abbrev key_a : Text
key_a = codes "a"

abbrev key_b : Text
key_b = codes "b"

abbrev calls : List (Call ℕ)
calls =
    set_at 0 key_a 1 none
    ∷ set_at 1 key_b 2 (some 5)
    ∷ get_at 2 key_a
    ∷ set_at 3 (codes "c") 3 none
    ∷ delete_at key_b
    ∷ []

abbrev two_entries : TtlCache ℕ
two_entries = record {
  max_entries = 2;
  ttl_ms = 60;
  entries =
      (key_a, record { value = 1; expires_at = 60 })
      ∷ (key_b, record { value = 2; expires_at = 70 })
      ∷ [];
}

absent : lookup (codes "c") two_entries.entries ≡ none
unfolding lookup ◌==◌
absent = refl

run-size_example : length (run calls (new 2 60)).entries ≤ 2
run-size_example = run-size 2 60 calls

kept : (get key_a 9 (run calls (new 2 60))).0 ≡ some 1
unfolding get set evict lookup insert remove run perform ◌==◌
kept = refl

run-hit_example :
    (e : Entry ℕ) × (written 60 calls (λ _. none) key_a ≡ some e)
    × (e.value ≡ 1)
    × (9 < e.expires_at)
run-hit_example = run-hit 2 60 calls key_a 9 1 kept
