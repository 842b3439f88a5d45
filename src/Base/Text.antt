-- ===== src/Base/Text.antt =====
-- Texts: a JavaScript string as the list of its UTF-16 code units.
pub mod Laws
use Prim.Native.Nat.{ℕ, suc, ◌+◌, ◌-◌}
use Prim.Native.Char.{code}
use Prim.Native.String.{String}
use mathlib.Core.Path.{◌≡◌, refl}
use mathlib.Core.Logic.{◌↔◌}
use mathlib.Core.Bool.{Bool, true, false, ◌&&◌, ◌||◌}
use mathlib.Core.Option.{Option, none, some}
use mathlib.Core.List.{List, [], ◌∷◌, map}
use native.Mathlib.Omega.{arith}
use lamp_light.Base.Tests.{ltb, leb, nat_eq, if◌then◌else◌}
use lamp_light.Base.Lists.{any, all, take, length}

abbrev pub Text : Type 0
Text = List ℕ

-- The code units of a literal, which are its code points: every literal here is in the BMP.
abbrev pub codes : String → Text
codes String.[] = []
codes (String.◌∷◌ c s) = code c ∷ codes s

infix 50 ◌==◌
-- `===` on strings.
unfoldable pub ◌==◌ : Text → Text → Bool
◌==◌ [] [] = true
◌==◌ (a ∷ s) (b ∷ t) = nat_eq a b && ◌==◌ s t
◌==◌ _ _ = false

eq→≡ : (s t : Text) → (s == t) ≡ true → s ≡ t
unfolding ◌==◌
eq→≡ [] [] h = refl
eq→≡ [] (b ∷ t) h = cc
eq→≡ (a ∷ s) [] h = cc
eq→≡ (a ∷ s) (b ∷ t) h = ground (arith, eq→≡ s t)

pub eq_refl : (s : Text) → (s == s) ≡ true
unfolding ◌==◌
eq_refl [] = refl
eq_refl (a ∷ s) = ground (arith, eq_refl s)

pub eq_iff : (s t : Text) → ((s == t) ≡ true) ↔ (s ≡ t)
eq_iff s t = (eq→≡ s t, λ e. rw e (eq_refl t))

pub eq_join : (a b t : Text) → (a == t) ≡ true → (b == t) ≡ true → (a == b) ≡ true
eq_join a b t p q = rw ((eq_iff a t).0 p, (eq_iff b t).0 q) (eq_refl t)

-- `s.startsWith(p)`
unfoldable pub starts_with : Text → Text → Bool
starts_with [] s = true
starts_with (a ∷ p) [] = false
starts_with (a ∷ p) (b ∷ s) = nat_eq a b && starts_with p s

-- `s.endsWith(p)`
unfoldable pub ends_with : Text → Text → Bool
unfolding ◌==◌
ends_with p [] = p == []
ends_with p (a ∷ s) = (p == (a ∷ s)) || ends_with p s

-- `s.includes(c)` for one code unit
abbrev pub has : ℕ → Text → Bool
has c s = any (nat_eq c) s

-- `s.includes(p)`
unfoldable pub includes : Text → Text → Bool
unfolding starts_with
includes p [] = starts_with p []
includes p (a ∷ s) = starts_with p (a ∷ s) || includes p s

-- `s.indexOf(c)`; `none` is -1
unfoldable pub index_of : ℕ → Text → Option ℕ
index_of c [] = none
index_of c (a ∷ s) =
    if nat_eq a c then some 0 else elim (index_of c s) [ none ↦ none | some i ↦ some (suc i) ]

-- `s.split(c)` for one code unit: never empty
abbrev cons_head : ℕ → List Text → List Text
cons_head a [] = (a ∷ []) ∷ []
cons_head a (w ∷ ws) = (a ∷ w) ∷ ws

unfoldable pub split : ℕ → Text → List Text
split c [] = [] ∷ []
split c (a ∷ s) = if nat_eq a c then [] ∷ split c s else cons_head a (split c s)

-- The white space of `trim` and of `\s`: WhiteSpace and LineTerminator of ECMAScript.
unfoldable pub is_space : ℕ → Bool
is_space c =
    (leb 9 c && leb c 13)
    || nat_eq c 0x20
    || nat_eq c 0xa0
    || nat_eq c 0x1680
    || (leb 0x2000 c && leb c 0x200a)
    || nat_eq c 0x2028
    || nat_eq c 0x2029
    || nat_eq c 0x202f
    || nat_eq c 0x205f
    || nat_eq c 0x3000
    || nat_eq c 0xfeff

unfoldable pub trim_start : Text → Text
unfolding is_space
trim_start [] = []
trim_start (a ∷ s) = if is_space a then trim_start s else a ∷ s

unfoldable pub trim_end : Text → Text
unfolding is_space
trim_end [] = []
trim_end (a ∷ s) = elim (trim_end s) [ [] ↦ if is_space a then [] else a ∷ [] | b ∷ t ↦ a ∷ b ∷ t ]

-- `s.trim()`
unfoldable pub trim : Text → Text
unfolding trim_start trim_end
trim s = trim_end (trim_start s)

-- Character classes of the regular expressions.
abbrev pub is_digit : ℕ → Bool
is_digit c = leb b'0' c && leb c b'9'

abbrev pub is_lower : ℕ → Bool
is_lower c = leb b'a' c && leb c b'z'

abbrev pub is_upper : ℕ → Bool
is_upper c = leb b'A' c && leb c b'Z'

abbrev pub ascii_lower : ℕ → ℕ
ascii_lower c = if is_upper c then c + 32 else c

-- `s.slice(0, -k)` for a positive k
abbrev pub drop_last : ℕ → Text → Text
drop_last k s = take (length s - k) s

-- The last element, if there is one.
abbrev pub last? {ℓ} : {A : Type ℓ} → List A → Option A
last? [] = none
last? (a ∷ []) = some a
last? (a ∷ b ∷ s) = last? (b ∷ s)

-- `s.toLowerCase()` beyond ASCII comes from the Unicode tables of the engine: only what it does to
-- ASCII is used.
pub record CaseMap : Type 0 where
  pub lower : Text → Text
  pub lower_ascii : (s : Text) → all (λ c. ltb c 128) s ≡ true → lower s ≡ map ascii_lower s

-- An engine that knows ASCII letters only.
abbrev pub ascii_case_map : CaseMap
ascii_case_map = record { lower = map ascii_lower; lower_ascii = λ s h. refl }

-- An optional string in a condition: the empty one counts as missing.
abbrev pub truthy : Option Text → Option Text
truthy none = none
truthy (some []) = none
truthy (some (a ∷ s)) = some (a ∷ s)
