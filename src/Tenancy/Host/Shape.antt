-- ===== src/Tenancy/Host/Shape.antt =====
-- host.ts, `normalizeHost`: what a normalized host looks like.
use lamp_light.Base.{
  ℕ, ◌≤◌, ◌+◌, ◌≡◌, sym, ap, subst, Bool, length, drop, leb, all, length-append, All, ◌++◌, nat_eq,
  nat_eq_iff, ◌⊎◌, inl, inr, true, false, not, ◌&&◌, Option, none, some, List, [], ◌∷◌, take, arith,
  Bool-cases, Option-cases, and-eq-true,
}
use lamp_light.Base.Text.{
  Text, codes, starts_with, ends_with, includes, index_of, trim, CaseMap, is_lower, is_digit,
  drop_last,
}
use lamp_light.Base.Text.Laws.{ends_with-split, drop_last-append}
use lamp_light.Tenancy.Host.{
  is_host_char, is_v6_char, is_v6_literal, all_of, normalize_v6, strip_port, strip_dot, check_host,
  normalize_name, normalize_host,
}

-- A name in normal form: plain host characters, no empty label in the middle, no final dot.
pub record IsName (h : Text) : Type 0 where
  pub chars : all_of is_host_char h ≡ true
  pub no_gap : includes (codes "..") h ≡ false
  pub no_dot : ends_with (codes ".") h ≡ false

-- A small letter, a digit, a hyphen or a dot.
abbrev pub IsPlain : ℕ → Type 0
IsPlain c = ((97 ≤ c) × (c ≤ 122)) ⊎ (((48 ≤ c) × (c ≤ 57)) ⊎ ((c ≡ 45) ⊎ (c ≡ 46)))

-- A digit, a small letter up to f, or a colon.
abbrev pub IsHexOrColon : ℕ → Type 0
IsHexOrColon c = ((48 ≤ c) × (c ≤ 57)) ⊎ (((97 ≤ c) × (c ≤ 102)) ⊎ (c ≡ 58))

-- What `normalizeHost` returns: digits and colons in brackets, or plain characters with no two dots
-- together, and at least one of them.
abbrev pub IsHost : Text → Type 0
IsHost h =
    ((m : Text) × (h ≡ b'[' ∷ (m ++ b']' ∷ [])) × (1 ≤ length m) × All IsHexOrColon m)
    ⊎ ((1 ≤ length h) × All IsPlain h × (includes (codes "..") h ≡ false))

IsPlain-is_host_char : (c : ℕ) → is_host_char c ≡ true → IsPlain c
IsPlain-is_host_char c h = elim (Bool-cases (is_lower c)) [
  | inl lower ↦ inl (ground arith)
  | inr not_lower ↦ elim (Bool-cases (is_digit c)) [
    | inl digit ↦ inr (inl (ground arith))
    | inr not_digit ↦ elim (Bool-cases (nat_eq c b'-')) [
      | inl hyphen ↦ inr (inr (inl (ground (arith, nat_eq_iff c b'-'))))
      | inr not_hyphen ↦
          let dot : nat_eq c b'.' ≡ true = ground arith in
          inr (inr (inr ((nat_eq_iff c b'.').0 dot)))
    ]
  ]
]

IsHexOrColon-is_v6_char : (c : ℕ) → is_v6_char c ≡ true → IsHexOrColon c
IsHexOrColon-is_v6_char c h = elim (Bool-cases (is_digit c)) [
  | inl digit ↦ inl (ground arith)
  | inr not_digit ↦ elim (Bool-cases (nat_eq c b':')) [
    | inl colon ↦ inr (inr ((nat_eq_iff c b':').0 colon))
    | inr not_colon ↦ inr (inl (ground arith))
  ]
]

pub All-all :
    {A : Type 0} (P : A → Type 0) (p : A → Bool)
    → ((c : A) → p c ≡ true → P c)
    → (s : List A) → all p s ≡ true
    → All P s
All-all P p f [] h = tt
All-all P p f (a ∷ s) h = let (x, xs) = and-eq-true (p a) (all p s) h in (f a x, All-all P p f s xs)

-- An opening bracket, something, and a closing bracket.
bracketed :
    (t : Text)
    → starts_with (codes "[") (t ++ b']' ∷ []) ≡ true
    → leb 3 (length (t ++ b']' ∷ [])) ≡ true
    → all is_v6_char (drop_last 1 (drop 1 (t ++ b']' ∷ []))) ≡ true
    → IsHost (t ++ b']' ∷ [])
unfolding starts_with
bracketed [] first long inner = cc
bracketed (a ∷ m) first long inner =
    let open_is : a ≡ b'[' = sym ((nat_eq_iff b'[' a).0 (ground arith)) in
    inl (
      m,
      ap (λ x. x ∷ (m ++ b']' ∷ [])) open_is,
      ground (arith, length-append m (b']' ∷ [])),
      All-all IsHexOrColon is_v6_char IsHexOrColon-is_v6_char m
          (rw (drop_last-append m (b']' ∷ [])) at inner),
    )

v6-IsHost : (s : Text) → is_v6_literal s ≡ true → IsHost s
v6-IsHost s h =
    let last : ends_with (codes "]") s ≡ true = ground arith in
    let first : starts_with (codes "[") s ≡ true = ground arith in
    let long : leb 3 (length s) ≡ true = ground arith in
    let inner : all is_v6_char (drop_last 1 (drop 1 s)) ≡ true = ground arith in
    let (t, e) = ends_with-split (codes "]") s last in
    let hosted =
      bracketed t (subst (λ x. starts_with (codes "[") x ≡ true) e first)
        (subst (λ x. leb 3 (length x) ≡ true) e long)
        (subst (λ x. all is_v6_char (drop_last 1 (drop 1 x)) ≡ true) e inner) in
    subst IsHost (sym e) hosted

all_of-IsHost :
    (s : Text) → all_of is_host_char s ≡ true → includes (codes "..") s ≡ false → IsHost s
all_of-IsHost [] h gap = cc
all_of-IsHost (a ∷ s) h gap =
    inr (omega arith, All-all IsPlain is_host_char IsPlain-is_host_char (a ∷ s) h, gap)

check_host-IsHost : (s h : Text) → check_host s ≡ some h → IsHost h
unfolding check_host
check_host-IsHost s h e =
    elim (Bool-cases (all_of is_host_char s && not (includes (codes "..") s))) [
      | inl good ↦
          let same : s ≡ h = ground arith in
          let (a, b) = and-eq-true _ _ good in subst IsHost same (all_of-IsHost s a (ground arith))
      | inr bad ↦ absurd (ground arith)
    ]

normalize_v6-IsHost : (s h : Text) → normalize_v6 s ≡ some h → IsHost h
unfolding normalize_v6
normalize_v6-IsHost s h e = elim (Option-cases (index_of b']' s)) [
  | inl absent ↦ absurd (ground arith)
  | inr (i, found) ↦ elim (Bool-cases (is_v6_literal (take (i + 1) s))) [
    | inl good ↦
        let same : take (i + 1) s ≡ h = ground arith in
        subst IsHost same (v6-IsHost (take (i + 1) s) good)
    | inr bad ↦ absurd (ground arith)
  ]
]

normalize_name-IsHost : (s h : Text) → normalize_name s ≡ some h → IsHost h
unfolding normalize_name
normalize_name-IsHost s h e = elim (Bool-cases (starts_with (codes "[") s)) [
  | inl v6 ↦ normalize_v6-IsHost s h (ground arith)
  | inr name ↦ check_host-IsHost (strip_dot (strip_port s)) h (ground arith)
]

module _ (cm : CaseMap) where
  -- Whatever the header holds, a host that is accepted is never empty: it is one or more digits,
  -- letters from a to f and colons between brackets, or small letters, digits, hyphens and dots with
  -- no two dots together.
  pub normalize_host-IsHost :
      (raw : Option Text) (h : Text) → normalize_host cm raw ≡ some h → IsHost h
  unfolding normalize_host
  normalize_host-IsHost none h e = cc
  normalize_host-IsHost (some []) h e = cc
  normalize_host-IsHost (some (a ∷ s)) h e = normalize_name-IsHost (cm.lower (trim (a ∷ s))) h e
