-- ===== src/Storage/Keys/Names.antt =====
-- keys.ts, `sanitizeFilename`: what a stored file name looks like, whatever was uploaded.
use lamp_light.Base.{
  ℕ, zero, suc, ◌≤◌, ◌<◌, ◌≡◌, refl, inl, inr, Bool, true, false, ◌||◌, [], ◌∷◌, nat_eq,
  if◌then◌else◌, take, length, all, all-take, length-take, arith, Bool-cases, and-eq-true,
}
use lamp_light.Base.Text.{Text, codes}
use lamp_light.Storage.Keys.{
  is_safe, base_from, hyphenate, collapse, strip_front, strip_back, or_file, cleaned,
  sanitize_filename,
}

hyphen-safe : is_safe b'-' ≡ true
unfolding is_safe
hyphen-safe = refl

hyphenate-safe : (run : Bool) (s : Text) → all is_safe (hyphenate run s) ≡ true
unfolding hyphenate
hyphenate-safe run [] = refl
hyphenate-safe run (c ∷ s) =
    ground (arith, hyphen-safe, hyphenate-safe false s, hyphenate-safe true s)

collapse-safe : (run : Bool) (s : Text) → all is_safe s ≡ true → all is_safe (collapse run s) ≡ true
unfolding collapse
collapse-safe run [] h = refl
collapse-safe run (c ∷ s) h =
    let (here, later) = and-eq-true (is_safe c) (all is_safe s) h in
    ground (arith, hyphen-safe, collapse-safe true s later, collapse-safe false s later)

strip_front-safe : (s : Text) → all is_safe s ≡ true → all is_safe (strip_front s) ≡ true
unfolding strip_front
strip_front-safe [] h = refl
strip_front-safe (c ∷ s) h =
    let (here, later) = and-eq-true (is_safe c) (all is_safe s) h in
    ground (arith, strip_front-safe s later)

strip_back-safe : (s : Text) → all is_safe s ≡ true → all is_safe (strip_back s) ≡ true
unfolding strip_back
strip_back-safe [] h = refl
strip_back-safe (c ∷ s) h =
    let (here, later) = and-eq-true (is_safe c) (all is_safe s) h in
    ground (arith, strip_back-safe s later)

cleaned-safe : (s : Text) → all is_safe (cleaned s) ≡ true
unfolding cleaned
cleaned-safe s =
    let base = base_from [] s in
    let hyphenated = hyphenate false base in
    let collapsed = collapse false hyphenated in
    strip_back-safe (strip_front collapsed)
      (strip_front-safe collapsed (collapse-safe false hyphenated (hyphenate-safe false base)))

-- A name does not begin with a dot or a hyphen.
abbrev pub StartsPlain : Text → Type 0
StartsPlain [] = Unit
StartsPlain (c ∷ s) = (nat_eq c b'.' || nat_eq c b'-') ≡ false

strip_front-plain : (s : Text) → StartsPlain (strip_front s)
unfolding strip_front
strip_front-plain [] = tt
strip_front-plain (c ∷ s) = elim (Bool-cases (nat_eq c b'.' || nat_eq c b'-')) [
  | inl cut ↦ rw (cut, strip_front) (strip_front-plain s)
  | inr kept ↦ rw (kept, strip_front) kept
]

strip_back-plain : (s : Text) → StartsPlain s → StartsPlain (strip_back s)
unfolding strip_back
strip_back-plain [] h = tt
strip_back-plain (c ∷ s) h = ends (strip_back s)
  where
    ends :
        (t : Text)
        → StartsPlain (elim t as (λ _. Text) [
          | [] ↦ if nat_eq c b'-' then [] else c ∷ []
          | d ∷ u ↦ c ∷ d ∷ u
        ])
    ends [] = elim (Bool-cases (nat_eq c b'-')) [ inl cut ↦ rw cut tt | inr kept ↦ rw kept h ]
    ends (d ∷ u) = h

take-plain : (n : ℕ) (s : Text) → StartsPlain s → StartsPlain (take n s)
take-plain zero s h = tt
take-plain (suc n) [] h = tt
take-plain (suc n) (c ∷ s) h = h

cleaned-plain : (s : Text) → StartsPlain (cleaned s)
unfolding cleaned
cleaned-plain s =
    strip_back-plain _ (strip_front-plain (collapse false (hyphenate false (base_from [] s))))

-- What `sanitizeFilename` promises of a name.
pub record IsFileName (s : Text) : Type 0 where
  pub safe : all is_safe s ≡ true
  pub plain : StartsPlain s
  pub short : length s ≤ 120
  pub nonempty : 0 < length s

file-safe : all is_safe (codes "file") ≡ true
unfolding is_safe
file-safe = refl

or_file-IsFileName :
    (s : Text) → all is_safe s ≡ true → StartsPlain s → length s ≤ 120 → IsFileName (or_file s)
or_file-IsFileName [] h p n = record {
  safe = file-safe;
  plain = refl;
  short = omega arith;
  nonempty = omega arith;
}
or_file-IsFileName (c ∷ s) h p n = record { safe = h; plain = p; short = n; nonempty = omega arith }

-- Whatever name was uploaded, the stored one is 1 to 120 letters, digits, dots, underscores and
-- hyphens, with no slash, and does not begin with a dot or a hyphen.
pub sanitize_filename-IsFileName : (filename : Text) → IsFileName (sanitize_filename filename)
unfolding sanitize_filename
sanitize_filename-IsFileName filename =
    or_file-IsFileName (take 120 (cleaned filename))
      (all-take is_safe 120 (cleaned filename) (cleaned-safe filename))
      (take-plain 120 (cleaned filename) (cleaned-plain filename))
      (omega (arith, length-take 120 (cleaned filename)))
