-- ===== src/Tenancy/Host/Spelling.antt =====
-- host.ts, `normalizeHost`: which spellings of a name give that name.
use lamp_light.Base.{
  ℕ, ◌≡◌, refl, sym, ap, ◌∙◌, Bool, true, false, not, ◌&&◌, ◌||◌, Option, none, some, [], ◌∷◌, ◌++◌,
  map, ltb, nat_eq, all, any, arith, and-eq-true, all-append, any-append, append_assoc, map-append,
  ap₂,
}
use lamp_light.Base.Text.{
  Text, codes, ◌==◌, starts_with, ends_with, has, includes, trim, is_digit, is_space, ascii_lower,
  CaseMap,
}
use lamp_light.Base.Text.Laws.{trim_clean, ends_with-append, drop_last-append}
use lamp_light.Tenancy.Host.{
  is_host_char, nonempty, all_of, strip_dot, check_host, normalize_name, normalize_host,
}
use lamp_light.Tenancy.Host.Shape.{IsName}
use lamp_light.Tenancy.Host.Normal.{
  host_chars-has, port_text, dot_text, name_chars, normalize_name-suffix, normalize_name_lem,
  starts_with_bracket, strip_port_none,
}

ascii_lower_host :
    (c : ℕ) → is_host_char (ascii_lower c) ≡ true → (is_space c ≡ false) × (ltb c 128 ≡ true)
unfolding is_space
ascii_lower_host c h = ground arith

-- Characters that `trim` keeps and that the lower case maps by ASCII alone.
abbrev clean : ℕ → Bool
clean c = not (is_space c) && ltb c 128

clean-any : (s : Text) → all clean s ≡ true → any is_space s ≡ false
clean-any [] h = refl
clean-any (a ∷ s) h = ground (arith, clean-any s)

clean-ascii : (s : Text) → all clean s ≡ true → all (λ c. ltb c 128) s ≡ true
clean-ascii [] h = refl
clean-ascii (a ∷ s) h = ground (arith, clean-ascii s)

clean-lower : (s : Text) → all is_host_char (map ascii_lower s) ≡ true → all clean s ≡ true
clean-lower [] h = refl
clean-lower (a ∷ s) h =
    let (here, later) =
      and-eq-true (is_host_char (ascii_lower a)) (all is_host_char (map ascii_lower s)) h in
    let (p, q) = ascii_lower_host a here in rw (p, q) (clean-lower s later)

digits_clean : (s : Text) → all is_digit s ≡ true → (all clean s ≡ true) × (map ascii_lower s ≡ s)
unfolding is_space
digits_clean [] h = (refl, refl)
digits_clean (a ∷ s) h =
    let (here, later) = and-eq-true (is_digit a) (all is_digit s) h in
    let (p, q) = digits_clean s later in (ground arith, ap₂ ◌∷◌ (ground arith) q)

-- A port is a run of digits.
abbrev pub IsPort : Option Text → Type 0
IsPort none = Unit
IsPort (some p) = all is_digit p ≡ true

suffix_clean :
    (dot : Bool) (port : Option Text)
    → IsPort port
    → (all clean (dot_text dot ++ port_text port) ≡ true)
      × (map ascii_lower (dot_text dot ++ port_text port) ≡ dot_text dot ++ port_text port)
unfolding is_space
suffix_clean true none d = (refl, refl)
suffix_clean false none d = (refl, refl)
suffix_clean true (some p) d =
    let (a, b) = digits_clean p d in (ground arith, ap (λ t. b'.' ∷ b':' ∷ t) b)
suffix_clean false (some p) d =
    let (a, b) = digits_clean p d in (ground arith, ap (λ t. b':' ∷ t) b)

nonempty_raw :
    (cm : CaseMap) (h s t : Text)
    → nonempty h ≡ true
    → map ascii_lower s ≡ h
    → normalize_host cm (some (s ++ t)) ≡ normalize_name (cm.lower (trim (s ++ t)))
unfolding normalize_host
nonempty_raw cm h [] t n e = absurd (cc (ap nonempty e))
nonempty_raw cm h (a ∷ s) t n e = refl

-- Every spelling of a name, in any letter case, with or without the final dot and a port of
-- digits, normalizes to that name: the same institute, and the same cache key.
pub normalize_host-spelling :
    (cm : CaseMap) (h s : Text) (dot : Bool) (port : Option Text)
    → IsName h
    → map ascii_lower s ≡ h
    → IsPort port
    → normalize_host cm (some (s ++ (dot_text dot ++ port_text port))) ≡ some h
normalize_host-spelling cm h s dot port v e d =
    let t = dot_text dot ++ port_text port in
    let (sc, st) = suffix_clean dot port d in
    let lowered : map ascii_lower (s ++ t) ≡ h ++ t = map-append ascii_lower s t ∙ ap₂ ◌++◌ e st in
    let cleaned : all clean (s ++ t) ≡ true =
      all-append clean s t ∙ ap₂ ◌&&◌ (clean-lower s (rw e (name_chars v))) sc in
    nonempty_raw cm h s t (and-eq-true (nonempty h) (all is_host_char h) v.chars).0 e
    ∙ ap (λ x. normalize_name (cm.lower x)) (trim_clean (s ++ t) (clean-any (s ++ t) cleaned))
    ∙ ap normalize_name (cm.lower_ascii (s ++ t) (clean-ascii (s ++ t) cleaned) ∙ lowered)
    ∙ ap normalize_name (sym (append_assoc h (dot_text dot) (port_text port)))
    ∙ normalize_name-suffix v dot port

pub host_lower : (s : Text) → all is_host_char s ≡ true → map ascii_lower s ≡ s
host_lower [] h = refl
host_lower (a ∷ s) h =
    let (here, later) = and-eq-true (is_host_char a) (all is_host_char s) h in
    ap₂ ◌∷◌ (ground arith) (host_lower s later)

no_gap-dot :
    (h : Text)
    → includes (codes "..") h ≡ false
    → ends_with (codes ".") h ≡ false
    → includes (codes "..") (h ++ codes ".") ≡ false
unfolding includes ends_with starts_with ◌==◌
no_gap-dot [] g d = refl
no_gap-dot (a ∷ []) g d = ground arith
no_gap-dot (a ∷ b ∷ s) g d = ground (arith, no_gap-dot (b ∷ s))

dot_chars : (h : Text) → all is_host_char h ≡ true → all_of is_host_char (h ++ codes ".") ≡ true
dot_chars [] c = refl
dot_chars (a ∷ h) c = ground (arith, all-append is_host_char h (codes "."))

two_dots_colon : (h : Text) → IsName h → has b':' (h ++ codes "..") ≡ false
two_dots_colon h v =
    any-append (nat_eq b':') h (codes "..")
    ∙ ap (λ x. x || false) (host_chars-has b':' h refl (name_chars v))

strip_two_dots : (h : Text) → strip_dot (h ++ codes "..") ≡ h ++ codes "."
unfolding strip_dot
strip_two_dots h = rw (← append_assoc h (codes ".") (codes ".")) (
    rw (ends_with-append (codes ".") (h ++ codes "."), strip_dot)
      (drop_last-append (h ++ codes ".") (codes ".")))

check_host_ok :
    (s : Text)
    → all_of is_host_char s ≡ true
    → includes (codes "..") s ≡ false
    → check_host s ≡ some s
unfolding check_host
check_host_ok s a b = rw (a, b) refl

dots_clean : all clean (codes "..") ≡ true
unfolding is_space
dots_clean = refl

name_two_dots : (h : Text) → IsName h → normalize_name (h ++ codes "..") ≡ some (h ++ codes ".")
name_two_dots h v =
    let a = h ++ codes "." in
    let chars : all_of is_host_char a ≡ true = dot_chars h (name_chars v) in
    let gap = no_gap-dot h v.no_gap v.no_dot in
    rw (normalize_name_lem, starts_with_bracket v (codes ".."))
      (ap (λ s. check_host (strip_dot s)) (strip_port_none (h ++ codes "..") (two_dots_colon h v))
        ∙ ap check_host (strip_two_dots h)
        ∙ check_host_ok a chars gap)

-- For every name, the header with two final dots is accepted, as a host that differs from the name
-- by a final dot: only one of the two is taken off.
pub normalize_host-two_dots :
    (cm : CaseMap) (h : Text)
    → IsName h
    → normalize_host cm (some (h ++ codes "..")) ≡ some (h ++ codes ".")
normalize_host-two_dots cm h v =
    let chars = name_chars v in
    let cleaned : all clean (h ++ codes "..") ≡ true =
      all-append clean h (codes "..")
      ∙ ap₂ ◌&&◌ (clean-lower h (rw (host_lower h chars) chars)) dots_clean in
    nonempty_raw cm h h (codes "..") (and-eq-true (nonempty h) (all is_host_char h) v.chars).0
      (host_lower h chars)
    ∙ ap (λ x. normalize_name (cm.lower x)) (trim_clean _ (clean-any _ cleaned))
    ∙ ap normalize_name (
        cm.lower_ascii _ (clean-ascii _ cleaned)
        ∙ map-append ascii_lower h (codes "..")
        ∙ ap (λ x. x ++ codes "..") (host_lower h chars))
    ∙ name_two_dots h v
