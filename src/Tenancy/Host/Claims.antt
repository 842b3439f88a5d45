-- ===== src/Tenancy/Host/Claims.antt =====
-- host.ts, `claimableHostname`, `isValidSlug` and `absoluteUrl`.
use lamp_light.Base.{
  ℕ, ◌≤◌, ◌⊎◌, All, length, nat_eq, nat_eq_iff, ◌≡◌, ◌≢◌, refl, sym, ap, ◌∙◌, inl, inr, Bool, true,
  false, not, ◌||◌, none, some, [], ◌∷◌, ◌++◌, if◌then◌else◌, all, arith, Bool-cases, Option-cases,
}
use lamp_light.Base.Text.{
  Text, codes, ◌==◌, eq_iff, ends_with, index_of, has, split, is_lower, is_digit, CaseMap,
}
use lamp_light.Base.Text.Laws.{ends_with-append}
use lamp_light.Tenancy.Host.{
  foreign, nonempty, dotted, apex_name, classify_host, ok, refused, malformed, platform,
  claim_shape, claim_normal, claimable_hostname, normalize_host, absolute_url, is_valid_slug,
  is_slug_char,
}
use lamp_light.Tenancy.Host.Shape.{IsHost, All-all, normalize_host-IsHost}
use lamp_light.Tenancy.Host.Classify.{classify_host-foreign}

-- A small letter, a digit or a hyphen.
abbrev pub IsLabelChar : ℕ → Type 0
IsLabelChar c = ((97 ≤ c) × (c ≤ 122)) ⊎ (((48 ≤ c) × (c ≤ 57)) ⊎ (c ≡ 45))

-- Two or more labels with dots between them, each of 1 to 63 characters, and 253 characters at most.
pub record IsDomainName (h : Text) : Type 0 where
  pub several : 2 ≤ length (split b'.' h)
  pub short : length h ≤ 253
  pub labels : All (λ l. (1 ≤ length l) × (length l ≤ 63) × All IsLabelChar l) (split b'.' h)

IsLabelChar-is_slug_char : (c : ℕ) → is_slug_char c ≡ true → IsLabelChar c
IsLabelChar-is_slug_char c h = elim (Bool-cases (is_lower c)) [
  | inl lower ↦ inl (ground arith)
  | inr not_lower ↦ elim (Bool-cases (is_digit c)) [
    | inl digit ↦ inr (inl (ground arith))
    | inr not_digit ↦
        let hyphen : nat_eq c b'-' ≡ true = ground arith in inr (inr ((nat_eq_iff c b'-').0 hyphen))
  ]
]

is_valid_slug-All :
    (l : Text) → is_valid_slug l ≡ true → (1 ≤ length l) × (length l ≤ 63) × All IsLabelChar l
unfolding is_valid_slug
is_valid_slug-All [] h = cc
is_valid_slug-All (a ∷ s) h =
    let first : is_slug_char a ≡ true = ground arith in
    let rest : all is_slug_char s ≡ true = ground arith in
    let long : length s ≤ 62 = ground arith in
    (
      omega arith,
      omega (arith, long),
      (
        IsLabelChar-is_slug_char a first,
        All-all IsLabelChar is_slug_char IsLabelChar-is_slug_char s rest,
      ),
    )

IsDomainName-claim_shape : (h : Text) → claim_shape h ≡ true → IsDomainName h
unfolding claim_shape
IsDomainName-claim_shape h e =
    let each : all is_valid_slug (split b'.' h) ≡ true = ground arith in
    record {
      several = ground arith;
      short = ground arith;
      labels =
          All-all (λ l. (1 ≤ length l) × (length l ≤ 63) × All IsLabelChar l) is_valid_slug
            is_valid_slug-All (split b'.' h) each;
    }

chosen_ok :
    (shape same under : Bool) (h g : Text)
    → (if not shape then refused malformed else if same || under then refused platform else ok h)
      ≡ ok g
    → (shape ≡ true) × (same ≡ false) × (under ≡ false) × (h ≡ g)
chosen_ok shape same under h g e = ground arith

claimable_port :
    (cm : CaseMap) (candidate apex_domain : Text)
    → has b':' candidate ≡ true
    → claimable_hostname cm candidate apex_domain ≡ refused malformed
unfolding claimable_hostname
claimable_port cm candidate apex_domain h = rw h refl

claimable_bad :
    (cm : CaseMap) (candidate apex_domain : Text)
    → has b':' candidate ≡ false
    → normalize_host cm (some candidate) ≡ none
    → claimable_hostname cm candidate apex_domain ≡ refused malformed
unfolding claimable_hostname
claimable_bad cm candidate apex_domain h n = rw (h, n, normalize_host) refl

claimable_good :
    (cm : CaseMap) (candidate apex_domain : Text)
    → has b':' candidate ≡ false
    → (g : Text) → normalize_host cm (some candidate) ≡ some g
    → claimable_hostname cm candidate apex_domain ≡ claim_normal cm g apex_domain
unfolding claimable_hostname
claimable_good cm candidate apex_domain h g n = rw (h, n, normalize_host) refl

claim_normal_lem :
    (cm : CaseMap) (h apex_domain : Text)
    → claim_normal cm h apex_domain ≡ (
        if not (claim_shape h)
        then refused malformed
        else if h == apex_name cm apex_domain || ends_with (dotted (apex_name cm apex_domain)) h
        then refused platform
        else ok h)
unfolding claim_normal
claim_normal_lem cm h apex_domain = refl

module _ (cm : CaseMap) (candidate apex_domain : Text) where
  under_apex :
      (l g : Text)
      → g ≡ l ++ dotted (apex_name cm apex_domain)
      → ends_with (dotted (apex_name cm apex_domain)) g ≡ true
  under_apex l g e = rw e (ends_with-append (dotted (apex_name cm apex_domain)) l)

  claimed :
      (h : Text)
      → claimable_hostname cm candidate apex_domain ≡ ok h
      → (g : Text) × (normalize_host cm (some candidate) ≡ some g)
        × (claim_normal cm g apex_domain ≡ ok h)
        × (has b':' candidate ≡ false)
  unfolding claimable_hostname
  claimed h e = elim (Bool-cases (has b':' candidate)) [
    | inl port ↦ absurd (cc (ap (λ b. b) e, claimable_port cm candidate apex_domain port))
    | inr plain ↦ elim (Option-cases (normalize_host cm (some candidate))) [
      | inl bad ↦ absurd (cc (e, claimable_bad cm candidate apex_domain plain bad))
      | inr (g, good) ↦
          (g, good, sym (claimable_good cm candidate apex_domain plain g good) ∙ e, plain)
    ]
  ]

  pub claimable_hostname-foreign :
      (h : Text)
      → claimable_hostname cm candidate apex_domain ≡ ok h
      → IsHost h
        × IsDomainName h
        × (has b':' candidate ≡ false)
        × (classify_host cm h apex_domain ≡ foreign h)
        × (h ≢ apex_name cm apex_domain)
        × ((l : Text) → h ≢ l ++ dotted (apex_name cm apex_domain))
  claimable_hostname-foreign h e =
      let (g, normal, claim, plain) = claimed h e in
      let (shape, other, outside, same) =
        chosen_ok _ _ _ g h (sym (claim_normal_lem cm g apex_domain) ∙ claim) in
      (
        normalize_host-IsHost cm (some candidate) h (normal ∙ ap some same),
        IsDomainName-claim_shape h (rw (← same) shape),
        plain,
        rw (← same) (classify_host-foreign cm apex_domain g other outside),
        λ is_apex. absurd (cc (other, (eq_iff g (apex_name cm apex_domain)).1 (same ∙ is_apex))),
        λ l under. absurd (cc (outside, under_apex l g (same ∙ under))),
      )

-- What is claimed as it is written is in normal form.
pub claimable_hostname-normal :
    (cm : CaseMap) (h apex_domain : Text)
    → claimable_hostname cm h apex_domain ≡ ok h
    → normalize_host cm (some h) ≡ some h
claimable_hostname-normal cm h apex_domain e =
    let (g, normal, claim, plain) = claimed cm h apex_domain h e in
    let (shape, other, outside, same) =
      chosen_ok (claim_shape g) (g == apex_name cm apex_domain)
        (ends_with (dotted (apex_name cm apex_domain)) g) g h
        (sym (claim_normal_lem cm g apex_domain) ∙ claim) in
    normal ∙ ap some same

-- The address of the loopback in brackets, with or without a port, gets `https`: what stands before
-- the first colon is a bracket alone, so the test against the whole literal never holds.
pub absolute_url-v6 :
    (port path : Text)
    → absolute_url (codes "[::1]" ++ port) path ≡ codes "https://[::1]" ++ (port ++ path)
unfolding absolute_url index_of
absolute_url-v6 port path = refl

slug_chars-has : (s : Text) → all is_slug_char s ≡ true → has b'.' s ≡ false
slug_chars-has [] h = refl
slug_chars-has (a ∷ s) h = ground (arith, slug_chars-has s)

-- A slug holds no dot and is not empty.
pub is_valid_slug-no_dot :
    (s : Text) → is_valid_slug s ≡ true → (has b'.' s ≡ false) × (nonempty s ≡ true)
unfolding is_valid_slug
is_valid_slug-no_dot [] h = cc
is_valid_slug-no_dot (a ∷ s) h =
    let tail : has b'.' s ≡ false = slug_chars-has s (ground arith) in (ground arith, refl)
