-- ===== src/Tenancy/Host/Classify.antt =====
-- host.ts, `classifyHost`: which hosts name an institute by its slug.
use lamp_light.Base.{
  ◌+◌, ◌≡◌, refl, sym, ap, ◌∙◌, inl, inr, ◌≢◌, Bool, true, false, not, ◌&&◌, ◌||◌, ◌++◌,
  if◌then◌else◌, length, arith, Bool-cases, length-append,
}
use lamp_light.Base.Text.{Text, codes, ◌==◌, eq_iff, ends_with, has, drop_last, CaseMap}
use lamp_light.Base.Text.Laws.{ends_with-split, ends_with-append, drop_last-append}
use lamp_light.Tenancy.Host.{apex, subdomain, foreign, nonempty, dotted, apex_name, classify_host}

-- The tests of `classifyHost`, over the apex once it is in normal form.
abbrev is_apex : Text → Text → Bool
is_apex host name = host == name || host == (codes "www." ++ name)

abbrev is_under : Text → Text → Bool
is_under host name =
    ends_with (dotted name) host
    && nonempty (drop_last (length name + 1) host)
    && not (has b'.' (drop_last (length name + 1) host))

classify_host_lem :
    (cm : CaseMap) (host apex_domain : Text)
    → classify_host cm host apex_domain ≡ (
        if is_apex host (apex_name cm apex_domain)
        then apex
        else if is_under host (apex_name cm apex_domain)
        then subdomain (drop_last (length (apex_name cm apex_domain) + 1) host)
        else foreign host)
unfolding classify_host
classify_host_lem cm host apex_domain = refl

label-append : (l name : Text) → drop_last (length name + 1) (l ++ dotted name) ≡ l
label-append l name =
    ap (λ n. drop_last n (l ++ dotted name)) (omega arith) ∙ drop_last-append l (dotted name)

under-split :
    (host name : Text)
    → is_under host name ≡ true
    → (host ≡ drop_last (length name + 1) host ++ dotted name)
      × (nonempty (drop_last (length name + 1) host) ≡ true)
      × (has b'.' (drop_last (length name + 1) host) ≡ false)
under-split host name h =
    let l = drop_last (length name + 1) host in
    let (t, e) = ends_with-split (dotted name) host (ground arith) in
    let same : l ≡ t = ap (drop_last (length name + 1)) e ∙ label-append t name in
    (e ∙ ap (λ x. x ++ dotted name) (sym same), ground arith, ground arith)

under-append :
    (l name : Text)
    → nonempty l ≡ true
    → has b'.' l ≡ false
    → is_under (l ++ dotted name) name ≡ true
under-append l name n d =
    rw (ends_with-append (dotted name) l) (rw (label-append l name) (ground arith))

chosen_subdomain :
    (a b : Bool) (l slug host : Text)
    → (if a then apex else if b then subdomain l else foreign host) ≡ subdomain slug
    → (b ≡ true) × (l ≡ slug)
chosen_subdomain a b l slug host e = ground arith

-- A host under the apex by one label is not the apex, and is its www only for the label `www`.
not-apex :
    (l name : Text) → nonempty l ≡ true → l ≢ codes "www" → is_apex (l ++ dotted name) name ≡ false
not-apex l name n w = elim (Bool-cases (is_apex (l ++ dotted name) name)) [
  | inr other ↦ other
  | inl is ↦ elim (Bool-cases ((l ++ dotted name) == name)) [
    | inl e ↦ absurd (omega (arith, ap length ((eq_iff _ _).0 e), length-append l (dotted name)))
    | inr differs ↦
        let e : (l ++ dotted name) == (codes "www." ++ name) ≡ true = ground arith in
        absurd (
          w (
            sym (label-append l name)
            ∙ ap (drop_last (length name + 1)) ((eq_iff _ _).0 e)
            ∙ label-append (codes "www") name))
  ]
]

module _ (cm : CaseMap) (apex_domain : Text) where
  -- A host that is read as the slug of an institute is that one label, a dot and the apex.
  pub classify_host-subdomain_sound :
      (host slug : Text)
      → classify_host cm host apex_domain ≡ subdomain slug
      → (host ≡ slug ++ dotted (apex_name cm apex_domain))
        × (nonempty slug ≡ true)
        × (has b'.' slug ≡ false)
  classify_host-subdomain_sound host slug e =
      let name = apex_name cm apex_domain in
      let (under, same) =
        chosen_subdomain (is_apex host name) (is_under host name) _ slug host
          (sym (classify_host_lem cm host apex_domain) ∙ e) in
      let (whole, n, d) = under-split host name under in
      (rw (← same) whole, rw (← same) n, rw (← same) d)

  -- Every label but `www` in front of the apex is read as the slug of an institute.
  pub classify_host-subdomain_complete :
      (slug : Text)
      → nonempty slug ≡ true
      → has b'.' slug ≡ false
      → slug ≢ codes "www"
      → classify_host cm (slug ++ dotted (apex_name cm apex_domain)) apex_domain ≡ subdomain slug
  classify_host-subdomain_complete slug n d w =
      let name = apex_name cm apex_domain in
      rw (classify_host_lem, not-apex slug name n w, under-append slug name n d)
        (ap subdomain (label-append slug name))

  -- The host of a classification that is not the apex's is told apart from every institute's.
  pub classify_host-foreign :
      (host : Text)
      → (host == apex_name cm apex_domain) ≡ false
      → ends_with (dotted (apex_name cm apex_domain)) host ≡ false
      → classify_host cm host apex_domain ≡ foreign host
  classify_host-foreign host a b =
      let name = apex_name cm apex_domain in
      rw (classify_host_lem) (elim (Bool-cases (host == (codes "www." ++ name))) [
        | inl www ↦ absurd (
            cc (
              ap (ends_with (dotted name)) ((eq_iff host (codes "www." ++ name)).0 www),
              ends_with-append (dotted name) (codes "www"),
              b,
            ))
        | inr other ↦ rw (a, other, b) refl
      ])
