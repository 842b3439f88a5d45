-- ===== src/Domains/Primary.antt =====
-- src/lib/domains: the choice of the primary domain and the redirect to it.
use lamp_light.Base.{
  ◌≡◌, refl, ap, ◌∙◌, inl, inr, true, false, Option, none, some, List, [], ◌∷◌, map, find,
  if◌then◌else◌, arith, Bool-cases, Option-cases,
}
use lamp_light.Base.Text.{Text, ◌==◌, eq_iff, truthy, CaseMap}
use lamp_light.Tenancy.Host.{absolute_url}
use lamp_light.Tenancy.Resolve.{TenantContext}
use lamp_light.Domains.Rows.{
  TenantDomain, is_active, Registry, is_row, find_domain, is_primary_row, find_primary_domain,
}
use lamp_light.Domains.Service.{is_other_row, choose, set_primary_domain, primary_redirect_for}

-- Where a visitor at `host` who asks for a path is sent.
abbrev pub sent_to : Text → Text → Option Text → Option Text
sent_to hostname host path =
    if hostname == host
    then none
    else elim (truthy path) [ none ↦ none | some p ↦ some (absolute_url hostname p) ]

module _ (tenant id : Text) where
  -- What the two updates make of a row.
  chosen_row : TenantDomain → TenantDomain
  chosen_row x =
      let y : TenantDomain =
        if is_other_row tenant id x then record x { is_primary = false } else x in
      if is_row tenant id y then record y { is_primary = true } else y

  choose-map : (ds : List TenantDomain) → choose tenant id ds ≡ map chosen_row ds
  unfolding chosen_row
  choose-map [] = refl
  choose-map (x ∷ ds) = ap (λ r. chosen_row x ∷ r) (choose-map ds)

  own_row :
      (x : TenantDomain)
      → (x.tenant_id == tenant) ≡ true
      → (x.id == id) ≡ true
      → chosen_row x ≡ record x { is_primary = true }
  unfolding chosen_row
  own_row x here own = rw (here, own) (rw (here, own) refl)

  other_row :
      (x : TenantDomain)
      → (x.tenant_id == tenant) ≡ true
      → (x.id == id) ≡ false
      → chosen_row x ≡ record x { is_primary = false }
  unfolding chosen_row
  other_row x here other = rw (here, other) (rw (here, other) refl)

  away_row : (x : TenantDomain) → (x.tenant_id == tenant) ≡ false → chosen_row x ≡ x
  unfolding chosen_row
  away_row x away = rw away (rw away refl)

  find-chosen :
      (ds : List TenantDomain) (d : TenantDomain)
      → find (is_row tenant id) ds ≡ some d
      → is_active d.verification_status ≡ true
      → find (is_primary_row tenant) (map chosen_row ds) ≡ some (record d { is_primary = true })
  find-chosen [] d found live = cc
  find-chosen (x ∷ ds) d found live = elim (Bool-cases (x.tenant_id == tenant)) [
    | inr away ↦ rw (away_row x away, away) (find-chosen ds d (ground arith) live)
    | inl here ↦ elim (Bool-cases (x.id == id)) [
      | inr other ↦ rw (other_row x here other, here) (find-chosen ds d (ground arith) live)
      | inl own ↦
          let same : x ≡ d = ground arith in
          let good : is_active x.verification_status ≡ true =
            ap (λ (r : TenantDomain). is_active r.verification_status) same ∙ live in
          rw (own_row x here own, here, good)
            (ap {A = TenantDomain} (λ r. some (record r { is_primary = true })) same)
    ]
  ]

  absent : (t u : Text) → (t == tenant) ≡ false → (u == tenant) ≡ true → (u == t) ≡ false
  absent t u n h = elim (Bool-cases (u == t)) [
    | inr out ↦ out
    | inl same ↦ let k = (eq_iff u t).0 same in absurd (cc (n, ap (λ r. r == tenant) k, h))
  ]

  find-chosen_apart :
      (t : Text) (ds : List TenantDomain)
      → (t == tenant) ≡ false
      → find (is_primary_row t) (map chosen_row ds) ≡ find (is_primary_row t) ds
  find-chosen_apart t [] apart = refl
  find-chosen_apart t (x ∷ ds) apart = elim (Bool-cases (x.tenant_id == tenant)) [
    | inr away ↦ rw (away_row x away) (ground (arith, find-chosen_apart t ds apart))
    | inl here ↦
        let out : (x.tenant_id == t) ≡ false = absent t x.tenant_id apart here in
        elim (Bool-cases (x.id == id)) [
          | inr other ↦ rw (other_row x here other, out) (find-chosen_apart t ds apart)
          | inl own ↦ rw (own_row x here own, out) (find-chosen_apart t ds apart)
        ]
  ]

  redirect_found :
      (t : TenantContext) (path : Option Text) (reg : Registry) (d : TenantDomain)
      → find_primary_domain t.id reg ≡ some d
      → primary_redirect_for t path reg ≡ sent_to d.hostname t.host path
  unfolding primary_redirect_for
  redirect_found t path reg d e = rw (e, primary_redirect_for) refl

  redirect_same :
      (t : TenantContext) (path : Option Text) (r s : Registry)
      → find_primary_domain t.id r ≡ find_primary_domain t.id s
      → primary_redirect_for t path r ≡ primary_redirect_for t path s
  unfolding primary_redirect_for
  redirect_same t path r s e = rw (e, primary_redirect_for) refl

  -- A choice that succeeds is of a verified domain of the institute, and then visitors at the
  -- institute's other hosts are redirected there, and those at that domain nowhere; the redirects of
  -- every other institute are as they were.
  pub primary_redirect_for-set_primary_domain :
      (cm : CaseMap) (reg : Registry)
      → (set_primary_domain cm tenant id reg).0 ≡ true
      → (d : TenantDomain) × (find_domain tenant id reg ≡ some d)
        × (is_active d.verification_status ≡ true)
        × ((t : TenantContext) (path : Option Text)
            → primary_redirect_for t path (set_primary_domain cm tenant id reg).1 ≡ (
                if t.id == tenant
                then sent_to d.hostname t.host path
                else primary_redirect_for t path reg))
  unfolding set_primary_domain find_domain find_primary_domain
  primary_redirect_for-set_primary_domain cm reg e =
      elim (Option-cases (find (is_row tenant id) reg.domains)) [
        | inl missing ↦ absurd (ground arith)
        | inr (d, found) ↦ elim (Bool-cases (is_active d.verification_status)) [
          | inr other ↦ absurd (ground arith)
          | inl live ↦ (
            d,
            found,
            live,
            λ t path. elim (Bool-cases (t.id == tenant)) [
              | inl here ↦ rw here (
                  redirect_found t path _ (record d { is_primary = true })
                    (rw
                      (
                        found,
                        live,
                        set_primary_domain,
                        (eq_iff t.id tenant).0 here,
                        choose-map reg.domains,
                      )
                      (find-chosen reg.domains d found live)))
              | inr apart ↦ rw apart (
                  redirect_same t path _ reg (
                    rw (found, live, set_primary_domain, choose-map reg.domains)
                      (find-chosen_apart t.id reg.domains apart)))
            ],
          )
        ]
      ]
