-- ===== src/Domains/Claims.antt =====
-- src/lib/domains/service.ts as the sweep calls it: what is left for the release of lapsed claims
-- after a refresh.
use lamp_light.Base.{
  ℕ, ◌≡◌, refl, sym, ◌∙◌, inl, inr, Bool, true, false, not, ◌&&◌, some, List, [], ◌∷◌, find,
  find_sound, any, filter, is_some, arith, Bool-cases, Option-cases, and-eq-true,
}
use lamp_light.Base.Text.{Text, ◌==◌, eq_iff, eq_refl, truthy, CaseMap}
use lamp_light.Db.Queries.{any-order_by, any_sound, any_complete}
use lamp_light.Db.Tables.{
  update, any-update_moves, any-update_stays, update-none, find-any_out, filter-none,
  any-filter_and, any_stronger,
}
use lamp_light.Domains.Rows.{
  CustomHostname, answered, CustomHostnameClient, TenantDomain, is_active, Registry, is_row,
  list_domains, find_domain,
}
use lamp_light.Domains.Service.{
  is_lapsed, refreshed, save_refresh, refresh_domain, refresh_each, refresh_all_domains,
  release_each, release_lapsed_claims, sweep_domains,
}

module _ (cm : CaseMap) (root : Text) (client : CustomHostnameClient) (now : ℕ)
    (tenant : Text) where
  -- A row of the institute that the provider does not know.
  abbrev pub is_unlinked : TenantDomain → Bool
  is_unlinked d = d.tenant_id == tenant && not (is_some (truthy d.cf_hostname_id))

  -- The loop still comes to the row.
  abbrev is_ahead : TenantDomain → TenantDomain → Bool
  is_ahead d e = not (is_active e.verification_status) && e.id == d.id

  abbrev lapsed : TenantDomain → Bool
  lapsed d = is_lapsed cm root true client now d

  -- A lapsed claim of the institute that the loop does not come to.
  abbrev is_missed : List TenantDomain → TenantDomain → Bool
  is_missed ds d = d.tenant_id == tenant && (lapsed d && not (any (is_ahead d) ds))

  refreshed-lapsed :
      (latest : CustomHostname) (d : TenantDomain) → lapsed (refreshed now latest d) ≡ false
  refreshed-lapsed latest d = ground arith

  refreshed_missed :
      (ds : List TenantDomain) (latest : CustomHostname) (d : TenantDomain)
      → is_missed ds (refreshed now latest d) ≡ false
  refreshed_missed ds latest d = ground (arith, refreshed-lapsed latest d)

  not_here :
      (e : TenantDomain) (ds : List TenantDomain) (d : TenantDomain)
      → is_row tenant e.id d ≡ false
      → is_missed (e ∷ ds) d ≡ false
      → is_missed ds d ≡ false
  not_here e ds d n h = elim (Bool-cases (e.id == d.id)) [
    | inl same ↦
        let k : (d.id == e.id) ≡ true = rw ((eq_iff e.id d.id).0 same) (eq_refl d.id) in
        ground arith
    | inr apart ↦ ground arith
  ]

  module _ (latest : Text → CustomHostname)
      (known : (cf : Text) → client.get cf ≡ answered (latest cf)) where
    refresh_domain-rows :
        (id : Text) (reg : Registry)
        → any is_unlinked reg.domains ≡ false
        → (h : CustomHostname) × ((refresh_domain cm root true client now tenant id reg).domains
            ≡ update (is_row tenant id) (refreshed now h) reg.domains)
    unfolding refresh_domain find_domain save_refresh
    refresh_domain-rows id reg linked = elim (Option-cases (find (is_row tenant id) reg.domains)) [
      | inl absent ↦ (
        latest [],
        rw (absent, refresh_domain)
            (sym (update-none (is_row tenant id) (refreshed now (latest [])) reg.domains absent)),
      )
      | inr (d, found) ↦ elim (Option-cases (truthy d.cf_hostname_id)) [
        | inl missing ↦
            let linked_d : is_unlinked d ≡ false =
              find-any_out (is_row tenant id) is_unlinked reg.domains d linked found in
            let (m, fits) = find_sound (is_row tenant id) reg.domains d found in
            let own = (and-eq-true (d.tenant_id == tenant) (d.id == id) fits).0 in
            absurd (ground arith)
        | inr (cf, is) ↦ (latest cf, rw (found, is, known cf, refresh_domain) refl)
      ]
    ]

    -- One step of the loop, of a row that is not passed over.
    refresh_domain-missed :
        (e : TenantDomain) (ds : List TenantDomain) (reg : Registry)
        → any is_unlinked reg.domains ≡ false
        → any (is_missed (e ∷ ds)) reg.domains ≡ false
        → (any is_unlinked (refresh_domain cm root true client now tenant e.id reg).domains ≡ false)
          × (any (is_missed ds) (refresh_domain cm root true client now tenant e.id reg).domains
              ≡ false)
    refresh_domain-missed e ds reg linked covered =
        let (h, rows) = refresh_domain-rows e.id reg linked in
        (
          rw rows (
              any-update_stays (is_row tenant e.id) is_unlinked (refreshed now h) (λ x n. n)
                reg.domains linked),
          rw rows (
              any-update_moves (is_row tenant e.id) (is_missed (e ∷ ds)) (is_missed ds)
                (refreshed now h) (λ x n. refreshed_missed ds h x) (not_here e ds) reg.domains
                covered),
        )

    refresh_each-missed :
        (ds : List TenantDomain) (reg : Registry)
        → any is_unlinked reg.domains ≡ false
        → any (is_missed ds) reg.domains ≡ false
        → any (is_missed []) (refresh_each cm root true client now tenant ds reg).domains ≡ false
    unfolding refresh_each
    refresh_each-missed [] reg linked covered = covered
    refresh_each-missed (e ∷ ds) reg linked covered =
        elim (Bool-cases (is_active e.verification_status)) [
          | inl live ↦
              rw (live, refresh_each)
                (refresh_each-missed ds reg linked (
                  any_stronger (is_missed ds) (is_missed (e ∷ ds)) (λ x h. ground arith) reg.domains
                    covered))
          | inr other ↦
              let (l, c) = refresh_domain-missed e ds reg linked covered in
              rw (other, refresh_each) (refresh_each-missed ds _ l c)
        ]

    all_ahead : (reg : Registry) → any (is_missed (list_domains tenant reg)) reg.domains ≡ false
    unfolding list_domains
    all_ahead reg = elim (Bool-cases (any (is_missed (list_domains tenant reg)) reg.domains)) [
      | inr none_missed ↦ none_missed
      | inl some_missed ↦
          let (d, m, missed) =
            any_sound (is_missed (list_domains tenant reg)) reg.domains some_missed in
          let own = (and-eq-true (d.tenant_id == tenant) _ missed).0 in
          let same : (d.id == d.id) ≡ true = eq_refl d.id in
          let here : any (λ x. x.tenant_id == tenant && is_ahead d x) reg.domains ≡ true =
            any_complete (λ x. x.tenant_id == tenant && is_ahead d x) reg.domains d m
              (ground arith) in
          let listed : any (is_ahead d) (list_domains tenant reg) ≡ true =
            any-order_by _ (is_ahead d) (filter (λ x. x.tenant_id == tenant) reg.domains)
            ∙ any-filter_and (is_ahead d) (λ x. x.tenant_id == tenant) reg.domains
            ∙ here in
          absurd (ground arith)
    ]

    none_lapsed :
        (reg : Registry)
        → any (is_missed []) reg.domains ≡ false
        → release_lapsed_claims cm root true client now tenant reg ≡ (some 0, reg)
    unfolding release_lapsed_claims release_each list_domains
    none_lapsed reg h =
        rw
          (filter-none lapsed (list_domains tenant reg) (
            any-order_by _ lapsed (filter (λ x. x.tenant_id == tenant) reg.domains)
            ∙ any-filter_and lapsed (λ x. x.tenant_id == tenant) reg.domains
            ∙ any_stronger (λ x. x.tenant_id == tenant && lapsed x) (is_missed [])
                (λ x k. ground arith) reg.domains h))
          refl

    -- While the provider answers every question about a hostname, and every domain of the institute is
    -- known to it, the sweep of the institute releases no claim, however long ago one lapsed: it answers
    -- 0 and leaves everything as its refresh left it.
    pub sweep_domains-unreleased :
        (reg : Registry)
        → any is_unlinked reg.domains ≡ false
        → sweep_domains cm root true client now tenant reg
          ≡ (some 0, (refresh_all_domains cm root true client now tenant reg).1)
    unfolding sweep_domains refresh_all_domains
    sweep_domains-unreleased reg linked =
        none_lapsed _ (refresh_each-missed (list_domains tenant reg) reg linked (all_ahead reg))
