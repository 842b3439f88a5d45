-- ===== src/Tests/Tenancy.antt =====
-- Runs of src/lib/tenancy.
use lamp_light.Base.{
  ℕ, ◌+◌, ◌<◌, ◌≤◌, ltb, if◌then◌else◌, ◌≡◌, ◌≢◌, refl, ◌⊎◌, true, some, List, [], ◌∷◌, Memᴰ, arith,
}
use lamp_light.Base.Text.{
  Text, codes, ◌==◌, starts_with, ends_with, includes, index_of, is_space, trim, trim_start,
  trim_end, ascii_case_map,
}
use lamp_light.Tenancy.Host.{
  subdomain, normalize_v6, strip_port, strip_dot, check_host, normalize_name, normalize_host,
  apex_name, classify_host, is_valid_slug,
}
use lamp_light.Tenancy.Host.Shape.{IsName, IsHost, normalize_host-IsHost}
use lamp_light.Tenancy.Host.Spelling.{normalize_host-spelling}
use lamp_light.Tenancy.Resolve.{
  TenantStatus, VerificationStatus, Tenant, Directory, is_live, find_owner, lookup_uncached,
  resolve_host,
}
use lamp_light.Tenancy.Resolve.Sources.{Entitled, lookup_uncached_sound}
use lamp_light.Tenancy.Resolve.Staleness.{
  Event, write, drop_all, at, after, in_context, kept_for, resolve_host-fresh,
}

abbrev root : Text
root = codes "Lamp.example"

abbrev host : Text
host = codes "school.lamp.example"

abbrev own_name : Text
own_name = codes "school.example"

abbrev school : Tenant
school = record {
  id = codes "i1";
  slug = codes "school";
  name = codes "School";
  status = TenantStatus.active;
}

abbrev directory : Directory
directory = record {
  tenants = school ∷ [];
  domains =
      record { tenant_id = codes "i1"; hostname = own_name; status = VerificationStatus.active }
      ∷ [];
}

name : IsName (codes "lamp.example")
unfolding includes ends_with ◌==◌ starts_with
name = record { chars = refl; no_gap = refl; no_dot = refl }

normalized : normalize_host ascii_case_map (some (codes " School.Lamp.example:80")) ≡ some host
unfolding normalize_host normalize_name normalize_v6 strip_port strip_dot check_host trim trim_start
    trim_end is_space starts_with ends_with includes index_of ◌==◌
normalized = refl

normalize_host-IsHost_example : IsHost host
normalize_host-IsHost_example =
    normalize_host-IsHost ascii_case_map (some (codes " School.Lamp.example:80")) host normalized

normalize_host-spelling_example :
    normalize_host ascii_case_map (some (codes "Lamp.Example.:8080")) ≡ some (codes "lamp.example")
normalize_host-spelling_example =
    normalize_host-spelling ascii_case_map (codes "lamp.example") (codes "Lamp.Example") true
      (some (codes "8080")) name refl refl

classified : classify_host ascii_case_map host root ≡ subdomain (codes "school")
unfolding classify_host apex_name trim trim_start trim_end is_space ends_with ◌==◌
classified = refl

not_www : codes "school" ≢ codes "www"
not_www e = cc

looked_up : lookup_uncached ascii_case_map directory own_name root ≡ some school
unfolding lookup_uncached classify_host apex_name find_owner trim trim_start trim_end is_space
    ends_with ◌==◌
looked_up = refl

lookup_uncached_sound_example :
    Memᴰ school directory.tenants
    × (is_live school ≡ true)
    × Entitled ascii_case_map directory root own_name school
lookup_uncached_sound_example =
    lookup_uncached_sound ascii_case_map directory root own_name school looked_up

slug_valid : is_valid_slug (codes "school") ≡ true
unfolding is_valid_slug
slug_valid = refl

-- The institute is suspended at the time 50.
abbrev history : ℕ → Directory
history w =
    if ltb w 50
    then directory
    else record directory { tenants = record school { status = TenantStatus.suspended } ∷ [] }

on_time : 45 ≤ 40 + 10
on_time = omega arith

abbrev events : List (Event ascii_case_map root history 10)
events = write own_name 40 45 on_time ∷ drop_all ∷ []

resolve_host-fresh_example :
    (w : ℕ) × ((resolve_host ascii_case_map
        (history 60)
        root
        own_name
        59
        61
        (after ascii_case_map root history 10 events)).0
      ≡ in_context ascii_case_map root history 10 own_name
          (at ascii_case_map root history 10 w own_name))
    × ((w ≡ 60)
        ⊎ (59
            < w
              + 10
              + kept_for ascii_case_map root history 10 (
                  in_context ascii_case_map root history 10 own_name
                    (at ascii_case_map root history 10 w own_name))))
resolve_host-fresh_example =
    resolve_host-fresh ascii_case_map root history 10 events own_name 60 59 61
