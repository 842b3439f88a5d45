-- ===== src/Tests/Sweep.antt =====
-- Runs of src/app/api/platform/sweep/route.ts.
use lamp_light.Base.{ℕ, ◌≤◌, ◌≡◌, refl, true, none, some, List, [], ◌∷◌, All, length}
use lamp_light.Base.Text.{Text, codes, ascii_case_map}
use lamp_light.Db.{student, Invitation}
use lamp_light.Tenancy.Resolve.{empty_cache}
use lamp_light.Domains.Rows.{other_error, CustomHostnameClient}
use lamp_light.Domains.Slugs.{new_registry}
use lamp_light.Sweep.{Site, Counts, swept, post_sweep}
use lamp_light.Sweep.Retention.{IsTidy, post_sweep-IsTidy}
use lamp_light.Tests.Data.{here, there, rows_both}

abbrev unreachable : CustomHostnameClient
unreachable = record {
  create = λ hostname. other_error;
  get = λ id. other_error;
  remove = λ id. other_error;
}

-- It expired at 1000.
abbrev row : Invitation
row = record {
  tenant_id = here;
  id = codes "v1";
  email = codes "ben@x.org";
  first_name = codes "Ben";
  last_name = [];
  answers = [];
  role = student;
  token_hash = codes "h";
  expires_at = 1000;
  consumed_at = none;
  created_at = 100;
}

abbrev site : Site
site = record {
  db = record rows_both { invitations = row ∷ [] };
  registry = new_registry empty_cache;
}

abbrev turns : List (Text × ℕ)
turns = (there, 4000) ∷ (here, 5000) ∷ []

post_sweep-IsTidy_example :
    (n : Counts) × ((post_sweep ascii_case_map
        (codes "lamp.example")
        true
        unreachable
        (some (codes "s3"))
        (some (codes "s3"))
        turns
        site).0
      ≡ swept (length turns) n true)
    × All
        (IsTidy
          (post_sweep ascii_case_map
            (codes "lamp.example")
            true
            unreachable
            (some (codes "s3"))
            (some (codes "s3"))
            turns
            site).1.db)
        turns
    × (n.failed ≤ length turns)
post_sweep-IsTidy_example =
    post_sweep-IsTidy ascii_case_map (codes "lamp.example") true unreachable (some (codes "s3"))
      (some (codes "s3")) (codes "s3") turns site refl refl
