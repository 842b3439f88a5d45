-- ===== src/Storage/Keys.antt =====
-- src/lib/storage/keys.ts: how a key is built from an upload, and when a key is an institute's.
pub mod Names
pub mod Prefixes
use lamp_light.Base.{
  ℕ, Bool, true, false, not, ◌&&◌, ◌||◌, Option, none, some, List, [], ◌∷◌, ◌++◌, nat_eq,
  if◌then◌else◌, take,
}
use lamp_light.Base.Text.{Text, codes, starts_with, includes, is_digit, is_lower, is_upper}

-- /[a-zA-Z0-9._-]/
unfoldable pub is_safe : ℕ → Bool
is_safe c =
    is_lower c || is_upper c || is_digit c || nat_eq c b'.' || nat_eq c b'_' || nat_eq c b'-'

pub data MediaPurpose : Type 0 where
  lesson branding : MediaPurpose

abbrev pub purpose_text : MediaPurpose → Text
purpose_text lesson = codes "lesson"
purpose_text branding = codes "branding"

abbrev pub tenant_prefix : Text → Text
tenant_prefix tenant_id = codes "t/" ++ (tenant_id ++ codes "/")

-- `filename.split(/[\\/]/).pop()`: what follows the last slash of either kind. The second argument
-- is the part read so far.
unfoldable pub base_from : Text → Text → Text
base_from part [] = part
base_from part (c ∷ s) = base_from (if nat_eq c b'/' || nat_eq c 0x5c then [] else part ++ c ∷ []) s

-- `.replace(/[^a-zA-Z0-9._-]+/g, '-')`; the first argument says that a run is under way.
unfoldable pub hyphenate : Bool → Text → Text
hyphenate run [] = []
hyphenate run (c ∷ s) = elim (is_safe c) [
  | true ↦ c ∷ hyphenate false s
  | false ↦ if run then hyphenate true s else b'-' ∷ hyphenate true s
]

-- `.replace(/-{2,}/g, '-')`; the first argument says that the last character was a hyphen.
unfoldable pub collapse : Bool → Text → Text
collapse run [] = []
collapse run (c ∷ s) = elim (nat_eq c b'-') [
  | true ↦ if run then collapse true s else b'-' ∷ collapse true s
  | false ↦ c ∷ collapse false s
]

-- `.replace(/^[.-]+/, '')`
unfoldable pub strip_front : Text → Text
strip_front [] = []
strip_front (c ∷ s) = if nat_eq c b'.' || nat_eq c b'-' then strip_front s else c ∷ s

-- `.replace(/-+$/, '')`
unfoldable pub strip_back : Text → Text
strip_back [] = []
strip_back (c ∷ s) = elim (strip_back s) [
  | [] ↦ if nat_eq c b'-' then [] else c ∷ []
  | d ∷ t ↦ c ∷ d ∷ t
]

abbrev pub or_file : Text → Text
or_file [] = codes "file"
or_file (c ∷ s) = c ∷ s

unfoldable pub cleaned : Text → Text
unfolding base_from hyphenate is_safe collapse strip_front strip_back
cleaned filename =
    strip_back (strip_front (collapse false (hyphenate false (base_from [] filename))))

unfoldable pub sanitize_filename : Text → Text
unfolding cleaned
sanitize_filename filename = or_file (take 120 (cleaned filename))

pub record KeyParams : Type 0 where
  pub tenant_id : Text
  pub purpose : MediaPurpose
  pub object_id : Text
  pub filename : Text

unfoldable pub build_object_key : KeyParams → Text
unfolding sanitize_filename
build_object_key p =
    tenant_prefix p.tenant_id
    ++ (purpose_text p.purpose
        ++ (codes "/" ++ (p.object_id ++ (codes "/" ++ sanitize_filename p.filename))))

unfoldable pub key_belongs_to_tenant : Text → Text → Bool
unfolding starts_with includes
key_belongs_to_tenant [] tenant_id = false
key_belongs_to_tenant (c ∷ key) tenant_id =
    if includes (codes "..") (c ∷ key)
    then false
    else if starts_with (codes "/") (c ∷ key)
    then false
    else starts_with (tenant_prefix tenant_id) (c ∷ key)
