-- ===== src/Tenancy/Host.antt =====
-- src/lib/tenancy/host.ts: what a Host header means, and which hostnames an institute may claim.
pub mod Shape
pub mod Normal
pub mod Spelling
pub mod Classify
pub mod Claims
use lamp_light.Base.{
  ℕ, suc, ◌+◌, ◌-◌, Bool, true, false, not, ◌&&◌, ◌||◌, Option, none, some, List, [], ◌∷◌, ◌++◌,
  ltb, leb, nat_eq, if◌then◌else◌, length, take, drop, all,
}
use lamp_light.Base.Text.{
  Text, codes, ◌==◌, starts_with, ends_with, has, includes, index_of, split, trim, drop_last, last?,
  is_digit, is_lower, CaseMap,
}

pub data HostClassification : Type 0 where
  apex : HostClassification
  subdomain foreign : Text → HostClassification

-- /[a-z0-9.-]/
abbrev pub is_host_char : ℕ → Bool
is_host_char c = is_lower c || is_digit c || nat_eq c b'.' || nat_eq c b'-'

-- /[0-9a-f:]/
abbrev pub is_v6_char : ℕ → Bool
is_v6_char c = is_digit c || (leb b'a' c && leb c b'f') || nat_eq c b':'

-- /[a-z0-9]/ and /[a-z0-9-]/
abbrev pub is_alnum : ℕ → Bool
is_alnum c = is_lower c || is_digit c

abbrev pub is_slug_char : ℕ → Bool
is_slug_char c = is_alnum c || nat_eq c b'-'

abbrev pub nonempty : Text → Bool
nonempty [] = false
nonempty (a ∷ s) = true

-- /^[…]+$/ for a class of characters
abbrev pub all_of : (ℕ → Bool) → Text → Bool
all_of p s = nonempty s && all p s

-- The suffix `.${apex}`
abbrev pub dotted : Text → Text
dotted name = b'.' ∷ name

-- /^\[[0-9a-f:]+\]$/
abbrev pub is_v6_literal : Text → Bool
is_v6_literal s =
    starts_with (codes "[") s
    && ends_with (codes "]") s
    && leb 3 (length s)
    && all is_v6_char (drop_last 1 (drop 1 s))

-- The branch for a bracketed literal: what follows the bracket is dropped.
unfoldable pub normalize_v6 : Text → Option Text
unfolding index_of starts_with ends_with
normalize_v6 host = elim (index_of b']' host) [
  | none ↦ none
  | some close ↦
      if is_v6_literal (take (close + 1) host) then some (take (close + 1) host) else none
]

-- `const colon = host.indexOf(':'); if (colon !== -1) host = host.slice(0, colon);`
unfoldable pub strip_port : Text → Text
unfolding index_of
strip_port host = elim (index_of b':' host) [ none ↦ host | some colon ↦ take colon host ]

-- `if (host.endsWith('.')) host = host.slice(0, -1);`
unfoldable pub strip_dot : Text → Text
unfolding ends_with
strip_dot host = if ends_with (codes ".") host then drop_last 1 host else host

-- The checks at the end of `normalizeHost`.
unfoldable pub check_host : Text → Option Text
unfolding includes
check_host host =
    if all_of is_host_char host && not (includes (codes "..") host) then some host else none

-- The other digits and letters of `normalizeHost`, once trimmed and in lower case.
unfoldable pub normalize_name : Text → Option Text
unfolding strip_port strip_dot check_host normalize_v6 starts_with
normalize_name host =
    if starts_with (codes "[") host
    then normalize_v6 host
    else check_host (strip_dot (strip_port host))

module _ (cm : CaseMap) where
  unfoldable pub normalize_host : Option Text → Option Text
  unfolding normalize_name trim
  normalize_host none = none
  normalize_host (some []) = none
  normalize_host (some (a ∷ s)) = normalize_name (cm.lower (trim (a ∷ s)))

  -- `apexDomain.trim().toLowerCase()`
  unfoldable pub apex_name : Text → Text
  unfolding trim
  apex_name apex_domain = cm.lower (trim apex_domain)

  unfoldable pub classify_host : Text → Text → HostClassification
  unfolding apex_name ◌==◌ ends_with
  classify_host host apex_domain =
      let apex_text = apex_name apex_domain in
      let label = drop_last (length apex_text + 1) host in
      if host == apex_text || host == (codes "www." ++ apex_text)
      then apex
      else if ends_with (dotted apex_text) host && nonempty label && not (has b'.' label)
      then subdomain label
      else foreign host

-- /^[a-z0-9](?:[a-z0-9-]{0,61}[a-z0-9])?$/
abbrev pub ends_alnum : Text → Bool
ends_alnum s = elim (last? s) [ none ↦ true | some c ↦ is_alnum c ]

unfoldable pub is_valid_slug : Text → Bool
is_valid_slug [] = false
is_valid_slug (a ∷ s) = is_alnum a && leb (length s) 62 && all is_slug_char s && ends_alnum s

pub data Reason : Type 0 where
  malformed platform : Reason

pub data HostnameClaim : Type 0 where
  ok : Text → HostnameClaim
  refused : Reason → HostnameClaim

-- A hostname that is malformed whatever the apex is.
unfoldable pub claim_shape : Text → Bool
unfolding split is_valid_slug
claim_shape hostname =
    leb 2 (length (split b'.' hostname))
    && leb (length hostname) 253
    && all is_valid_slug (split b'.' hostname)
    && not (elim (last? (split b'.' hostname)) [ none ↦ false | some l ↦ all_of is_digit l ])

module _ (cm : CaseMap) where
  unfoldable pub claim_normal : Text → Text → HostnameClaim
  unfolding claim_shape apex_name ◌==◌ ends_with
  claim_normal hostname apex_domain =
      if not (claim_shape hostname)
      then refused malformed
      else if hostname == apex_name cm apex_domain
          || ends_with (dotted (apex_name cm apex_domain)) hostname
      then refused platform
      else ok hostname

  unfoldable pub claimable_hostname : Text → Text → HostnameClaim
  unfolding claim_normal normalize_host
  claimable_hostname candidate apex_domain =
      if has b':' candidate then refused malformed else elim (normalize_host cm (some candidate)) [
        | none ↦ refused malformed
        | some hostname ↦ claim_normal hostname apex_domain
      ]

-- `host.split(':')[0]`
unfoldable pub is_local : Text → Bool
unfolding strip_port ◌==◌ ends_with
is_local host =
    strip_port host == codes "localhost"
    || ends_with (codes ".localhost") (strip_port host)
    || strip_port host == codes "127.0.0.1"
    || strip_port host == codes "[::1]"

unfoldable pub absolute_url : Text → Text → Text
unfolding is_local
absolute_url host path =
    (if is_local host then codes "http" else codes "https") ++ (codes "://" ++ (host ++ path))
