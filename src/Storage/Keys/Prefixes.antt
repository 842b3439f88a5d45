-- ===== src/Storage/Keys/Prefixes.antt =====
-- keys.ts, `buildObjectKey` and `keyBelongsToTenant`: which institute a key belongs to.
use lamp_light.Base.{
  ◌≡◌, refl, sym, ap, ap₂, ◌∙◌, true, false, not, ◌&&◌, [], ◌∷◌, ◌++◌, drop, arith, append_assoc,
}
use lamp_light.Base.Text.{Text, codes, has, starts_with, includes}
use lamp_light.Base.Text.Laws.{starts_with-append, starts_with-split}
use lamp_light.Storage.Keys.{
  tenant_prefix, purpose_text, KeyParams, build_object_key, key_belongs_to_tenant,
  sanitize_filename,
}

rest_of_key : KeyParams → Text
rest_of_key p =
    purpose_text p.purpose
    ++ (codes "/" ++ (p.object_id ++ (codes "/" ++ sanitize_filename p.filename)))

build_object_key_lem :
    (p : KeyParams) → build_object_key p ≡ tenant_prefix p.tenant_id ++ rest_of_key p
unfolding build_object_key rest_of_key
build_object_key_lem p = refl

pub starts_with-build :
    (p : KeyParams) → starts_with (tenant_prefix p.tenant_id) (build_object_key p) ≡ true
starts_with-build p =
    rw build_object_key_lem (starts_with-append (tenant_prefix p.tenant_id) (rest_of_key p))

belongs_lem :
    (key tenant_id : Text)
    → key_belongs_to_tenant (b't' ∷ key) tenant_id ≡ (
        not (includes (codes "..") (b't' ∷ key))
        && starts_with (tenant_prefix tenant_id) (b't' ∷ key))
unfolding key_belongs_to_tenant
belongs_lem key tenant_id = ground arith

-- A key built for an institute is accepted as that institute's exactly when no two dots stand
-- together in it.
pub key_belongs-build :
    (p : KeyParams)
    → key_belongs_to_tenant (build_object_key p) p.tenant_id
      ≡ not (includes (codes "..") (build_object_key p))
key_belongs-build p = rw build_object_key_lem (
    belongs_lem (codes "/" ++ (p.tenant_id ++ codes "/") ++ rest_of_key p) p.tenant_id
    ∙ ground (arith, starts_with-append (tenant_prefix p.tenant_id) (rest_of_key p)))

includes-front : (p a s : Text) → includes p s ≡ true → includes p (a ++ s) ≡ true
unfolding includes
includes-front p [] s h = h
includes-front p (c ∷ a) s h = ground (arith, includes-front p a s)

-- A file name that keeps two dots together makes a key that its own institute cannot use: the check
-- before signing refuses every such key that `buildObjectKey` builds.
pub key_belongs-build-dots :
    (p : KeyParams)
    → includes (codes "..") (sanitize_filename p.filename) ≡ true
    → key_belongs_to_tenant (build_object_key p) p.tenant_id ≡ false
unfolding rest_of_key
key_belongs-build-dots p h =
    let dots = codes ".." in
    let name = codes "/" ++ sanitize_filename p.filename in
    let inside : includes dots (rest_of_key p) ≡ true =
      includes-front dots (purpose_text p.purpose) _ (
        includes-front dots (codes "/") _ (
          includes-front dots p.object_id name
            (includes-front dots (codes "/") (sanitize_filename p.filename) h))) in
    key_belongs-build p
    ∙ ap not (
        ap (includes dots) (build_object_key_lem p)
        ∙ includes-front dots (tenant_prefix p.tenant_id) (rest_of_key p) inside)

-- The prefixes of two institutes whose ids hold no slash start no common key.
same_prefix :
    (t u a b : Text)
    → has b'/' t ≡ false
    → has b'/' u ≡ false
    → (t ++ b'/' ∷ a) ≡ (u ++ b'/' ∷ b)
    → t ≡ u
same_prefix [] [] a b p q e = refl
same_prefix [] (d ∷ u) a b p q e = absurd (ground arith)
same_prefix (c ∷ t) [] a b p q e = absurd (ground arith)
same_prefix (c ∷ t) (d ∷ u) a b p q e =
    let head : c ≡ d = ground arith in
    let tail : (t ++ b'/' ∷ a) ≡ (u ++ b'/' ∷ b) = ground arith in
    ap₂ ◌∷◌ head (same_prefix t u a b (ground arith) (ground arith) tail)

belongs-prefix :
    (key t : Text) → key_belongs_to_tenant key t ≡ true → starts_with (tenant_prefix t) key ≡ true
unfolding key_belongs_to_tenant
belongs-prefix [] t h = cc
belongs-prefix (c ∷ key) t h = ground arith

-- No key belongs to two institutes whose ids hold no slash.
pub key_belongs-one :
    (key t u : Text)
    → has b'/' t ≡ false
    → has b'/' u ≡ false
    → key_belongs_to_tenant key t ≡ true
    → key_belongs_to_tenant key u ≡ true
    → t ≡ u
key_belongs-one key t u p q h k =
    let (a, ea) = starts_with-split (tenant_prefix t) key (belongs-prefix key t h) in
    let (b, eb) = starts_with-split (tenant_prefix u) key (belongs-prefix key u k) in
    same_prefix t u a b p q (
      sym (append_assoc t (codes "/") a) ∙ ap (drop 2) (sym ea ∙ eb) ∙ append_assoc u (codes "/") b)
