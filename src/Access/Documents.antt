-- ===== src/Access/Documents.antt =====
-- src/lib/access/media.ts: the documents of a course, public ones for everybody and the others for
-- the enrolled.
use lamp_light.Base.{
  ℕ, ◌≡◌, refl, ap, ◌∙◌, subst, ◌⊎◌, inl, inr, Bool, true, not, ◌&&◌, ◌||◌, Option, none, some,
  List, [], ◌∷◌, if◌then◌else◌, All, Memᴰ, is_some, arith, Bool-cases, Option-cases, and-eq-true,
}
use lamp_light.Base.Text.{Text, codes, truthy, ◌==◌, eq_iff}
use lamp_light.Db.{CourseResource, Database}
use lamp_light.Db.Documents.{is_document, list_course_resources, list_course_resources-All}
use lamp_light.Storage.Keys.{key_belongs_to_tenant}
use lamp_light.Storage.Signing.{
  StorageSigner, Access, ok, ◌>>=◌, bind_cases, ok-injective, sign_object_read, read_request,
  sign_object_read_sound,
}
use lamp_light.Access.Predicate.{AccessContext, scope_of}

pub record IssuedDocument : Type 0 where
  pub resource_id : Text
  pub title : Text
  pub is_public : Bool
  pub url : Text

-- `a || b` on optional texts.
abbrev pub or_text : Option Text → Text → Text
or_text none d = d
or_text (some t) d = t

-- `resource.title || resource.filename || 'Document'`
abbrev pub title_of : CourseResource → Text
title_of r = or_text (truthy (some r.title)) (or_text (truthy r.filename) (codes "Document"))

abbrev pub issued_document : CourseResource → Text → IssuedDocument
issued_document r url = record {
  resource_id = r.id;
  title = title_of r;
  is_public = r.is_public;
  url = url;
}

-- The key of an object that is confirmed.
unfoldable pub confirmed_key : CourseResource → Option Text
confirmed_key r = if is_some r.byte_size then truthy r.storage_key else none

confirmed_key_sound :
    (r : CourseResource) (key : Text)
    → confirmed_key r ≡ some key
    → (truthy r.storage_key ≡ some key) × (is_some r.byte_size ≡ true)
unfolding confirmed_key
confirmed_key_sound r key e = elim (Bool-cases (is_some r.byte_size)) [
  | inl sized ↦ (rw (sized, confirmed_key) at e, sized)
  | inr unsized ↦ absurd (cc (rw (unsized, confirmed_key) at e))
]

module _ (signer : StorageSigner) (now ttl : ℕ) where
  -- One turn of the loop: what it pushes, if anything.
  unfoldable pub issue_document : Text → Bool → CourseResource → Access (Option IssuedDocument)
  unfolding confirmed_key
  issue_document tenant enrolled r =
      if not r.is_public && not enrolled then ok none else elim (truthy r.url) [
        | some url ↦ ok (some (issued_document r url))
        | none ↦ elim (confirmed_key r) [
          | none ↦ ok none
          | some key ↦ do
            signed ← sign_object_read signer now ttl tenant key
            ok (some (issued_document r signed.url))
        ]
      ]

  abbrev pub push : Option IssuedDocument → List IssuedDocument → List IssuedDocument
  push none ds = ds
  push (some d) ds = d ∷ ds

  unfoldable pub issue_documents : Text → Bool → List CourseResource → Access (List IssuedDocument)
  unfolding issue_document
  issue_documents tenant enrolled [] = ok []
  issue_documents tenant enrolled (r ∷ rs) = do
    issued ← issue_document tenant enrolled r
    rest ← issue_documents tenant enrolled rs
    ok (push issued rest)

  unfoldable pub issue_course_documents :
      Database → AccessContext → Text → Bool → Access (List IssuedDocument)
  unfolding issue_documents list_course_resources
  issue_course_documents db ctx course_id enrolled =
      issue_documents ctx.tenant_id enrolled
        (list_course_resources (scope_of db ctx.tenant_id) course_id)

  -- Where the address of a document comes from: it is the row's own link, or it signs a key of the
  -- institute, which the row holds beside the size that its object was confirmed with.
  abbrev pub Origin : Text → CourseResource → Text → Type 0
  Origin tenant r url =
      (truthy r.url ≡ some url)
      ⊎ ((key : Text) × (truthy r.storage_key ≡ some key)
          × (is_some r.byte_size ≡ true)
          × (key_belongs_to_tenant key tenant ≡ true)
          × (url ≡ signer.sign_get (read_request signer key ttl)))

  -- A document of the course at this institute, which the viewer may open.
  pub record IsOffered (db : Database) (tenant course_id : Text) (enrolled : Bool)
      (d : IssuedDocument) : Type 0 where
    pub resource : CourseResource
    pub listed : Memᴰ resource db.course_resources
    pub tenant_is : resource.tenant_id ≡ tenant
    pub course_is : resource.course_id ≡ course_id
    pub open_to : (resource.is_public || enrolled) ≡ true
    pub fields : d ≡ issued_document resource d.url
    pub origin : Origin tenant resource d.url

  -- What is issued for a row with an address.
  offered :
      (db : Database) (tenant course_id : Text) (enrolled : Bool) (r : CourseResource) (url : Text)
      (d : IssuedDocument)
      → (is_document tenant course_id r ≡ true) × Memᴰ r db.course_resources
      → (r.is_public || enrolled) ≡ true
      → Origin tenant r url
      → issued_document r url ≡ d
      → IsOffered db tenant course_id enrolled d
  offered db tenant course_id enrolled r url d (document, listed) open_now origin e =
      let (t, c) = and-eq-true (r.tenant_id == tenant) (r.course_id == course_id) document in
      subst (IsOffered db tenant course_id enrolled) e (record {
        resource = r;
        listed = listed;
        tenant_is = (eq_iff _ _).0 t;
        course_is = (eq_iff _ _).0 c;
        open_to = open_now;
        fields = refl;
        origin = origin;
      })

  some_ok-injective : {A : Type 0} (a b : A) → ok (some a) ≡ ok (some b) → a ≡ b
  some_ok-injective a b e = ground arith

  nothing_ok : {A : Type 0} (d : A) → ¬ (ok none ≡ ok (some d))
  nothing_ok d e = cc

  issue_document-IsOffered :
      (db : Database) (tenant course_id : Text) (enrolled : Bool) (r : CourseResource)
      (d : IssuedDocument)
      → (is_document tenant course_id r ≡ true) × Memᴰ r db.course_resources
      → issue_document tenant enrolled r ≡ ok (some d)
      → IsOffered db tenant course_id enrolled d
  unfolding issue_document
  issue_document-IsOffered db tenant course_id enrolled r d listed e =
      elim (Bool-cases (not r.is_public && not enrolled)) [
        | inl shut ↦ absurd (nothing_ok d (rw (shut, issue_document) at e))
        | inr opened ↦
            let open_now : (r.is_public || enrolled) ≡ true = ground arith in
            elim (Option-cases (truthy r.url)) [
              | inr (url, link) ↦
                  offered db tenant course_id enrolled r url d listed open_now (inl link) (
                    some_ok-injective (issued_document r url) d
                      (rw (opened, link, issue_document) at e))
              | inl stored ↦ elim (Option-cases (confirmed_key r)) [
                | inl missing ↦
                    absurd (nothing_ok d (rw (opened, stored, missing, issue_document) at e))
                | inr (key, found) ↦
                    let (signed, good, made) =
                      bind_cases (sign_object_read signer now ttl tenant key)
                        (λ s. ok (some (issued_document r s.url))) (some d)
                        (rw (opened, stored, found, issue_document) at e) in
                    let (own, url_is, _) =
                      sign_object_read_sound signer now ttl tenant key signed good in
                    let held = confirmed_key_sound r key found in
                    offered db tenant course_id enrolled r signed.url d listed open_now
                      (inr (key, held.0, held.1, own, url_is))
                      (some_ok-injective (issued_document r signed.url) d made)
              ]
            ]
      ]

  issue_documents-IsOffered :
      (db : Database) (tenant course_id : Text) (enrolled : Bool) (rs : List CourseResource)
      (ds : List IssuedDocument)
      → All (λ r. (is_document tenant course_id r ≡ true) × Memᴰ r db.course_resources) rs
      → issue_documents tenant enrolled rs ≡ ok ds
      → All (IsOffered db tenant course_id enrolled) ds
  unfolding issue_documents
  issue_documents-IsOffered db tenant course_id enrolled [] ds h e =
      subst (All (IsOffered db tenant course_id enrolled)) (ok-injective [] ds e) tt
  issue_documents-IsOffered db tenant course_id enrolled (r ∷ rs) ds (h, hs) e =
      let (issued, one, rest_e) =
        bind_cases (issue_document tenant enrolled r)
          (λ i. issue_documents tenant enrolled rs >>= (λ rest. ok (push i rest))) ds e in
      let (rest, listed, whole) =
        bind_cases (issue_documents tenant enrolled rs) (λ rest. ok (push issued rest)) ds rest_e in
      let later = issue_documents-IsOffered db tenant course_id enrolled rs rest hs listed in
      subst (All (IsOffered db tenant course_id enrolled))
        (ok-injective (push issued rest) ds whole)
        (elim (Option-cases issued) [
          | inl skipped ↦ rw skipped later
          | inr (d, made) ↦ rw made (
            issue_document-IsOffered db tenant course_id enrolled r d h (one ∙ ap ok made),
            later,
          )
        ])

  -- Every document that is issued is one of this course at this institute, open to everybody or to
  -- an enrolled viewer, and its address is the row's own link or signs a key of this institute that
  -- the row holds beside the size of a confirmed object.
  pub issue_course_documents-IsOffered :
      (db : Database) (ctx : AccessContext) (course_id : Text) (enrolled : Bool)
      (ds : List IssuedDocument)
      → issue_course_documents db ctx course_id enrolled ≡ ok ds
      → All (IsOffered db ctx.tenant_id course_id enrolled) ds
  unfolding issue_course_documents
  issue_course_documents-IsOffered db ctx course_id enrolled ds e =
      issue_documents-IsOffered db ctx.tenant_id course_id enrolled
        (list_course_resources (scope_of db ctx.tenant_id) course_id) ds
        (list_course_resources-All (scope_of db ctx.tenant_id) course_id) e
