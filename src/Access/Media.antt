-- ===== src/Access/Media.antt =====
-- src/lib/access/media.ts: the signed URLs of a lesson's recordings.
use lamp_light.Base.{
  Memᴰ, filter-All, ℕ, ◌+◌, ◌*◌, ◌≡◌, ap, subst, ◌∙◌, inl, inr, Bool, true, Option, none, some,
  List, [], ◌∷◌, if◌then◌else◌, leb, All, is_some, arith, Bool-cases, Option-cases, and-eq-true,
}
use lamp_light.Base.Text.{Text, ◌==◌, eq_iff, truthy}
use lamp_light.Db.{ResourceKind, LessonResource, Scope, Database}
use lamp_light.Db.Queries.{All-order_by}
use lamp_light.Db.Lessons.{is_recording, list_lesson_resources}
use lamp_light.Storage.Keys.{key_belongs_to_tenant}
use lamp_light.Storage.Signing.{
  SignedUrl, StorageSigner, Access, ok, ◌>>=◌, sign_object_read, read_request,
  sign_object_read_sound, bind_cases, ok-injective,
}
use lamp_light.Access.Predicate.{AccessContext, allowed, decide_lesson_access, scope_of}

pub record IssuedMedia : Type 0 where
  pub resource_id : Text
  pub kind : ResourceKind
  pub filename : Option Text
  pub is_downloadable : Bool
  pub url : Text
  pub expires_at : ℕ

abbrev pub issued : LessonResource → SignedUrl → IssuedMedia
issued r signed = record {
  resource_id = r.id;
  kind = r.kind;
  filename = r.filename;
  is_downloadable = r.is_downloadable;
  url = signed.url;
  expires_at = signed.expires_at;
}

module _ (signer : StorageSigner) (now ttl : ℕ) where
  -- The loop over the resources; a row with no key is a link and is passed over.
  unfoldable pub issue_all : Text → List LessonResource → Access (List IssuedMedia)
  issue_all tenant_id [] = ok []
  issue_all tenant_id (r ∷ rs) = elim (truthy r.storage_key) [
    | none ↦ issue_all tenant_id rs
    | some key ↦ do
      signed ← sign_object_read signer now ttl tenant_id key
      rest ← issue_all tenant_id rs
      ok (issued r signed ∷ rest)
  ]

  -- The transaction: the predicate first, then the rows.
  unfoldable pub resources_for : Scope → AccessContext → Text → Option (List LessonResource)
  resources_for s ctx lesson_id =
      if allowed (decide_lesson_access now s ctx lesson_id)
      then some (list_lesson_resources s lesson_id)
      else none

  -- `null` is `ok none`.
  unfoldable pub issue_lesson_media :
      Database → AccessContext → Text → Access (Option (List IssuedMedia))
  issue_lesson_media db ctx lesson_id =
      elim (resources_for (scope_of db ctx.tenant_id) ctx lesson_id) [
        | none ↦ ok none
        | some rs ↦ do media ← issue_all ctx.tenant_id rs; ok (some media)
      ]

  -- A URL that was issued signs a key of the institute, which a confirmed recording of the lesson
  -- at this institute holds.
  pub record IsOwn (s : Scope) (lesson_id : Text) (m : IssuedMedia) : Type 0 where
    pub resource : LessonResource
    pub listed : Memᴰ resource s.db.lesson_resources
    pub key : Text
    pub tenant : resource.tenant_id ≡ s.tenant_id
    pub lesson : resource.lesson_id ≡ lesson_id
    pub confirmed : is_some resource.byte_size ≡ true
    pub stored : truthy resource.storage_key ≡ some key
    pub own : key_belongs_to_tenant key s.tenant_id ≡ true
    pub signed : m.url ≡ signer.sign_get (read_request signer key ttl)
    pub lapses : m.expires_at ≡ now + ttl * 1000

  some_not_none : {A : Type 0} (a : A) → ¬ (ok none ≡ ok (some a))
  some_not_none a e = cc

  Recordings : Scope → Text → List LessonResource → Type 0
  Recordings s lesson_id =
      All (λ r. (is_recording s.tenant_id lesson_id r ≡ true) × Memᴰ r s.db.lesson_resources)

  listed-Recordings :
      (s : Scope) (lesson_id : Text) → Recordings s lesson_id (list_lesson_resources s lesson_id)
  unfolding Recordings list_lesson_resources
  listed-Recordings s lesson_id =
      All-order_by (λ a b. leb a.sort_order b.sort_order)
        (λ r. (is_recording s.tenant_id lesson_id r ≡ true) × Memᴰ r s.db.lesson_resources) _
        (filter-All (is_recording s.tenant_id lesson_id) s.db.lesson_resources)

  issued-IsOwn :
      (s : Scope) (lesson_id key : Text) (r : LessonResource) (url : SignedUrl)
      → (is_recording s.tenant_id lesson_id r ≡ true) × Memᴰ r s.db.lesson_resources
      → truthy r.storage_key ≡ some key
      → sign_object_read signer now ttl s.tenant_id key ≡ ok url
      → IsOwn s lesson_id (issued r url)
  issued-IsOwn s lesson_id key r url fits has_key e =
      let (own, signed, lapses) = sign_object_read_sound signer now ttl s.tenant_id key url e in
      let (t, rest) = and-eq-true (r.tenant_id == s.tenant_id) _ fits.0 in
      let (l, size) = and-eq-true (r.lesson_id == lesson_id) (is_some r.byte_size) rest in
      record {
        resource = r;
        listed = fits.1;
        key = key;
        tenant = (eq_iff _ _).0 t;
        lesson = (eq_iff _ _).0 l;
        confirmed = size;
        stored = has_key;
        own = own;
        signed = signed;
        lapses = lapses;
      }

  issue_all-IsOwn :
      (s : Scope) (lesson_id : Text) (rs : List LessonResource) (ms : List IssuedMedia)
      → Recordings s lesson_id rs
      → issue_all s.tenant_id rs ≡ ok ms
      → All (IsOwn s lesson_id) ms
  unfolding Recordings issue_all
  issue_all-IsOwn s lesson_id [] ms h e = subst (All (IsOwn s lesson_id)) (ok-injective [] ms e) tt
  issue_all-IsOwn s lesson_id (r ∷ rs) ms (h, hs) e = elim (Option-cases (truthy r.storage_key)) [
    | inl link ↦ issue_all-IsOwn s lesson_id rs ms hs (rw (link, issue_all) at e)
    | inr (key, stored) ↦
        let (url, signed, rest_e) =
          bind_cases (sign_object_read signer now ttl s.tenant_id key)
            (λ u. issue_all s.tenant_id rs >>= (λ rest. ok (issued r u ∷ rest))) ms
            (rw (stored, issue_all) at e) in
        let (rest, listed, whole) =
          bind_cases (issue_all s.tenant_id rs) (λ rest. ok (issued r url ∷ rest)) ms rest_e in
        subst (All (IsOwn s lesson_id)) (ok-injective (issued r url ∷ rest) ms whole) (
          issued-IsOwn s lesson_id key r url h stored signed,
          issue_all-IsOwn s lesson_id rs rest hs listed,
        )
  ]

  -- URLs are issued only after the predicate has allowed the read, and each is for a key of this
  -- institute that a confirmed recording of this very lesson holds.
  pub issue_lesson_media-IsOwn :
      (db : Database) (ctx : AccessContext) (lesson_id : Text) (ms : List IssuedMedia)
      → issue_lesson_media db ctx lesson_id ≡ ok (some ms)
      → (allowed (decide_lesson_access now (scope_of db ctx.tenant_id) ctx lesson_id) ≡ true)
        × All (IsOwn (scope_of db ctx.tenant_id) lesson_id) ms
  unfolding issue_lesson_media resources_for
  issue_lesson_media-IsOwn db ctx lesson_id ms e =
      elim (Bool-cases
        (allowed (decide_lesson_access now (scope_of db ctx.tenant_id) ctx lesson_id))) [
          | inr refused ↦
              absurd (some_not_none ms (rw (refused, issue_lesson_media, resources_for) at e))
          | inl good ↦
              let (media, listed, whole) =
                bind_cases
                  (issue_all ctx.tenant_id
                    (list_lesson_resources (scope_of db ctx.tenant_id) lesson_id))
                  (λ media. ok (some media)) (some ms)
                  (rw (good, issue_lesson_media, resources_for) at e) in
              (
                good,
                issue_all-IsOwn (scope_of db ctx.tenant_id) lesson_id
                    (list_lesson_resources (scope_of db ctx.tenant_id) lesson_id) ms
                    (listed-Recordings (scope_of db ctx.tenant_id) lesson_id)
                    (listed ∙ ap ok (ground arith)),
              )
        ]
