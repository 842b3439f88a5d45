-- ===== src/Media/Confirming.antt =====
-- src/lib/media/attachments.ts: from the reservation of a document to its confirmation.
use lamp_light.Base.{
  ℕ, ◌≡◌, refl, ap, ◌∙◌, inl, inr, true, false, ◌&&◌, some, [], ◌∷◌, find, any, arith, Bool-cases,
}
use lamp_light.Base.Text.{Text, ◌==◌, eq_refl, CaseMap}
use lamp_light.Db.{CourseResource, Database}
use lamp_light.Db.Tables.{find-append_none, none_found, any_stronger, find-update-append}
use lamp_light.Db.Entitlements.{find_membership, is_instructor_of}
use lamp_light.Access.Authoring.{decide_course_authoring, course_exists, decide_author}
use lamp_light.Storage.Keys.{build_object_key, key_belongs_to_tenant}
use lamp_light.Storage.Signing.{
  ObjectFacts, StorageSigner, ok, assert_key_belongs, sign_object_write, stat_object,
}
use lamp_light.Media.Uploads.{UploadCheck, accepted, rejected, document, check_upload}
use lamp_light.Media.Attachments.{
  AttachmentTarget, of_course, AttachmentContext, Reserved, done, File, Library, course_row,
  is_course_row, may_author, find_key, reserve_row, confirm_row, object_key, reserve_attachment,
  type_text, settle, found_key, confirm_attachment,
}

module _ (cm : CaseMap) (signer : StorageSigner) where
  -- A reservation that answers: the key is the institute's, the person may author, and the row is there.
  reserve_ok :
      (now : ℕ) (id : Text) (ctx : AttachmentContext) (target : AttachmentTarget) (file : File)
      (lib : Library) (r : Reserved)
      → (reserve_attachment cm true signer now id ctx target file lib).0 ≡ ok (done r)
      → (may_author ctx target lib.db ≡ true)
        × (key_belongs_to_tenant (object_key cm true signer ctx id file) ctx.tenant_id ≡ true)
        × ((reserve_attachment cm true signer now id ctx target file lib).1 ≡ record lib {
          db =
              reserve_row ctx.tenant_id target id
                (object_key cm true signer ctx id file)
                file
                lib.db;
        })
  unfolding reserve_attachment sign_object_write assert_key_belongs
  reserve_ok now id ctx target file lib r e =
      checked (check_upload cm document file.content_type file.byte_size) refl
    where
      checked :
          (k : UploadCheck)
          → check_upload cm document file.content_type file.byte_size ≡ k
          → (may_author ctx target lib.db ≡ true)
            × (key_belongs_to_tenant (object_key cm true signer ctx id file) ctx.tenant_id ≡ true)
            × ((reserve_attachment cm true signer now id ctx target file lib).1 ≡ record lib {
              db =
                  reserve_row ctx.tenant_id target id
                    (object_key cm true signer ctx id file)
                    file
                    lib.db;
            })
      checked (rejected message) k = absurd (ground arith)
      checked (accepted type) k = elim (Bool-cases (may_author ctx target lib.db)) [
        | inr stranger ↦ absurd (ground arith)
        | inl may ↦
            elim (Bool-cases
              (key_belongs_to_tenant (object_key cm true signer ctx id file) ctx.tenant_id)) [
                | inr alien ↦ absurd (ground arith)
                | inl own ↦ (may, own, rw (k, may, reserve_attachment) refl)
              ]
      ]

  -- The rows of documents say nothing about who may author.
  may_author-reserve_row :
      (ctx : AttachmentContext) (parent id key : Text) (file : File) (db : Database)
      → may_author ctx
          (of_course parent)
          (reserve_row ctx.tenant_id (of_course parent) id key file db)
        ≡ may_author ctx (of_course parent) db
  unfolding may_author reserve_row decide_course_authoring course_exists decide_author
      is_instructor_of find_membership
  may_author-reserve_row ctx parent id key file db = refl

  find_key-reserve_row :
      (tenant parent id key : Text) (file : File) (db : Database)
      → any (is_course_row tenant id) db.course_resources ≡ false
      → find_key tenant (of_course parent) id (reserve_row tenant (of_course parent) id key file db)
        ≡ some (some key)
  unfolding find_key reserve_row
  find_key-reserve_row tenant parent id key file db new =
      let fits =
        λ (r : CourseResource). r.tenant_id == tenant && (r.id == id && r.course_id == parent) in
      let absent = none_found fits db.course_resources (
        any_stronger fits (is_course_row tenant id) (λ r h. ground arith) db.course_resources
          new) in
      rw
        (find-append_none fits db.course_resources (course_row tenant parent id key file ∷ [])
          absent)
        (rw (eq_refl tenant, eq_refl id, eq_refl parent) refl)

  found_key-built :
      (ctx : AttachmentContext) (id : Text) (file : File)
      → found_key cm true signer (some (some (object_key cm true signer ctx id file)))
        ≡ some (object_key cm true signer ctx id file)
  unfolding build_object_key
  found_key-built ctx id file = refl

  confirm_course :
      (tenant parent id key : Text) (size : ℕ) (file : File) (db : Database)
      → any (is_course_row tenant id) db.course_resources ≡ false
      → find
          (is_course_row tenant id)
          (confirm_row tenant
            (of_course parent)
            id
            size
            (reserve_row tenant (of_course parent) id key file db)).course_resources
        ≡ some (record (course_row tenant parent id key file) { byte_size = some size })
  unfolding confirm_row reserve_row
  confirm_course tenant parent id key size file db new =
      let mine : is_course_row tenant id (course_row tenant parent id key file) ≡ true =
        rw (eq_refl tenant, eq_refl id) refl in
      find-update-append (is_course_row tenant id) (λ r. record r { byte_size = some size })
        db.course_resources (course_row tenant parent id key file) new mine mine

  settled :
      (ctx : AttachmentContext) (target : AttachmentTarget) (id key type : Text)
      (facts : ObjectFacts) (lib : Library)
      → check_upload cm document
          (type_text cm true signer facts.content_type)
          (some facts.byte_size)
        ≡ accepted type
      → ((settle cm true signer ctx target id key (ok (some facts)) lib).0 ≡ ok (done tt))
        × ((settle cm true signer ctx target id key (ok (some facts)) lib).1.db
            ≡ confirm_row ctx.tenant_id target id facts.byte_size lib.db)
  unfolding settle
  settled ctx target id key type facts lib e = (rw (e, settle) refl, rw (e, settle) refl)

  confirm_found :
      (ctx : AttachmentContext) (target : AttachmentTarget) (id key : Text) (facts : ObjectFacts)
      (lib : Library)
      → may_author ctx target lib.db ≡ true
      → found_key cm true signer (find_key ctx.tenant_id target id lib.db) ≡ some key
      → key_belongs_to_tenant key ctx.tenant_id ≡ true
      → signer.head key ≡ some facts
      → confirm_attachment cm true signer ctx target id lib
        ≡ settle cm true signer ctx target id key (ok (some facts)) lib
  unfolding confirm_attachment stat_object assert_key_belongs
  confirm_found ctx target id key facts lib may found own there =
      let told : stat_object signer ctx.tenant_id key ≡ ok (some facts) =
        rw (own, there, stat_object, assert_key_belongs) refl in
      rw (may, found, told, confirm_attachment) refl

  -- A document that was reserved for a course under a new id, and that the bucket then holds with a
  -- size and a type that are accepted, is confirmed when the same person asks: the row is there with
  -- the size that the bucket tells, under the key for which the upload was signed.
  pub confirm_attachment-reserve_attachment :
      (now : ℕ) (id : Text) (ctx : AttachmentContext) (parent : Text) (file : File) (lib : Library)
      (r : Reserved) (facts : ObjectFacts) (type : Text)
      → any (is_course_row ctx.tenant_id id) lib.db.course_resources ≡ false
      → (reserve_attachment cm true signer now id ctx (of_course parent) file lib).0 ≡ ok (done r)
      → signer.head (object_key cm true signer ctx id file) ≡ some facts
      → check_upload cm document
          (type_text cm true signer facts.content_type)
          (some facts.byte_size)
        ≡ accepted type
      → ((confirm_attachment cm true signer ctx
            (of_course parent)
            id
            (reserve_attachment cm true signer now id ctx (of_course parent) file lib).1).0
          ≡ ok (done tt))
        × (find
              (is_course_row ctx.tenant_id id)
              (confirm_attachment cm true signer ctx
                (of_course parent)
                id
                (reserve_attachment cm true signer now id ctx
                  (of_course parent)
                  file
                  lib).1).1.db.course_resources
            ≡ some
                (record (course_row ctx.tenant_id parent id
                  (object_key cm true signer ctx id file)
                  file) { byte_size = some facts.byte_size }))
  confirm_attachment-reserve_attachment now id ctx parent file lib r facts type new e there fine =
      let key = object_key cm true signer ctx id file in
      let (may, own, after) = reserve_ok now id ctx (of_course parent) file lib r e in
      let may' = may_author-reserve_row ctx parent id key file lib.db ∙ may in
      let stored =
        ap (found_key cm true signer)
          (find_key-reserve_row ctx.tenant_id parent id key file lib.db new)
        ∙ found_key-built ctx id file in
      let (answer, rows) =
        settled ctx (of_course parent) id key type facts
          (record lib { db = reserve_row ctx.tenant_id (of_course parent) id key file lib.db })
          fine in
      let confirmed =
        confirm_found ctx (of_course parent) id key facts
          (record lib { db = reserve_row ctx.tenant_id (of_course parent) id key file lib.db }) may'
          stored own there in
      rw (after, confirmed)
        (
          answer,
          ap (λ (db : Database). find (is_course_row ctx.tenant_id id) db.course_resources) rows
              ∙ confirm_course ctx.tenant_id parent id key facts.byte_size file lib.db new,
        )
