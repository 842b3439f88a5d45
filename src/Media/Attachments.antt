-- ===== src/Media/Attachments.antt =====
-- src/lib/media/attachments.ts: a document is reserved, sent to the bucket by the browser, confirmed
-- against the bucket, and removed. `configured` is `storageConfigured()`; the deletion of
-- src/lib/storage/index.ts is written to a log, and a call that the bucket does not answer is left out.
mod Rows
unfoldable pub use Rows.*
use lamp_light.Base.{
  ℕ, Bool, true, not, ◌&&◌, Option, none, some, List, [], ◌∷◌, ◌++◌, find, if◌then◌else◌,
}
use lamp_light.Base.Text.{Text, codes, ◌==◌, truthy, CaseMap}
use lamp_light.Db.{pdf, CourseResource, LessonResource, Database}
use lamp_light.Db.Tables.{update, remove_rows}
use lamp_light.Storage.Keys.{lesson, build_object_key}
use lamp_light.Storage.Signing.{
  SignedUrl, ObjectFacts, StorageSigner, Access, ok, access_error, ◌>>=◌, assert_key_belongs,
  sign_object_write, stat_object,
}
use lamp_light.Access.Predicate.{scope_of}
use lamp_light.Access.Authoring.{allowed, decide_course_authoring, decide_lesson_authoring}
use lamp_light.Media.Uploads.{accepted, rejected, document, check_upload}

-- `deleteObject`
unfoldable pub delete_object : Text → Text → Library → Access Library
unfolding assert_key_belongs
delete_object tenant key lib = do
  _ ← assert_key_belongs tenant key
  ok (record lib { deleted = lib.deleted ++ key ∷ [] })

-- What an error that is thrown leaves: the library as it was.
abbrev pub after_delete : Text → Library → Access Library → Access (Result (Unit {0})) × Library
after_delete message lib (ok lib') = (ok (error message), lib')
after_delete message lib access_error = (access_error, lib)

abbrev pub either_way : Library → Access Library → Library
either_way lib (ok lib') = lib'
either_way lib access_error = lib

module _ (cm : CaseMap) (configured : Bool) (signer : StorageSigner) where
  abbrev pub object_key : AttachmentContext → Text → File → Text
  object_key ctx id file = build_object_key (record {
    tenant_id = ctx.tenant_id;
    purpose = lesson;
    object_id = id;
    filename = file.filename;
  })

  abbrev pub reserved : Text → Text → SignedUrl → Access (Result Reserved)
  reserved id type signed =
      ok (done (record { resource_id = id; upload_url = signed.url; content_type = type }))

  -- The id is `randomUUID()`. The row stays when the signing throws.
  unfoldable pub reserve_attachment :
      ℕ
      → Text
      → AttachmentContext
      → AttachmentTarget
      → File
      → Library
      → Access (Result Reserved) × Library
  unfolding check_upload may_author reserve_row build_object_key sign_object_write
  reserve_attachment now id ctx target file lib =
      if not configured
      then (
        ok (error (codes "File storage is not configured here. Add it as a link instead.")),
        lib,
      )
      else elim (check_upload cm document file.content_type file.byte_size) [
        | rejected message ↦ (ok (error message), lib)
        | accepted type ↦
            if may_author ctx target lib.db
            then (
              sign_object_write signer now ctx.tenant_id (object_key ctx id file) type
                  >>= reserved id type,
              record lib {
                db = reserve_row ctx.tenant_id target id (object_key ctx id file) file lib.db;
              },
            )
            else (ok (error denied_message), lib)
      ]

  abbrev pub type_text : Option Text → Text
  type_text none = []
  type_text (some t) = t

  -- What the answer of the bucket leads to.
  unfoldable pub settle :
      AttachmentContext
      → AttachmentTarget
      → Text
      → Text
      → Access (Option ObjectFacts)
      → Library
      → Access (Result (Unit {0})) × Library
  unfolding check_upload delete_object confirm_row
  settle ctx target id key access_error lib = (access_error, lib)
  settle ctx target id key (ok none) lib =
      (ok (error (codes "That upload did not arrive. Try sending the file again.")), lib)
  settle ctx target id key (ok (some facts)) lib =
      elim (check_upload cm document (type_text facts.content_type) (some facts.byte_size)) [
        | rejected message ↦ after_delete message lib (delete_object ctx.tenant_id key lib)
        | accepted type ↦ (
          ok (done tt),
          record lib {
            db = confirm_row ctx.tenant_id target id facts.byte_size lib.db;
            audit =
                lib.audit
                ++ (ctx.tenant_id, ctx.actor_user_id, attachment_uploaded target id facts.byte_size)
                  ∷ [];
          },
        )
      ]

  abbrev pub found_key : Option (Option Text) → Option Text
  found_key none = none
  found_key (some key) = truthy key

  unfoldable pub confirm_attachment :
      AttachmentContext → AttachmentTarget → Text → Library → Access (Result (Unit {0})) × Library
  unfolding may_author find_key settle stat_object
  confirm_attachment ctx target id lib =
      if may_author ctx target lib.db
      then elim (found_key (find_key ctx.tenant_id target id lib.db)) [
        | none ↦ (ok (error denied_message), lib)
        | some key ↦ settle ctx target id key (stat_object signer ctx.tenant_id key) lib
      ]
      else (ok (error denied_message), lib)

  abbrev pub without : AttachmentContext → AttachmentTarget → Text → Library → Library
  without ctx target id lib = record lib {
    db = remove_row ctx.tenant_id target id lib.db;
    audit = lib.audit ++ (ctx.tenant_id, ctx.actor_user_id, attachment_removed target id) ∷ [];
  }

  -- The object after the row; an error of the deletion is swallowed.
  abbrev pub without_object : AttachmentContext → Option Text → Library → Library
  without_object ctx key lib = elim (truthy key) [
    | none ↦ lib
    | some k ↦ if configured then either_way lib (delete_object ctx.tenant_id k lib) else lib
  ]

  unfoldable pub remove_attachment :
      AttachmentContext → AttachmentTarget → Text → Library → Result (Unit {0}) × Library
  unfolding may_author find_key remove_row delete_object
  remove_attachment ctx target id lib =
      if may_author ctx target lib.db
      then elim (find_key ctx.tenant_id target id lib.db) [
        | none ↦ (error denied_message, lib)
        | some key ↦ (done tt, without_object ctx key (without ctx target id lib))
      ]
      else (error denied_message, lib)
