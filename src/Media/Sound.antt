-- ===== src/Media/Sound.antt =====
-- src/lib/media/attachments.ts: what holds of the rows of documents, whatever is called.
use lamp_light.Base.{
  ℕ, ◌≡◌, refl, inl, inr, Bool, true, false, Option, none, some, List, [], ◌∷◌, if◌then◌else◌,
  Bool-cases, Option-cases,
}
use lamp_light.Base.Text.{Text, CaseMap}
use lamp_light.Storage.Keys.{lesson}
use lamp_light.Storage.Keys.Prefixes.{starts_with-build}
use lamp_light.Storage.Signing.{ObjectFacts, StorageSigner, Access, ok, access_error, stat_object}
use lamp_light.Media.Uploads.{
  UploadCheck, accepted, rejected, document, check_upload, check_upload-accepted,
}
use lamp_light.Media.Attachments.{
  AttachmentTarget, AttachmentContext, File, Library, may_author, find_key, object_key,
  reserve_attachment, type_text, settle, found_key, confirm_attachment, without_object,
  remove_attachment,
}
use lamp_light.Media.Kept.{
  AllKept, as_sized, confirm_row-AllKept, remove_row-AllKept, reserve_row-AllKept,
  after_delete-AllKept, either_way-AllKept,
}

-- The calls, with what the bucket answers during each.
pub data Call : Type 0 where
  reserve : ℕ → Text → AttachmentContext → AttachmentTarget → File → Call
  confirm : AttachmentContext → AttachmentTarget → Text → Call
  remove : AttachmentContext → AttachmentTarget → Text → Call

module _ (cm : CaseMap) (configured : Bool) (signer : StorageSigner) where
  unfoldable pub call : Call → Library → Library
  call (reserve now id ctx target file) lib =
      (reserve_attachment cm configured signer now id ctx target file lib).1
  call (confirm ctx target id) lib = (confirm_attachment cm configured signer ctx target id lib).1
  call (remove ctx target id) lib = (remove_attachment cm configured signer ctx target id lib).1

  one_of : (b : Bool) (r s : Library) → AllKept r → AllKept s → AllKept (if b then r else s)
  one_of true r s h k = h
  one_of false r s h k = k

  reserve-AllKept :
      (now : ℕ) (id : Text) (ctx : AttachmentContext) (target : AttachmentTarget) (file : File)
      (lib : Library)
      → AllKept lib
      → AllKept (reserve_attachment cm configured signer now id ctx target file lib).1
  unfolding reserve_attachment
  reserve-AllKept now id ctx target file lib h = elim (Bool-cases configured) [
    | inr off ↦ rw (off, reserve_attachment) h
    | inl on ↦ rw on (checked (check_upload cm document file.content_type file.byte_size) refl)
  ]
    where
      checked :
          (k : UploadCheck)
          → check_upload cm document file.content_type file.byte_size ≡ k
          → AllKept (reserve_attachment cm true signer now id ctx target file lib).1
      checked (rejected message) e = rw (e, reserve_attachment) h
      checked (accepted type) e = elim (Bool-cases (may_author ctx target lib.db)) [
        | inr stranger ↦ rw (e, stranger, reserve_attachment) h
        | inl may ↦
            rw (e, may, reserve_attachment)
              (reserve_row-AllKept ctx.tenant_id target id (object_key cm true signer ctx id file)
                file lib
                (starts_with-build (record {
                  tenant_id = ctx.tenant_id;
                  purpose = lesson;
                  object_id = id;
                  filename = file.filename;
                }))
                h)
      ]

  settle-AllKept :
      (ctx : AttachmentContext) (target : AttachmentTarget) (id key : Text)
      (a : Access (Option ObjectFacts)) (lib : Library)
      → AllKept lib
      → AllKept (settle cm configured signer ctx target id key a lib).1
  unfolding settle
  settle-AllKept ctx target id key access_error lib h = h
  settle-AllKept ctx target id key (ok none) lib h = h
  settle-AllKept ctx target id key (ok (some facts)) lib h =
      checked
        (check_upload cm document (type_text cm configured signer facts.content_type)
          (some facts.byte_size))
        refl
    where
      checked :
          (k : UploadCheck)
          → check_upload cm document
              (type_text cm configured signer facts.content_type)
              (some facts.byte_size)
            ≡ k
          → AllKept (settle cm configured signer ctx target id key (ok (some facts)) lib).1
      checked (rejected message) e =
          rw (e, settle) (after_delete-AllKept message ctx.tenant_id key lib h)
      checked (accepted type) e =
          let (n, is, positive, fit, listed) =
            check_upload-accepted cm document (type_text cm configured signer facts.content_type)
              (some facts.byte_size) type e in
          rw (e, settle)
            (confirm_row-AllKept ctx.tenant_id target id facts.byte_size lib
              (as_sized facts.byte_size n is fit) h)

  confirm-AllKept :
      (ctx : AttachmentContext) (target : AttachmentTarget) (id : Text) (lib : Library)
      → AllKept lib
      → AllKept (confirm_attachment cm configured signer ctx target id lib).1
  unfolding confirm_attachment
  confirm-AllKept ctx target id lib h = elim (Bool-cases (may_author ctx target lib.db)) [
    | inr stranger ↦ rw (stranger, confirm_attachment) h
    | inl may ↦
        elim (Option-cases
          (found_key cm configured signer (find_key ctx.tenant_id target id lib.db))) [
            | inl absent ↦ rw (may, absent, confirm_attachment) h
            | inr (key, found) ↦
                rw (may, found, confirm_attachment)
                  (settle-AllKept ctx target id key (stat_object signer ctx.tenant_id key) lib h)
          ]
  ]

  without_object-AllKept :
      (ctx : AttachmentContext) (key : Option Text) (lib : Library)
      → AllKept lib
      → AllKept (without_object cm configured signer ctx key lib)
  without_object-AllKept ctx none lib h = h
  without_object-AllKept ctx (some []) lib h = h
  without_object-AllKept ctx (some (a ∷ key)) lib h =
      one_of configured _ lib (either_way-AllKept ctx.tenant_id (a ∷ key) lib h) h

  remove-AllKept :
      (ctx : AttachmentContext) (target : AttachmentTarget) (id : Text) (lib : Library)
      → AllKept lib
      → AllKept (remove_attachment cm configured signer ctx target id lib).1
  unfolding remove_attachment
  remove-AllKept ctx target id lib h = elim (Bool-cases (may_author ctx target lib.db)) [
    | inr stranger ↦ rw (stranger, remove_attachment) h
    | inl may ↦ elim (Option-cases (find_key ctx.tenant_id target id lib.db)) [
      | inl absent ↦ rw (may, absent, remove_attachment) h
      | inr (key, found) ↦
          rw (may, found, remove_attachment)
            (without_object-AllKept ctx key _ (remove_row-AllKept ctx.tenant_id target id lib h))
    ]
  ]

  call-AllKept : (c : Call) (lib : Library) → AllKept lib → AllKept (call c lib)
  unfolding call
  call-AllKept (reserve now id ctx target file) lib h = reserve-AllKept now id ctx target file lib h
  call-AllKept (confirm ctx target id) lib h = confirm-AllKept ctx target id lib h
  call-AllKept (remove ctx target id) lib h = remove-AllKept ctx target id lib h

-- The calls in turn, each with what the bucket answers and whether storage is configured meanwhile.
unfoldable pub called : CaseMap → List (Bool × StorageSigner × Call) → Library → Library
unfolding call
called cm [] lib = lib
called cm ((configured, signer, c) ∷ cs) lib = called cm cs (call cm configured signer c lib)

-- Whatever is called, by whomever and whatever the bucket answers, a document is never confirmed with
-- a size beyond the limit for documents, and the key of a course's or a lesson's row is under the
-- prefix of the row's institute, as long as both hold of the tables at first.
pub called-AllKept :
    (cm : CaseMap) (cs : List (Bool × StorageSigner × Call)) (lib : Library)
    → AllKept lib
    → AllKept (called cm cs lib)
unfolding called
called-AllKept cm [] lib h = h
called-AllKept cm ((configured, signer, c) ∷ cs) lib h =
    called-AllKept cm cs _ (call-AllKept cm configured signer c lib h)
