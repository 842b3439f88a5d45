-- ===== src/Tests/Storage.antt =====
-- Runs of src/lib/storage.
use lamp_light.Base.{◌≡◌, refl, true}
use lamp_light.Base.Text.{Text, codes, starts_with, includes}
use lamp_light.Storage.Keys.{
  KeyParams, lesson, is_safe, base_from, hyphenate, collapse, strip_front, strip_back, cleaned,
  sanitize_filename, key_belongs_to_tenant,
}
use lamp_light.Storage.Keys.Names.{IsFileName, sanitize_filename-IsFileName}
use lamp_light.Storage.Keys.Prefixes.{key_belongs-one}

abbrev upload : KeyParams
upload = record {
  tenant_id = codes "i1";
  purpose = lesson;
  object_id = codes "r1";
  filename = codes "a/My  talk..mp3";
}

abbrev talk_key : Text
talk_key = codes "t/i1/lesson/r1/talk.mp3"

sanitize_filename-IsFileName_example : IsFileName (sanitize_filename (codes "C:\\x\\..My talk.mp3"))
sanitize_filename-IsFileName_example = sanitize_filename-IsFileName (codes "C:\\x\\..My talk.mp3")

sanitized : sanitize_filename (codes "C:\\x\\..My  talk.mp3") ≡ codes "My-talk.mp3"
unfolding sanitize_filename cleaned is_safe base_from hyphenate collapse strip_front strip_back
sanitized = refl

dots_stay : includes (codes "..") (sanitize_filename upload.filename) ≡ true
unfolding sanitize_filename cleaned is_safe base_from hyphenate collapse strip_front strip_back
    includes starts_with
dots_stay = refl

own_key : key_belongs_to_tenant talk_key (codes "i1") ≡ true
unfolding key_belongs_to_tenant starts_with includes
own_key = refl

key_belongs-one_example : codes "i1" ≡ codes "i1"
key_belongs-one_example =
    key_belongs-one talk_key (codes "i1") (codes "i1") refl refl own_key own_key
