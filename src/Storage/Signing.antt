-- ===== src/Storage/Signing.antt =====
-- src/lib/storage/index.ts: signing a URL for an object. The bucket's SDK is a parameter: what it
-- answers for a request; a request that it does not answer is left out. The configuration gives the
-- time to live of a read.
use lamp_light.Base.{
  refl, ℕ, ◌+◌, ◌*◌, ◌≡◌, true, Option, none, some, if◌then◌else◌, arith, Bool-cases, inl, inr,
}
use lamp_light.Base.Text.{Text}
use lamp_light.Storage.Keys.{key_belongs_to_tenant}

pub record SignedUrl : Type 0 where
  pub url : Text
  pub expires_at : ℕ

pub record ObjectFacts : Type 0 where
  pub byte_size : ℕ
  pub content_type : Option Text

-- `SignRequest`
pub record SignRequest : Type 0 where
  pub key : Text
  pub expires_in_seconds : ℕ
  pub content_type : Option Text

-- `StorageSigner`, without the deletion, whose effect is outside the program's state.
pub record StorageSigner : Type 0 where
  pub sign_get : SignRequest → Text
  pub sign_put : SignRequest → Text
  pub head : Text → Option ObjectFacts

-- What a call answers, or the `StorageAccessError` that it throws.
pub data Access {ℓ} (A : Type ℓ) : Type ℓ where
  ok : A → Access A
  access_error : Access A

infixl 5 ◌>>=◌
abbrev pub ◌>>=◌ {ℓ κ} : {A : Type ℓ} {B : Type κ} → Access A → (A → Access B) → Access B
ok a >>= f = f a
access_error >>= f = access_error

-- A sequence that answers made a first call that answers.
pub bind_cases :
    {A B : Type 0} (m : Access A) (f : A → Access B) (b : B)
    → (m >>= f) ≡ ok b
    → (a : A) × (m ≡ ok a) × (f a ≡ ok b)
bind_cases (ok a) f b e = (a, refl, e)
bind_cases access_error f b e = cc

pub ok-injective : {A : Type 0} (a b : A) → ok a ≡ ok b → a ≡ b
ok-injective a b e = ground arith

unfoldable pub assert_key_belongs : Text → Text → Access (Unit {0})
unfolding key_belongs_to_tenant
assert_key_belongs tenant_id key =
    if key_belongs_to_tenant key tenant_id then ok tt else access_error

abbrev pub write_ttl : ℕ
write_ttl = 15 * 60

module _ (signer : StorageSigner) where
  unfoldable pub sign_object_read : ℕ → ℕ → Text → Text → Access SignedUrl
  sign_object_read now ttl tenant_id key = do
    _ ← assert_key_belongs tenant_id key
    ok (record {
      url = signer.sign_get (record { key = key; expires_in_seconds = ttl; content_type = none });
      expires_at = now + ttl * 1000;
    })

  unfoldable pub sign_object_write : ℕ → Text → Text → Text → Access SignedUrl
  sign_object_write now tenant_id key content_type = do
    _ ← assert_key_belongs tenant_id key
    ok (record {
      url =
          signer.sign_put (record {
            key = key;
            expires_in_seconds = write_ttl;
            content_type = some content_type;
          });
      expires_at = now + write_ttl * 1000;
    })

  unfoldable pub stat_object : Text → Text → Access (Option ObjectFacts)
  stat_object tenant_id key = do _ ← assert_key_belongs tenant_id key; ok (signer.head key)

  abbrev pub read_request : Text → ℕ → SignRequest
  read_request key ttl = record { key = key; expires_in_seconds = ttl; content_type = none }

  -- A URL is signed for reading only if the key is the institute's own, for that key, and it lapses
  -- when the signature does.
  pub sign_object_read_sound :
      (now ttl : ℕ) (tenant_id key : Text) (signed : SignedUrl)
      → sign_object_read now ttl tenant_id key ≡ ok signed
      → (key_belongs_to_tenant key tenant_id ≡ true)
        × (signed.url ≡ signer.sign_get (read_request key ttl))
        × (signed.expires_at ≡ now + ttl * 1000)
  unfolding sign_object_read assert_key_belongs
  sign_object_read_sound now ttl tenant_id key signed e =
      elim (Bool-cases (key_belongs_to_tenant key tenant_id)) [
        | inl own ↦ (own, ground arith, ground arith)
        | inr alien ↦ absurd (ground arith)
      ]
