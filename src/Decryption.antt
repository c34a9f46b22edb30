-- ===== src/Decryption.antt =====
-- pkg/encryption/decrypt.go: private keys, and what they open.
pub mod Laws
use git_change_operator.Base.{Text, text, Option, none, some, List, [], ◌∷◌, ◌++◌}
use git_change_operator.Effects.{other, Result, ok, err, wrap_error}
use git_change_operator.Effects.Collect.{collect}
use git_change_operator.Api.Files.{Recipient, SecretRef, RecipientType}
use git_change_operator.Api.Files.{age, ssh, passphrase, yubikey, other_recipient}
use git_change_operator.Platform.{Platform}

-- The value that an identity names: a non-empty `Value`, and no secret.
identity_value : Text → Option SecretRef → Result Text
identity_value (b ∷ v) ref = ok (b ∷ v)
identity_value [] (some ref) =
    err (other (text "secret resolution not implemented yet for identity"))
identity_value [] none = err (other (text "identity must have either value or secretRef"))

module _ (P : Platform) where
  open P use {AgeIdentity, AgeReader, parse_x25519_identity, parse_ssh_identity}
  open P use {new_scrypt_identity, age_decrypt, read_all}

  -- The switch on the identity's type, which has no case for a YubiKey.
  parse_identity : RecipientType → Text → Result AgeIdentity
  parse_identity age v =
      wrap_error (text "failed to parse age identity: ") (parse_x25519_identity v)
  parse_identity ssh v = wrap_error (text "failed to parse SSH identity: ") (parse_ssh_identity v)
  parse_identity passphrase v =
      wrap_error (text "failed to create passphrase identity: ") (new_scrypt_identity v)
  parse_identity yubikey v = err (other (text "unsupported identity type: yubikey"))
  parse_identity (other_recipient t) v = err (other (text "unsupported identity type: " ++ t))

  -- One turn of the loop of `NewDecryptor`.
  unfoldable pub identity_of : Recipient → Result AgeIdentity
  unfolding parse_identity identity_value
  identity_of r = elim (identity_value r.value r.secret_ref) [
    | err e ↦ err e
    | ok v ↦ parse_identity r.kind v
  ]

  require_some : Text → List AgeIdentity → Result (List AgeIdentity)
  require_some complaint [] = err (other complaint)
  require_some complaint (a ∷ as') = ok (a ∷ as')

  -- A `Decryptor` is its list of identities.
  unfoldable pub new_decryptor : List Recipient → Result (List AgeIdentity)
  unfolding require_some
  new_decryptor rs = elim (collect identity_of rs []) [
    | err e ↦ err e
    | ok as' ↦ require_some (text "no valid identities provided") as'
  ]

  unfoldable pub new_decryptor_from_identities : List AgeIdentity → Result (List AgeIdentity)
  unfolding require_some
  new_decryptor_from_identities as' = require_some (text "no identities provided") as'

  unfoldable pub decrypt : List AgeIdentity → Text → Result Text
  decrypt identities bytes = elim (age_decrypt bytes identities) [
    | err e ↦ wrap_error (text "failed to decrypt: ") (err e)
    | ok reader ↦ wrap_error (text "failed to read decrypted data: ") (read_all reader)
  ]

  -- The two constructors for callers that have a private key or a passphrase.
  unfoldable pub parse_ssh_identities : Text → Result (List AgeIdentity)
  parse_ssh_identities key = elim (parse_ssh_identity key) [
    | err e ↦ wrap_error (text "failed to parse SSH identity: ") (err e)
    | ok i ↦ ok (i ∷ [])
  ]

  unfoldable pub make_scrypt_identity : Text → Result AgeIdentity
  make_scrypt_identity passphrase' =
      wrap_error (text "failed to create scrypt identity: ") (new_scrypt_identity passphrase')
