-- ===== src/Encryption.antt =====
-- pkg/encryption/age.go: which files are encrypted, where they go, and for whom.
pub mod Laws
use git_change_operator.Base.{Text, text, Bool, true, false, not, Option, none, some, List, [], ◌∷◌}
use git_change_operator.Base.{◌++◌, if◌then◌else◌, is_nil, has_suffix}
use git_change_operator.Effects.{Error, other, Result, ok, err, wrap_error, Exec, lift, wrapped}
use git_change_operator.Effects.{◌>>=◌, ◌>>◌, raise, pure}
use git_change_operator.Effects.Collect.{collect}
use git_change_operator.Api.Files.{Encryption, Recipient, SecretRef, RecipientType}
use git_change_operator.Api.Files.{age, ssh, passphrase, yubikey, other_recipient}
use git_change_operator.Platform.{Platform}

-- A nil or empty configuration gives `.age`.
unfoldable pub get_file_extension : Option Encryption → Text
get_file_extension none = text ".age"
get_file_extension (some c) = if is_nil c.file_extension then text ".age" else c.file_extension

unfoldable pub should_encrypt_file : Text → Option Encryption → Bool
should_encrypt_file path none = false
should_encrypt_file path (some c) =
    if c.enabled then not (has_suffix path (get_file_extension (some c))) else false

unfoldable pub get_encrypted_file_path : Text → Option Encryption → Text
get_encrypted_file_path path config = path ++ get_file_extension config

-- The value that a recipient names: a non-empty `Value`, and no secret.
recipient_value : Text → Option SecretRef → Result Text
recipient_value (b ∷ v) ref = ok (b ∷ v)
recipient_value [] (some ref) =
    err (other (text "secret resolution not implemented yet for recipient"))
recipient_value [] none = err (other (text "recipient must have either value or secretRef"))

module _ (P : Platform) where
  open P use {World, AgeRecipient, parse_x25519, parse_ssh, new_scrypt}
  open P use {age_encrypt, age_write, age_close}

  -- The switch on the recipient's type.
  parse_recipient : RecipientType → Text → Result AgeRecipient
  parse_recipient age v = wrap_error (text "failed to parse age recipient: ") (parse_x25519 v)
  parse_recipient ssh v = wrap_error (text "failed to parse SSH recipient: ") (parse_ssh v)
  parse_recipient passphrase v =
      wrap_error (text "failed to create passphrase recipient: ") (new_scrypt v)
  parse_recipient yubikey v = wrap_error (text "failed to parse YubiKey recipient: ") (parse_ssh v)
  parse_recipient (other_recipient t) v = err (other (text "unsupported recipient type: " ++ t))

  -- One turn of the loop of `NewEncryptor`.
  unfoldable pub recipient_of : Recipient → Result AgeRecipient
  unfolding parse_recipient recipient_value
  recipient_of r = elim (recipient_value r.value r.secret_ref) [
    | err e ↦ err e
    | ok v ↦ parse_recipient r.kind v
  ]

  require_some : List AgeRecipient → Result (List AgeRecipient)
  require_some [] = err (other (text "no valid recipients provided"))
  require_some (a ∷ as') = ok (a ∷ as')

  -- An `Encryptor` is its list of recipients.
  unfoldable pub new_encryptor : List Recipient → Result (List AgeRecipient)
  unfolding require_some
  new_encryptor rs = elim (collect recipient_of rs []) [ err e ↦ err e | ok as' ↦ require_some as' ]

  unfoldable pub encrypt : List AgeRecipient → Text → Exec World Text
  encrypt recipients content = do
    w ← wrapped (text "failed to create age writer: ") (age_encrypt recipients)
    wrapped (text "failed to write data: ") (age_write w content)
    wrapped (text "failed to close age writer: ") (age_close w)
