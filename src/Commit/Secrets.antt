-- ===== src/Commit/Secrets.antt =====
-- Credentials and recipients that the controller reads from secrets, and the encryption of a file.
pub mod Frames
use git_change_operator.Base.{Text, text, Option, none, some, List, [], ◌∷◌, ◌++◌}
use git_change_operator.Base.{if◌then◌else◌, is_nil, lookup}
use git_change_operator.Effects.{other, Result, ok, err, Exec, lift, wrapped, pure, ◌>>=◌}
use git_change_operator.Api.Files.{Recipient, SecretRef, Encryption}
use git_change_operator.Platform.{Platform, BasicAuth}
use git_change_operator.Encryption.{new_encryptor, encrypt}

-- The key that is looked up: `key` unless that is empty.
unfoldable pub key_or : Text → Text → Text
key_or key default = if is_nil key then default else key

unfoldable pub required_key : Text → Text → List (Text × Text) → Result Text
required_key key secret_name secret = elim (lookup key secret) [
  | some v ↦ ok v
  | none ↦ err (other (text "key " ++ (key ++ (text " not found in secret " ++ secret_name))))
]

-- The `username` of the secret, or `oauth2`.
unfoldable pub username_of : List (Text × Text) → Text
username_of secret = elim (lookup (text "username") secret) [ some u ↦ u | none ↦ text "oauth2" ]

module _ (P : Platform) where
  open P use {World, get_secret}

  unfoldable pub get_auth_from_secret : Text → Text → Text → Exec World BasicAuth
  unfolding key_or required_key username_of
  get_auth_from_secret namespace secret_name secret_key = do
    secret ← get_secret namespace secret_name
    token ← lift (required_key (key_or secret_key (text "token")) secret_name secret)
    pure (record { username = username_of secret; password = token })

  unfoldable pub get_token_from_secret : Text → Text → Text → Exec World Text
  unfolding key_or required_key
  get_token_from_secret namespace secret_name secret_key = do
    secret ← get_secret namespace secret_name
    lift (required_key (key_or secret_key (text "token")) secret_name secret)

  -- One turn of the loop of `resolveRecipients`.
  resolve_recipient : Text → Recipient → Option SecretRef → Exec World Recipient
  unfolding key_or required_key
  resolve_recipient namespace r none = pure r
  resolve_recipient namespace r (some ref) = do
    secret ←
        wrapped (text "failed to get secret " ++ (ref.name ++ text ": "))
          (get_secret namespace ref.name)
    value ← lift (required_key (key_or ref.key (text "publicKey")) ref.name secret)
    pure (record { kind = r.kind; value = value; secret_ref = none })

  resolve_loop : Text → List Recipient → List Recipient → Exec World (List Recipient)
  resolve_loop namespace [] resolved = pure resolved
  resolve_loop namespace (r ∷ rs) resolved = do
    r' ← resolve_recipient namespace r r.secret_ref
    resolve_loop namespace rs (resolved ++ r' ∷ [])

  unfoldable pub resolve_recipients : Text → List Recipient → Exec World (List Recipient)
  unfolding resolve_loop resolve_recipient
  resolve_recipients namespace recipients = resolve_loop namespace recipients []

  encrypt_for : Text → Text → List Recipient → Exec World Text
  encrypt_for namespace content recipients = do
    resolved ←
        wrapped (text "failed to resolve recipients: ") (resolve_recipients namespace recipients)
    encryptor ← wrapped (text "failed to create encryptor: ") (lift (new_encryptor P resolved))
    encrypt P encryptor content

  unfoldable pub encrypt_file_content : Text → Text → Option Encryption → Exec World Text
  unfolding encrypt_for
  encrypt_file_content namespace content none = pure content
  encrypt_file_content namespace content (some c) =
      if c.enabled then encrypt_for namespace content c.recipients else pure content
