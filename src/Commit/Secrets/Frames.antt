-- ===== src/Commit/Secrets/Frames.antt =====
-- What the encryption of a file touches of the world.
use git_change_operator.Base.{Text, Option, none, some, List, [], ◌∷◌, ◌++◌}
use git_change_operator.Effects.Moves.{Moves, Moves-pure, Keeps-bind, keeps_rules}
use git_change_operator.Api.Files.{Recipient, SecretRef, Encryption}
use git_change_operator.Platform.{Platform}
use git_change_operator.Platform.Frames.{IsWorkFrame}
use git_change_operator.Encryption.{encrypt}
use git_change_operator.Commit.Secrets.{
  get_auth_from_secret, resolve_recipient, resolve_loop, resolve_recipients, encrypt_for,
  encrypt_file_content,
}

module _ (P : Platform) (I : P.World → Type 0) (F : IsWorkFrame P I) where
  pub get_auth_from_secret-Moves :
      (namespace name key : Text) → Moves I I (get_auth_from_secret P namespace name key)
  unfolding get_auth_from_secret
  get_auth_from_secret-Moves namespace name key = search (keeps_rules, F.get_secret) depth 20

  resolve_recipient-Moves :
      (namespace : Text) (r : Recipient) (ref : Option SecretRef)
      → Moves I I (resolve_recipient P namespace r ref)
  unfolding resolve_recipient
  resolve_recipient-Moves namespace r none = Moves-pure r
  resolve_recipient-Moves namespace r (some ref) = search (keeps_rules, F.get_secret) depth 20

  resolve_loop-Moves :
      (namespace : Text) (rs resolved : List Recipient)
      → Moves I I (resolve_loop P namespace rs resolved)
  unfolding resolve_loop
  resolve_loop-Moves namespace [] resolved = Moves-pure resolved
  resolve_loop-Moves namespace (r ∷ rs) resolved =
      Keeps-bind _ _ (resolve_recipient-Moves namespace r r.secret_ref)
        (λ r'. resolve_loop-Moves namespace rs (resolved ++ r' ∷ []))

  resolve_recipients-Moves :
      (namespace : Text) (rs : List Recipient) → Moves I I (resolve_recipients P namespace rs)
  unfolding resolve_recipients
  resolve_recipients-Moves namespace rs = resolve_loop-Moves namespace rs []

  encrypt-Moves :
      (recipients : List P.AgeRecipient) (content : Text) → Moves I I (encrypt P recipients content)
  unfolding encrypt
  encrypt-Moves recipients content =
      search (keeps_rules, F.age_encrypt, F.age_write, F.age_close) depth 20

  encrypt_for-Moves :
      (namespace content : Text) (rs : List Recipient)
      → Moves I I (encrypt_for P namespace content rs)
  unfolding encrypt_for
  encrypt_for-Moves namespace content rs =
      search (keeps_rules, resolve_recipients-Moves, encrypt-Moves) depth 20

  pub encrypt_file_content-Moves :
      (namespace content : Text) (config : Option Encryption)
      → Moves I I (encrypt_file_content P namespace content config)
  unfolding encrypt_file_content
  encrypt_file_content-Moves namespace content none = Moves-pure content
  encrypt_file_content-Moves namespace content (some c) =
      search (keeps_rules, encrypt_for-Moves) depth 20
