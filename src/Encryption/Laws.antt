-- ===== src/Encryption/Laws.antt =====
-- The path rules of encryption, and the recipients of an encryptor.
use mathlib.Core.List.{append_cancel_right, Memᴰ}
use git_change_operator.Base.{Text, ◌≡◌, refl, false, Option, none, some, List, [], ◌∷◌}
use git_change_operator.Base.{◌<◌, arith, length, has_suffix-append, inl, inr}
use git_change_operator.Effects.{ok, Result-cases}
use git_change_operator.Effects.Collect.{collect, length-collect, collect-Mem}
use git_change_operator.Api.Files.{Encryption, Recipient}
use git_change_operator.Platform.{Platform}
use git_change_operator.Encryption.{
  get_file_extension, should_encrypt_file, get_encrypted_file_path, recipient_of, require_some,
  new_encryptor,
}

-- The path that an encrypted file is written to is never encrypted again, under any configuration.
pub should_encrypt_file-get_encrypted_file_path :
    (path : Text) (config : Option Encryption)
    → should_encrypt_file (get_encrypted_file_path path config) config ≡ false
unfolding should_encrypt_file get_encrypted_file_path
should_encrypt_file-get_encrypted_file_path path none = refl
should_encrypt_file-get_encrypted_file_path path (some c) =
    rw (has_suffix-append path (get_file_extension (some c))) (ground arith)

-- Under one configuration two files that are both encrypted have different targets.
get_encrypted_file_path_injective :
    (p q : Text) (config : Option Encryption)
    → get_encrypted_file_path p config ≡ get_encrypted_file_path q config
    → p ≡ q
unfolding get_encrypted_file_path
get_encrypted_file_path_injective p q config e =
    append_cancel_right p q (get_file_extension config) e

module _ (P : Platform) where
  -- The loop behind an encryptor, which has at least one recipient.
  collected :
      (rs : List Recipient) (result : List P.AgeRecipient)
      → new_encryptor P rs ≡ ok result
      → (collect (recipient_of P) rs [] ≡ ok result) × (0 < length result)
  unfolding new_encryptor require_some
  collected rs result e = elim (Result-cases (collect (recipient_of P) rs [])) [
    | inr (x, h) ↦ ground arith
    | inl ([], h) ↦ ground arith
    | inl (a ∷ as', h) ↦ ground arith
  ]

  -- An encryptor that is created has a recipient for each one that was given, and at least one.
  pub new_encryptor-length :
      (rs : List Recipient) (result : List P.AgeRecipient)
      → new_encryptor P rs ≡ ok result
      → (length result ≡ length rs) × (0 < length result)
  new_encryptor-length rs result e =
      let (h, l) = collected rs result e in
      (omega (arith, length-collect (recipient_of P) rs [] result h), l)

  -- What a recipient alone parses to is among the encryptor's.
  pub new_encryptor-Mem :
      (rs : List Recipient) (result : List P.AgeRecipient) (r : Recipient) (a : P.AgeRecipient)
      → new_encryptor P rs ≡ ok result
      → Memᴰ r rs
      → recipient_of P r ≡ ok a
      → Memᴰ a result
  new_encryptor-Mem rs result r a e m p =
      collect-Mem (recipient_of P) rs [] result r a (collected rs result e).0 m p
