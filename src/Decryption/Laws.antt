-- ===== src/Decryption/Laws.antt =====
-- What `Decrypt` gives back of what `Encrypt` has sealed.
use mathlib.Core.List.{Memᴰ}
use git_change_operator.Base.{
  Option, none, some, ◌≢◌, ◌⊎◌, All, All-map, Text, text, refl, ◌≡◌, arith, List, [], ◌∷◌, length,
  inl, inr,
}
use git_change_operator.Effects.{ok, Result-cases, Exec, wrapped, ◌>>◌}
use git_change_operator.Effects.Rules.{
  Post, Post-map, err_ne_ok, any-bind, Post-wrapped, wrapped-returns,
}
use git_change_operator.Effects.Collect.{collect, collect-Mem, collect-All, length-collect}
use git_change_operator.Api.Files.{
  Recipient, RecipientType, SecretRef, age, ssh, passphrase, yubikey, other_recipient,
}
use git_change_operator.Platform.{Platform}
use git_change_operator.Platform.Laws.{IsAge}
use git_change_operator.Encryption.{new_encryptor, encrypt, recipient_of}
use git_change_operator.Encryption.Laws.{new_encryptor-Mem}
use git_change_operator.Decryption.{
  identity_value, parse_identity, identity_of, require_some, new_decryptor, decrypt,
}

-- The types that `NewDecryptor` has a case for.
abbrev pub IsSupported : RecipientType → Type 0
IsSupported kind = (kind ≡ age) ⊎ (kind ≡ ssh) ⊎ (kind ≡ passphrase)

abbrev pub IsUsable : Recipient → Type 0
IsUsable i = (i.value ≢ []) × IsSupported i.kind

identity_value-some :
    (value : Text) (ref : Option SecretRef) (v : Text)
    → identity_value value ref ≡ ok v
    → value ≢ []
unfolding identity_value
identity_value-some (b ∷ s) ref v e = λ h. cc
identity_value-some [] none v e = absurd (err_ne_ok e)
identity_value-some [] (some ref) v e = absurd (err_ne_ok e)

module _ (P : Platform) where
  -- The loop behind a decryptor.
  collected :
      (rs : List Recipient) (result : List P.AgeIdentity)
      → new_decryptor P rs ≡ ok result
      → collect (identity_of P) rs [] ≡ ok result
  unfolding new_decryptor require_some
  collected rs result e = elim (Result-cases (collect (identity_of P) rs [])) [
    | inr (x, h) ↦ ground arith
    | inl ([], h) ↦ ground arith
    | inl (a ∷ as', h) ↦ ground arith
  ]

  parse_identity-IsSupported :
      (kind : RecipientType) (v : Text) (k : P.AgeIdentity)
      → parse_identity P kind v ≡ ok k
      → IsSupported kind
  unfolding parse_identity
  parse_identity-IsSupported age v k e = inl refl
  parse_identity-IsSupported ssh v k e = inr (inl refl)
  parse_identity-IsSupported passphrase v k e = inr (inr refl)
  parse_identity-IsSupported yubikey v k e = absurd (err_ne_ok e)
  parse_identity-IsSupported (other_recipient t) v k e = absurd (err_ne_ok e)

  identity_of-IsUsable : (i : Recipient) (k : P.AgeIdentity) → identity_of P i ≡ ok k → IsUsable i
  unfolding identity_of
  identity_of-IsUsable i k e = elim (Result-cases (identity_value i.value i.secret_ref)) [
    | inr (x, h) ↦ ground arith
    | inl (v, h) ↦ (
      identity_value-some i.value i.secret_ref v h,
      parse_identity-IsSupported i.kind v k (ground arith),
    )
  ]

  -- A decryptor that is created has an identity for each one that was given, and each of these has a
  -- value of its own, not a secret's, and is an age key, an SSH key or a passphrase: no YubiKey, though
  -- a recipient may be one.
  pub new_decryptor-IsUsable :
      (ids : List Recipient) (result : List P.AgeIdentity)
      → new_decryptor P ids ≡ ok result
      → All IsUsable ids × (length result ≡ length ids)
  new_decryptor-IsUsable ids result e = (
    All-map (λ i (k, h). identity_of-IsUsable i k h) ids
        (collect-All (identity_of P) ids [] result (collected ids result e)),
    omega (arith, length-collect (identity_of P) ids [] result (collected ids result e)),
  )

module _ (P : Platform) (IsPair : P.AgeRecipient → P.AgeIdentity → Type 0)
    (IsSealed : Text → List P.AgeRecipient → Text → Type 0) (L : IsAge P IsPair IsSealed) where
  -- The calls of `Encrypt` behind the creation of the writer.
  abbrev finish_writing : P.AgeWriter → Text → Exec P.World Text
  finish_writing out content =
      wrapped (text "failed to write data: ") (P.age_write out content)
      >> wrapped (text "failed to close age writer: ") (P.age_close out)

  encrypt-IsSealed :
      (recipients : List P.AgeRecipient) (content : Text) (w : P.World)
      → Post
          (λ bytes w'. IsSealed bytes recipients content)
          (λ e w'. Unit)
          (encrypt P recipients content w)
  unfolding encrypt
  encrypt-IsSealed recipients content w =
      any-bind (wrapped (text "failed to create age writer: ") (P.age_encrypt recipients))
        (λ out. finish_writing out content) w (λ bytes w'. IsSealed bytes recipients content)
        (λ e w'. Unit) (λ e t. tt)
        (λ out w₁ e₁.
          any-bind (wrapped (text "failed to write data: ") (P.age_write out content))
            (λ u. wrapped (text "failed to close age writer: ") (P.age_close out)) w₁
            (λ bytes w'. IsSealed bytes recipients content) (λ e w'. Unit) (λ e t. tt)
            (λ u w₂ e₂.
              Post-wrapped (text "failed to close age writer: ") (P.age_close out) w₂
                (λ bytes w'. IsSealed bytes recipients content) (λ e w'. Unit) (λ e t. tt)
                (λ bytes w₃ e₃.
                  L.seals recipients out content bytes w w₁ w₂ w₃
                    (wrapped-returns (text "failed to create age writer: ")
                      (P.age_encrypt recipients) w out w₁ e₁)
                    (wrapped-returns (text "failed to write data: ") (P.age_write out content) w₁ u
                      w₂ e₂)
                    e₃)))

  decrypt-IsSealed :
      (recipients : List P.AgeRecipient) (identities : List P.AgeIdentity) (a : P.AgeRecipient)
      (i : P.AgeIdentity) (content bytes : Text)
      → IsSealed bytes recipients content
      → Memᴰ a recipients
      → Memᴰ i identities
      → IsPair a i
      → decrypt P identities bytes ≡ ok content
  unfolding decrypt
  decrypt-IsSealed recipients identities a i content bytes s m n p =
      let (reader, e, f) = L.opens recipients identities a i content bytes s m n p in
      rw (decrypt, e, f) refl

  -- Under age's documented behaviour, what is encrypted for a list of recipients is decrypted by each
  -- list of identities in which one belongs to one of the recipients: if the encryptor and the decryptor
  -- are created, and the encryption returns bytes, then the decryption of these bytes returns the
  -- content. (`IsAge` says of age that what a writer was given is sealed for its recipients, and that a
  -- sealed file opens for an identity of one of them.)
  pub decrypt-encrypt :
      (rs ids : List Recipient) (r i : Recipient) (a : P.AgeRecipient) (k : P.AgeIdentity)
      (recipients : List P.AgeRecipient) (identities : List P.AgeIdentity)
      → new_encryptor P rs ≡ ok recipients
      → new_decryptor P ids ≡ ok identities
      → Memᴰ r rs
      → recipient_of P r ≡ ok a
      → Memᴰ i ids
      → identity_of P i ≡ ok k
      → IsPair a k
      → (content : Text) (w : P.World)
      → Post
          (λ bytes w'. decrypt P identities bytes ≡ ok content)
          (λ e w'. Unit)
          (encrypt P recipients content w)
  decrypt-encrypt rs ids r i a k recipients identities e f m p n q pair content w =
      Post-map (encrypt P recipients content w) (λ bytes w'. IsSealed bytes recipients content) _
        (λ e w'. Unit)
        (λ bytes w' s.
          decrypt-IsSealed recipients identities a k content bytes s
            (new_encryptor-Mem P rs recipients r a e m p)
            (collect-Mem (identity_of P) ids [] identities i k (collected P ids identities f) n q)
            pair)
        (encrypt-IsSealed recipients content w)
