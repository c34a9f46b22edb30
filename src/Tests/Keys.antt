-- ===== src/Tests/Keys.antt =====
-- Keys in memory: a recipient and its identity are one text, and sealing leaves the content as it is.
use mathlib.Core.List.{Memᴰ}
use git_change_operator.Base.{◌≡◌, refl, sym, ap, ◌∙◌, Text, text, List, [], ◌∷◌, length, All}
use git_change_operator.Effects.{ok}
use git_change_operator.Effects.Rules.{Post}
use git_change_operator.Effects.Collect.{collect}
use git_change_operator.Platform.Laws.{IsAge}
use git_change_operator.Encryption.{new_encryptor, encrypt, recipient_of}
use git_change_operator.Decryption.{new_decryptor, decrypt, identity_of}
use git_change_operator.Decryption.Laws.{IsUsable, new_decryptor-IsUsable, decrypt-encrypt}
use git_change_operator.Tests.Memory.{memory}
use git_change_operator.Tests.Commits.{at_time, commit, recipient}

abbrev IsKey : Text → Text → Type 0
IsKey a k = a ≡ k

abbrev IsHeld : Text → List Text → Text → Type 0
IsHeld bytes recipients content = bytes ≡ content

ok_injective : {a b : Text} → ok a ≡ ok b → a ≡ b
ok_injective e = cc

memory-IsAge : IsAge memory IsKey IsHeld
memory-IsAge = record {
  seals = λ recipients out content bytes w w₁ w₂ w₃ e f g.
      sym (ok_injective (ap (λ p. p.0) g)) ∙ sym (ap (λ p. p.1.sealed) f);
  opens = λ recipients identities a i content bytes s m n p. (bytes, refl, ap ok s);
}

encryptor : new_encryptor memory (recipient ∷ []) ≡ ok (text "age1" ∷ [])
unfolding new_encryptor text collect recipient_of
encryptor = refl

decryptor : new_decryptor memory (recipient ∷ []) ≡ ok (text "age1" ∷ [])
unfolding new_decryptor text collect identity_of
decryptor = refl

recipient-key : recipient_of memory recipient ≡ ok (text "age1")
unfolding recipient_of text
recipient-key = refl

identity-key : identity_of memory recipient ≡ ok (text "age1")
unfolding identity_of text
identity-key = refl

new_decryptor-IsUsable_example :
    All IsUsable (recipient ∷ []) × (length (text "age1" ∷ []) ≡ length (recipient ∷ []))
new_decryptor-IsUsable_example =
    new_decryptor-IsUsable memory (recipient ∷ []) (text "age1" ∷ []) decryptor

decrypt-encrypt_example :
    Post
      (λ bytes w'. decrypt memory (text "age1" ∷ []) bytes ≡ ok (text "secret"))
      (λ e w'. Unit)
      (encrypt memory (text "age1" ∷ []) (text "secret") (at_time 0 commit))
decrypt-encrypt_example =
    decrypt-encrypt memory IsKey IsHeld memory-IsAge (recipient ∷ []) (recipient ∷ []) recipient
      recipient (text "age1") (text "age1") (text "age1" ∷ []) (text "age1" ∷ []) encryptor
      decryptor (Memᴰ.head refl) recipient-key (Memᴰ.head refl) identity-key refl (text "secret")
      (at_time 0 commit)
