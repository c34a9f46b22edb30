-- ===== src/Effects/Collect.antt =====
-- The loop that appends what each element parses to, up to the first that does not parse.
use mathlib.Core.List.{Memᴰ}
use mathlib.Core.List.Memᴰ
use mathlib.Core.Path.{subst}
use git_change_operator.Base.{
  ◌≡◌, sym, ap, ◌∙◌, ◌+◌, arith, List, [], ◌∷◌, ◌++◌, length, length-append, All, inl, inr,
}
use git_change_operator.Effects.{Result, ok, err, Result-cases}

pub ok_injective : {A : Type 0} {a b : A} → ok a ≡ ok b → a ≡ b
ok_injective e = cc

module _ {A B : Type 0} (parse : A → Result B) where
  unfoldable pub collect : List A → List B → Result (List B)
  collect [] parsed = ok parsed
  collect (a ∷ as') parsed = elim (parse a) [
    | err e ↦ err e
    | ok b ↦ collect as' (parsed ++ b ∷ [])
  ]

  -- A loop that returns has parsed its first element, and goes on behind it.
  collect-cons :
      (a : A) (as' : List A) (parsed result : List B)
      → collect (a ∷ as') parsed ≡ ok result
      → (b : B) × (parse a ≡ ok b) × (collect as' (parsed ++ b ∷ []) ≡ ok result)
  unfolding collect
  collect-cons a as' parsed result e = elim (Result-cases (parse a)) [
    | inr (x, h) ↦ ground arith
    | inl (b, h) ↦ (b, h, ground arith)
  ]

  pub length-collect :
      (as' : List A) (parsed result : List B)
      → collect as' parsed ≡ ok result
      → length result ≡ length parsed + length as'
  unfolding collect
  length-collect [] parsed result e = ground arith
  length-collect (a ∷ as') parsed result e =
      let (b, h, k) = collect-cons a as' parsed result e in
      omega (arith, length-collect as' (parsed ++ b ∷ []) result k, length-append parsed (b ∷ []))

  -- What was parsed before stays.
  collect-keeps :
      (as' : List A) (parsed result : List B) (b : B)
      → collect as' parsed ≡ ok result
      → Memᴰ b parsed
      → Memᴰ b result
  unfolding collect
  collect-keeps [] parsed result b e m = subst (Memᴰ b) (ok_injective e) m
  collect-keeps (a ∷ as') parsed result b e m =
      let (c, h, k) = collect-cons a as' parsed result e in
      collect-keeps as' (parsed ++ c ∷ []) result b k (Memᴰ.append_left (c ∷ []) m)

  -- What an element parses to is in the result.
  pub collect-Mem :
      (as' : List A) (parsed result : List B) (a : A) (b : B)
      → collect as' parsed ≡ ok result
      → Memᴰ a as'
      → parse a ≡ ok b
      → Memᴰ b result
  collect-Mem (x ∷ as') parsed result a b e m p =
      let (c, h, k) = collect-cons x as' parsed result e in
      elim (Memᴰ.cases_cons m) [
        | inl same ↦
            collect-keeps as' (parsed ++ c ∷ []) result b k
              (Memᴰ.append_right parsed (Memᴰ.head (ok_injective (sym p ∙ ap parse same ∙ h))))
        | inr later ↦ collect-Mem as' (parsed ++ c ∷ []) result a b k later p
      ]
  collect-Mem [] parsed result a b e m p = absurd (Memᴰ.not-nil m)

  -- Where the loop returns, every element parses.
  pub collect-All :
      (as' : List A) (parsed result : List B)
      → collect as' parsed ≡ ok result
      → All (λ a. (b : B) × (parse a ≡ ok b)) as'
  collect-All [] parsed result e = tt
  collect-All (a ∷ as') parsed result e =
      let (b, h, k) = collect-cons a as' parsed result e in
      ((b, h), collect-All as' (parsed ++ b ∷ []) result k)
