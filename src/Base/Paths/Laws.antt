-- ===== src/Base/Paths/Laws.antt =====
-- The last elements of a path.
use Prim.Native.Nat.{ℕ}
use mathlib.Core.Path.{◌≡◌, refl, ap, ◌∙◌}
use mathlib.Core.Logic.{◌≢◌, inl, inr}
use mathlib.Core.Bool.{true, false}
use mathlib.Core.List.{List, [], ◌∷◌, ◌++◌}
use git_change_operator.Base.Tests.{◌==◌, Bool-cases}
use git_change_operator.Base.Lists.{All, is_nil-ne}
use git_change_operator.Base.Texts.{Text, text_eq, text_eq_iff, join, split}
use git_change_operator.Base.Paths.{
  slash, dot, dots, is_rooted, push_element, push_elements, print_path, clean, up_to_slash, dir,
  strip_slashes, last_element, element_or_slash, base_name,
}

-- No byte is a slash.
abbrev pub IsPlain : Text → Type 0
IsPlain s = All (λ b. (b == slash) ≡ false) s

up_to_slash-plain : (s : Text) → IsPlain s → up_to_slash s ≡ []
unfolding up_to_slash
up_to_slash-plain [] h = refl
up_to_slash-plain (c ∷ s) h = rw (up_to_slash-plain s h.1, h.0) refl

up_to_slash-append : (s t : Text) → IsPlain t → up_to_slash (s ++ (slash ∷ t)) ≡ s ++ (slash ∷ [])
unfolding up_to_slash
up_to_slash-append [] t h = rw (up_to_slash-plain t h) refl
up_to_slash-append (c ∷ []) t h = rw (up_to_slash-append [] t h) refl
up_to_slash-append (c ∷ d ∷ s) t h = rw (up_to_slash-append (d ∷ s) t h) refl

strip_slashes-plain : (s : Text) → IsPlain s → strip_slashes s ≡ s
unfolding strip_slashes
strip_slashes-plain [] h = refl
strip_slashes-plain (c ∷ []) h = rw h.0 refl
strip_slashes-plain (c ∷ d ∷ s) h = rw (strip_slashes-plain (d ∷ s) h.1) refl

strip_slashes-append :
    (s t : Text) (b : ℕ)
    → IsPlain (b ∷ t)
    → strip_slashes (s ++ (slash ∷ b ∷ t)) ≡ s ++ (slash ∷ b ∷ t)
unfolding strip_slashes
strip_slashes-append [] t b h = rw (strip_slashes-plain (b ∷ t) h) refl
strip_slashes-append (c ∷ []) t b h = rw (strip_slashes-append [] t b h) refl
strip_slashes-append (c ∷ d ∷ s) t b h = rw (strip_slashes-append (d ∷ s) t b h) refl

last_element-plain : (s : Text) → IsPlain s → last_element s ≡ s
unfolding last_element
last_element-plain [] h = refl
last_element-plain (c ∷ s) h = rw (up_to_slash-plain (c ∷ s) h) refl

last_element-append : (s t : Text) → IsPlain t → last_element (s ++ (slash ∷ t)) ≡ t
unfolding last_element
last_element-append [] t h = rw (up_to_slash-append [] t h) (last_element-plain t h)
last_element-append (c ∷ s) t h = rw (up_to_slash-append (c ∷ s) t h) (last_element-append s t h)

-- `filepath.Base` is what stands behind the last slash.
pub base_name-append : (s t : Text) → IsPlain t → t ≢ [] → base_name (s ++ (slash ∷ t)) ≡ t
unfolding base_name element_or_slash
base_name-append s [] h k = absurd (k refl)
base_name-append [] (b ∷ t) h k =
    rw (strip_slashes-append [] t b h, last_element-append [] (b ∷ t) h) refl
base_name-append (c ∷ s) (b ∷ t) h k =
    rw (strip_slashes-append (c ∷ s) t b h, last_element-append (c ∷ s) (b ∷ t) h) refl

split-cons : (s : Text) → (h : Text) × (rest : List Text) × (split slash s ≡ h ∷ rest)
unfolding split
split-cons [] = ([], [], refl)
split-cons (c ∷ s) =
    let (h, rest, e) = split-cons s in
    elim (Bool-cases (c == slash)) [
      | inl y ↦ ([], h ∷ rest, rw (e, y) refl)
      | inr n ↦ (c ∷ h, rest, rw (e, n) refl)
    ]

split-slash : (t : Text) → split slash (slash ∷ t) ≡ [] ∷ split slash t
unfolding split
split-slash t = let (h, rest, e) = split-cons t in rw e refl

split-plain : (s t : Text) → IsPlain s → split slash (s ++ (slash ∷ t)) ≡ s ∷ split slash t
unfolding split
split-plain [] t h = split-slash t
split-plain (c ∷ s) t h = rw (split-plain s t h.1, h.0) refl

text_eq-ne : (s t : Text) → s ≢ t → text_eq s t ≡ false
text_eq-ne s t h = elim (Bool-cases (text_eq s t)) [
  | inl y ↦ absurd (h ((text_eq_iff s t).0 y))
  | inr n ↦ n
]

-- A name that `Clean` keeps as an element of a path.
pub record IsElement (s : Text) : Type 0 where
  pub plain : IsPlain s
  pub some_text : s ≢ []
  pub not_dot : s ≢ dot
  pub not_dots : s ≢ dots

push_element-IsElement :
    (s : Text) → IsElement s → push_elements true [] ([] ∷ s ∷ [] ∷ []) ≡ s ∷ []
unfolding push_elements push_element
push_element-IsElement s h =
    rw (is_nil-ne s h.some_text, text_eq-ne s dot h.not_dot, text_eq-ne s dots h.not_dots) refl

split-element :
    (s : Text) → IsElement s → split slash (slash ∷ s ++ (slash ∷ [])) ≡ [] ∷ s ∷ [] ∷ []
unfolding split
split-element s h = split-slash (s ++ (slash ∷ [])) ∙ ap (λ r. [] ∷ r) (split-plain s [] h.plain)

clean-element : (s : Text) → IsElement s → clean (slash ∷ s ++ (slash ∷ [])) ≡ slash ∷ s
unfolding clean is_rooted print_path join
clean-element s h = rw (split-element s h, push_element-IsElement s h) refl

-- `filepath.Dir` takes the last element away.
pub dir-append : (s t : Text) → IsElement s → IsPlain t → dir (slash ∷ s ++ (slash ∷ t)) ≡ slash ∷ s
unfolding dir
dir-append s t h k = rw (up_to_slash-append (slash ∷ s) t k) (clean-element s h)
