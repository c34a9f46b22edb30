-- ===== src/Base/Texts.antt =====
-- Go strings and byte slices: lists of bytes, with the functions of `strings` that the code calls.
use Prim.Native.Nat.{ℕ, zero, suc, ◌+◌, ◌-◌, ◌/◌, ◌%◌}
use Prim.Native.Char.{code}
use Prim.Native.String.{String}
use mathlib.Core.Path.{◌≡◌, refl}
use mathlib.Core.Logic.{◌↔◌}
use mathlib.Core.Bool.{Bool, true, false, ◌&&◌, ◌||◌}
use mathlib.Core.Option
use mathlib.Core.Option.{Option, none, some}
use mathlib.Core.List.{List, [], ◌∷◌, ◌++◌}
use native.Mathlib.Omega.{arith}
use git_change_operator.Base.Tests.{◌==◌, leb, ltb, if◌then◌else◌}
use git_change_operator.Base.Lists.{length, take, drop, length-append, drop-append, take-append}

abbrev pub Text : Type 0
Text = List ℕ

-- The bytes of an ASCII literal.
unfoldable pub text : String → Text
text String.[] = []
text (String.◌∷◌ c s) = code c ∷ text s

-- Go's `==` on strings.
unfoldable pub text_eq : Text → Text → Bool
text_eq [] [] = true
text_eq (a ∷ s) (b ∷ t) = a == b && text_eq s t
text_eq _ _ = false

pub text_eq_iff : (s t : Text) → (text_eq s t ≡ true) ↔ (s ≡ t)
unfolding text_eq
text_eq_iff [] [] = (λ _. refl, λ _. refl)
text_eq_iff [] (b ∷ t) = (λ h. cc, λ h. cc)
text_eq_iff (a ∷ s) [] = (λ h. cc, λ h. cc)
text_eq_iff (a ∷ s) (b ∷ t) = ground (arith, text_eq_iff s t)

pub text_eq_refl : (s : Text) → text_eq s s ≡ true
text_eq_refl s = (text_eq_iff s s).1 refl

-- `strings.HasSuffix`
unfoldable pub has_suffix : Text → Text → Bool
has_suffix s t = leb (length t) (length s) && text_eq (drop (length s - length t) s) t

pub has_suffix-append : (s t : Text) → has_suffix (s ++ t) t ≡ true
unfolding has_suffix
has_suffix-append s t =
    let e : length (s ++ t) - length t ≡ length s = omega (arith, length-append s t) in
    rw (e, drop-append) (ground (arith, length-append s t, text_eq_refl t))

-- `strings.TrimSuffix`
unfoldable pub trim_suffix : Text → Text → Text
trim_suffix s t = if has_suffix s t then take (length s - length t) s else s

pub trim_suffix-append : (s t : Text) → trim_suffix (s ++ t) t ≡ s
unfolding trim_suffix
trim_suffix-append s t =
    let e : length (s ++ t) - length t ≡ length s = omega (arith, length-append s t) in
    rw (has_suffix-append s t, e) (take-append s t)

-- `strings.HasPrefix`
unfoldable pub has_prefix : Text → Text → Bool
has_prefix s t = text_eq (take (length t) s) t

pub has_prefix-append : (s t : Text) → has_prefix (s ++ t) s ≡ true
unfolding has_prefix
has_prefix-append s t = rw (take-append s t) (text_eq_refl s)

-- `strings.Contains`
unfoldable pub contains : Text → Text → Bool
contains [] t = has_prefix [] t
contains (b ∷ s) t = has_prefix (b ∷ s) t || contains s t

-- `strings.ToLower` on ASCII.
unfoldable pub to_lower : Text → Text
to_lower [] = []
to_lower (b ∷ s) = (if leb b'A' b && leb b b'Z' then b + 32 else b) ∷ to_lower s

-- `strings.Join`
unfoldable pub join : List Text → Text → Text
join [] sep = []
join (s ∷ []) sep = s
join (s ∷ t ∷ rest) sep = s ++ (sep ++ join (t ∷ rest) sep)

-- The text before the first byte `c`, and the text behind it: `strings.SplitN(s, c, 2)`, with
-- `none` where `strings.Contains(s, c)` is false.
unfoldable pub cut : ℕ → Text → Option (Text × Text)
cut c [] = none
cut c (b ∷ s) = if b == c then some ([], s) else Option.map (λ (h, r). (b ∷ h, r)) (cut c s)

-- `strings.Split(s, c)` for a separator of one byte.
unfoldable pub split : ℕ → Text → List Text
split c [] = [] ∷ []
split c (b ∷ s) = elim (split c s) [
  | [] ↦ (b ∷ []) ∷ []
  | h ∷ rest ↦ if b == c then [] ∷ h ∷ rest else (b ∷ h) ∷ rest
]

-- The decimal digits of a number, on fuel: `suc n` is enough for `n`.
decimal_from : ℕ → ℕ → Text
decimal_from zero n = []
decimal_from (suc fuel) n =
    let higher = decimal_from fuel (n / 10) in
    if ltb n 10 then (48 + n) ∷ [] else higher ++ (48 + n % 10) ∷ []

-- `%d` of `fmt` at a number that is not negative.
unfoldable pub decimal : ℕ → Text
unfolding decimal_from
decimal n = decimal_from (suc n) n
