-- ===== src/Base/Maps.antt =====
-- Go maps with string keys, as lists of pairs in the order in which a loop meets them.
use mathlib.Core.Option.{Option, none, some}
use mathlib.Core.List.{List, [], ◌∷◌}
use git_change_operator.Base.Tests.{if◌then◌else◌}
use git_change_operator.Base.Texts.{Text, text_eq}

-- `v, exists := m[key]`
unfoldable pub lookup {ℓ} : {V : Type ℓ} → Text → List (Text × V) → Option V
lookup key [] = none
lookup key ((k, v) ∷ m) = if text_eq k key then some v else lookup key m

-- `m[key] = v`
unfoldable pub insert {ℓ} : {V : Type ℓ} → Text → V → List (Text × V) → List (Text × V)
insert key v [] = (key, v) ∷ []
insert key v ((k, u) ∷ m) =
    let rest = insert key v m in if text_eq k key then (k, v) ∷ m else (k, u) ∷ rest
