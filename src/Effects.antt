-- ===== src/Effects.antt =====
-- Go functions that return an `error`: what they write stays written when they fail, so the state
-- comes back beside the error too.
pub mod Rules
pub mod Moves
pub mod Collect
pub mod Steps
use git_change_operator.Base.{Text, text, ◌++◌, Bool, true, false, ◌≡◌, refl, ◌⊎◌, inl, inr}

-- The errors that the code tells apart by `errors.IsNotFound` and `errors.IsConflict`, with the text
-- of `Error()`; and a panic, with its text, which the code nowhere recovers from.
pub data Error : Type 0 where
  not_found conflict other panic : Text → Error

abbrev pub error_text : Error → Text
error_text (not_found m) = m
error_text (conflict m) = m
error_text (other m) = m
error_text (panic m) = m

abbrev pub is_not_found : Error → Bool
is_not_found (not_found m) = true
is_not_found _ = false

abbrev pub is_conflict : Error → Bool
is_conflict (conflict m) = true
is_conflict _ = false

abbrev pub is_panic : Error → Bool
is_panic (panic m) = true
is_panic _ = false

-- `fmt.Errorf("<prefix>%w", err)`, through which `errors.As` still sees the cause.
abbrev pub wrap : Text → Error → Error
wrap prefix (not_found m) = not_found (prefix ++ m)
wrap prefix (conflict m) = conflict (prefix ++ m)
wrap prefix (other m) = other (prefix ++ m)
wrap prefix (panic m) = panic m

pub data Result {ℓ} (A : Type ℓ) : Type ℓ where
  ok : A → Result A
  err : Error → Result A

pub Result-cases {ℓ} :
    {A : Type ℓ} (r : Result A) → ((a : A) × (r ≡ ok a)) ⊎ ((e : Error) × (r ≡ err e))
Result-cases (ok a) = inl (a, refl)
Result-cases (err e) = inr (e, refl)

abbrev pub wrap_error {ℓ} : {A : Type ℓ} → Text → Result A → Result A
wrap_error prefix (ok a) = ok a
wrap_error prefix (err e) = err (wrap prefix e)

-- A call that may fail, on a state `S`.
abbrev pub Exec {ℓ} : Type ℓ → Type ℓ → Type ℓ
Exec S A = S → Result A × S

module _ {ℓ} {S A : Type ℓ} where
  abbrev pub pure : A → Exec S A
  pure a s = (ok a, s)

  abbrev pub raise : Error → Exec S A
  raise e s = (err e, s)

  abbrev pub lift : Result A → Exec S A
  lift r s = (r, s)

  -- `if err != nil { return fmt.Errorf("<prefix>%w", err) }`
  abbrev pub wrapped : Text → Exec S A → Exec S A
  wrapped prefix m s = let (r, s') = m s in (wrap_error prefix r, s')

  -- The result as a value, for a caller that goes on after an error.
  abbrev pub attempt : Exec S A → Exec S (Result A)
  attempt m s = let (r, s') = m s in (ok r, s')

module _ {ℓ} {S A B : Type ℓ} where
  abbrev pub and_then : Result A → (A → Exec S B) → Exec S B
  and_then (ok a) f s = f a s
  and_then (err e) f s = (err e, s)

  infixl 10 ◌>>=◌ ◌>>◌
  abbrev pub ◌>>=◌ : Exec S A → (A → Exec S B) → Exec S B
  ◌>>=◌ m f s = let (r, s') = m s in and_then r f s'

  abbrev pub ◌>>◌ : Exec S A → Exec S B → Exec S B
  m >> n = m >>= λ _. n

-- The world outside, with the object that a pointer argument refers to.
pub record Held (World A : Type 0) : Type 0 where
  pub world : World
  pub object : A

module _ {W A B : Type 0} where
  -- A call that leaves the object alone.
  abbrev pub outside : Exec W B → Exec (Held W A) B
  outside m s = let (r, w) = m s.world in (r, record s { world = w })

  abbrev pub get : (A → B) → Exec (Held W A) B
  get f s = (ok (f s.object), s)

module _ {W A : Type 0} where
  abbrev pub modify : (A → A) → Exec (Held W A) Unit
  modify f s = (ok tt, record s { object = f s.object })

-- The same call on a part of the object, by a pointer into it.
module _ {W A C B : Type 0} where
  abbrev pub inside : (A → C) → (A → C → A) → Exec (Held W C) B → Exec (Held W A) B
  inside look put m s =
      let (r, t) = m (record { world = s.world; object = look s.object }) in
      (r, record { world = t.world; object = put s.object t.object })
