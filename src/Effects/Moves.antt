-- ===== src/Effects/Moves.antt =====
-- Predicates on the state that a call establishes, whether it returns or fails.
use git_change_operator.Base.{Bool, true, false, if◌then◌else◌, Text}
use git_change_operator.Effects.Rules.{Post}
use git_change_operator.Effects.{
  Error, Result, ok, err, Exec, pure, raise, lift, wrapped, attempt, and_then, ◌>>=◌, Held, outside,
  modify,
}

-- From every state with `I` the call ends in one with `J`.
pub record Moves {ℓ} {S A : Type ℓ} (I J : S → Type ℓ) (m : Exec S A) : Type ℓ where
  pub at : (s : S) → I s → J (m s).1

module _ {ℓ} {S A : Type ℓ} {I : S → Type ℓ} where
  pub Moves-pure : (a : A) → Moves I I (pure {S = S} a)
  Moves-pure a = record { at = λ s h. h }

  pub Moves-raise : (e : Error) → Moves I I (raise {S = S} {A = A} e)
  Moves-raise e = record { at = λ s h. h }

  pub Moves-lift : (r : Result A) → Moves I I (lift {S = S} r)
  Moves-lift r = record { at = λ s h. h }

module _ {ℓ} {S A : Type ℓ} {I J : S → Type ℓ} where
  pub Moves-wrapped : (prefix : Text) (m : Exec S A) → Moves I J m → Moves I J (wrapped prefix m)
  Moves-wrapped prefix m k = record { at = λ s h. k.at s h }

  pub Moves-attempt : (m : Exec S A) → Moves I J m → Moves I J (attempt m)
  Moves-attempt m k = record { at = λ s h. k.at s h }

  pub Moves-if :
      (b : Bool) (m n : Exec S A) → Moves I J m → Moves I J n → Moves I J (if b then m else n)
  Moves-if true m n k l = k
  Moves-if false m n k l = l

module _ {ℓ} {S A B : Type ℓ} {J K : S → Type ℓ} where
  continue-at :
      (f : A → Exec S B) (r : Result A) (t : S)
      → ((a : A) → Moves J K (f a))
      → ((s : S) → J s → K s)
      → J t
      → K (and_then r f t).1
  continue-at f (ok a) t k weaken h = (k a).at t h
  continue-at f (err e) t k weaken h = weaken t h

module _ {ℓ} {S A B : Type ℓ} {I J K : S → Type ℓ} where
  -- `K` must hold too where the first call fails.
  pub Moves-bind_weaken :
      (m : Exec S A) (f : A → Exec S B)
      → Moves I J m
      → ((a : A) → Moves J K (f a))
      → ((s : S) → J s → K s)
      → Moves I K (m >>= f)
  Moves-bind_weaken m f k l weaken = record {
    at = λ s h. continue-at f (m s).0 (m s).1 l weaken (k.at s h);
  }

  -- An attempt always returns.
  pub Moves-bind_attempt :
      (m : Exec S A) (f : Result A → Exec S B)
      → Moves I J m
      → ((e : Error) → Moves J K (f (err e)))
      → ((a : A) → Moves J K (f (ok a)))
      → Moves I K (attempt m >>= f)
  Moves-bind_attempt m f k l l' = record { at = λ s h. go (m s).0 (m s).1 (k.at s h) }
    where
      go : (r : Result A) (t : S) → J t → K (f r t).1
      go (ok a) t h = (l' a).at t h
      go (err e) t h = (l e).at t h

module _ {ℓ} {S A B : Type ℓ} {I J : S → Type ℓ} where
  -- The first call keeps what holds before it.
  pub Moves-bind :
      (m : Exec S A) (f : A → Exec S B)
      → Moves I I m
      → ((a : A) → Moves I J (f a))
      → ((s : S) → I s → J s)
      → Moves I J (m >>= f)
  Moves-bind m f k l weaken = Moves-bind_weaken m f k l weaken

module _ {ℓ} {S A B : Type ℓ} {I : S → Type ℓ} where
  pub Keeps-bind :
      (m : Exec S A) (f : A → Exec S B)
      → Moves I I m
      → ((a : A) → Moves I I (f a))
      → Moves I I (m >>= f)
  Keeps-bind m f k l = Moves-bind_weaken m f k l (λ s h. h)

  pub Keeps-attempt_bind :
      (m : Exec S A) (f : Result A → Exec S B)
      → Moves I I m
      → ((e : Error) → Moves I I (f (err e)))
      → ((a : A) → Moves I I (f (ok a)))
      → Moves I I (attempt m >>= f)
  Keeps-attempt_bind m f k l l' = Moves-bind_attempt m f k l l'

module _ {W A B : Type 0} {I J : Held W A → Type 0} where
  -- A call to the world outside, for a predicate that reads the object alone.
  pub Moves-outside :
      (m : Exec W B)
      → ((s : Held W A) (w : W) → I s → J (record s { world = w }))
      → Moves I J (outside m)
  Moves-outside m k = record { at = λ s h. k s (m s.world).1 h }

module _ {W A B : Type 0} (I : A → Type 0) where
  pub Keeps-outside : (m : Exec W B) → Moves (λ s. I s.object) (λ s. I s.object) (outside m)
  Keeps-outside m = record { at = λ s h. h }

module _ {W A : Type 0} {I J : Held W A → Type 0} where
  pub Moves-modify :
      (f : A → A)
      → ((s : Held W A) → I s → J (record s { object = f s.object }))
      → Moves I J (modify {W = W} f)
  Moves-modify f k = record { at = λ s h. k s h }

pub ruleset keeps_rules =
    (Moves-pure, Moves-raise, Moves-lift, Moves-wrapped, Moves-if, Keeps-attempt_bind, Keeps-bind)

module _ {W A B : Type 0} {I : W → Type 0} where
  -- A call to the world outside, for a predicate that reads the world alone.
  pub Within-outside :
      (m : Exec W B)
      → Moves I I m
      → Moves {S = Held W A} (λ s. I s.world) (λ s. I s.world) (outside m)
  Within-outside m k = record { at = λ s h. k.at s.world h }

module _ {W A : Type 0} {I : W → Type 0} where
  pub kept : (m : Exec W A) (w : W) → Moves I I m → I w → Post (λ a w'. I w') (λ e w'. Unit) (m w)
  kept m w k i = go (m w).0 (m w).1 (k.at w i)
    where
      go : (r : Result A) (w' : W) → I w' → Post (λ a w'. I w') (λ e w'. Unit) (r, w')
      go (ok a) w' i = i
      go (err e) w' i = tt
