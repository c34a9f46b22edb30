-- ===== src/Effects/Rules.antt =====
-- Reasoning about calls: what holds after a call that returns, and after one that fails.
use git_change_operator.Base.{◌≡◌, ◌≢◌, refl, ap, ◌∙◌, Text}
use git_change_operator.Effects.{
  Error, Result, ok, err, Exec, and_then, ◌>>=◌, Held, outside, wrap, wrap_error, wrapped,
}

-- `Q` of the value and the state if the call returned, `E` of the error and the state if not.
abbrev pub Post {ℓ} :
    {S A : Type ℓ} → (A → S → Type ℓ) → (Error → S → Type ℓ) → Result A × S → Type ℓ
Post Q E (ok a, s) = Q a s
Post Q E (err e, s) = E e s

module _ {ℓ} {S A B : Type ℓ} where
  pub Post-bind :
      (m : Exec S A) (f : A → Exec S B) (s : S) (Q : A → S → Type ℓ) (R : B → S → Type ℓ)
      (E : Error → S → Type ℓ)
      → Post Q E (m s)
      → ((a : A) (t : S) → Q a t → Post R E (f a t))
      → Post R E ((m >>= f) s)
  Post-bind m f s Q R E h k = go (m s).0 (m s).1 h
    where
      go : (r : Result A) (t : S) → Post Q E (r, t) → Post R E (and_then r f t)
      go (ok a) t q = k a t q
      go (err e) t q = q

module _ {W A B C : Type 0} where
  -- A call to the world outside, with the state behind it written out.
  pub outside-bind :
      (m : Exec W B) (f : B → Exec (Held W A) C) (s : Held W A) (R : C → Held W A → Type 0)
      (E : Error → Held W A → Type 0)
      → ((e : Error) (w : W) → m s.world ≡ (err e, w) → E e (record s { world = w }))
      → ((b : B) (w : W) → m s.world ≡ (ok b, w) → Post R E (f b (record s { world = w })))
      → Post R E ((outside m >>= f) s)
  outside-bind m f s R E failed done = go (m s.world).0 (m s.world).1 refl
    where
      go :
          (r : Result B) (w : W)
          → m s.world ≡ (r, w)
          → Post R E (and_then r f (record s { world = w }))
      go (ok b) w e = done b w e
      go (err x) w e = failed x w e

module _ {ℓ} {S A : Type ℓ} where
  -- A weaker postcondition of what returns.
  pub Post-map :
      (p : Result A × S) (Q R : A → S → Type ℓ) (E : Error → S → Type ℓ)
      → ((a : A) (s : S) → Q a s → R a s)
      → Post Q E p
      → Post R E p
  Post-map (ok a, s) Q R E f h = f a s h
  Post-map (err e, s) Q R E f h = h

  pub Post-all :
      (p : Result A × S) (Q : A → S → Type ℓ) (E : Error → S → Type ℓ)
      → ((a : A) (s : S) → Q a s)
      → ((e : Error) (s : S) → E e s)
      → Post Q E p
  Post-all (ok a, s) Q E f g = f a s
  Post-all (err e, s) Q E f g = g e s

module _ {ℓ} {S A B : Type ℓ} where
  -- A call of which nothing is known but whether it returned.
  pub any-bind :
      (m : Exec S A) (f : A → Exec S B) (s : S) (R : B → S → Type ℓ) (E : Error → S → Type ℓ)
      → ((e : Error) (t : S) → E e t)
      → ((a : A) (t : S) → m s ≡ (ok a, t) → Post R E (f a t))
      → Post R E ((m >>= f) s)
  any-bind m f s R E failed done = go (m s).0 (m s).1 refl
    where
      go : (r : Result A) (t : S) → m s ≡ (r, t) → Post R E (and_then r f t)
      go (ok a) t e = done a t e
      go (err x) t e = failed x t

pub err_ne_ok {ℓ} : {A : Type ℓ} {e : Error} {a : A} → err e ≢ ok a
err_ne_ok h = cc

module _ {ℓ} {S A : Type ℓ} (prefix : Text) (m : Exec S A) where
  -- A wrapped call returns what the call does.
  pub wrapped-returns : (s : S) (a : A) (t : S) → wrapped prefix m s ≡ (ok a, t) → m s ≡ (ok a, t)
  wrapped-returns s a t e = go (m s).0 (m s).1 refl e
    where
      go :
          (r : Result A) (u : S)
          → m s ≡ (r, u)
          → ◌≡◌ {A = Result A × S} (wrap_error prefix r, u) (ok a, t)
          → m s ≡ (ok a, t)
      go (ok b) u h k = h ∙ k
      go (err x) u h k = absurd (err_ne_ok (ap (λ p. p.0) k))

  pub Post-wrapped :
      (s : S) (Q : A → S → Type ℓ) (E : Error → S → Type ℓ)
      → ((e : Error) (t : S) → E e t)
      → ((a : A) (t : S) → m s ≡ (ok a, t) → Q a t)
      → Post Q E (wrapped prefix m s)
  Post-wrapped s Q E failed done = go (m s).0 (m s).1 refl
    where
      go : (r : Result A) (t : S) → m s ≡ (r, t) → Post Q E (wrap_error prefix r, t)
      go (ok a) t e = done a t e
      go (err x) t e = failed (wrap prefix x) t
