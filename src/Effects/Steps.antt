-- ===== src/Effects/Steps.antt =====
-- Sequences of steps.

-- The states that are reached from `s`.
pub data Reach {W : Type 0} (Step : W → W → Type 0) (s : W) : W → Type 0 where
  here : Reach Step s s
  next : {t u : W} → Reach Step s t → Step t u → Reach Step s u

module _ {W : Type 0} {Step : W → W → Type 0} (I : W → Type 0) where
  -- What every step keeps holds of every state that is reached.
  pub Reach-Keeps : ((t u : W) → Step t u → I t → I u) → {s t : W} → I s → Reach Step s t → I t
  Reach-Keeps keep h here = h
  Reach-Keeps keep h (next {t} {u} r st) = keep t u st (Reach-Keeps keep h r)
