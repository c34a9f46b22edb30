-- ===== src/RestCall/All.antt =====
-- A property of each status that a check of all REST APIs keeps.
use git_change_operator.Base.{ℕ, ◌≡◌, ap, Bool, List, [], ◌∷◌, arith}
use git_change_operator.Base.{length, All, replicate, length-replicate}
use git_change_operator.Base.{zero, suc, ==_iff}
use git_change_operator.Effects.{Result, ok, err, Exec}
use git_change_operator.Api.Rest.{RestApi, RestApiStatus, new_status}
use git_change_operator.Platform.{Platform}
use git_change_operator.RestCall.{
  Probe, Checked, cons_status, after_check, check_each, ensure_statuses, check_all,
}

-- One status for each API.
pub length-ensure_statuses :
    (apis : List RestApi) (sts : List RestApiStatus)
    → length (ensure_statuses apis sts) ≡ length apis
unfolding ensure_statuses
length-ensure_statuses apis sts =
    ground (arith, length-replicate (length apis) new_status, ==_iff (length sts) (length apis))

module _ (K : RestApiStatus → Type 0) (fresh : K new_status) where
  replicate-K : (n : ℕ) → All K (replicate n new_status)
  replicate-K zero = tt
  replicate-K (suc n) = (fresh, replicate-K n)

  ensure_statuses-K :
      (apis : List RestApi) (sts : List RestApiStatus)
      → All K sts
      → All K (ensure_statuses apis sts)
  unfolding ensure_statuses
  ensure_statuses-K apis sts h = ground (arith, replicate-K (length apis))

module _ (P : Platform) (single : RestApi → Exec (Probe P) Bool) (K : RestApiStatus → Type 0)
    (keeps : (a : RestApi) (s : Probe P) → K s.object → K (single a s).1.object) where
  -- Both facts of the statuses that a check leaves.
  abbrev IsKept : ℕ → Checked P → Type 0
  IsKept n (r, t) = All K t.object × (length t.object ≡ n)

  cons_status-IsKept :
      (met : Bool) (st : RestApiStatus) (n : ℕ) (c : Checked P)
      → K st
      → IsKept n c
      → IsKept (suc n) (cons_status P met st c)
  cons_status-IsKept met st n (ok b, t) h k = ((h, k.0), ap suc k.1)
  cons_status-IsKept met st n (err e, t) h k = ((h, k.0), ap suc k.1)

  after_check-IsKept :
      (sts : List RestApiStatus) (as' : List RestApi) (r : Result Bool) (t : Probe P)
      (rest : Checked P)
      → K t.object
      → All K sts
      → length sts ≡ length as'
      → IsKept (length as') rest
      → IsKept (suc (length as')) (after_check P sts r t rest)
  unfolding after_check
  after_check-IsKept sts as' (err e) t rest h hs l k = ((h, hs), ap suc l)
  after_check-IsKept sts as' (ok met) t rest h hs l k =
      cons_status-IsKept met t.object (length as') rest h k

  check_each-IsKept :
      (apis : List RestApi) (sts : List RestApiStatus) (w : P.World)
      → length sts ≡ length apis
      → All K sts
      → IsKept (length apis) (check_each P single apis sts w)
  unfolding check_each
  check_each-IsKept [] sts w e h = (h, e)
  check_each-IsKept (a ∷ as') [] w e h = absurd (omega arith)
  check_each-IsKept (a ∷ as') (st ∷ sts) w e h =
      let (r, t) = single a (record { world = w; object = st }) in
      after_check-IsKept sts as' r t (check_each P single as' sts t.world)
        (keeps a (record { world = w; object = st }) h.0) h.1 (omega arith)
        (check_each-IsKept as' sts t.world (omega arith) h.1)

  -- Both facts behind the check of all APIs: `K` of each status, and one status for each API.
  pub check_all-IsKept :
      (apis : List RestApi) (sts : List RestApiStatus) (w : P.World)
      → K new_status
      → All K sts
      → IsKept (length apis) (check_all P single apis sts w)
  unfolding check_all
  check_all-IsKept apis sts w fresh h =
      check_each-IsKept apis (ensure_statuses apis sts) w (length-ensure_statuses apis sts)
        (ensure_statuses-K K fresh apis sts h)
