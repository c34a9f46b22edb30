-- ===== src/RestCall/AllMet.antt =====
-- What the loop over the REST APIs leaves where it finds every condition met.
use git_change_operator.Base.{◌≡◌, refl, Bool, true, false, ◌&&◌, List, [], ◌∷◌, length, arith}
use git_change_operator.Effects.{Result, ok, err, Exec, Held}
use git_change_operator.Effects.Rules.{Post}
use git_change_operator.Api.Rest.{RestApi, RestApiStatus}
use git_change_operator.Platform.{Platform}
use git_change_operator.RestCall.{
  Probe, Checked, after_check, check_each, check_all, ensure_statuses,
}
use git_change_operator.RestCall.All.{length-ensure_statuses}
use git_change_operator.RestCall.Met.{IsMet, Answers, false_ne_true}

-- One status for each API, each of a met condition.
abbrev pub AllMet : List RestApi → List RestApiStatus → Type 0
AllMet [] [] = Unit
AllMet [] (st ∷ sts) = ⊥
AllMet (a ∷ as') [] = ⊥
AllMet (a ∷ as') (st ∷ sts) = IsMet a st × AllMet as' sts

abbrev AnswersAll : {W : Type 0} → List RestApi → Result Bool × Held W (List RestApiStatus) → Type 0
AnswersAll apis p = Post (λ b t. b ≡ true → AllMet apis t.object) (λ e t. Unit {0}) p

both_true : (b c : Bool) → b && c ≡ true → (b ≡ true) × (c ≡ true)
both_true true c h = (refl, h)
both_true false c h = absurd (false_ne_true h)

module _ (P : Platform) (single : RestApi → Exec (Probe P) Bool)
    (answers : (a : RestApi) (s : Probe P) → Answers a (single a s)) where
  after_check-AnswersAll :
      (a : RestApi) (as' : List RestApi) (sts : List RestApiStatus) (r : Result Bool) (t : Probe P)
      (rest : Checked P)
      → Answers a (r, t)
      → AnswersAll as' rest
      → AnswersAll (a ∷ as') (after_check P sts r t rest)
  unfolding after_check
  after_check-AnswersAll a as' sts (err e) t rest h k = tt
  after_check-AnswersAll a as' sts (ok met) t (err e, u) h k = tt
  after_check-AnswersAll a as' sts (ok met) t (ok all, u) h k =
      λ b. let (m, l) = both_true met all b in (h m, k l)

  check_each-AnswersAll :
      (apis : List RestApi) (sts : List RestApiStatus) (w : P.World)
      → length sts ≡ length apis
      → AnswersAll apis (check_each P single apis sts w)
  unfolding check_each
  check_each-AnswersAll [] [] w e = λ b. tt
  check_each-AnswersAll [] (st ∷ sts) w e = absurd (omega arith)
  check_each-AnswersAll (a ∷ as') [] w e = tt
  check_each-AnswersAll (a ∷ as') (st ∷ sts) w e =
      let (r, t) = single a (record { world = w; object = st }) in
      after_check-AnswersAll a as' sts r t (check_each P single as' sts t.world)
        (answers a (record { world = w; object = st }))
        (check_each-AnswersAll as' sts t.world (omega arith))

  pub check_all-AllMet :
      (apis : List RestApi) (sts : List RestApiStatus) (w : P.World)
      → (check_all P single apis sts w).0 ≡ ok true
      → AllMet apis (check_all P single apis sts w).1.object
  unfolding check_all
  check_all-AllMet apis sts w h =
      read (check_each P single apis (ensure_statuses apis sts) w)
        (check_each-AnswersAll apis (ensure_statuses apis sts) w (length-ensure_statuses apis sts))
        h
    where
      read : (p : Checked P) → AnswersAll apis p → p.0 ≡ ok true → AllMet apis p.1.object
      read (ok b, t) k h = k cc
      read (err e, t) k h = absurd cc
