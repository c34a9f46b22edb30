-- ===== src/Base/Flags.antt =====
-- Go's `flag` package: `Parse` on the flags that are registered.
use Prim.Native.Nat.{ℕ}
use mathlib.Core.Bool.{Bool, true, false, ◌||◌}
use mathlib.Core.Option.{Option, none, some}
use mathlib.Core.List.{List, [], ◌∷◌, ◌++◌}
use git_change_operator.Base.Tests.{◌==◌, if◌then◌else◌}
use git_change_operator.Base.Texts.{Text, text, text_eq, cut}

-- A registered flag: what setting it to a text makes of the variables, or nothing where the text does
-- not parse.
pub record Flag (C : Type 0) : Type 0 where
  pub name : Text
  pub is_bool : Bool
  pub set : Text → C → Option C

-- `help` is `ErrHelp`, behind which the process exits with 0; an error exits with 2.
pub data Parsed (C : Type 0) : Type 0 where
  parsed : C → Parsed C
  help : Parsed C
  failure : Text → Parsed C

-- `strconv.ParseBool`
unfoldable pub parse_bool : Text → Option Bool
parse_bool s =
    if text_eq s (text "1")
      || (text_eq s (text "t")
          || (text_eq s (text "T")
              || (text_eq s (text "TRUE") || (text_eq s (text "true") || text_eq s (text "True")))))
    then some true
    else if text_eq s (text "0")
        || (text_eq s (text "f")
            || (text_eq s (text "F")
                || (text_eq s (text "FALSE")
                    || (text_eq s (text "false") || text_eq s (text "False")))))
    then some false
    else none

-- What an argument is: a flag with what stands behind its dashes, the end of the flags, or not one.
pub data Argument : Type 0 where
  dashed : Text → Argument
  terminator plain : Argument

abbrev dash : ℕ
dash = b'-'

argument : Text → Argument
argument [] = plain
argument (a ∷ []) = plain
argument (a ∷ b ∷ []) =
    if a == dash then (if b == dash then terminator else dashed (b ∷ [])) else plain
argument (a ∷ b ∷ c ∷ s) =
    if a == dash then (if b == dash then dashed (c ∷ s) else dashed (b ∷ c ∷ s)) else plain

-- The name and the value behind the first `=`.
split_value : Text → Text × Option Text
split_value s = elim (cut b'=' s) [ none ↦ (s, none) | some (name, value) ↦ (name, some value) ]

-- A name is not empty and begins neither with a dash nor with `=`.
is_bad : Text → Bool
is_bad [] = true
is_bad (c ∷ s) = c == dash || c == b'='

-- The steps that an argument asks for: to set the variables and go on, to wait for the value in the
-- next argument, or to stop.
pub data Next (C : Type 0) : Type 0 where
  go_on : C → Next C
  wait_for : Flag C → Next C
  stop : Parsed C → Next C

module _ {C : Type 0} where
  unfoldable pub find_flag : Text → List (Flag C) → Option (Flag C)
  find_flag name [] = none
  find_flag name (f ∷ fs) = if text_eq f.name name then some f else find_flag name fs

  set_flag : Flag C → Text → C → Next C
  set_flag f value c = elim (f.set value c) [
    | none ↦ stop (failure (text "invalid value for flag -" ++ f.name))
    | some c' ↦ go_on c'
  ]

  with_flag : Flag C → Option Text → C → Next C
  unfolding set_flag
  with_flag f (some value) c = set_flag f value c
  with_flag f none c = if f.is_bool then set_flag f (text "true") c else wait_for f

  unknown : Text → Next C
  unknown name =
      if text_eq name (text "help") || text_eq name (text "h")
      then stop help
      else stop (failure (text "flag provided but not defined: -" ++ name))

  with_name : List (Flag C) → Text × Option Text → C → Next C
  unfolding with_flag unknown find_flag
  with_name flags (name, value) c = elim (find_flag name flags) [
    | none ↦ unknown name
    | some f ↦ with_flag f value c
  ]

  next_step : List (Flag C) → Argument → C → Next C
  unfolding is_bad split_value with_name
  next_step flags plain c = stop (parsed c)
  next_step flags terminator c = stop (parsed c)
  next_step flags (dashed s) c =
      if is_bad s
      then stop (failure (text "bad flag syntax"))
      else with_name flags (split_value s) c

  -- `waiting` is the flag whose value is the next argument.
  parse_loop : List (Flag C) → List Text → Option (Flag C) → C → Parsed C
  unfolding next_step argument set_flag
  parse_loop flags [] none c = parsed c
  parse_loop flags [] (some f) c = failure (text "flag needs an argument: -" ++ f.name)
  parse_loop flags (s ∷ args) none c = elim (next_step flags (argument s) c) [
    | go_on c' ↦ parse_loop flags args none c'
    | wait_for f ↦ parse_loop flags args (some f) c
    | stop r ↦ r
  ]
  parse_loop flags (s ∷ args) (some f) c = elim (set_flag f s c) [
    | go_on c' ↦ parse_loop flags args none c'
    | wait_for g ↦ parse_loop flags args (some g) c
    | stop r ↦ r
  ]

  -- `flag.Parse`, on the arguments behind the program's name.
  unfoldable pub parse_flags : List (Flag C) → List Text → C → Parsed C
  unfolding parse_loop
  parse_flags flags args c = parse_loop flags args none c
