-- ===== src/Pull/Repository/Laws.antt =====
-- The addresses that `parseRepository` takes apart, and those that it cannot.
use git_change_operator.Base.{
  ℕ, zero, suc, ◌≡◌, ◌≢◌, refl, ap, sym, ◌∙◌, ◌≤◌, ◌<◌, Text, text, true, false, [], ◌∷◌, ◌++◌,
  arith,
}
use git_change_operator.Base.{
  ltb, Bool-cases, inl, inr, ◌↔◌, ◌⊎◌, text_eq_iff, length, take, drop, length-append, take-append,
  drop-append, text_eq, text_eq_refl, has_suffix, trim_suffix, trim_suffix-append,
}
use git_change_operator.Base.Paths.{slash}
use git_change_operator.Base.Paths.Laws.{IsElement, IsPlain, base_name-append, dir-append}
use git_change_operator.Effects.{panic, ok, err}
use git_change_operator.Pull.Repository.{
  github, dot_git, names_of, slice_text, repository_of, parse_repository,
}

-- The path of a repository on GitHub.
abbrev pub path_of : Text → Text → Text
path_of owner name = owner ++ (slash ∷ name)

names_of-path_of :
    (owner name : Text)
    → IsElement owner
    → IsPlain name
    → name ≢ []
    → names_of (path_of owner name) ≡ (owner, name)
unfolding names_of
names_of-path_of owner name h k some_name =
    rw
      (
        dir-append owner name h k,
        base_name-append [] owner h.plain h.some_text,
        base_name-append owner name k some_name,
      )
      refl

length-github : length github ≡ 19
unfolding text
length-github = refl

length-dot_git : length dot_git ≡ 4
unfolding text
length-dot_git = refl

append_nil : (s : Text) → s ++ [] ≡ s
append_nil [] = refl
append_nil (b ∷ s) = ap (λ t. b ∷ t) (append_nil s)

take-drop : (n : ℕ) (s : Text) → take n s ++ drop n s ≡ s
take-drop zero s = refl
take-drop (suc n) [] = refl
take-drop (suc n) (b ∷ s) = ap (λ t. b ∷ t) (take-drop n s)

trim_suffix-none : (s t : Text) → has_suffix s t ≡ false → trim_suffix s t ≡ s
unfolding trim_suffix
trim_suffix-none s t h = rw h refl

parse-github : (path : Text) → parse_repository (github ++ path) ≡ repository_of path
unfolding parse_repository
parse-github path =
    let e : ltb (length (github ++ path)) 19 ≡ false =
      ground (arith, length-append github path, length-github) in
    let t : take 19 (github ++ path) ≡ github =
      ap (λ n. take n (github ++ path)) (sym length-github) ∙ take-append github path in
    let d : drop 19 (github ++ path) ≡ path =
      ap (λ n. drop n (github ++ path)) (sym length-github) ∙ drop-append github path in
    rw (e, t, d, text_eq_refl github) refl

-- What may stand behind the path: the suffix, or nothing behind a name of at least some length that does not
-- end in the suffix itself.
abbrev pub IsEnding : Text → Text → Type 0
IsEnding path ending =
    (ending ≡ dot_git) ⊎ ((ending ≡ []) × (has_suffix path dot_git ≡ false) × (4 ≤ length path))

repository_of-ending :
    (path ending : Text)
    → IsEnding path ending
    → repository_of (path ++ ending) ≡ ok (names_of path)
unfolding repository_of
repository_of-ending path ending (inl e) =
    let l : ltb (length (path ++ dot_git)) 4 ≡ false =
      ground (arith, length-append path dot_git, length-dot_git) in
    rw (e, l, trim_suffix-append path dot_git) refl
repository_of-ending path ending (inr (e, h, k)) =
    let l : ltb (length path) 4 ≡ false = ground arith in
    rw (e, append_nil path, l) (ap (λ p. ok (names_of p)) (trim_suffix-none path dot_git h))

-- `parseRepository` takes the address of a repository on GitHub apart again: of
-- `https://github.com/<owner>/<name>`, and of the same with `.git` behind it, it returns the owner and
-- the name. Neither is empty or has a slash, the owner is not `.` or `..`, and where `.git` does not
-- stand behind the name, the name does not end in it and owner, slash and name have at least 4 bytes.
pub parse_repository-path_of :
    (owner name ending : Text)
    → IsElement owner
    → IsPlain name
    → name ≢ []
    → IsEnding (path_of owner name) ending
    → parse_repository (github ++ (path_of owner name ++ ending)) ≡ ok (owner, name)
parse_repository-path_of owner name ending h k some_name e =
    parse-github (path_of owner name ++ ending)
    ∙ repository_of-ending (path_of owner name) ending e
    ∙ ap ok (names_of-path_of owner name h k some_name)

short : (path : Text) → length path < 4 → repository_of path ≡ err (panic slice_text)
unfolding repository_of
short path l = let y : ltb (length path) 4 ≡ true = ground arith in rw y refl

of_path : (path m : Text) → repository_of path ≡ err (panic m) → length path < 4
unfolding repository_of
of_path path m e = elim (Bool-cases (ltb (length path) 4)) [
  | inl y ↦ ground arith
  | inr n ↦ ground arith
]

has_github : (url : Text) → text_eq (take 19 url) github ≡ true → url ≡ github ++ drop 19 url
has_github url y =
    sym (take-drop 19 url) ∙ ap (λ s. s ++ drop 19 url) ((text_eq_iff (take 19 url) github).0 y)

panicked :
    (url m : Text)
    → parse_repository url ≡ err (panic m)
    → (path : Text) × (url ≡ github ++ path) × (length path < 4)
unfolding parse_repository
panicked url m e = elim (Bool-cases (ltb (length url) 19)) [
  | inl y ↦ ground arith
  | inr n ↦ elim (Bool-cases (text_eq (take 19 url) github)) [
    | inl y ↦ (drop 19 url, has_github url y, of_path (drop 19 url) m (ground arith))
    | inr n' ↦ ground arith
  ]
]

-- `parseRepository` panics, which ends the reconcile, exactly for an address that has fewer than 4 bytes
-- behind `https://github.com/`.
pub parse_repository_panics_iff :
    (url : Text)
    → ((m : Text) × (parse_repository url ≡ err (panic m)))
      ↔ ((path : Text) × (url ≡ github ++ path) × (length path < 4))
parse_repository_panics_iff url = (
  λ (m, e). panicked url m e,
  λ (path, e, l). (slice_text, rw e (parse-github path ∙ short path l)),
)
