-- ===== src/Pull/Repository.antt =====
-- `parseRepository`: the owner and the name of a repository on GitHub.
pub mod Laws
use git_change_operator.Base.{Text, text, ◌∷◌, if◌then◌else◌, ltb, length, take, drop}
use git_change_operator.Base.{text_eq, trim_suffix}
use git_change_operator.Base.Paths.{slash, dir, base_name}
use git_change_operator.Effects.{other, panic, Result, ok, err}

abbrev pub github : Text
github = text "https://github.com/"

abbrev pub dot_git : Text
dot_git = text ".git"

-- The last two elements of the path.
names_of : Text → Text × Text
names_of path = (base_name (dir (slash ∷ path)), base_name path)

-- Go's text of the panic, without the bound.
abbrev pub slice_text : Text
slice_text = text "runtime error: slice bounds out of range"

-- The slice of the last four bytes, which are compared with `.git`, is out of range before a text that
-- has fewer.
repository_of : Text → Result (Text × Text)
repository_of path =
    if ltb (length path) 4 then err (panic slice_text) else ok (names_of (trim_suffix path dot_git))

unfoldable pub parse_repository : Text → Result (Text × Text)
unfolding repository_of names_of
parse_repository url =
    if ltb (length url) 19
    then err (other (text "invalid repository URL"))
    else if text_eq (take 19 url) github
    then repository_of (drop 19 url)
    else err (other (text "unsupported repository URL format"))
