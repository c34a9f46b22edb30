-- ===== src/Base/Paths.antt =====
-- `path/filepath` on Unix: `Clean`, `Join`, `Dir`, `Base`.
pub mod Laws
use mathlib.Core.Path.{◌≡◌, refl}
use mathlib.Core.Bool.{Bool, true, false, ◌&&◌, ◌||◌}
use mathlib.Core.List.{List, [], ◌∷◌, ◌++◌, reverse}
use Prim.Native.Nat.{ℕ}
use git_change_operator.Base.Tests.{◌==◌, if◌then◌else◌}
use git_change_operator.Base.Lists.{is_nil}
use git_change_operator.Base.Texts.{Text, text, text_eq, join, split}

abbrev pub slash : ℕ
slash = b'/'

abbrev pub dot : Text
dot = b'.' ∷ []

abbrev pub dots : Text
dots = b'.' ∷ b'.' ∷ []

pub is_rooted : Text → Bool
is_rooted [] = false
is_rooted (c ∷ s) = c == slash

-- One element of a path, put on the elements kept so far, the last one first.
push_element : Bool → List Text → Text → List Text
push_element rooted [] e =
    if is_nil e || text_eq e dot then [] else if text_eq e dots && rooted then [] else e ∷ []
push_element rooted (top ∷ kept) e =
    if is_nil e || text_eq e dot
    then top ∷ kept
    else if text_eq e dots
    then if text_eq top dots then e ∷ top ∷ kept else kept
    else e ∷ top ∷ kept

push_elements : Bool → List Text → List Text → List Text
unfolding push_element
push_elements rooted kept [] = kept
push_elements rooted kept (e ∷ es) = push_elements rooted (push_element rooted kept e) es

print_path : Bool → List Text → Text
print_path true es = slash ∷ join es (slash ∷ [])
print_path false [] = dot
print_path false (e ∷ es) = join (e ∷ es) (slash ∷ [])

-- `filepath.Clean`
unfoldable pub clean : Text → Text
unfolding is_rooted push_elements print_path
clean p = print_path (is_rooted p) (reverse (push_elements (is_rooted p) [] (split slash p)))

-- `filepath.Join` of two parts.
unfoldable pub join_path : Text → Text → Text
unfolding clean
join_path [] [] = []
join_path [] (b ∷ q) = clean (b ∷ q)
join_path (a ∷ p) [] = clean (a ∷ p)
join_path (a ∷ p) (b ∷ q) = clean ((a ∷ p) ++ (slash ∷ b ∷ q))

-- The text up to the last slash, that slash included; nothing if there is none.
up_to_slash : Text → Text
up_to_slash [] = []
up_to_slash (c ∷ s) = elim (up_to_slash s) [
  | [] ↦ if c == slash then c ∷ [] else []
  | d ∷ t ↦ c ∷ d ∷ t
]

-- `filepath.Dir`
unfoldable pub dir : Text → Text
unfolding up_to_slash clean
dir p = clean (up_to_slash p)

-- The text without its slashes at the end.
strip_slashes : Text → Text
strip_slashes [] = []
strip_slashes (c ∷ s) = elim (strip_slashes s) [
  | [] ↦ if c == slash then [] else c ∷ []
  | d ∷ t ↦ c ∷ d ∷ t
]

-- The text behind the last slash.
last_element : Text → Text
last_element [] = []
last_element (c ∷ s) = if is_nil (up_to_slash (c ∷ s)) then c ∷ s else last_element s

-- An element as `filepath.Base` returns it: only slashes are behind an empty one.
element_or_slash : Text → Text
element_or_slash [] = slash ∷ []
element_or_slash (c ∷ s) = c ∷ s

-- `filepath.Base`
unfoldable pub base_name : Text → Text
unfolding strip_slashes last_element up_to_slash element_or_slash
base_name [] = dot
base_name (c ∷ s) = element_or_slash (last_element (strip_slashes (c ∷ s)))

base_example : ◌≡◌ {A = Text} (base_name (text "/tmp/a/b.txt/")) (text "b.txt")
unfolding base_name text
base_example = refl

base-slash_example : ◌≡◌ {A = Text} (base_name (text "//")) (text "/")
unfolding base_name text
base-slash_example = refl

clean_example : ◌≡◌ {A = Text} (join_path (text "/tmp/a") (text "b/../c//./d")) (text "/tmp/a/c/d")
unfolding join_path text text_eq join split
clean_example = refl

climb_example : ◌≡◌ {A = Text} (join_path (text "/tmp/a") (text "../x")) (text "/tmp/x")
unfolding join_path text text_eq join split
climb_example = refl

dir_example : ◌≡◌ {A = Text} (dir (text "/tmp/a/c")) (text "/tmp/a")
unfolding dir text text_eq join split
dir_example = refl
