-- ===== src/Platform.antt =====
-- What the operator calls and does not implement, as one parameter of the model: the Kubernetes API,
-- the clock, HTTP, the file system, Git (go-git), GitHub, encryption (age), YAML, JSON, CEL (cel-go) and cron.
-- A call that changes or reads the outside takes the world and returns it.
pub mod Laws
pub mod Frames
use git_change_operator.Base.{ℕ, Text, Bool, Option, List}
use git_change_operator.Base.Words.{Time}
use git_change_operator.Effects.{Result, Exec}
use git_change_operator.Api.Commit.{GitCommit}
use git_change_operator.Api.Pull.{PullRequest}
use git_change_operator.Api.CelValue.{CelValue, GoValue}

-- `http.Request`, with the client's timeout. The headers are the calls of `Header.Set`, in order.
pub record HttpRequest : Type 0 where
  pub method : Text
  pub url : Text
  pub body : Option Text
  pub headers : List (Text × Text)
  pub timeout : ℕ

-- `githttp.BasicAuth`
pub record BasicAuth : Type 0 where
  pub username : Text
  pub password : Text

pub record Signature : Type 0 where
  pub name : Text
  pub email : Text
  pub when : Time

-- `schema.GroupVersionKind`
pub record GroupVersionKind : Type 0 where
  pub group : Text
  pub version : Text
  pub kind : Text

-- `github.NewPullRequest`
pub record NewPullRequest : Type 0 where
  pub title : Text
  pub head : Text
  pub base : Text
  pub body : Text
  pub maintainer_can_modify : Bool

pub record Platform : Type 1 where
  pub World : Type 0
  -- The clock.
  pub now : World → Time × World
  pub sleep : ℕ → World → World
  -- `t.Format(time.RFC3339)`
  pub rfc3339 : Time → Text
  -- The Kubernetes API. An object is named by its namespace and its name.
  pub get_commit : Text → Text → Exec World GitCommit
  pub update_commit_status : GitCommit → Exec World GitCommit
  pub delete_commit : GitCommit → Exec World Unit
  pub get_pull : Text → Text → Exec World PullRequest
  pub update_pull_status : PullRequest → Exec World PullRequest
  pub delete_pull : PullRequest → Exec World Unit
  -- The `Data` of a secret.
  pub get_secret : Text → Text → Exec World (List (Text × Text))
  -- Unstructured objects. `NestedMap` finds nothing, finds a map, or fails.
  pub Object : Type 0
  pub Value : Type 0
  pub get_object : GroupVersionKind → Text → Text → Exec World Object
  pub nested_map : Object → Text → Result (Option (List (Text × Value)))
  pub marshal_yaml : Object → Result Text
  -- `%v`
  pub show_value : Value → Text
  -- `schema.ParseGroupVersion`
  pub parse_group_version : Text → Result (Text × Text)
  -- `obj.Object[key]`, and the type assertions to `map[string]interface{}` and to `string`.
  pub object_field : Object → Text → Option Value
  pub as_map : Value → Option (List (Text × Value))
  pub as_string : Value → Option Text
  pub marshal_value : Value → Result Text
  -- The machine's `float64`, of a number, with its sum and its quotient.
  pub Float : Type 0
  pub float : ℕ → Float
  pub add_float : Float → Float → Float
  pub divide_float : Float → Float → Float
  -- Prometheus: a counter's `Inc` and a histogram's `Observe`, by metric and labels.
  pub inc : Text → List Text → World → World
  pub observe : Text → List Text → Float → World → World
  -- HTTP.
  pub Body : Type 0
  pub check_request : Text → Text → Result {0} Unit
  pub http_do : HttpRequest → Exec World (ℕ × Body)
  pub read_body : Body → Exec World Text
  -- The file system.
  pub temp_dir : Text → Exec World Text
  pub remove_all : Text → World → World
  pub make_dirs : Text → Exec World Unit
  pub read_file : Text → Exec World Text
  pub write_file : Text → Text → Exec World Unit
  -- Git.
  pub Repo : Type 0
  pub Worktree : Type 0
  pub clone_repo : Text → Text → BasicAuth → Exec World Repo
  pub worktree : Repo → Exec World Worktree
  -- The branch's reference name, and whether to create it.
  pub checkout : Worktree → Text → Bool → Exec World Unit
  pub head : Repo → Exec World Text
  pub set_reference : Repo → Text → Text → Exec World Unit
  pub stage : Worktree → Text → Exec World Unit
  pub commit_tree : Worktree → Text → Signature → Exec World Text
  pub push : Repo → BasicAuth → Exec World Unit
  -- GitHub: the token, the owner and the name of the repository; the number and the URL.
  pub create_pull : Text → Text → Text → NewPullRequest → Exec World (ℕ × Text)
  -- age.
  pub AgeRecipient : Type 0
  pub AgeWriter : Type 0
  pub parse_x25519 : Text → Result AgeRecipient
  pub parse_ssh : Text → Result AgeRecipient
  pub new_scrypt : Text → Result AgeRecipient
  pub age_encrypt : List AgeRecipient → Exec World AgeWriter
  pub age_write : AgeWriter → Text → Exec World Unit
  -- Closes the writer; the value is what its buffer then holds.
  pub age_close : AgeWriter → Exec World Text
  -- Private keys, and the reader of what they open.
  pub AgeIdentity : Type 0
  pub AgeReader : Type 0
  pub parse_x25519_identity : Text → Result AgeIdentity
  pub parse_ssh_identity : Text → Result AgeIdentity
  pub new_scrypt_identity : Text → Result AgeIdentity
  pub age_decrypt : Text → List AgeIdentity → Result AgeReader
  pub read_all : AgeReader → Result Text
  -- JSON and CEL. The environment has the variables `response`, `data` and `now` and the functions of
  -- the time library, so an evaluation may read the clock; its variables are given by name.
  pub Json : Type 0
  pub CelEnv : Type 0
  pub Ast : Type 0
  pub Program : Type 0
  pub Other : Type 0
  pub unmarshal : Text → Result Json
  pub json_text : Text → Json
  pub json_null : Json
  pub json_int : ℕ → Json
  pub marshal : GoValue Other → Result Text
  pub show_go : GoValue Other → Text
  -- The type's name, for `%T` of `result.Value()`.
  pub type_name : CelValue Other → Text
  pub new_cel_env : Result CelEnv
  pub compile : CelEnv → Text → Result Ast
  pub program : CelEnv → Ast → Result Program
  pub eval : Program → List (Text × Json) → Exec World (CelValue Other)
  -- cron. `next` is the zero time where no time fits.
  pub Cron : Type 0
  pub parse_cron : Text → Result Cron
  pub next : Cron → Time → Time
