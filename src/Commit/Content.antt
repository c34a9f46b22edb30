-- ===== src/Commit/Content.antt =====
-- `buildFileContent`: the content of a file from the REST API results.
pub mod Laws
use git_change_operator.Base.{Text, text, Bool, not, ◌&&◌, Option, none, some, List, [], ◌∷◌}
use git_change_operator.Base.{if◌then◌else◌, is_nil, text_eq, join}
use git_change_operator.Api.Rest.{RestApiStatus}
use git_change_operator.Api.Files.{File}

-- The output of the first status of that name that has one.
named_results : Text → List RestApiStatus → List Text
named_results name [] = []
named_results name (s ∷ ss) =
    if text_eq s.name name && not (is_nil s.formatted_output)
    then s.formatted_output ∷ []
    else named_results name ss

-- The outputs of all statuses whose condition was met.
all_results : List RestApiStatus → List Text
all_results [] = []
all_results (s ∷ ss) =
    let rest = all_results ss in
    if not (is_nil s.formatted_output) && s.condition_met then s.formatted_output ∷ rest else rest

select_results : File → List RestApiStatus → List Text
unfolding named_results all_results
select_results file statuses =
    if is_nil file.rest_api_name
    then all_results statuses
    else named_results file.rest_api_name statuses

delimiter_of : File → Text
delimiter_of file = if is_nil file.rest_api_delimiter then b'\n' ∷ [] else file.rest_api_delimiter

-- The empty text stands for nil: the caller only asks for the length.
unfoldable pub build_file_content : File → List RestApiStatus → Text
unfolding select_results delimiter_of
build_file_content file statuses = join (select_results file statuses) (delimiter_of file)
