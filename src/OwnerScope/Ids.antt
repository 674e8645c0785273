-- ===== src/OwnerScope/Ids.antt =====
-- console/internal/grpcserver/task_owner_scope.go: the scoped ids. Text is a list of code points.
use onlyboxes.Prelude.{
  ℕ, Bool, true, false, ◌&&◌, ◌||◌, Option, none, some, [], ◌∷◌, ◌++◌, Text, codes, length,
  trim_space, is_empty, text_eq, has_prefix, trim_prefix, cut, leb, ◌==◌, if◌then◌else◌,
}

abbrev pub task_owner_scope_prefix : Text
task_owner_scope_prefix = codes "obx"

-- `taskOwnerScopeSeparator`
abbrev pub colon : ℕ
colon = b':'

abbrev pub nul : ℕ
nul = 0

abbrev pub normalize_task_owner_id : Text → Text
normalize_task_owner_id owner_id = trim_space owner_id

unfoldable pub task_request_scope_key : Text → Text → Text
task_request_scope_key owner_id request_id =
    normalize_task_owner_id owner_id ++ nul ∷ trim_space request_id

-- `strings.Join` of the prefix, the owner and the session.
abbrev pub scoped : Text → Text → Text
scoped owner session = task_owner_scope_prefix ++ colon ∷ owner ++ colon ∷ session

unfoldable pub scope_terminal_session_id : Text → Text → Text
scope_terminal_session_id owner_id external_session_id =
    let owner = normalize_task_owner_id owner_id in
    let session = trim_space external_session_id in
    if is_empty owner || is_empty session then session else scoped owner session

unfoldable pub is_alnum : ℕ → Bool
is_alnum c = (leb b'A' c && leb c b'Z') || (leb b'a' c && leb c b'z') || (leb b'0' c && leb c b'9')

unfoldable pub is_session_id_char : ℕ → Bool
unfolding is_alnum
is_session_id_char c = is_alnum c || c == b'.' || c == b'_' || c == colon || c == b'-'

unfoldable pub all_session_id_chars : Text → Bool
unfolding is_session_id_char
all_session_id_chars [] = true
all_session_id_chars (c ∷ s) = is_session_id_char c && all_session_id_chars s

-- `^[A-Za-z0-9][A-Za-z0-9._:-]{0,255}$`
unfoldable pub valid_external_terminal_session_id : Text → Bool
unfolding is_alnum all_session_id_chars
valid_external_terminal_session_id [] = false
valid_external_terminal_session_id (c ∷ s) =
    is_alnum c && all_session_id_chars s && leb (length s) 255

abbrev pub split_second : Text → Option (Text × Text) → Option (Text × Text × Text)
split_second a none = none
split_second a (some (b, c)) = some (a, b, c)

abbrev pub split_first : Option (Text × Text) → Option (Text × Text × Text)
split_first none = none
split_first (some (a, rest)) = split_second a (cut colon rest)

-- `strings.SplitN(id, ":", 3)` has three parts exactly if there are two separators.
unfoldable pub split_scoped : Text → Option (Text × Text × Text)
split_scoped s = split_first (cut colon s)

abbrev pub parse_parts : Option (Text × Text × Text) → Option (Text × Text)
parse_parts none = none
parse_parts (some (a, b, c)) =
    if text_eq a task_owner_scope_prefix
    then if is_empty (trim_space b) || is_empty (trim_space c)
      then none
      else some (trim_space b, trim_space c)
    else none

-- The owner and the session.
unfoldable pub parse_scoped_terminal_session_id : Text → Option (Text × Text)
unfolding split_scoped
parse_scoped_terminal_session_id scoped_session_id =
    parse_parts (split_scoped (trim_space scoped_session_id))

abbrev pub owner_prefix : Text → Text
owner_prefix owner = task_owner_scope_prefix ++ colon ∷ owner ++ colon ∷ []

abbrev pub non_empty : Text → Option Text
non_empty t = if is_empty t then none else some t

unfoldable pub unscope_terminal_session_id : Text → Text → Option Text
unscope_terminal_session_id owner_id scoped_session_id =
    let owner = normalize_task_owner_id owner_id in
    let session = trim_space scoped_session_id in
    if is_empty session
    then none
    else if is_empty owner
    then some session
    else if has_prefix (owner_prefix owner) session
    then non_empty (trim_space (trim_prefix (owner_prefix owner) session))
    else none
