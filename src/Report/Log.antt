-- ===== src/Report/Log.antt =====
-- The request log of internal/report/report.go: one file of JSON lines for each day. Closing a file
-- cannot fail for the logger, and a write that fails leaves the file as it was.
use code_agent_router.Text.{Bytes, codes, str_eq}
use code_agent_router.Map.{Map, insert, lookup}
use code_agent_router.Prelude.{
  Option, Bool, List, if◌then◌else◌, leb, ◌++◌, false, get_or, true, length, [], none, take, some,
  ◌∷◌,
}
use code_agent_router.Prelude.Int.{ℤ}

-- `Entry`
pub record LogEntry : Type 0 where
  pub ts : Bytes
  pub user_id : Bytes
  pub access_key : Bytes
  pub request_id : Bytes
  pub model : Bytes
  pub stream : Bool
  pub prompt_tokens : ℤ
  pub completion_tokens : ℤ
  pub total_tokens : ℤ
  pub upstream_key_id : Bytes
  pub route_type : Bytes
  pub status : ℤ
  pub error : Bytes
  pub latency_ms : ℤ
  pub client_ip : Bytes

-- encoding/json on entries. `today` is what formatting the clock gives.
pub record Codec : Type 0 where
  pub marshal : LogEntry → Bytes
  pub unmarshal : Bytes → Option LogEntry

-- The log's directory, by file name, each file as its lines.
abbrev pub Files : Type 0
Files = Map (List Bytes)

-- `open_day` is the field `day` while `file` is not nil.
pub record Logger : Type 0 where
  pub open_day : Option Bytes
  pub files : Files

-- `todayFrom`
unfoldable pub today_from : (today ts : Bytes) → Bytes
today_from today ts = if leb 10 (length ts) then take 10 ts else today

-- `"requests-" + day + ".jsonl"`
unfoldable pub file_name : Bytes → Bytes
file_name day = codes "requests-" ++ (day ++ codes ".jsonl")

-- What `os.OpenFile` and the write of a line come to.
pub data Disk : Type 0 where
  works open_fails write_fails : Disk

unfoldable pub is_open_for : Bytes → Option Bytes → Bool
is_open_for day none = false
is_open_for day (some d) = str_eq d day

-- A file that is opened to append is made if it is missing.
unfoldable pub touch : Bytes → Files → Files
touch name files = insert name (get_or [] (lookup name files)) files

-- `openLocked`; whether it fails, and the logger after it.
unfoldable pub open_locked : Disk → (day : Bytes) → Logger → Bool × Logger
unfolding is_open_for touch file_name
open_locked disk day l = if is_open_for day l.open_day then (true, l) else elim disk [
  | open_fails ↦ (false, record l { open_day = none })
  | other ↦ (true, record { open_day = some day; files = touch (file_name day) l.files })
]

unfoldable pub append_line : (name line : Bytes) → Files → Files
append_line name line files = insert name (get_or [] (lookup name files) ++ line ∷ []) files
