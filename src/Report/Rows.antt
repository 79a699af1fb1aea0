-- ===== src/Report/Rows.antt =====
-- The monthly aggregation of internal/report/report.go. An average is kept in tenths: `tenths` is the
-- arithmetic on float64 of `round1` and its argument. A month holds no
-- slash, so that its pattern is one of names in the log's directory.
use code_agent_router.Prelude.Int.{ℤ, pos, ltb_ℤ}
use code_agent_router.Text.{Bytes, codes, str_lt}
use code_agent_router.Report.Log.{Codec, Files}
use code_agent_router.Map.{lookup, values}
use code_agent_router.Prelude.{
  List, Bool, ◌++◌, Option, if◌then◌else◌, ◌∷◌, get_or, some, leb, [], ◌==◌, length, none, take,
  drop, map, true, false,
}
use code_agent_router.Prelude.Int64.{max64, add64}
use code_agent_router.Router.{sort_stable}
use code_agent_router.Report.Accs.{aggregate_file, RowAcc, Accs, new_acc}
use code_agent_router.Report.Glob.{parse, fits, Item, outside}

pub record Row : Type 0 where
  pub user_id : Bytes
  pub model : Bytes
  pub day : Bytes
  pub requests : ℤ
  pub prompt_tokens : ℤ
  pub completion_tokens : ℤ
  pub total_tokens : ℤ
  pub errors : ℤ
  pub avg_latency_tenths : ℤ
  pub max_latency_ms : ℤ

pub record Summary : Type 0 where
  pub requests : ℤ
  pub prompt_tokens : ℤ
  pub completion_tokens : ℤ
  pub total_tokens : ℤ
  pub errors : ℤ
  pub avg_latency_tenths : ℤ
  pub max_latency_ms : ℤ

pub record Report : Type 0 where
  pub month : Bytes
  pub summary : Summary
  pub rows : List Row

-- `pathMonth` of a file's name.
unfoldable pub path_month : Bytes → Bytes
path_month name = if leb 16 (length name) then take 7 (drop 9 name) else []

-- The items of the pattern `requests-<month>-*.jsonl`; `none` if it is malformed.
unfoldable pub month_items : (month : Bytes) → Option (List Item)
unfolding parse
month_items month = parse outside ((codes "requests-" ++ (month ++ codes "-")) ++ codes "*.jsonl")

unfoldable pub items_fit : Option (List Item) → (name : Bytes) → Bool
unfolding fits
items_fit none name = false
items_fit (some is) name = fits is name

-- The names that the pattern matches.
unfoldable pub matches_month : (month name : Bytes) → Bool
unfolding items_fit month_items
matches_month month name = items_fit (month_items month) name

-- `filepath.ErrBadPattern`
unfoldable pub is_bad_month : (month : Bytes) → Bool
unfolding month_items
is_bad_month month = elim (month_items month) [ none ↦ true | some is ↦ false ]

unfoldable pub matching : (month : Bytes) → Files → List Bytes
unfolding matches_month
matching month [] = []
matching month ((name, lines) ∷ files) =
    if matches_month month name then name ∷ matching month files else matching month files

module _ (codec : Codec) (today : Bytes) where
  unfoldable pub aggregate_files : List Bytes → Files → Accs → Option Accs
  unfolding aggregate_file path_month
  aggregate_files [] files accs = some accs
  aggregate_files (name ∷ names) files accs =
      elim (aggregate_file codec today (path_month name) (get_or [] (lookup name files)) accs) [
        | none ↦ none
        | some accs' ↦ aggregate_files names files accs'
      ]

-- `strings.SplitN(k, "\x00", 3)`, the part before a NUL and the rest; without one the rest is missing.
unfoldable pub cut : Bytes → Bytes × Bytes
cut [] = ([], [])
cut (b ∷ bs) = let (w, rest) = cut bs in if b == 0 then ([], bs) else (b ∷ w, rest)

-- `strings.SplitN(k, "\x00", 3)`
unfoldable pub split_key : Bytes → Bytes × Bytes × Bytes
unfolding cut
split_key k = let (user, rest) = cut k in let (model, day) = cut rest in (user, model, day)

module _ (tenths : (sum count : ℤ) → ℤ) where
  unfoldable pub row_of : (key : Bytes) → RowAcc → Row
  unfolding split_key
  row_of key a =
      let (user, model, day) = split_key key in
      record {
        user_id = user;
        model = model;
        day = day;
        requests = a.req;
        prompt_tokens = a.prompt;
        completion_tokens = a.completion;
        total_tokens = a.total;
        errors = a.errs;
        avg_latency_tenths = if ltb_ℤ (pos 0) a.req then tenths a.lat_sum a.req else pos 0;
        max_latency_ms = a.lat_max;
      }

  unfoldable pub rows_of : List Bytes → Accs → List Row
  unfolding row_of
  rows_of [] accs = []
  rows_of (k ∷ ks) accs = row_of k (get_or new_acc (lookup k accs)) ∷ rows_of ks accs

abbrev pub no_summary : Summary
no_summary = record {
  requests = pos 0;
  prompt_tokens = pos 0;
  completion_tokens = pos 0;
  total_tokens = pos 0;
  errors = pos 0;
  avg_latency_tenths = pos 0;
  max_latency_ms = pos 0;
}

-- The loop's `r.Summary.… += row.…`
unfoldable pub add_row : Summary → Row → Summary
unfolding max64
add_row s row = record s {
  requests = add64 s.requests row.requests;
  prompt_tokens = add64 s.prompt_tokens row.prompt_tokens;
  completion_tokens = add64 s.completion_tokens row.completion_tokens;
  total_tokens = add64 s.total_tokens row.total_tokens;
  errors = add64 s.errors row.errors;
  max_latency_ms = max64 s.max_latency_ms row.max_latency_ms;
}

unfoldable pub add_rows : Summary → List Row → Summary
unfolding add_row
add_rows s [] = s
add_rows s (row ∷ rows) = add_rows (add_row s row) rows

-- `sumLatency`
unfoldable pub sum_latency : List RowAcc → ℤ
sum_latency [] = pos 0
sum_latency (a ∷ as') = add64 a.lat_sum (sum_latency as')

unfoldable pub map_keys : Accs → List Bytes
map_keys [] = []
map_keys ((k, a) ∷ accs) = k ∷ map_keys accs

module _ (tenths : (sum count : ℤ) → ℤ) where
  -- The part of `buildReport` after the files.
  unfoldable pub report_of : (month : Bytes) → Accs → Report
  unfolding rows_of add_rows sum_latency map_keys sort_stable str_lt
  report_of month accs =
      let rows : List Row = rows_of tenths (sort_stable str_lt (map_keys accs)) accs in
      let s : Summary = add_rows no_summary rows in
      record {
        month = month;
        summary =
            if ltb_ℤ (pos 0) s.requests
            then record s { avg_latency_tenths = tenths (sum_latency (values accs)) s.requests }
            else s;
        rows = rows;
      }

  -- `buildReport`
  unfoldable pub build_report : Codec → (today month : Bytes) → Files → Option Report
  unfolding aggregate_files report_of matching is_bad_month
  build_report codec today month files =
      let built : Option Accs =
        aggregate_files codec today (sort_stable str_lt (matching month files)) files [] in
      if is_bad_month month
      then none
      else elim built [ none ↦ none | some accs ↦ some (report_of month accs) ]

-- `Report.CSV`: the records that it gives to the writer of encoding/csv. The arguments are the
-- decimal texts that package strconv makes of an integer and of an average.
unfoldable pub csv_row : (format_int format_tenths : ℤ → Bytes) → Row → List Bytes
csv_row format_int format_tenths row =
    row.user_id
    ∷ row.model
    ∷ row.day
    ∷ format_int row.requests
    ∷ format_int row.prompt_tokens
    ∷ format_int row.completion_tokens
    ∷ format_int row.total_tokens
    ∷ format_int row.errors
    ∷ format_tenths row.avg_latency_tenths
    ∷ format_int row.max_latency_ms
    ∷ []

unfoldable pub csv : (format_int format_tenths : ℤ → Bytes) → Report → List (List Bytes)
unfolding csv_row
csv format_int format_tenths report =
    (codes "user_id"
      ∷ codes "model"
      ∷ codes "day"
      ∷ codes "requests"
      ∷ codes "prompt_tokens"
      ∷ codes "completion_tokens"
      ∷ codes "total_tokens"
      ∷ codes "errors"
      ∷ codes "avg_latency_ms"
      ∷ codes "max_latency_ms"
      ∷ [])
    ∷ map (csv_row format_int format_tenths) report.rows
