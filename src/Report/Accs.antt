-- ===== src/Report/Accs.antt =====
-- The sums for each user, model and day of internal/report/report.go.
use code_agent_router.Prelude.Int.{ℤ, pos, negsuc, ltb_ℤ}
use code_agent_router.Text.{Bytes, trim_space, is_empty, str_eq}
use code_agent_router.Report.Log.{LogEntry, Codec, today_from}
use code_agent_router.Map.{Map, insert, lookup}
use code_agent_router.Prelude.{
  ℕ, List, Bool, ◌++◌, Option, if◌then◌else◌, ◌∷◌, not, get_or, ltb, some, leb, [], ◌||◌, length,
  none, ◌&&◌, take,
}
use code_agent_router.Prelude.Int64.{add64}

-- `rowAcc`; `latMin` is never read.
pub record RowAcc : Type 0 where
  pub req : ℤ
  pub prompt : ℤ
  pub completion : ℤ
  pub total : ℤ
  pub errs : ℤ
  pub lat_sum : ℤ
  pub lat_max : ℤ
  pub lat_min : ℤ

-- `&rowAcc{latMin: -1}`
abbrev pub new_acc : RowAcc
new_acc = record {
  req = pos 0;
  prompt = pos 0;
  completion = pos 0;
  total = pos 0;
  errs = pos 0;
  lat_sum = pos 0;
  lat_max = pos 0;
  lat_min = negsuc 0;
}

-- `e.Status >= 400 || e.Error != ""`
unfoldable pub is_error : LogEntry → Bool
is_error e = not (ltb_ℤ e.status (pos 400)) || not (is_empty e.error)

-- What the loop of `aggregateFile` adds for an entry.
unfoldable pub count_entry : LogEntry → RowAcc → RowAcc
unfolding is_error
count_entry e a = record {
  req = add64 a.req (pos 1);
  prompt = add64 a.prompt e.prompt_tokens;
  completion = add64 a.completion e.completion_tokens;
  total = add64 a.total e.total_tokens;
  errs = if is_error e then add64 a.errs (pos 1) else a.errs;
  lat_sum = add64 a.lat_sum e.latency_ms;
  lat_max = if ltb_ℤ a.lat_max e.latency_ms then e.latency_ms else a.lat_max;
  lat_min =
      if ltb_ℤ a.lat_min (pos 0) || ltb_ℤ e.latency_ms a.lat_min then e.latency_ms else a.lat_min;
}

-- `e.UserID + "\x00" + e.Model + "\x00" + day`
unfoldable pub acc_key : LogEntry → (day : Bytes) → Bytes
acc_key e day = e.user_id ++ (0 ∷ (e.model ++ (0 ∷ day)))

abbrev pub Accs : Type 0
Accs = Map RowAcc

unfoldable pub add_entry : LogEntry → (day : Bytes) → Accs → Accs
unfolding count_entry acc_key
add_entry e day accs =
    insert (acc_key e day) (count_entry e (get_or new_acc (lookup (acc_key e day) accs))) accs

-- The largest line that the scanner takes is one byte shorter.
abbrev pub max_line : ℕ
max_line = 1_048_576

-- `len(day) > 7 && day[:7] != pathMonth(path)`
unfoldable pub of_other_month : (path_month day : Bytes) → Bool
of_other_month path_month day = ltb 7 (length day) && not (str_eq (take 7 day) path_month)

module _ (codec : Codec) (today : Bytes) where
  -- An entry of a line, if it counts: lines that are blank or cannot be decoded are skipped, and so
  -- are those of another month.
  unfoldable pub counted : (path_month line : Bytes) → Option (LogEntry × Bytes)
  unfolding of_other_month today_from
  counted path_month line =
      let s : Bytes = trim_space line in
      if is_empty s then none else elim (codec.unmarshal s) [
        | none ↦ none
        | some e ↦
            let day : Bytes = today_from today e.ts in
            if of_other_month path_month day then none else some (e, day)
      ]

  unfoldable pub add_counted : Option (LogEntry × Bytes) → Accs → Accs
  unfolding add_entry
  add_counted none accs = accs
  add_counted (some (e, day)) accs = add_entry e day accs

  -- `aggregateFile`; `none` is the scanner's error on a line that is too long.
  unfoldable pub aggregate_file : (path_month : Bytes) → List Bytes → Accs → Option Accs
  unfolding counted add_counted
  aggregate_file path_month [] accs = some accs
  aggregate_file path_month (line ∷ lines) accs =
      let rest : Option Accs =
        aggregate_file path_month lines (add_counted (counted path_month line) accs) in
      if leb max_line (length line) then none else rest
