-- ===== src/Report/Tests.antt =====
-- The log and the reports of internal/report/report.go on concrete entries.
use code_agent_router.Text.{Bytes, codes, str_eq, is_empty, trim_space}
use code_agent_router.Report.Log.{LogEntry, Codec, works, Files, file_name}
use code_agent_router.Report.Service.{Reporting, write, write_opened, monthly, close}
use code_agent_router.Prelude.Int.{ℤ, pos, ltb_ℤ, ◌+ℤ◌}
use code_agent_router.Prelude.{
  if◌then◌else◌, none, Option, [], false, some, ◌≡◌, refl, true, ◌∷◌, List,
}
use code_agent_router.Report.Rows.{
  Report, Summary, no_summary, build_report, matches_month, is_bad_month,
}
use code_agent_router.Map.{lookup, erase, insert, values}
use code_agent_router.Prelude.Int64.{add64}
use code_agent_router.Report.Counts.{IsTotal, month_entries, build_report-IsTotal}
use code_agent_router.Report.Cached.{
  start, History, IsBuilt, closed, History-monthly-IsBuilt, wrote, asked, ask_all, IsMonth,
}

-- Lines stand for entries by their first byte.
abbrev entry : (ts error : Bytes) → (total status latency : ℤ) → LogEntry
entry ts error total status latency = record {
  ts = ts;
  user_id = codes "u1";
  access_key = [];
  request_id = [];
  model = codes "m1";
  stream = false;
  prompt_tokens = pos 1;
  completion_tokens = pos 2;
  total_tokens = total;
  upstream_key_id = [];
  route_type = [];
  status = status;
  error = error;
  latency_ms = latency;
  client_ip = [];
}

abbrev first : LogEntry
first = entry (codes "2026-07-01T00:00:00") [] (pos 10) (pos 200) (pos 100)

abbrev second : LogEntry
second = entry (codes "2026-07-02T00:00:00") (codes "x") (pos 20) (pos 502) (pos 200)

abbrev toy : Codec
toy = record {
  marshal = λ e. if ltb_ℤ (pos 10) e.total_tokens then codes "b" else codes "a";
  unmarshal = λ s.
      if str_eq s (codes "a")
      then some first
      else if str_eq s (codes "b")
      then some second
      else none;
}

abbrev empty : Reporting
empty = record { logger = record { open_day = none; files = [] }; cache = [] }

-- Nothing is asked for while an entry is written.
abbrev idle : Reporting → Reporting
idle r = r

abbrev tenths : ℤ → ℤ → ℤ
tenths sum count = sum

two_written : Reporting
two_written = (write toy idle [] works second (write toy idle [] works first empty).1).1

abbrev summary_of : Option Report → Summary
summary_of none = no_summary
summary_of (some r) = r.summary

two_test : summary_of (monthly tenths toy [] (codes "2026-07") two_written).0 ≡ record {
  requests = pos 2;
  prompt_tokens = pos 2;
  completion_tokens = pos 4;
  total_tokens = pos 30;
  errors = pos 1;
  avg_latency_tenths = pos 300;
  max_latency_ms = pos 200;
}
unfolding two_written write write_opened monthly str_eq lookup erase insert is_empty trim_space
    add64 ◌+ℤ◌ values
two_test = refl

-- The log of the two entries, and what the report of its month is.
abbrev two_files : Files
two_files = two_written.logger.files

build_report-IsTotal_example :
    IsTotal
      (month_entries toy [] (codes "2026-07") two_files)
      (summary_of (build_report tenths toy [] (codes "2026-07") two_files))
unfolding two_written write write_opened build_report str_eq lookup erase insert is_empty trim_space
    add64 ◌+ℤ◌ values
build_report-IsTotal_example = build_report-IsTotal tenths toy [] (codes "2026-07") two_files refl

abbrev report_in : Option Report → Report
report_in none = record { month = []; summary = no_summary; rows = [] }
report_in (some r) = r

abbrev one_written : Reporting
one_written = (write toy (ask_all tenths toy []) (codes "2026-07-01") works first empty).1

-- The report of July is asked for between the two entries, while the second is written, and again after
-- the log is closed.
abbrev july : Bytes
july = codes "2026-07"

abbrev today : Bytes
today = codes "2026-07-02"

abbrev asked_between : Reporting
asked_between = (monthly tenths toy [] july one_written).1

abbrev asks : List (Bytes × Bytes)
asks = (today, july) ∷ []

abbrev asked_and_written : Reporting
asked_and_written = close (write toy (ask_all tenths toy asks) today works second asked_between).1

past : History tenths toy empty asked_and_written
unfolding write
past = closed (
    wrote asks today works second refl tt
      (asked [] july (wrote [] (codes "2026-07-01") works first refl tt start)))

july-IsMonth : IsMonth tenths toy july
july-IsMonth = (refl, (refl, (refl, (refl, (refl, (refl, (refl, (refl, tt))))))))

History-monthly-IsBuilt_example :
    IsBuilt tenths toy
      (codes "2026-07")
      (monthly tenths toy today (codes "2026-07") asked_and_written).1.logger.files
      (report_in (monthly tenths toy today (codes "2026-07") asked_and_written).0)
unfolding monthly lookup close write erase insert str_eq
History-monthly-IsBuilt_example =
    History-monthly-IsBuilt tenths toy today (codes "2026-07") refl past july-IsMonth refl

-- A month may be a pattern, and a malformed one gives no report.
pattern_test : matches_month (codes "2026-0?") (file_name today) ≡ true
unfolding matches_month file_name
pattern_test = refl

class_test : matches_month (codes "2026-0[1-6]") (file_name today) ≡ false
unfolding matches_month file_name
class_test = refl

malformed_test : is_bad_month (codes "2026-0[") ≡ true
unfolding is_bad_month
malformed_test = refl
