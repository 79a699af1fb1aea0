-- ===== src/Report/Service.antt =====
-- `Logger.Write` and `Service.Monthly` of internal/report/report.go, with the cache that the one
-- empties for the other. Each holds its own mutex: while a line is in its file and the cache is not yet
-- told, reports may be asked for, and `between` is what they do to the cache.
use code_agent_router.Report.Log.{
  Logger, append_line, open_locked, file_name, today_from, Codec, Disk, LogEntry, write_fails,
}
use code_agent_router.Text.{Bytes}
use code_agent_router.Prelude.{none, Bool, Option, false, take, true, some}
use code_agent_router.Prelude.Int.{ℤ}
use code_agent_router.Map.{Map, erase, lookup, insert}
use code_agent_router.Report.Rows.{Report, build_report}

-- The logger and the cache of the service.
pub record Reporting : Type 0 where
  pub logger : Logger
  pub cache : Map Report

-- `Invalidate`
unfoldable pub invalidate : (month : Bytes) → Map Report → Map Report
invalidate = erase

-- `Write` once the file is open.
unfoldable pub write_opened :
    (between : Reporting → Reporting)
    → Disk
    → (day line : Bytes) → Bool × Logger
    → Map Report
    → Bool × Reporting
unfolding append_line file_name invalidate
write_opened between disk day line (false, l) cache = (false, record { logger = l; cache = cache })
write_opened between write_fails day line (true, l) cache =
    (false, record { logger = l; cache = cache })
write_opened between disk day line (true, l) cache =
    let r : Reporting = between (record {
      logger = record l { files = append_line (file_name day) line l.files };
      cache = cache;
    }) in
    (true, record r { cache = invalidate (take 7 day) r.cache })

-- `Write`, with the function that the program passes to `NewLogger`.
unfoldable pub write :
    Codec
    → (between : Reporting → Reporting) → (today : Bytes) → Disk
    → LogEntry
    → Reporting
    → Bool × Reporting
unfolding write_opened open_locked today_from
write codec between today disk e r =
    let day : Bytes = today_from today e.ts in
    write_opened between disk day (codec.marshal e) (open_locked disk day r.logger) r.cache

-- `Close`
unfoldable pub close : Reporting → Reporting
close r = record r { logger = record r.logger { open_day = none } }

module _ (tenths : (sum count : ℤ) → ℤ) (codec : Codec) (today : Bytes) where
  -- `Monthly`; `none` is a failure to read the log.
  unfoldable pub monthly : (month : Bytes) → Reporting → Option Report × Reporting
  unfolding build_report
  monthly month r = elim (lookup month r.cache) [
    | some report ↦ (some report, r)
    | none ↦ elim (build_report tenths codec today month r.logger.files) [
      | none ↦ (none, r)
      | some report ↦ (some report, record r { cache = insert month report r.cache })
    ]
  ]
