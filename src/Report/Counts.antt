-- ===== src/Report/Counts.antt =====
-- The totals of a report of internal/report/report.go, as sums over the entries of the log files.
use mathlib.Core.List.{map-append}
use code_agent_router.Report.Log.{Codec, Files, LogEntry}
use code_agent_router.Text.{Bytes, str_lt}
use code_agent_router.Prelude.{
  Option, List, some, ◌∷◌, ◌++◌, none, ◌≡◌, refl, [], get_or, map, sym, ap, ◌∙◌, subst, Bool-cases,
  Option-cases, leb, inl, inr, length, if◌then◌else◌,
}
use code_agent_router.Report.Totals.{Field, sum_values, sum_values-insert, report_of-sum}
use code_agent_router.Report.Accs.{
  Accs, add_counted, add_entry, counted, aggregate_file, acc_key, max_line, count_entry, is_error,
  RowAcc,
}
use code_agent_router.Router.{sort_stable}
use code_agent_router.Map.{IsMap, insert-IsMap, lookup, values}
use code_agent_router.Prelude.Int64.{
  Fits64, sum64-Fits64, add64, add64-zero, sum64, zero-add64, sum64-append, add64_assoc, add64_swap,
  add64-Fits64,
}
use code_agent_router.Report.Rows.{
  path_month, matching, aggregate_files, build_report, Report, report_of, Summary, row_of, add_row,
  is_bad_month,
}
use code_agent_router.Prelude.Int.{ℤ, pos, ◌+ℤ◌}

-- The entries that count, file by file and line by line.
module _ (codec : Codec) (today : Bytes) where
  abbrev with_entry : Option (LogEntry × Bytes) → List LogEntry → List LogEntry
  with_entry none es = es
  with_entry (some (e, day)) es = e ∷ es

  line_entries : (path_month : Bytes) → List Bytes → List LogEntry
  line_entries path_month [] = []
  line_entries path_month (line ∷ lines) =
      with_entry (counted codec today path_month line) (line_entries path_month lines)

  file_entries : List Bytes → Files → List LogEntry
  file_entries [] files = []
  file_entries (name ∷ names) files =
      line_entries (path_month name) (get_or [] (lookup name files)) ++ file_entries names files

  -- The entries of the files of a month.
  pub month_entries : (month : Bytes) → Files → List LogEntry
  month_entries month files = file_entries (sort_stable str_lt (matching month files)) files

module _ (codec : Codec) (today : Bytes) (field : Field) where
  -- What the sums grow by.
  record Grows (es : List LogEntry) (accs accs' : Accs) : Type 0 where
    is_map : IsMap accs'
    grown : sum_values field accs' ≡ add64 (sum64 (map field.of_entry es)) (sum_values field accs)

  sum_values-Fits64 : (accs : Accs) → Fits64 (sum_values field accs)
  unfolding sum_values
  sum_values-Fits64 accs = sum64-Fits64 (map field.of_acc (values accs))

  Grows-nil : (accs : Accs) → IsMap accs → Grows [] accs accs
  Grows-nil accs h = record { is_map = h; grown = sym (zero-add64 _ (sum_values-Fits64 accs)) }

  Grows-append :
      (es es' : List LogEntry) (a b c : Accs) → Grows es a b → Grows es' b c → Grows (es ++ es') a c
  Grows-append es es' a b c p q = record {
    is_map = q.is_map;
    grown =
        let s = sum64 (map field.of_entry es) in
        let s' = sum64 (map field.of_entry es') in
        let joined : sum64 (map field.of_entry (es ++ es')) ≡ add64 s s' =
          ap sum64 (map-append field.of_entry es es')
          ∙ sum64-append (map field.of_entry es) (map field.of_entry es') in
        q.grown
        ∙ ap (add64 s') p.grown
        ∙ add64_swap s' s (sum_values field a)
        ∙ sym (add64_assoc s s' (sum_values field a))
        ∙ ap (λ x. add64 x (sum_values field a)) (sym joined);
  }

  counted-Grows :
      (o : Option (LogEntry × Bytes)) (accs : Accs)
      → IsMap accs
      → Grows (with_entry codec today o []) accs (add_counted codec today o accs)
  unfolding add_counted add_entry
  counted-Grows none accs h = Grows-nil accs h
  counted-Grows (some (e, day)) accs h = record {
    is_map = insert-IsMap _ _ accs h;
    grown =
        sum_values-insert field (acc_key e day) _ (field.of_entry e) accs (field.counts e _)
        ∙ sym (
            add64_assoc (field.of_entry e) (pos 0) (sum_values field accs)
            ∙ ap (add64 (field.of_entry e)) (zero-add64 _ (sum_values-Fits64 accs)));
  }

  with_entry-append :
      (o : Option (LogEntry × Bytes)) (es : List LogEntry)
      → with_entry codec today o es ≡ with_entry codec today o [] ++ es
  with_entry-append none es = refl
  with_entry-append (some (e, day)) es = refl

  aggregate_file-Grows :
      (path_month : Bytes) (lines : List Bytes) (accs : Accs) {accs' : Accs}
      → IsMap accs
      → aggregate_file codec today path_month lines accs ≡ some accs'
      → Grows (line_entries codec today path_month lines) accs accs'
  unfolding aggregate_file line_entries
  aggregate_file-Grows path_month [] accs h e =
      subst (Grows [] accs) (ap (get_or accs) e) (Grows-nil accs h)
  aggregate_file-Grows path_month (line ∷ lines) accs {accs'} h e =
      let c = counted codec today path_month line in
      elim (Bool-cases (leb max_line (length line))) [
        | inl q ↦ let e' = rw (aggregate_file, q) at e in cc
        | inr q ↦
            let g = counted-Grows c accs h in
            let r =
              aggregate_file-Grows path_month lines (add_counted codec today c accs) g.is_map
                (rw (aggregate_file, q) at e) in
            subst (λ es. Grows es accs accs')
              (sym (with_entry-append c (line_entries codec today path_month lines)))
              (Grows-append _ _ _ _ _ g r)
      ]

  aggregate_files-Grows :
      (names : List Bytes) (files : Files) (accs : Accs) {accs' : Accs}
      → IsMap accs
      → aggregate_files codec today names files accs ≡ some accs'
      → Grows (file_entries codec today names files) accs accs'
  unfolding aggregate_files file_entries
  aggregate_files-Grows [] files accs h e =
      subst (Grows [] accs) (ap (get_or accs) e) (Grows-nil accs h)
  aggregate_files-Grows (name ∷ names) files accs {accs'} h e =
      let lines = get_or [] (lookup name files) in
      elim (Option-cases (aggregate_file codec today (path_month name) lines accs)) [
        | inl q ↦ let e' = rw (aggregate_files, q) at e in cc
        | inr (mid, q) ↦
            let g = aggregate_file-Grows (path_month name) lines accs h q in
            let r = aggregate_files-Grows names files mid g.is_map (rw (aggregate_files, q) at e) in
            Grows-append _ _ accs mid accs' g r
      ]

  -- One total of a report is the sum over the entries.
  pub build_report-total :
      (tenths : ℤ → ℤ → ℤ) (month : Bytes) (files : Files) {report : Report}
      → build_report tenths codec today month files ≡ some report
      → field.of_summary report.summary
        ≡ sum64 (map field.of_entry (month_entries codec today month files))
  unfolding build_report month_entries sum_values add64 values
  build_report-total tenths month files {report} e =
      let names = sort_stable str_lt (matching month files) in
      elim (Bool-cases (is_bad_month month)) [
        | inl b ↦ let e' = rw (build_report, b) at e in cc
        | inr b ↦ elim (Option-cases (aggregate_files codec today names files [])) [
          | inl q ↦ let e' = rw (build_report, b, q) at e in cc
          | inr (accs, q) ↦
              let g = aggregate_files-Grows names files [] tt q in
              let p : report_of tenths month accs ≡ report =
                ap (get_or (report_of tenths month accs)) (rw (build_report, b, q) at e) in
              ap (λ (r : Report). field.of_summary r.summary) (sym p)
              ∙ report_of-sum field tenths month accs g.is_map
              ∙ g.grown
              ∙ add64-zero _
                  (sum64-Fits64 (map field.of_entry (month_entries codec today month files)))
        ]
      ]

-- Each sum of a report is that of the entries, which are summed one by one.
pub record IsTotal (es : List LogEntry) (s : Summary) : Type 0 where
  pub requests : s.requests ≡ sum64 (map (λ e. pos 1) es)
  pub prompt : s.prompt_tokens ≡ sum64 (map (λ (e : LogEntry). e.prompt_tokens) es)
  pub completion : s.completion_tokens ≡ sum64 (map (λ (e : LogEntry). e.completion_tokens) es)
  pub total : s.total_tokens ≡ sum64 (map (λ (e : LogEntry). e.total_tokens) es)
  pub errors : s.errors ≡ sum64 (map (λ e. if is_error e then pos 1 else pos 0) es)

abbrev request_field : Field
unfolding count_entry row_of add_row
request_field = record {
  of_entry = λ e. pos 1;
  of_acc = λ a. a.req;
  of_row = λ row. row.requests;
  of_summary = λ s. s.requests;
  starts = refl;
  counts = λ e a. refl;
  fills = λ tenths k a. refl;
  summary_starts = refl;
  adds = λ s row. refl;
  not_average = λ s x. refl;
}

abbrev prompt_field : Field
unfolding count_entry row_of add_row
prompt_field = record {
  of_entry = λ e. e.prompt_tokens;
  of_acc = λ a. a.prompt;
  of_row = λ row. row.prompt_tokens;
  of_summary = λ s. s.prompt_tokens;
  starts = refl;
  counts = λ e a. refl;
  fills = λ tenths k a. refl;
  summary_starts = refl;
  adds = λ s row. refl;
  not_average = λ s x. refl;
}

abbrev completion_field : Field
unfolding count_entry row_of add_row
completion_field = record {
  of_entry = λ e. e.completion_tokens;
  of_acc = λ a. a.completion;
  of_row = λ row. row.completion_tokens;
  of_summary = λ s. s.completion_tokens;
  starts = refl;
  counts = λ e a. refl;
  fills = λ tenths k a. refl;
  summary_starts = refl;
  adds = λ s row. refl;
  not_average = λ s x. refl;
}

abbrev total_field : Field
unfolding count_entry row_of add_row
total_field = record {
  of_entry = λ e. e.total_tokens;
  of_acc = λ a. a.total;
  of_row = λ row. row.total_tokens;
  of_summary = λ s. s.total_tokens;
  starts = refl;
  counts = λ e a. refl;
  fills = λ tenths k a. refl;
  summary_starts = refl;
  adds = λ s row. refl;
  not_average = λ s x. refl;
}

count_entry-errs :
    (e : LogEntry) (a : RowAcc)
    → add64 (count_entry e a).errs (pos 0)
      ≡ add64 (add64 a.errs (pos 0)) (if is_error e then pos 1 else pos 0)
unfolding count_entry add64 ◌+ℤ◌
count_entry-errs e a = elim (Bool-cases (is_error e)) [
  | inl q ↦
      rw (count_entry, q)
        (add64_assoc a.errs (pos 1) (pos 0) ∙ sym (add64_assoc a.errs (pos 0) (pos 1)))
  | inr q ↦ rw (count_entry, q) (sym (add64-zero _ (add64-Fits64 a.errs (pos 0))))
]

abbrev error_field : Field
unfolding row_of add_row add64 ◌+ℤ◌
error_field = record {
  of_entry = λ e. if is_error e then pos 1 else pos 0;
  of_acc = λ a. add64 a.errs (pos 0);
  of_row = λ row. add64 row.errors (pos 0);
  of_summary = λ s. s.errors;
  starts = refl;
  counts = count_entry-errs;
  fills = λ tenths k a. refl;
  summary_starts = refl;
  adds = λ s row.
      sym (add64-zero _ (add64-Fits64 s.errors row.errors))
      ∙ add64_assoc s.errors row.errors (pos 0);
  not_average = λ s x. refl;
}

-- The summary of a report that is built is the sum, modulo 2^64, over the log lines of the month that
-- count, one by one and whatever user, model and day they are of: their number, their tokens of each
-- sort, and how many of them are errors.
pub build_report-IsTotal :
    (tenths : ℤ → ℤ → ℤ) (codec : Codec) (today month : Bytes) (files : Files) {report : Report}
    → build_report tenths codec today month files ≡ some report
    → IsTotal (month_entries codec today month files) report.summary
unfolding request_field error_field
build_report-IsTotal tenths codec today month files e = record {
  requests = build_report-total codec today request_field tenths month files e;
  prompt = build_report-total codec today prompt_field tenths month files e;
  completion = build_report-total codec today completion_field tenths month files e;
  total = build_report-total codec today total_field tenths month files e;
  errors = build_report-total codec today error_field tenths month files e;
}
