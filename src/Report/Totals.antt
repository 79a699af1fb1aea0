-- ===== src/Report/Totals.antt =====
-- The summary of a report of internal/report/report.go against the log entries that it is about,
-- without the sums for each user, model and day.
use code_agent_router.Report.Log.{LogEntry}
use code_agent_router.Prelude.Int.{ℤ, pos, ltb_ℤ}
use code_agent_router.Report.Accs.{RowAcc, new_acc, count_entry, Accs}
use code_agent_router.Prelude.{
  ◌≡◌, refl, List, map, get_or, ◌∷◌, Bool-cases, [], inl, inr, ap, ◌∙◌, All, none, false, arith,
  some, sym,
}
use code_agent_router.Prelude.Int64.{
  add64, sum64, add64_assoc, zero-add64, add64_swap, add64-Fits64, Fits64, sum64-Fits64, add64-zero,
}
use code_agent_router.Map.{insert, lookup, values, IsMap}
use code_agent_router.Router.{insert_stable, sort_stable}
use code_agent_router.Text.{Bytes, str_lt, str_eq, str_eq_iff, str_eq_refl}
use code_agent_router.Report.Rows.{
  Row, map_keys, add_rows, rows_of, Summary, row_of, add_row, no_summary, report_of,
}

-- One of the sums: what an entry adds to it, and where it stands in the sums for a key, in a row and
-- in the summary.
pub record Field : Type 0 where
  pub of_entry : LogEntry → ℤ
  pub of_acc : RowAcc → ℤ
  pub of_row : Row → ℤ
  pub of_summary : Summary → ℤ
  pub starts : of_acc new_acc ≡ pos 0
  pub counts :
      (e : LogEntry) (a : RowAcc) → of_acc (count_entry e a) ≡ add64 (of_acc a) (of_entry e)
  pub fills : (tenths : ℤ → ℤ → ℤ) (k : Bytes) (a : RowAcc) → of_row (row_of tenths k a) ≡ of_acc a
  pub summary_starts : of_summary no_summary ≡ pos 0
  pub adds :
      (s : Summary) (row : Row) → of_summary (add_row s row) ≡ add64 (of_summary s) (of_row row)
  pub not_average :
      (s : Summary) (x : ℤ) → of_summary (record s { avg_latency_tenths = x }) ≡ of_summary s

-- The keys of a map do not hold one that it has no value for.
map_keys-absent :
    (j : Bytes) (accs : Accs) → lookup j accs ≡ none → All (λ k. str_eq j k ≡ false) (map_keys accs)
unfolding map_keys lookup
map_keys-absent j [] h = tt
map_keys-absent j ((i, a) ∷ accs) h = elim (Bool-cases (str_eq i j)) [
  | inl e ↦ absurd (ground arith)
  | inr e ↦ (ground (arith, str_eq_iff i j, str_eq_iff j i), map_keys-absent j accs (rw e at h))
]

module _ (field : Field) where
  open field use {of_entry as f, of_acc as g, starts as g-new}

  unfoldable pub sum_values : Accs → ℤ
  sum_values accs = sum64 (map g (values accs))

  -- The sum at the keys of a list.
  sum_at : List Bytes → Accs → ℤ
  sum_at ks accs = sum64 (map (λ k. g (get_or new_acc (lookup k accs))) ks)

  -- A value that grows by `x` adds `x` to the sum.
  pub sum_values-insert :
      (k : Bytes) (v : RowAcc) (x : ℤ) (accs : Accs)
      → g v ≡ add64 (g (get_or new_acc (lookup k accs))) x
      → sum_values (insert k v accs) ≡ add64 x (sum_values accs)
  unfolding sum_values insert lookup values
  sum_values-insert k v x [] h =
      ap (λ y. add64 y (pos 0)) (h ∙ ap (λ y. add64 y x) g-new)
      ∙ add64_assoc (pos 0) x (pos 0)
      ∙ zero-add64 _ (add64-Fits64 x (pos 0))
  sum_values-insert k v x ((j, a) ∷ accs) h = elim (Bool-cases (str_eq j k)) [
    | inl e ↦
        let h' : g v ≡ add64 (g a) x = rw (lookup, e) at h in
        rw (insert, e)
          (ap (λ y. add64 y (sum_values accs)) h'
            ∙ add64_assoc (g a) x (sum_values accs)
            ∙ add64_swap (g a) x (sum_values accs))
    | inr e ↦
        let h' : g v ≡ add64 (g (get_or new_acc (lookup k accs))) x = rw (lookup, e) at h in
        rw (insert, e)
          (ap (add64 (g a)) (sum_values-insert k v x accs h')
            ∙ add64_swap (g a) x (sum_values accs))
  ]

  sum_at-insert_stable :
      (k : Bytes) (ks : List Bytes) (accs : Accs)
      → sum_at (insert_stable str_lt k ks) accs ≡ sum_at (k ∷ ks) accs
  unfolding sum_at insert_stable
  sum_at-insert_stable k [] accs = refl
  sum_at-insert_stable k (j ∷ js) accs = elim (Bool-cases (str_lt j k)) [
    | inl h ↦
        rw (insert_stable, h)
          (ap (add64 (g (get_or new_acc (lookup j accs)))) (sum_at-insert_stable k js accs)
            ∙ add64_swap (g (get_or new_acc (lookup j accs))) (g (get_or new_acc (lookup k accs)))
                (sum_at js accs))
    | inr h ↦ rw (insert_stable, h) refl
  ]

  sum_at-sort :
      (ks : List Bytes) (accs : Accs) → sum_at (sort_stable str_lt ks) accs ≡ sum_at ks accs
  unfolding sort_stable sum_at add64
  sum_at-sort [] accs = refl
  sum_at-sort (k ∷ ks) accs =
      sum_at-insert_stable k (sort_stable str_lt ks) accs
      ∙ ap (add64 (g (get_or new_acc (lookup k accs)))) (sum_at-sort ks accs)

  sum_at-skip :
      (ks : List Bytes) (j : Bytes) (a : RowAcc) (accs : Accs)
      → All (λ k. str_eq j k ≡ false) ks
      → sum_at ks ((j, a) ∷ accs) ≡ sum_at ks accs
  unfolding sum_at lookup
  sum_at-skip [] j a accs h = refl
  sum_at-skip (k ∷ ks) j a accs (e, h) =
      let q : lookup k ((j, a) ∷ accs) ≡ lookup k accs = rw (lookup, e) refl in
      rw q (ap (add64 (g (get_or new_acc (lookup k accs)))) (sum_at-skip ks j a accs h))

  -- Every key is summed once.
  sum_at-map_keys : (accs : Accs) → IsMap accs → sum_at (map_keys accs) accs ≡ sum_values accs
  unfolding map_keys sum_values values sum_at lookup
  sum_at-map_keys [] h = refl
  sum_at-map_keys ((j, a) ∷ accs) (n, h) =
      let q : lookup j ((j, a) ∷ accs) ≡ some a = rw (lookup, str_eq_refl j) refl in
      rw q (
        ap (add64 (g a)) (
          sum_at-skip (map_keys accs) j a accs (map_keys-absent j accs n) ∙ sum_at-map_keys accs h))

  add_rows-sum :
      (s : Summary) (rows : List Row)
      → Fits64 (field.of_summary s)
      → field.of_summary (add_rows s rows)
        ≡ add64 (field.of_summary s) (sum64 (map field.of_row rows))
  unfolding add_rows
  add_rows-sum s [] h = sym (add64-zero _ h)
  add_rows-sum s (row ∷ rows) h =
      add_rows-sum (add_row s row) rows (rw (field.adds s row) (add64-Fits64 _ _))
      ∙ ap (λ x. add64 x (sum64 (map field.of_row rows))) (field.adds s row)
      ∙ add64_assoc (field.of_summary s) (field.of_row row) (sum64 (map field.of_row rows))

  rows_of-sum :
      (tenths : ℤ → ℤ → ℤ) (ks : List Bytes) (accs : Accs)
      → sum64 (map field.of_row (rows_of tenths ks accs)) ≡ sum_at ks accs
  unfolding rows_of sum_at
  rows_of-sum tenths [] accs = refl
  rows_of-sum tenths (k ∷ ks) accs =
      rw (field.fills tenths k (get_or new_acc (lookup k accs)))
        (ap (add64 (g (get_or new_acc (lookup k accs)))) (rows_of-sum tenths ks accs))

  -- The summary of a report is the sum over the sums of its keys.
  pub report_of-sum :
      (tenths : ℤ → ℤ → ℤ) (month : Bytes) (accs : Accs)
      → IsMap accs
      → field.of_summary (report_of tenths month accs).summary ≡ sum_values accs
  unfolding report_of
  report_of-sum tenths month accs h =
      let ks = sort_stable str_lt (map_keys accs) in
      let s : Summary = add_rows no_summary (rows_of tenths ks accs) in
      let total : field.of_summary s ≡ sum_values accs =
        add_rows-sum no_summary (rows_of tenths ks accs)
          (rw field.summary_starts (omega arith, omega arith))
        ∙ ap (λ x. add64 x (sum64 (map field.of_row (rows_of tenths ks accs)))) field.summary_starts
        ∙ zero-add64 _ (sum64-Fits64 (map field.of_row (rows_of tenths ks accs)))
        ∙ rows_of-sum tenths ks accs
        ∙ sum_at-sort (map_keys accs) accs
        ∙ sum_at-map_keys accs h in
      elim (Bool-cases (ltb_ℤ (pos 0) s.requests)) [
        | inl e ↦ rw (report_of, e) (field.not_average s _ ∙ total)
        | inr e ↦ rw (report_of, e) total
      ]
