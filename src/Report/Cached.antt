-- ===== src/Report/Cached.antt =====
-- The histories of the log and of the cache of the reports of internal/report/report.go: entries are
-- written, reports asked for and the log closed, in any order.
use code_agent_router.Prelude.{
  refl, Option-cases, ◌≡◌, ◌≢◌, length, inr, some, ◌⊎◌, none, false, inl, arith, Bool-cases, true,
  [], ◌∷◌, ap, sym, ◌∙◌, subst, take, ℕ, ◌≤◌, suc, zero, List,
}
use code_agent_router.Map.{insert, lookup, Map, lookup-insert, lookup-erase, erase}
use code_agent_router.Report.Log.{
  open_locked, Disk, Codec, touch, Logger, Files, file_name, LogEntry, today_from, is_open_for,
  works, open_fails, write_fails, append_line,
}
use code_agent_router.Prelude.Int.{ℤ}
use code_agent_router.Text.{Bytes, str_eq_iff, str_eq, str_eq_refl}
use code_agent_router.Report.Service.{Reporting, monthly, write, close, write_opened, invalidate}
use code_agent_router.Report.Rows.{Report, build_report, matches_month}
use code_agent_router.Report.Fresh.{build_report-insert, matches_month-file_name, IsPlain}

insert-same : {V : Type 0} (k : Bytes) (v : V) (m : Map V) → lookup k m ≡ some v → insert k v m ≡ m
unfolding insert lookup
insert-same k v [] h = absurd (ground arith)
insert-same k v ((j, w) ∷ m) h = ground (arith, str_eq_iff j k, insert-same k v m)

open_locked-files :
    (disk : Disk) (day : Bytes) (l : Logger)
    → ((open_locked disk day l).1.files ≡ l.files)
      ⊎ ((open_locked disk day l).1.files ≡ touch (file_name day) l.files)
unfolding open_locked
open_locked-files disk day l = elim (Bool-cases (is_open_for day l.open_day)) [
  | inl e ↦ inl (rw (open_locked, e) refl)
  | inr e ↦ opened disk e
]
  where
    opened :
        (disk : Disk)
        → is_open_for day l.open_day ≡ false
        → ((open_locked disk day l).1.files ≡ l.files)
          ⊎ ((open_locked disk day l).1.files ≡ touch (file_name day) l.files)
    opened works e = inr (rw (open_locked, e) refl)
    opened open_fails e = inl (rw (open_locked, e) refl)
    opened write_fails e = inr (rw (open_locked, e) refl)

module _ (tenths : ℤ → ℤ → ℤ) (codec : Codec) where
  -- A report that building it afresh would give, with the clock of some day.
  pub record IsBuilt (month : Bytes) (files : Files) (report : Report) : Type 0 where
    pub today : Bytes
    pub built : build_report tenths codec today month files ≡ some report

  -- A write that fails is to a file that is there.
  abbrev pub FailsOnFile : Disk → (day : Bytes) → Reporting → Type 0
  FailsOnFile works day r = Unit
  FailsOnFile open_fails day r = Unit
  FailsOnFile write_fails day r = lookup (file_name day) r.logger.files ≢ none

  -- Reports that are asked for one after the other.
  abbrev pub ask_all : List (Bytes × Bytes) → Reporting → Reporting
  ask_all [] r = r
  ask_all ((today, month) ∷ asks) r = ask_all asks (monthly tenths codec today month r).1

  -- While an entry is written, between its line and `Invalidate`, the reports of `asks` are asked for.
  pub data History (r : Reporting) : Reporting → Type 0 where
    start : History r r
    wrote :
        {r' : Reporting} (asks : List (Bytes × Bytes)) (today : Bytes) (disk : Disk) (e : LogEntry)
        → length today ≡ 10
        → FailsOnFile disk (today_from today e.ts) r'
        → History r r'
        → History r (write codec (ask_all asks) today disk e r').1
    asked :
        {r' : Reporting} (today month : Bytes)
        → History r r'
        → History r (monthly tenths codec today month r').1
    closed : {r' : Reporting} → History r r' → History r (close r')

  -- What is cached for some months is what the files give.
  abbrev IsFreshOn : (Bytes → Type 0) → Reporting → Type 0
  IsFreshOn P r =
      (month : Bytes) (report : Report)
      → P month
      → lookup month r.cache ≡ some report
      → IsBuilt month r.logger.files report

  -- A month of seven characters, none of them special in a pattern.
  abbrev pub IsMonth : Bytes → Type 0
  IsMonth month = (length month ≡ 7) × IsPlain month

  abbrev pub IsFresh : Reporting → Type 0
  IsFresh = IsFreshOn IsMonth

  -- All months but one.
  abbrev IsOther : Bytes → Bytes → Type 0
  IsOther written month = IsMonth month × (str_eq written month ≡ false)

  touch-report :
      (today month day : Bytes) (files : Files)
      → matches_month month (file_name day) ≡ false
      → build_report tenths codec today month (touch (file_name day) files)
        ≡ build_report tenths codec today month files
  unfolding touch
  touch-report today month day files h =
      build_report-insert tenths codec today month (file_name day) _ files h

  insert-IsFreshOn :
      (P : Bytes → Type 0) (today month : Bytes) (report : Report) (r : Reporting)
      → build_report tenths codec today month r.logger.files ≡ some report
      → IsFreshOn P r
      → IsFreshOn P (record r { cache = insert month report r.cache })
  insert-IsFreshOn P today month report r q h m other i e = elim (Bool-cases (str_eq month m)) [
    | inr k ↦ h m other i (sym (lookup-insert m month report r.cache ∙ rw k refl) ∙ e)
    | inl k ↦
        let p : some report ≡ some other =
          sym (lookup-insert m month report r.cache ∙ rw k refl) ∙ e in
        record {
          today = today;
          built =
              subst (λ n. build_report tenths codec today n r.logger.files ≡ some other)
                ((str_eq_iff month m).0 k) (q ∙ p);
        }
  ]

  monthly-IsFreshOn :
      (P : Bytes → Type 0) (today month : Bytes) (r : Reporting)
      → IsFreshOn P r
      → IsFreshOn P (monthly tenths codec today month r).1
  unfolding monthly
  monthly-IsFreshOn P today month r h = elim (Option-cases (lookup month r.cache)) [
    | inr (report, e) ↦ rw (monthly, e) h
    | inl e ↦ elim (Option-cases (build_report tenths codec today month r.logger.files)) [
      | inl q ↦ rw (monthly, e, q) h
      | inr (report, q) ↦ rw (monthly, e, q) (insert-IsFreshOn P today month report r q h)
    ]
  ]

  ask_all-IsFreshOn :
      (P : Bytes → Type 0) (asks : List (Bytes × Bytes)) (r : Reporting)
      → IsFreshOn P r
      → IsFreshOn P (ask_all asks r)
  ask_all-IsFreshOn P [] r h = h
  ask_all-IsFreshOn P ((today, month) ∷ asks) r h =
      ask_all-IsFreshOn P asks (monthly tenths codec today month r).1
        (monthly-IsFreshOn P today month r h)

  -- What the log files hold is the same as far as other months can tell.
  abbrev SameElsewhere : (day : Bytes) → (files files' : Files) → Type 0
  SameElsewhere day files files' =
      (today month : Bytes)
      → matches_month month (file_name day) ≡ false
      → build_report tenths codec today month files' ≡ build_report tenths codec today month files

  open_locked-SameElsewhere :
      (disk : Disk) (day : Bytes) (l : Logger)
      → SameElsewhere day l.files (open_locked disk day l).1.files
  open_locked-SameElsewhere disk day l today month h = elim (open_locked-files disk day l) [
    | inl e ↦ ap (build_report tenths codec today month) e
    | inr e ↦ ap (build_report tenths codec today month) e ∙ touch-report today month day l.files h
  ]

  -- A line in its file leaves the reports of other months fresh.
  appended-IsFreshOn :
      (day line : Bytes) (l : Logger) (r : Reporting)
      → length day ≡ 10
      → SameElsewhere day r.logger.files l.files
      → IsFresh r
      → IsFreshOn (IsOther (take 7 day)) (record {
        logger = record l { files = append_line (file_name day) line l.files };
        cache = r.cache;
      })
  unfolding append_line
  appended-IsFreshOn day line l r k same h month report (i, q) e =
      let other = matches_month-file_name month day i.0 i.1 k q in
      let b = h month report i e in
      record {
        today = b.today;
        built =
            build_report-insert tenths codec b.today month (file_name day) _ l.files other
            ∙ same b.today month other
            ∙ b.built;
      }

  -- What is left of the cache then is fresh.
  invalidate-IsFresh :
      (written : Bytes) (r : Reporting)
      → IsFreshOn (IsOther written) r
      → IsFresh (record r { cache = invalidate written r.cache })
  unfolding invalidate
  invalidate-IsFresh written r h month report i e = elim (Bool-cases (str_eq written month)) [
    | inl q ↦ let p = lookup-erase month written r.cache in absurd (ground arith)
    | inr q ↦
        let p : lookup month (erase written r.cache) ≡ lookup month r.cache =
          lookup-erase month written r.cache ∙ rw q refl in
        h month report (i, q) (sym p ∙ e)
  ]

  written-IsFresh :
      (asks : List (Bytes × Bytes)) (day line : Bytes) (l : Logger) (r : Reporting)
      → length day ≡ 10
      → SameElsewhere day r.logger.files l.files
      → IsFresh r
      → IsFresh (write_opened (ask_all asks) works day line (true, l) r.cache).1
  unfolding write_opened
  written-IsFresh asks day line l r k same h =
      let appended : Reporting = record {
        logger = record l { files = append_line (file_name day) line l.files };
        cache = r.cache;
      } in
      invalidate-IsFresh (take 7 day) (ask_all asks appended) (
        ask_all-IsFreshOn (IsOther (take 7 day)) asks appended
          (appended-IsFreshOn day line l r k same h))

  same_files-IsFresh :
      (r : Reporting) (l : Logger)
      → l.files ≡ r.logger.files
      → IsFresh r
      → IsFresh (record r { logger = l })
  same_files-IsFresh r l e h month report i q =
      let b = h month report i q in
      record { today = b.today; built = ap (build_report tenths codec b.today month) e ∙ b.built }

  -- A file that is opened again is as it was.
  touch_there :
      (day : Bytes) (files : Files)
      → lookup (file_name day) files ≢ none
      → touch (file_name day) files ≡ files
  unfolding touch
  touch_there day files h = elim (Option-cases (lookup (file_name day) files)) [
    | inl e ↦ absurd (h e)
    | inr (lines, e) ↦ rw (touch, e) (insert-same (file_name day) lines files e)
  ]

  written_opened-IsFresh :
      (asks : List (Bytes × Bytes)) (disk : Disk) (day line : Bytes) (r : Reporting)
      → length day ≡ 10
      → FailsOnFile disk day r
      → IsFresh r
      → IsFresh
          (write_opened (ask_all asks) disk day line (open_locked disk day r.logger) r.cache).1
  unfolding write_opened open_locked
  written_opened-IsFresh asks works day line r k p h =
      elim (Bool-cases (is_open_for day r.logger.open_day)) [
        | inl e ↦
            rw (open_locked, e)
              (written-IsFresh asks day line r.logger r k (λ today month q. refl) h)
        | inr e ↦
            rw (open_locked, e)
              (written-IsFresh asks day line
                (record { open_day = some day; files = touch (file_name day) r.logger.files }) r k
                (λ today month q. touch-report today month day r.logger.files q) h)
      ]
  written_opened-IsFresh asks open_fails day line r k p h =
      elim (Bool-cases (is_open_for day r.logger.open_day)) [
        | inl e ↦
            rw (open_locked, e)
              (written-IsFresh asks day line r.logger r k (λ today month q. refl) h)
        | inr e ↦
            rw (open_locked, e) (same_files-IsFresh r (record r.logger { open_day = none }) refl h)
      ]
  written_opened-IsFresh asks write_fails day line r k p h =
      elim (Bool-cases (is_open_for day r.logger.open_day)) [
        | inl e ↦ rw (open_locked, e) h
        | inr e ↦
            rw (open_locked, e)
              (same_files-IsFresh r
                (record { open_day = some day; files = touch (file_name day) r.logger.files })
                (touch_there day r.logger.files p) h)
      ]

  length-take : (n : ℕ) (xs : Bytes) → n ≤ length xs → length (take n xs) ≡ n
  length-take zero xs h = refl
  length-take (suc n) [] h = absurd (omega arith)
  length-take (suc n) (x ∷ xs) h = omega (arith, length-take n xs (omega arith))

  length-today_from : (today ts : Bytes) → length today ≡ 10 → length (today_from today ts) ≡ 10
  unfolding today_from
  length-today_from today ts h = ground (arith, length-take 10 ts)

  write-IsFresh :
      (asks : List (Bytes × Bytes)) (today : Bytes) (disk : Disk) (e : LogEntry) (r : Reporting)
      → length today ≡ 10
      → FailsOnFile disk (today_from today e.ts) r
      → IsFresh r
      → IsFresh (write codec (ask_all asks) today disk e r).1
  unfolding write
  write-IsFresh asks today disk e r k p h =
      written_opened-IsFresh asks disk (today_from today e.ts) (codec.marshal e) r
        (length-today_from today e.ts k) p h

  History-IsFresh : {r r' : Reporting} → History r r' → IsFresh r → IsFresh r'
  unfolding close
  History-IsFresh start h = h
  History-IsFresh (wrote {r'} asks today disk e k p past) h =
      write-IsFresh asks today disk e r' k p (History-IsFresh past h)
  History-IsFresh (asked {r'} today month past) h =
      monthly-IsFreshOn IsMonth today month r' (History-IsFresh past h)
  History-IsFresh (closed {r'} past) h =
      same_files-IsFresh r' (record r'.logger { open_day = none }) refl (History-IsFresh past h)

  empty-IsFresh : (r : Reporting) → r.cache ≡ [] → IsFresh r
  unfolding lookup
  empty-IsFresh r e month report i p = let p' = rw e at p in absurd (ground arith)

  -- What is given is cached.
  lookup-monthly :
      (today month : Bytes) (r : Reporting) {report : Report}
      → (monthly tenths codec today month r).0 ≡ some report
      → lookup month (monthly tenths codec today month r).1.cache ≡ some report
  unfolding monthly
  lookup-monthly today month r p = elim (Option-cases (lookup month r.cache)) [
    | inr (report, e) ↦ rw (monthly, e) (e ∙ (rw (monthly, e) at p))
    | inl e ↦ elim (Option-cases (build_report tenths codec today month r.logger.files)) [
      | inl q ↦ absurd (ground arith)
      | inr (report, q) ↦
          rw (monthly, e, q)
            (lookup-insert month month report r.cache
              ∙ rw (str_eq_refl month) (rw (monthly, e, q) at p))
    ]
  ]

  -- From an empty cache, however entries have been written, reports asked for and the log closed, the
  -- report that `monthly` gives while no entry is being written is one that building it afresh from
  -- the files gives, for a month of seven characters with none of `*`, `?`, `[`, `\` and `/` among
  -- them. Reports may also have been asked for while an entry was written, between its line and the
  -- `Invalidate` after it. Days have ten characters, and a line that fails to be written is of a file
  -- that is there.
  pub History-monthly-IsBuilt :
      {r r' : Reporting} (today month : Bytes) {report : Report}
      → r.cache ≡ []
      → History r r'
      → IsMonth month
      → (monthly tenths codec today month r').0 ≡ some report
      → IsBuilt month (monthly tenths codec today month r').1.logger.files report
  History-monthly-IsBuilt {r} {r'} today month {report} e past i q =
      monthly-IsFreshOn IsMonth today month r' (History-IsFresh past (empty-IsFresh r e)) month
        report i (lookup-monthly today month r' q)
