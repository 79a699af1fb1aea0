-- ===== src/Report/Fresh.antt =====
-- The cache of the reports of internal/report/report.go against the log files, over all orders in
-- which entries are written, reports asked for and the log closed.
use code_agent_router.Relay.Usage.{has_prefix}
use code_agent_router.Report.Rows.{
  matches_month, matching, aggregate_files, build_report, path_month, month_items, items_fit,
}
use code_agent_router.Router.{insert_stable, sort_stable}
use code_agent_router.Prelude.Int.{ℤ}
use code_agent_router.Text.{Bytes, str_eq, str_lt, str_eq_iff, codes}
use code_agent_router.Report.Log.{file_name, Codec, Files}
use code_agent_router.Map.{insert, lookup, lookup-insert}
use code_agent_router.Prelude.{
  refl, length, ◌++◌, List, ◌≤◌, ◌≡◌, All, true, ◌∷◌, false, take, arith, Bool-cases, [], inr, inl,
  ◌∙◌, Option-cases, get_or, some, ℕ, Bool, not, ◌==◌, ◌||◌,
}
use code_agent_router.Report.Accs.{Accs, aggregate_file}
use code_agent_router.Report.Glob.{Item, parse, fits, lit, read_char, star, on_outside, outside}

has_prefix-append :
    (m x day y : Bytes)
    → length m ≤ length day
    → has_prefix (m ++ x) (day ++ y) ≡ true
    → take (length m) day ≡ m
unfolding has_prefix
has_prefix-append [] x day y h e = refl
has_prefix-append (b ∷ m) x [] y h e = ground arith
has_prefix-append (b ∷ m) x (c ∷ day) y h e = ground (arith, has_prefix-append m x day y)

has_prefix-common : (p x y : Bytes) → has_prefix (p ++ x) (p ++ y) ≡ has_prefix x y
unfolding has_prefix
has_prefix-common [] x y = refl
has_prefix-common (b ∷ p) x y = ground (arith, has_prefix-common p x y)

-- The characters that path/filepath gives no meaning in a pattern.
abbrev pub is_plain : ℕ → Bool
is_plain c = not (c == 42 || c == 63 || c == 91 || c == 92 || c == 47)

abbrev pub IsPlain : Bytes → Type 0
IsPlain s = All (λ c. is_plain c ≡ true) s

IsPlain-append : (s t : Bytes) → IsPlain s → IsPlain t → IsPlain (s ++ t)
IsPlain-append [] t h k = k
IsPlain-append (c ∷ s) t (p, h) k = (p, IsPlain-append s t h k)

-- Plain characters stand for themselves.
plain_items : Bytes → List Item → List Item
plain_items [] is = is
plain_items (c ∷ s) is = lit c ∷ plain_items s is

parse-plain :
    (s t : Bytes) {is : List Item}
    → IsPlain s
    → parse outside t ≡ some is
    → parse outside (s ++ t) ≡ some (plain_items s is)
unfolding parse read_char on_outside plain_items
parse-plain [] t h e = e
parse-plain (c ∷ s) t (p, h) e = ground (arith, parse-plain s t h e)

fits-plain :
    (s : Bytes) (is : List Item) (name : Bytes)
    → fits (plain_items s is) name ≡ true
    → has_prefix s name ≡ true
unfolding fits has_prefix plain_items
fits-plain [] is name e = refl
fits-plain (c ∷ s) is [] e = ground arith
fits-plain (c ∷ s) is (d ∷ name) e = ground (arith, fits-plain s is name)

star_items : List Item
star_items = star ∷ plain_items (codes ".jsonl") []

-- A plain month is a part of the names that its pattern matches.
matches_month-plain :
    (month name : Bytes)
    → IsPlain month
    → matches_month month name ≡ true
    → has_prefix (codes "requests-" ++ (month ++ codes "-")) name ≡ true
unfolding matches_month month_items items_fit parse star_items plain_items
matches_month-plain month name h e =
    let p = codes "requests-" ++ (month ++ codes "-") in
    let plain : IsPlain p =
      IsPlain-append (codes "requests-") (month ++ codes "-") plain_name
        (IsPlain-append month (codes "-") h (refl, tt)) in
    let q = parse-plain p (codes "*.jsonl") plain refl in fits-plain p star_items name (rw q at e)
  where
    plain_name : IsPlain (codes "requests-")
    plain_name = (refl, (refl, (refl, (refl, (refl, (refl, (refl, (refl, (refl, tt)))))))))

-- The file of a day holds lines of its month only.
pub matches_month-file_name :
    (month day : Bytes)
    → length month ≡ 7
    → IsPlain month
    → length day ≡ 10
    → str_eq (take 7 day) month ≡ false
    → matches_month month (file_name day) ≡ false
unfolding file_name
matches_month-file_name month day h plain k e =
    elim (Bool-cases (matches_month month (file_name day))) [
      | inr q ↦ q
      | inl q ↦
          let m = matches_month-plain month (file_name day) plain q in
          let p =
            has_prefix-common (codes "requests-") (month ++ codes "-") (day ++ codes ".jsonl") in
          let t = has_prefix-append month (codes "-") day (codes ".jsonl") (omega arith) in
          ground (arith, str_eq_iff (take 7 day) month)
    ]

matching-insert :
    (month name : Bytes) (lines : List Bytes) (files : Files)
    → matches_month month name ≡ false
    → matching month (insert name lines files) ≡ matching month files
unfolding matching insert
matching-insert month name lines [] h = ground arith
matching-insert month name lines ((n, ls) ∷ files) h =
    ground (arith, str_eq_iff n name, matching-insert month name lines files h)

matching-All :
    (month : Bytes) (files : Files) → All (λ n. matches_month month n ≡ true) (matching month files)
unfolding matching
matching-All month [] = tt
matching-All month ((n, ls) ∷ files) = elim (Bool-cases (matches_month month n)) [
  | inl e ↦ rw (matching, e) (e, matching-All month files)
  | inr e ↦ rw (matching, e) (matching-All month files)
]

insert_stable-All :
    (P : Bytes → Type 0) (n : Bytes) (ns : List Bytes)
    → P n
    → All P ns
    → All P (insert_stable str_lt n ns)
unfolding insert_stable
insert_stable-All P n [] p h = (p, tt)
insert_stable-All P n (m ∷ ns) p (q, h) = elim (Bool-cases (str_lt m n)) [
  | inl e ↦ rw (insert_stable, e) (q, insert_stable-All P n ns p h)
  | inr e ↦ rw (insert_stable, e) (p, (q, h))
]

sort-All : (P : Bytes → Type 0) (ns : List Bytes) → All P ns → All P (sort_stable str_lt ns)
unfolding sort_stable
sort-All P [] h = tt
sort-All P (n ∷ ns) (p, h) = insert_stable-All P n (sort_stable str_lt ns) p (sort-All P ns h)

module _ (tenths : ℤ → ℤ → ℤ) (codec : Codec) where
  aggregate_files-insert :
      (today month name : Bytes) (lines : List Bytes) (names : List Bytes) (files : Files)
      (accs : Accs)
      → matches_month month name ≡ false
      → All (λ n. matches_month month n ≡ true) names
      → aggregate_files codec today names (insert name lines files) accs
        ≡ aggregate_files codec today names files accs
  unfolding aggregate_files
  aggregate_files-insert today month name lines [] files accs h k = refl
  aggregate_files-insert today month name lines (n ∷ names) files accs h (q, k) =
      let other : str_eq name n ≡ false = ground (arith, str_eq_iff name n) in
      let same : lookup n (insert name lines files) ≡ lookup n files =
        lookup-insert n name lines files ∙ rw other refl in
      elim (Option-cases
        (aggregate_file codec today (path_month n) (get_or [] (lookup n files)) accs)) [
          | inl e ↦ rw (aggregate_files, same, e) refl
          | inr (accs', e) ↦
              rw (aggregate_files, same, e)
                (aggregate_files-insert today month name lines names files accs' h k)
        ]

  -- Lines of another month do not change a report.
  pub build_report-insert :
      (today month name : Bytes) (lines : List Bytes) (files : Files)
      → matches_month month name ≡ false
      → build_report tenths codec today month (insert name lines files)
        ≡ build_report tenths codec today month files
  unfolding build_report
  build_report-insert today month name lines files h =
      let p =
        aggregate_files-insert today month name lines (sort_stable str_lt (matching month files))
          files [] h
          (sort-All (λ n. matches_month month n ≡ true) (matching month files)
            (matching-All month files)) in
      rw (build_report, matching-insert month name lines files h, p) refl
