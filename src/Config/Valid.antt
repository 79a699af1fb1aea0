-- ===== src/Config/Valid.antt =====
-- What a configuration that internal/config/config.go loads promises to the quota engine and to the
-- rate limiter.
use code_agent_router.Prelude.{
  refl, inl, inr, some, true, false, [], ◌∷◌, arith, ℕ, ◌≡◌, List, ◌<◌, ◌≢◌, suc, ◌||◌, All,
  if◌then◌else◌, Bool-cases, ◌≤◌, not, subst, zero, get_or, Option-cases,
}
use code_agent_router.Config.Load.{
  Settings, bad_hours, all_hours, validate, accepted, load_config, parse_config, FileRead, contents,
  apply, defaults, no_file, unreadable,
}
use code_agent_router.Config.{WorkingHour}
use code_agent_router.Prelude.Int.{ltb_ℤ, ℤ, pos, negsuc}
use code_agent_router.Text.{is_empty, trim_space, Bytes}
use code_agent_router.Model.{User}
use code_agent_router.Quota.{hourly_limit, Engine, daily_limit}
use code_agent_router.Config.Yaml.{parse_yaml}

-- The engine and the limit that main makes of the settings.
abbrev pub engine_of : Settings → (loc : ℕ) → Engine
engine_of c loc = record { working_hours = c.server.working_hours; quota = c.quota; loc = loc }

-- Whole hours of a day, the first before the last.
pub record IsRange (wh : WorkingHour) : Type 0 where
  pub from : ℕ
  pub to : ℕ
  pub start_is : wh.start ≡ pos from
  pub finish_is : wh.finish ≡ pos to
  pub ordered : from < to
  pub in_day : to ≤ 24

-- Every user has positive limits, the limiter lets requests through, the hours are ranges of a day,
-- and neither the address nor the administrator's name is blank.
pub record IsValid (c : Settings) : Type 0 where
  pub address : trim_space c.server.addr ≢ []
  pub ranges : All IsRange c.server.working_hours
  pub hourly_positive :
      (loc : ℕ) (u : User) → (n : ℕ) × (hourly_limit (engine_of c loc) u ≡ pos (suc n))
  pub daily_positive :
      (loc : ℕ) (u : User) → (n : ℕ) × (daily_limit (engine_of c loc) u ≡ pos (suc n))
  pub requests_positive : (n : ℕ) × (c.quota.per_minute_requests ≡ pos (suc n))
  pub administrator : trim_space c.security.admin_username ≢ []

positive : (x : ℤ) → ltb_ℤ (pos 0) x ≡ true → (n : ℕ) × (x ≡ pos (suc n))
positive (pos zero) h = absurd (ground arith)
positive (pos (suc n)) h = (n, refl)
positive (negsuc n) h = absurd (ground arith)

not_blank : (s : Bytes) → is_empty s ≡ false → s ≢ []
unfolding is_empty
not_blank s h e = let h' = rw e at h in absurd (ground arith)

range : (wh : WorkingHour) → bad_hours wh ≡ false → IsRange wh
unfolding bad_hours
range wh h = go wh.start wh.finish refl refl h
  where
    go :
        (a b : ℤ)
        → wh.start ≡ a
        → wh.finish ≡ b
        → (ltb_ℤ a (pos 0) || (ltb_ℤ (pos 24) b || not (ltb_ℤ a b))) ≡ false
        → IsRange wh
    go (pos a) (pos b) p q h = record {
      from = a;
      to = b;
      start_is = p;
      finish_is = q;
      ordered = ground arith;
      in_day = ground arith;
    }
    go (pos a) (negsuc b) p q h = absurd (ground arith)
    go (negsuc a) b p q h = absurd (ground arith)

all_hours-ranges : (whs : List WorkingHour) → all_hours whs ≡ true → All IsRange whs
unfolding all_hours
all_hours-ranges [] h = tt
all_hours-ranges (wh ∷ whs) h = elim (Bool-cases (bad_hours wh)) [
  | inl e ↦ let h' = rw (all_hours, e) at h in absurd (ground arith)
  | inr e ↦ (range wh e, all_hours-ranges whs (rw (all_hours, e) at h))
]

limit_positive :
    (given fallback : ℤ)
    → ltb_ℤ (pos 0) fallback ≡ true
    → ltb_ℤ (pos 0) (if ltb_ℤ (pos 0) given then given else fallback) ≡ true
limit_positive given fallback h = ground arith

validate-IsValid : (c : Settings) → validate c ≡ true → IsValid c
unfolding validate hourly_limit daily_limit
validate-IsValid c h =
    let a : is_empty (trim_space c.server.addr) ≡ false = ground arith in
    let w : all_hours c.server.working_hours ≡ true = ground arith in
    let x : ltb_ℤ (pos 0) c.quota.default_hourly_tokens ≡ true = ground arith in
    let y : ltb_ℤ (pos 0) c.quota.default_daily_tokens ≡ true = ground arith in
    let z : ltb_ℤ (pos 0) c.quota.per_minute_requests ≡ true = ground arith in
    let n : is_empty (trim_space c.security.admin_username) ≡ false = ground arith in
    record {
      address = not_blank _ a;
      ranges = all_hours-ranges c.server.working_hours w;
      hourly_positive = λ loc u. positive _ (limit_positive u.hourly_tokens _ x);
      daily_positive = λ loc u. positive _ (limit_positive u.daily_tokens _ y);
      requests_positive = positive _ z;
      administrator = not_blank _ n;
    }

accepted-IsValid : (c : Settings) {c' : Settings} → accepted c ≡ some c' → IsValid c'
unfolding accepted
accepted-IsValid c h = elim (Bool-cases (validate c)) [
  | inl e ↦ subst (λ o. IsValid (get_or c o)) (rw (accepted, e) at h) (validate-IsValid c e)
  | inr e ↦ let h' = rw (accepted, e) at h in absurd (ground arith)
]

-- Whatever the file is, a configuration that is loaded gives every user positive limits, hourly and
-- daily, lets the limiter admit at least one request a minute, has working hours that are ranges of
-- a day, and neither a blank address nor a blank name of the administrator.
pub load_config-IsValid : (file : FileRead) {c : Settings} → load_config file ≡ some c → IsValid c
unfolding load_config parse_config
load_config-IsValid (contents data_bytes) h = elim (Option-cases (parse_yaml data_bytes)) [
  | inl e ↦ let h' = rw (parse_config, e) at h in absurd (ground arith)
  | inr (heap, e) ↦ accepted-IsValid (apply heap defaults) (rw (parse_config, e) at h)
]
load_config-IsValid no_file h =
    subst (λ o. IsValid (get_or defaults o)) h (validate-IsValid defaults defaults_pass)
  where
    defaults_pass : validate defaults ≡ true
    defaults_pass = refl
load_config-IsValid unreadable h = absurd (ground arith)
