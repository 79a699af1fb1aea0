-- ===== src/Store/Tests.antt =====
-- The counters of internal/store/state.go on concrete requests.
use code_agent_router.Prelude.{
  Option, some, ◌++◌, inr, ◌+◌, ◌≡◌, refl, true, false, [], ◌∷◌, none, arith,
}
use code_agent_router.Prelude.Int.{pos, ◌≤ℤ◌, ◌+ℤ◌}
use code_agent_router.Prelude.Int64.{add64, sub64, max64, Fits64}
use code_agent_router.Text.{Bytes, codes, str_eq}
use code_agent_router.Map.{lookup}
use code_agent_router.Clock.{Time, hour, day, hour_start, day_start, zero_time}
use code_agent_router.Model.{User, UpstreamKey}
use code_agent_router.Result.{ok}
use code_agent_router.Store.State.{Store, fresh_state, flush, written}
use code_agent_router.Store.Counters.{
  reserve_user, release_user, settle_user, gate_user, current, charge, ensure_window,
}
use code_agent_router.Store.Windows.{
  hour_value, day_value, Reads, SameWindow, reserve_user-Reads, settle_user-Reads,
}
use code_agent_router.Store.Ledger.{
  Book, reserves, settles, here, History, begin, next, IsCounted, counters_balance,
}
use code_agent_router.Store.Users.{create_user, add_access_key, delete_user, random_id}
use code_agent_router.Store.Links.{fresh-Links}
use code_agent_router.Store.Changes.{
  Changes, unchanged, then_changed, creates_user, adds_access_key, deletes_user,
}
use code_agent_router.Store.Saved.{IsSaved, Recovers, restart-Recovers}
use code_agent_router.Store.Consistent.{IsConsistent, Changes-IsConsistent}
use code_agent_router.Store.Keys.{
  Gcm, create_upstream_key, encrypt, normalize_models, collect, decrypt_api_key,
}
use code_agent_router.Store.Secrets.{create-decrypt_api_key}
use code_agent_router.Router.{sort_stable}
use code_agent_router.Store.Trips.{reserve_then_release}
use code_agent_router.Store.Limit.{daily_limit_kept}

abbrev alice : Bytes
alice = codes "u_1"

abbrev user : User
user = record {
  id = alice;
  username = codes "alice";
  password_hash = [];
  display_name = [];
  created_at = zero_time;
  enabled = true;
  hourly_tokens = pos 0;
  daily_tokens = pos 0;
}

abbrev store : Store
store = record {
  state = record fresh_state { users = (alice, user) ∷ [] };
  dirty = false;
  timer = false;
  file = none;
}

-- Half past one on the third day.
abbrev noon : Time
noon = record { instant = day + day + hour + 1_800_000_000_000; offset = 0 }

abbrev later : Time
later = record { instant = day + day + hour + 1_900_000_000_000; offset = 0 }

noon-later : SameWindow noon later
unfolding hour_start day_start
noon-later = record {
  same_hour = refl;
  same_day = refl;
  hour_positive = omega arith;
  day_positive = omega arith;
}

noon-noon : SameWindow noon noon
unfolding hour_start day_start
noon-noon = record {
  same_hour = refl;
  same_day = refl;
  hour_positive = omega arith;
  day_positive = omega arith;
}

later-later : SameWindow later later
unfolding hour_start day_start
later-later = record {
  same_hour = refl;
  same_day = refl;
  hour_positive = omega arith;
  day_positive = omega arith;
}

-- The store once Alice has reserved 100 tokens.
reserved : Store
reserved = (reserve_user alice (pos 100) (pos 1000) (pos 5000) true noon store).1

granted : reserve_user alice (pos 100) (pos 1000) (pos 5000) true noon store ≡ (ok tt, reserved)
unfolding reserved reserve_user gate_user current charge ensure_window hour_start day_start lookup
    str_eq add64 ◌+ℤ◌
granted = refl

store-Reads : Reads alice noon store (pos 0) (pos 0)
unfolding current ensure_window lookup hour_start day_start
store-Reads = record { hour_reads = refl; day_reads = refl }

zero_hour : Fits64 (hour_value alice noon store) × (pos 0 ≤ℤ hour_value alice noon store)
zero_hour = rw store-Reads.hour_reads ((omega arith, omega arith), omega arith)

zero_day : Fits64 (day_value alice noon store) × (pos 0 ≤ℤ day_value alice noon store)
zero_day = rw store-Reads.day_reads ((omega arith, omega arith), omega arith)

reserve_user-Reads_example :
    Reads alice later reserved
      (add64 (hour_value alice noon store) (pos 100))
      (add64 (day_value alice noon store) (pos 100))
    × (pos 1 ≤ℤ pos 5000 → day_value alice later reserved ≤ℤ pos 5000)
    × (true ≡ true → pos 1 ≤ℤ pos 1000 → hour_value alice later reserved ≤ℤ pos 1000)
reserve_user-Reads_example =
    reserve_user-Reads alice (pos 100) noon later store noon-later (pos 1000) (pos 5000) true
      granted

reserve_then_release_example :
    Reads alice later
      (release_user alice (pos 100) later reserved)
      (hour_value alice noon store)
      (day_value alice noon store)
reserve_then_release_example =
    reserve_then_release alice (pos 100) (pos 1000) (pos 5000) true noon later later store
      noon-later later-later zero_hour zero_day granted

settle_user-Reads_example :
    Reads alice later
      (settle_user alice (pos 100) (pos 70) noon reserved)
      (max64 (pos 0) (add64 (hour_value alice noon reserved) (sub64 (pos 70) (pos 100))))
      (max64 (pos 0) (add64 (day_value alice noon reserved) (sub64 (pos 70) (pos 100))))
settle_user-Reads_example =
    settle_user-Reads alice (pos 100) noon later reserved noon-later (pos 70)

-- A reservation of 100 tokens, settled with 130.
settled : Store
settled = settle_user alice (pos 100) (pos 130) later reserved

abbrev book : Book
book = record { held = []; spent = 130; overrun = 30; charges = pos 130 ∷ pos 100 ∷ [] }

history : History alice noon (pos 1000) (pos 5000) store settled book
unfolding settled
history =
    next (next begin (reserves (pos 100) true noon reserved noon-noon granted))
      (settles (pos 100) (pos 130) later [] noon-later here)

counted : IsCounted book
counted = (omega arith, (omega arith, tt))

counters_balance_example : Reads alice noon settled (pos 130) (pos 130)
counters_balance_example =
    counters_balance alice noon (pos 1000) (pos 5000) 0 0 store store-Reads history counted
      (omega arith) (omega arith)

daily_limit_kept_example : day_value alice noon settled ≤ℤ pos (5000 + 30)
daily_limit_kept_example =
    daily_limit_kept alice noon (pos 1000) 5000 0 0 (omega arith) store store-Reads (omega arith)
      history counted (omega arith) (omega arith)

abbrev new_store : Store
new_store = record { state = fresh_state; dirty = false; timer = false; file = none }

-- Bob registers, gets an access key and is deleted.
abbrev bob : Bytes
bob = random_id (codes "u_") (1 ∷ 2 ∷ [])

with_bob : Store
with_bob = (create_user (codes "bob") [] [] true (1 ∷ 2 ∷ []) noon new_store).1

with_key : Store
with_key = (add_access_key bob (3 ∷ []) with_bob).1

bob-Changes : Changes new_store (delete_user bob with_key).1
unfolding with_bob with_key
bob-Changes =
    then_changed
      (then_changed
        (then_changed unchanged (creates_user (codes "bob") [] [] true (1 ∷ 2 ∷ []) noon))
        (adds_access_key bob (3 ∷ [])))
      (deletes_user bob)

Changes-IsConsistent_example : IsConsistent (delete_user bob with_key).1
Changes-IsConsistent_example = Changes-IsConsistent bob-Changes fresh-Links

new_store-IsSaved : IsSaved new_store
new_store-IsSaved =
    inr (record { users_same = refl; access_same = refl; keys_same = refl; sessions_same = refl })

restart-Recovers_example :
    Recovers (flush written (delete_user bob with_key).1).1.file (delete_user bob with_key).1.state
restart-Recovers_example = restart-Recovers bob-Changes new_store-IsSaved

-- A cipher that only puts a byte before the text.
strip_byte : Bytes → Option Bytes
strip_byte [] = none
strip_byte (b ∷ bs) = some bs

byte_cipher : Gcm
unfolding strip_byte
byte_cipher = record {
  seal = λ nonce plain. 255 ∷ plain;
  open_sealed = λ nonce c. strip_byte c;
  open-seal = λ nonce plain. refl;
}

abbrev nonce : Bytes
nonce = codes "abcdefghijkl"

abbrev alice_key : UpstreamKey
alice_key = record {
  id = random_id (codes "k_") (1 ∷ []);
  user_id = alice;
  name = [];
  base_url = [];
  api_key_enc = nonce ++ (255 ∷ codes "secret");
  models = [];
  enabled = true;
  created_at = noon;
  hourly_limit = pos 0;
}

key_created :
    create_upstream_key byte_cipher alice [] []
      (codes "secret")
      []
      true
      (pos 0)
      (some nonce)
      (1 ∷ [])
      noon
      store
    ≡ (
      ok alice_key,
      (create_upstream_key byte_cipher alice [] []
          (codes "secret")
          []
          true
          (pos 0)
          (some nonce)
          (1 ∷ [])
          noon
          store).1,
    )
unfolding byte_cipher create_upstream_key encrypt lookup str_eq random_id normalize_models collect
    sort_stable
key_created = refl

create-decrypt_api_key_example : decrypt_api_key byte_cipher alice_key ≡ ok (codes "secret")
create-decrypt_api_key_example =
    create-decrypt_api_key byte_cipher alice [] [] (codes "secret") [] true (pos 0) nonce (1 ∷ [])
      noon store refl key_created
