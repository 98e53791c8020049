-- ===== src/Tests/Caches.antt =====
-- Examples of the theorems on the caches.
use mxfactorial.Prelude.{
  ℕ, ◌+◌, ◌-◌, String, true, [], Option, none, some, ok, err, ok_injective, ok_injective, ◌==◌,
  string_eq, ltb, if◌then◌else◌, ◌≡◌, refl, sym, ap,
}
use mxfactorial.Types.Account.{AccountProfile}
use mxfactorial.Service.Cache.{Cache}
use mxfactorial.Cache.Key.{profile, profile_id, default_segments, display}
use mxfactorial.Cache.Key.Distinct.{AreSeparate, display-injective}
use mxfactorial.Cache.Redis.{
  Doubles, Codec, RedisCommands, redis_cache, set_value, incr_and_check_threshold,
}
use mxfactorial.Cache.Redis.Profiles.{
  RedisLaws, IsReadBack, set_account_profile-get_account_profile,
}
use mxfactorial.Cache.Redis.Threshold.{incr_and_check_threshold-answers}
use mxfactorial.Tests.{digit}
use mxfactorial.Tests.Records.{person}

defaults_separate : AreSeparate default_segments
defaults_separate = record {
  plain = refl;
  account_state = refl;
  approval_state = refl;
  approval_account = refl;
  profile_rules = refl;
  profile_id_rules = refl;
  profile_id_profile = refl;
  approvers_rules = refl;
  approvers_profile = refl;
  approvers_profile_id = refl;
  instance_rules = refl;
  instance_profile = refl;
  instance_profile_id = refl;
  instance_approvers = refl;
}

display-injective_example : profile "alice" ≡ profile "alice"
unfolding display
display-injective_example =
    display-injective default_segments defaults_separate (profile "alice") (profile "alice") tt tt
      refl

-- Six is written as a take.
abbrev pub floats : Doubles ℕ
floats = record {
  parse = digit;
  zero = 0;
  add = λ a b. a + b;
  negate = λ a. a;
  less = ltb;
  to_string = λ _. "-6";
}

abbrev Entries : Type 0
Entries = String → Option String

abbrev stored_at : String → String → Entries → Entries
stored_at key text w asked = if key == asked then some text else w asked

abbrev entries : RedisCommands Entries ℕ
entries = record {
  get = λ key w. (ok (w key), w);
  set = λ key text w. (ok tt, stored_at key text w);
  sadd = λ _ _ w. (ok 1, w);
  smembers = λ _ w. (ok [], w);
  del = λ _ w. (ok 1, w);
  incr_by_float = λ _ n w. (ok n, w);
  call_incr = λ _ text w. (ok text, w);
}

entries_write :
    (key text asked : String) (w w' : Entries)
    → entries.set key text w ≡ (ok tt, w')
    → w' asked ≡ (if key == asked then some text else w asked)
entries_write key text asked w w' h = sym (ap (λ p. p.1 asked) h)

abbrev entries_laws : RedisLaws entries
entries_laws = record {
  held = λ w key. w key;
  get_reads = λ key w. refl;
  set_writes = entries_write;
}

-- The name of the account stands for the profile.
abbrev names : Codec (AccountProfile ℕ)
names = record {
  encode = λ p. ok p.account_name;
  decode = λ name. ok (record person { account_name = name });
}

abbrev pub no_codec : {A : Type 0} → Codec A
no_codec = record { encode = λ _. err "no"; decode = λ _. err "no" }

person-IsReadBack : IsReadBack names person
person-IsReadBack = record {
  reads_back = λ json h.
      sym (ap (λ name. ok (record person { account_name = name })) (ok_injective "alice" json h));
}

abbrev empty : Entries
empty key = none

abbrev cache : Cache Entries ℕ
cache = redis_cache floats entries default_segments no_codec no_codec names

abbrev profile_key : String
profile_key = display default_segments (profile "alice")

set_account_profile-get_account_profile_example :
    (cache.get_account_profile "alice" (stored_at profile_key "alice" empty)
      ≡ (ok person, stored_at profile_key "alice" empty))
    × (stored_at profile_key "alice" empty (display default_segments (profile_id "alice")) ≡ none)
unfolding redis_cache set_value display
set_account_profile-get_account_profile_example =
    set_account_profile-get_account_profile floats entries entries_laws default_segments
      defaults_separate no_codec no_codec names "alice" person (profile_id "alice") empty
      (stored_at profile_key "alice" empty) person-IsReadBack refl tt (λ e. cc)

-- One accumulator.
abbrev accumulator : RedisCommands ℕ ℕ
accumulator = record {
  get = λ _ w. (ok none, w);
  set = λ _ _ w. (ok tt, w);
  sadd = λ _ _ w. (ok 1, w);
  smembers = λ _ w. (ok [], w);
  del = λ _ w. (ok 1, w);
  incr_by_float = λ _ n w. (ok n, w);
  call_incr = λ _ text w. if text == "-6" then (ok "0", w - 6) else (ok "6", 6);
}

-- Three are added to three, and the threshold is six.
incr_and_check_threshold-answers_example :
    incr_and_check_threshold accumulator floats "key" "3" "6" 3 ≡ (ok ("6", true), 0)
incr_and_check_threshold-answers_example =
    incr_and_check_threshold-answers accumulator floats "key" "3" "6" "6" "0" 6 6 3 6 0 refl refl
      refl refl
