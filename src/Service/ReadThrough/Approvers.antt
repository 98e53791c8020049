-- ===== src/Service/ReadThrough/Approvers.antt =====
-- `Service::get_account_approvers` (crates/service/src/lib.rs) over the Redis cache
-- (crates/cache/src/redis.rs), which writes the approvers one by one.
use mathlib.Core.Logic.Or
use mathlib.Core.List.{Mem, Subset, Mem-prop, mem-cons_self, mem-cons_of_mem, eq-or-mem_of_mem-cons}
use mxfactorial.Prelude.{
  String, List, [], ◌∷◌, some, Outcome, ok, err, panic, map_outcome, ◌≡◌, ◌≢◌, ◌⊎◌, inl, inr, refl,
  ◌∙◌, ℕ,
}
use mxfactorial.Effect.{Action, pure, attempt, map_error, continue, ◌>>=◌}
use mxfactorial.Types.Account.{AccountProfile}
use mxfactorial.Types.Rule.{TransactionItemRuleInstance, ApprovalRuleInstance}
use mxfactorial.Service.Cache.{CacheError, cache_miss, connection_error}
use mxfactorial.Service.Model.{Model}
use mxfactorial.Service.ReadThrough.{read_through, get_account_approvers}
use mxfactorial.Cache.Key.{Segments, display, approvers}
use mxfactorial.Cache.Redis.{
  Doubles, Codec, RedisCommands, get_members, add_member, set_members, plain_text, redis_cache,
}

-- What `SMEMBERS` and `SADD` do with one key: `held` are the members in a world, and `stored` what the
-- database holds. Each command may fail; an addition that fails may have added its text or not.
pub record SetLaws {W F E : Type 0} (redis : RedisCommands W F) (key : String)
    (fetch : Action W E (List String)) : Type 0 where
  pub held : W → List String
  pub stored : W → List String
  pub smembers_reads :
      (w : W)
      → (redis.smembers key w ≡ (ok (held w), w))
        ⊎ ((e : String) × (redis.smembers key w ≡ (err e, w)))
  pub sadd_ends : (x : String) (w : W) → (redis.sadd key x w).0 ≢ panic
  pub sadd_held : (x : String) (w : W) → Subset (held (redis.sadd key x w).1) (x ∷ held w)
  pub sadd_stored : (x : String) (w : W) → stored (redis.sadd key x w).1 ≡ stored w
  pub fetch_reads : (w : W) → fetch w ≡ (ok (stored w), w)

Subset-cons : {A : Type 0} (x : A) (l m : List A) → Mem x m → Subset l m → Subset (x ∷ l) m
Subset-cons x l m h k a given =
    Or.elim (Mem-prop {a = a} {l = m}) (eq-or-mem_of_mem-cons given) (λ e. rw e h) (k a)

List-cases : {A : Type 0} (l : List A) → (l ≡ []) ⊎ ((x : A) × (m : List A) × (l ≡ x ∷ m))
List-cases [] = inl refl
List-cases (x ∷ m) = inr (x, m, refl)

map_outcome-ok : {E A : Type 0} (l : List A) → map_outcome {E = E} ok l ≡ ok l
map_outcome-ok [] = refl
map_outcome-ok {E} (x ∷ l) = rw (map_outcome-ok {E = E} l) refl

module _ {W E A : Type 0} (hit : Action W CacheError A) (store : A → Action W CacheError (Unit {0}))
    (fetch : Action W E A) where
  read_hit : (w : W) (a : A) → hit w ≡ (ok a, w) → read_through hit store fetch w ≡ (ok a, w)
  unfolding read_through
  read_hit w a h = rw h refl

  read_miss :
      (w : W) (a : A) (e : CacheError)
      → hit w ≡ (err e, w)
      → fetch w ≡ (ok a, w)
      → read_through hit store fetch w ≡ (attempt {E = E} (store a) >>= λ _. pure a) w
  unfolding read_through
  read_miss w a e h k = rw (h, k) refl

module _ {W F E : Type 0} {redis : RedisCommands W F} {key : String}
    {fetch : Action W E (List String)} (laws : SetLaws redis key fetch) where
  -- The set names nobody whom the database does not.
  abbrev pub Within : W → Type 0
  Within w = Subset (laws.held w) (laws.stored w)

  -- A run leaves the set so, and the database as it was.
  abbrev Kept : {E' A : Type 0} → W → Outcome E' A × W → Type 0
  Kept w (r, v) = (r ≢ panic) × Within v × (laws.stored v ≡ laws.stored w)

  sent-Kept :
      (r : Outcome String ℕ) (w v : W)
      → r ≢ panic
      → Within v
      → laws.stored v ≡ laws.stored w
      → Kept w
          ((map_error connection_error (λ (_ : W). (r, v)) >>= λ _. pure {E = CacheError} tt) w)
  sent-Kept (ok n) w v ends h k = ((λ e. cc), h, k)
  sent-Kept (err e) w v ends h k = ((λ e. cc), h, k)
  sent-Kept panic w v ends h k = absurd (ends refl)

  add_member-Kept :
      (x : String) (w : W)
      → Mem x (laws.stored w)
      → Within w
      → Kept w (add_member redis plain_text key x w)
  unfolding add_member
  add_member-Kept x w h k =
      let grown : Within (redis.sadd key x w).1 = λ a m.
        rw (laws.sadd_stored x w)
          (Subset-cons x (laws.held w) (laws.stored w) h k a (laws.sadd_held x w a m)) in
      sent-Kept (redis.sadd key x w).0 w (redis.sadd key x w).1 (laws.sadd_ends x w) grown
        (laws.sadd_stored x w)

  -- What follows a run that keeps the set keeps it too.
  continue-Kept :
      {A B : Type 0} (r : Outcome CacheError A) (f : A → Action W CacheError B) (w v : W)
      → Kept w (r, v)
      → ((a : A) → Within v → laws.stored v ≡ laws.stored w → Kept v (f a v))
      → Kept w (continue r f v)
  continue-Kept (ok a) f w v (ends, h, k) after =
      let (ends', h', k') = after a h k in (ends', h', k' ∙ k)
  continue-Kept (err e) f w v (ends, h, k) after = ((λ e. cc), h, k)
  continue-Kept panic f w v (ends, h, k) after = absurd (ends refl)

  set_members-Kept :
      (l : List String) (w : W)
      → Subset l (laws.stored w)
      → Within w
      → Kept w (set_members redis plain_text key l w)
  unfolding set_members
  set_members-Kept [] w h k = ((λ e. cc), k, refl)
  set_members-Kept (x ∷ l) w h k =
      continue-Kept (add_member redis plain_text key x w).0 _ w
        (add_member redis plain_text key x w).1 (add_member-Kept x w (h x mem-cons_self) k)
        λ _ k' same.
          set_members-Kept l (add_member redis plain_text key x w).1
            (λ a m. rw same (h a (mem-cons_of_mem x m))) k'

  -- A read of the set gives its members, which are some, or fails; it changes nothing.
  get_members-reads :
      (w : W)
      → ((get_members redis plain_text key w ≡ (ok (laws.held w), w)) × (laws.held w ≢ []))
        ⊎ ((e : CacheError) × (get_members redis plain_text key w ≡ (err e, w)))
  unfolding get_members
  get_members-reads w = elim (laws.smembers_reads w) [
    | inl e ↦ elim (List-cases (laws.held w)) [
      | inl none_held ↦ inr (cache_miss, rw (e, none_held) refl)
      | inr (x, l, some_held) ↦
          inl (rw (e, some_held, map_outcome-ok {E = String} l) (refl, (λ h. cc)))
    ]
    | inr (x, e) ↦ inr (connection_error x, rw e refl)
  ]

  -- What a read through the cache answers: names that the database has, and all of them where the
  -- set is empty.
  abbrev pub Answered : W → Outcome E (List String) × W → Type 0
  Answered w (r, v) =
      (l : List String) × (r ≡ ok l)
      × Subset l (laws.stored w)
      × ((laws.held w ≡ []) → l ≡ laws.stored w)
      × Within v
      × (laws.stored v ≡ laws.stored w)

  stored-Answered :
      (r : Outcome CacheError (Unit {0})) (w v : W)
      → Kept w (r, v)
      → Answered w ((attempt {E = E} (λ (_ : W). (r, v)) >>= λ _. pure (laws.stored w)) w)
  stored-Answered (ok _) w v (ends, h, k) = (laws.stored w, refl, (λ a m. m), (λ _. refl), h, k)
  stored-Answered (err _) w v (ends, h, k) = (laws.stored w, refl, (λ a m. m), (λ _. refl), h, k)
  stored-Answered panic w v (ends, h, k) = absurd (ends refl)

  pub read_through-Answered :
      (w : W)
      → Within w
      → Answered w (
          read_through
            (get_members redis plain_text key)
            (set_members redis plain_text key)
            fetch
            w)
  read_through-Answered w h = elim (get_members-reads w) [
    | inl (e, some_held) ↦
        rw
          (read_hit (get_members redis plain_text key) (set_members redis plain_text key) fetch w
            (laws.held w) e)
          (laws.held w, refl, h, (λ none_held. absurd (some_held none_held)), h, refl)
    | inr (x, e) ↦
        let kept = set_members-Kept (laws.stored w) w (λ a m. m) h in
        rw
          (read_miss (get_members redis plain_text key) (set_members redis plain_text key) fetch w
            (laws.stored w) x e (laws.fetch_reads w))
          (stored-Answered (set_members redis plain_text key (laws.stored w) w).0 w
            (set_members redis plain_text key (laws.stored w) w).1 kept)
  ]

module _ {W Time D F : Type 0} (conn : Model W Time D) (doubles : Doubles F)
    (redis : RedisCommands W F) (seg : Segments)
    (item_rules : Codec (TransactionItemRuleInstance Time))
    (approval_rules : Codec (ApprovalRuleInstance Time))
    (profiles : Codec (AccountProfile Time)) where
  -- The approvers of an account, read through Redis, whichever commands fail: where the set of the
  -- account names nobody whom the database does not, the read answers with approvers that the
  -- database has, with all of them if the set was empty, and it leaves the set so and the database
  -- as it was.
  pub get_account_approvers-Answered :
      (account : String)
      (laws : SetLaws redis (display seg (approvers account)) (conn.select_approvers_query account))
      (w : W)
      → Within laws w
      → Answered laws w (
          get_account_approvers conn
            (some (redis_cache doubles redis seg item_rules approval_rules profiles))
            account
            w)
  unfolding get_account_approvers redis_cache
  get_account_approvers-Answered account laws w h = read_through-Answered laws w h
