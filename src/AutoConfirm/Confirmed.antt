-- ===== src/AutoConfirm/Confirmed.antt =====
-- What the trigger of services/auto-confirm/src/main.rs answers.
use mxfactorial.Prelude.{
  String, Bool, true, Option, none, some, Outcome, ok, err, panic, refl, pos, unwrap, unwrap_result,
  if◌then◌else◌, Bool-cases, ◌⊎◌, inl, inr, ◌≡◌, sym, ap, ◌∙◌, ok_injective,
}
use mxfactorial.Effect.{Action, pure, lift, attempt, for_each, ◌>>=◌, ◌>>◌}
use mxfactorial.Effect.Success.{>>=-ok, paired}
use mxfactorial.Service.Model.{Model}
use mxfactorial.Types.Account.{AccountProfile}
use mxfactorial.Service.Accounts.{create_account_from_cognito_trigger}
use mxfactorial.Uri.{Environment, required}
use mxfactorial.AutoConfirm.{
  Unicode, Fakes, CognitoEvent, skips, deletions, expect, create_fake_profile, remake_account,
  confirm,
}

unwrap-ok : {E A : Type 0} (o : Option A) {a : A} → unwrap {E = E} o ≡ ok a → o ≡ some a
unwrap-ok none h = cc
unwrap-ok (some b) h = cc

unwrap_result-ok :
    {E F A : Type 0} (r : Outcome F A) {a : A} → unwrap_result {F = E} r ≡ ok a → r ≡ ok a
unwrap_result-ok (ok b) h = cc
unwrap_result-ok (err e) h = cc
unwrap_result-ok panic h = cc

expect-ok :
    {W E F A : Type 0} {a : A} (m : Action W F A) (w : W)
    → (expect {E = E} m w).0 ≡ ok a
    → (m w).0 ≡ ok a
expect-ok {W} {E} {F} {A} {a} m w h = go (m w).0 (m w).1 h
  where
    go : (r : Outcome F A) (v : W) → (expect {E = E} (λ (_ : W). (r, v)) w).0 ≡ ok a → r ≡ ok a
    go (ok b) v k = cc
    go (err e) v k = cc
    go panic v k = cc

module _ {W Time D : Type 0} (unicode : Unicode) (fakes : Fakes) (env : Environment)
    (parse_decimal : String → Option D) (get_conn : Action W String (Model W Time D))
    (execute : String → String → Action W String (Unit {0})) where
  abbrev remake : String → Action W String (Unit {0})
  remake = remake_account unicode fakes env parse_decimal get_conn execute

  abbrev confirmed : CognitoEvent → CognitoEvent
  confirmed event = record event { auto_confirm_user = true }

  abbrev remade : CognitoEvent → Action W String CognitoEvent
  remade event = lift (unwrap event.user_name) >>= λ user. remake user >> pure (confirmed event)

  chosen :
      (event : CognitoEvent) (w : W) {b : Bool}
      → skips event ≡ b
      → confirm unicode fakes env parse_decimal get_conn execute event w
        ≡ (if b then pure (confirmed event) else remade event) w
  unfolding confirm
  chosen event w h = ap (λ b. (if b then pure (confirmed event) else remade event) w) h

  -- The account of `user` was deleted and attempted anew, from one world to another: the profile was
  -- made up, the first balance was a number, a connection was got, and every deletion succeeded; the
  -- error of the creation behind them, if any, is dropped.
  pub record Remade (user : String) (w v : W) : Type 0 where
    pub made_up : AccountProfile Time
    pub initial : String
    pub balance : D
    pub conn : Model W Time D
    pub connected : W
    pub deleted : W
    pub profile_made : create_fake_profile unicode fakes {E = String} user ≡ ok made_up
    pub initial_set : required env "INITIAL_ACCOUNT_BALANCE" ≡ ok initial
    pub balance_read : parse_decimal initial ≡ some balance
    pub connection_got : get_conn w ≡ (ok conn, connected)
    pub all_deleted : for_each (λ sql. execute sql user) deletions connected ≡ (ok tt, deleted)
    pub attempted : (create_account_from_cognito_trigger conn made_up balance (pos 0) deleted).1 ≡ v

  remake_account-Remade : (user : String) (w v : W) → remake user w ≡ (ok tt, v) → Remade user w v
  unfolding remake_account
  remake_account-Remade user w v h =
      let (profile, p, h1) = >>=-ok (lift (create_fake_profile unicode fakes user)) _ h in
      let (initial, i, h2) =
        >>=-ok (lift (unwrap_result (required env "INITIAL_ACCOUNT_BALANCE"))) _ h1 in
      let (balance, b, h3) = >>=-ok (lift (unwrap (parse_decimal initial))) _ h2 in
      let (conn, c, h4) = >>=-ok (expect get_conn) _ h3 in
      let (_, d, h5) = >>=-ok (for_each (λ sql. execute sql user) deletions) _ h4 in
      let (_, _, h6) =
        >>=-ok (attempt (create_account_from_cognito_trigger conn profile balance (pos 0))) _ h5 in
      record {
        made_up = profile;
        initial = initial;
        balance = balance;
        conn = conn;
        connected = (get_conn w).1;
        deleted = (for_each (λ sql. execute sql user) deletions (get_conn w).1).1;
        profile_made = p;
        initial_set = unwrap_result-ok (required env "INITIAL_ACCOUNT_BALANCE") i;
        balance_read = unwrap-ok (parse_decimal initial) b;
        connection_got = paired (expect-ok get_conn w c) refl;
        all_deleted = paired d refl;
        attempted = ap (λ r. r.1) h6;
      }

  -- A trigger that answers confirms the user and changes nothing else of the event; and it either was
  -- asked to skip and did nothing, or the event names a user for whom a profile was made up, the
  -- first balance was read as a number, a connection was got and all the deletions succeeded, and
  -- then the creation of the account was attempted, whose error, if any, is dropped.
  pub confirm-answers :
      (event answer : CognitoEvent) (w v : W)
      → confirm unicode fakes env parse_decimal get_conn execute event w ≡ (ok answer, v)
      → (answer ≡ record event { auto_confirm_user = true })
        × (((skips event ≡ true) × (v ≡ w))
            ⊎ ((user : String) × (event.user_name ≡ some user) × Remade user w v))
  unfolding confirm
  confirm-answers event answer w v h = elim (Bool-cases (skips event)) [
    | inl skip ↦
        let e = sym (chosen event w skip) ∙ h in
        (
          sym (ok_injective (confirmed event) answer (ap (λ p. p.0) e)),
          inl (skip, sym (ap (λ p. p.1) e)),
        )
    | inr go ↦
        let e = sym (chosen event w go) ∙ h in
        let (user, a, b) =
          >>=-ok (lift (unwrap event.user_name)) (λ user. remake user >> pure (confirmed event))
            e in
        let (u, c, d) = >>=-ok (remake user) (λ _. pure (confirmed event)) b in
        (
          sym (ok_injective (confirmed event) answer (ap (λ p. p.0) d)),
          inr (
            user,
            unwrap-ok event.user_name a,
            remake_account-Remade user w v (paired c (ap (λ p. p.1) d)),
          ),
        )
  ]
