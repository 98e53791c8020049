-- ===== src/Cache/Key/Distinct.antt =====
-- Two entries of the cache never share a key (crates/cache/src/lib.rs).
use mxfactorial.Prelude.{
  String, Bool, true, false, ◌&&◌, none, some, ◌==◌, string_eq, beq_refl, beq_of_ne, ◌≢◌, ◌≡◌, refl,
  sym, ap, ◌∙◌, if◌then◌else◌, arith,
}
use Prim.Native.String.{◌++◌ as text_append}
use mxfactorial.Types.Role.{AccountRole, debitor, creditor, to_string, parse}
use mxfactorial.Cache.Key.{
  Segments, CacheKey, rules_state, rules_account, rules_approval, profile, profile_id, approvers,
  threshold_profit, accumulator, display,
}
use mxfactorial.Cache.Key.Recognize.{
  no_colon, cut, cut_join, by_kind, by_role, of_rules, of_threshold, of_instance, by_head,
  recognize,
}

-- The segments have no colon, and those that stand at the same place differ.
pub record AreSeparate (seg : Segments) : Type 0 where
  pub plain :
      (no_colon seg.rules
        && no_colon seg.state
        && no_colon seg.account
        && no_colon seg.approval
        && no_colon seg.profile
        && no_colon seg.profile_id
        && no_colon seg.approvers)
      ≡ true
  pub account_state : (seg.account == seg.state) ≡ false
  pub approval_state : (seg.approval == seg.state) ≡ false
  pub approval_account : (seg.approval == seg.account) ≡ false
  pub profile_rules : (seg.profile == seg.rules) ≡ false
  pub profile_id_rules : (seg.profile_id == seg.rules) ≡ false
  pub profile_id_profile : (seg.profile_id == seg.profile) ≡ false
  pub approvers_rules : (seg.approvers == seg.rules) ≡ false
  pub approvers_profile : (seg.approvers == seg.profile) ≡ false
  pub approvers_profile_id : (seg.approvers == seg.profile_id) ≡ false
  pub instance_rules : ("transaction_rule_instance" == seg.rules) ≡ false
  pub instance_profile : ("transaction_rule_instance" == seg.profile) ≡ false
  pub instance_profile_id : ("transaction_rule_instance" == seg.profile_id) ≡ false
  pub instance_approvers : ("transaction_rule_instance" == seg.approvers) ≡ false

-- The id of an accumulator is a number, so it has no colon.
abbrev pub IsPlain : CacheKey → Type 0
IsPlain (accumulator id) = no_colon id ≡ true
IsPlain (rules_state _ _) = Unit
IsPlain (rules_account _ _) = Unit
IsPlain (rules_approval _ _) = Unit
IsPlain (profile _) = Unit
IsPlain (profile_id _) = Unit
IsPlain (approvers _) = Unit
IsPlain (threshold_profit _) = Unit

if_true : {A : Type 0} {b : Bool} (x y : A) → b ≡ true → (if b then x else y) ≡ x
if_true x y h = ap (λ c. if c then x else y) h

if_false : {A : Type 0} {b : Bool} (x y : A) → b ≡ false → (if b then x else y) ≡ y
if_false x y h = ap (λ c. if c then x else y) h

role_plain : (role : AccountRole) → no_colon (to_string role) ≡ true
role_plain debitor = refl
role_plain creditor = refl

parse_role : (role : AccountRole) → parse (to_string role) ≡ some role
parse_role debitor = refl
parse_role creditor = refl

some-ne-none : {A : Type 0} (a : A) → some a ≢ none
some-ne-none a h = cc

profit_accumulator :
    (account : String) → (text_append "profit" (text_append ":" account) == "accumulator") ≡ false
unfolding cut
profit_accumulator account =
    beq_of_ne _ _ (λ e. some-ne-none _ (sym (cut_join "profit" account refl) ∙ ap cut e))

some_injective : {A : Type 0} {a b : A} → some a ≡ some b → a ≡ b
some_injective h = cc

module _ (seg : Segments) (separate : AreSeparate seg) where
  rules_plain : no_colon seg.rules ≡ true
  rules_plain = ground (arith, separate.plain)

  state_plain : no_colon seg.state ≡ true
  state_plain = ground (arith, separate.plain)

  account_plain : no_colon seg.account ≡ true
  account_plain = ground (arith, separate.plain)

  approval_plain : no_colon seg.approval ≡ true
  approval_plain = ground (arith, separate.plain)

  profile_plain : no_colon seg.profile ≡ true
  profile_plain = ground (arith, separate.plain)

  profile_id_plain : no_colon seg.profile_id ≡ true
  profile_id_plain = ground (arith, separate.plain)

  approvers_plain : no_colon seg.approvers ≡ true
  approvers_plain = ground (arith, separate.plain)

  -- A rules key: the segment, the kind, the role and the name.
  read_rules :
      (kind name : String) (role : AccountRole)
      → no_colon kind ≡ true
      → recognize seg (
          text_append seg.rules (
            text_append ":" (
              text_append kind
                (text_append ":" (text_append (to_string role) (text_append ":" name))))))
        ≡ by_kind seg kind name (some role)
  unfolding recognize
  read_rules kind name role h =
      ap (by_head seg) (cut_join seg.rules _ rules_plain)
      ∙ if_true _ _ (beq_refl seg.rules)
      ∙ ap (of_rules seg) (cut_join kind _ h)
      ∙ ap (by_role seg kind) (cut_join (to_string role) name (role_plain role))
      ∙ ap (by_kind seg kind name) (parse_role role)

  -- A key of two texts, whose first is none of the segments before it.
  read_instance :
      (id rest : String)
      → no_colon id ≡ true
      → recognize seg (
          text_append "transaction_rule_instance"
            (text_append ":" (text_append id (text_append ":" rest))))
        ≡ of_instance (some (id, rest))
  unfolding recognize
  read_instance id rest h =
      ap (by_head seg) (cut_join "transaction_rule_instance" _ refl)
      ∙ if_false _ _ separate.instance_rules
      ∙ if_false _ _ separate.instance_profile
      ∙ if_false _ _ separate.instance_profile_id
      ∙ if_false _ _ separate.instance_approvers
      ∙ ap of_instance (cut_join id rest h)

  recognize-display : (k : CacheKey) → IsPlain k → recognize seg (display seg k) ≡ some k
  unfolding recognize display
  recognize-display (rules_state role state) h =
      read_rules seg.state state role state_plain ∙ if_true _ _ (beq_refl seg.state)
  recognize-display (rules_account role account) h =
      read_rules seg.account account role account_plain
      ∙ if_false _ _ separate.account_state
      ∙ if_true _ _ (beq_refl seg.account)
  recognize-display (rules_approval role account) h =
      read_rules seg.approval account role approval_plain
      ∙ if_false _ _ separate.approval_state
      ∙ if_false _ _ separate.approval_account
  recognize-display (profile account) h =
      ap (by_head seg) (cut_join seg.profile account profile_plain)
      ∙ if_false _ _ separate.profile_rules
      ∙ if_true _ _ (beq_refl seg.profile)
  recognize-display (profile_id account) h =
      ap (by_head seg) (cut_join seg.profile_id account profile_id_plain)
      ∙ if_false _ _ separate.profile_id_rules
      ∙ if_false _ _ separate.profile_id_profile
      ∙ if_true _ _ (beq_refl seg.profile_id)
  recognize-display (approvers account) h =
      ap (by_head seg) (cut_join seg.approvers account approvers_plain)
      ∙ if_false _ _ separate.approvers_rules
      ∙ if_false _ _ separate.approvers_profile
      ∙ if_false _ _ separate.approvers_profile_id
      ∙ if_true _ _ (beq_refl seg.approvers)
  recognize-display (threshold_profit account) h =
      read_instance "threshold" (text_append "profit" (text_append ":" account)) refl
      ∙ if_false _ _ (profit_accumulator account)
      ∙ ap of_threshold (cut_join "profit" account refl)
  recognize-display (accumulator id) h = read_instance id "accumulator" h ∙ refl

  -- Two entries with the same key are the same entry, where the segments are separate and the id of an
  -- accumulator has no colon.
  pub display-injective :
      (k l : CacheKey) → IsPlain k → IsPlain l → display seg k ≡ display seg l → k ≡ l
  display-injective k l h j e =
      some_injective (sym (recognize-display k h) ∙ ap (recognize seg) e ∙ recognize-display l j)
