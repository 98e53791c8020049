-- ===== src/Event/Threshold/Rules.antt =====
-- services/event/src/events/threshold_profit.rs: the rules that the cache holds as texts.
use mxfactorial.Prelude.{
  String, Bool, true, false, not, ◌&&◌, List, [], ◌∷◌, Option, some, ok, ◌≡◌, refl, ◌∙◌, ap, eqb,
  and_split, is_empty, ℤ, arith,
}
use Prim.Native.Char.{code}
use Prim.Native.String.append
use Prim.Native.String.{◌++◌ as text_append}
use mxfactorial.Effect.{Action}
use mxfactorial.External.{DecimalOps}
use mxfactorial.Types.Transaction.{Transaction}
use mxfactorial.Service.Cache.{Cache}
use mxfactorial.Queue.{Queue}
use mxfactorial.Event.Gdp.{split_bar}
use mxfactorial.Event.Threshold.{parse_rule, get_threshold_rules, apply_account}

abbrev pub no_bar : String → Bool
no_bar String.[] = true
no_bar (String.◌∷◌ c s) = not (eqb (code c) b'|') && no_bar s

split_bar-plain : (s : String) → no_bar s ≡ true → split_bar s ≡ s ∷ []
unfolding split_bar
split_bar-plain String.[] h = refl
split_bar-plain (String.◌∷◌ c s) h =
    let (b, k) = and_split (not (eqb (code c) b'|')) (no_bar s) h in
    let f : eqb (code c) b'|' ≡ false = ground (arith, b) in rw (f, split_bar-plain s k) refl

split_bar-bar :
    (s t : String)
    → no_bar s ≡ true
    → split_bar (text_append s (String.◌∷◌ "|" t)) ≡ s ∷ split_bar t
unfolding split_bar
split_bar-bar String.[] t h = ap split_bar (append.nil (String.◌∷◌ "|" t))
split_bar-bar (String.◌∷◌ c s) t h =
    let (b, k) = and_split (not (eqb (code c) b'|')) (no_bar s) h in
    let f : eqb (code c) b'|' ≡ false = ground (arith, b) in
    ap split_bar (append.cons c s (String.◌∷◌ "|" t)) ∙ rw (f, split_bar-bar s t k) refl

module _ {D : Type 0} (dec : DecimalOps D) where
  parse_rule-two :
      (id threshold : String) (t : D)
      → dec.parse threshold ≡ some t
      → parse_rule dec (id ∷ threshold ∷ []) ≡ some (id, t)
  unfolding parse_rule
  parse_rule-two id threshold t p = rw (parse_rule, p) refl

  -- A rule is read back from its text, the id and the threshold with a bar between them, if neither
  -- has a bar and the threshold is a number.
  pub parse_rule-split_bar :
      (id threshold : String) (t : D)
      → no_bar id ≡ true
      → no_bar threshold ≡ true
      → dec.parse threshold ≡ some t
      → parse_rule dec (split_bar (text_append id (String.◌∷◌ "|" threshold))) ≡ some (id, t)
  parse_rule-split_bar id threshold t h k p =
      ap (parse_rule dec)
        (split_bar-bar id threshold h ∙ ap (λ l. id ∷ l) (split_bar-plain threshold k))
      ∙ parse_rule-two id threshold t p

module _ {W Time D : Type 0} (dec : DecimalOps D) (zero : D) (cache : Cache W Time)
    (queue : Queue W) (contribution_of : ℤ → String → Action W String D)
    (author_of : ℤ → Action W String (Option (Option String × Option String)))
    (write_json : Transaction Time → String) where
  -- An account without rules costs the look at the cache alone: its profit is not asked for, nothing
  -- is counted and nothing is queued.
  pub apply_account-no_rules :
      (tx_id : ℤ) (account : String) (w v : W)
      → get_threshold_rules dec zero cache queue contribution_of author_of write_json account w
        ≡ (ok [], v)
      → apply_account dec zero cache queue contribution_of author_of write_json tx_id account w
        ≡ (ok tt, v)
  unfolding apply_account
  apply_account-no_rules tx_id account w v h = rw h refl

  -- An account that did not gain is not counted, whatever its rules.
  pub apply_account-no_gain :
      (tx_id : ℤ) (account : String) (rules : List (String × D)) (contribution : D) (w v u : W)
      → get_threshold_rules dec zero cache queue contribution_of author_of write_json account w
        ≡ (ok rules, v)
      → is_empty rules ≡ false
      → contribution_of tx_id account v ≡ (ok contribution, u)
      → dec.ge zero contribution ≡ true
      → apply_account dec zero cache queue contribution_of author_of write_json tx_id account w
        ≡ (ok tt, u)
  unfolding apply_account
  apply_account-no_gain tx_id account rules contribution w v u h n c g = rw (h, n, c, g) refl
