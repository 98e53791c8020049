-- ===== src/Cache/Key/Recognize.antt =====
-- A reader of the cache's keys: which entry a text is the key of.
use mxfactorial.Prelude.{
  String, Bool, true, false, not, ◌&&◌, and_split, Option, none, some, ◌==◌, string_eq, eqb, ◌≡◌,
  refl, ap, ◌∙◌, if◌then◌else◌, arith,
}
use Prim.Native.Char.{Char, code}
use Prim.Native.String.append
use Prim.Native.String.{◌++◌ as text_append}
use mxfactorial.Types.Role.{AccountRole, parse}
use mxfactorial.Cache.Key.{
  Segments, CacheKey, rules_state, rules_account, rules_approval, profile, profile_id, approvers,
  threshold_profit, accumulator,
}

abbrev pub no_colon : String → Bool
no_colon String.[] = true
no_colon (String.◌∷◌ c s) = not (eqb (code c) b':') && no_colon s

abbrev push_front : Char → Option (String × String) → Option (String × String)
push_front c none = none
push_front c (some (a, b)) = some (String.◌∷◌ c a, b)

-- The text before the first colon, and the text behind it.
unfoldable pub cut : String → Option (String × String)
cut String.[] = none
cut (String.◌∷◌ c s) =
    let rest = push_front c (cut s) in if eqb (code c) b':' then some ("", s) else rest

pub cut_first :
    (s t : String) → no_colon s ≡ true → cut (text_append s (String.◌∷◌ ":" t)) ≡ some (s, t)
unfolding cut
cut_first String.[] t h = ap cut (append.nil (String.◌∷◌ ":" t))
cut_first (String.◌∷◌ c s) t h =
    let (b, k) = and_split (not (eqb (code c) b':')) (no_colon s) h in
    let f : eqb (code c) b':' ≡ false = ground (arith, b) in
    ap cut (append.cons c s (String.◌∷◌ ":" t)) ∙ rw (f, cut_first s t k) refl

pub cut_join :
    (s t : String) → no_colon s ≡ true → cut (text_append s (text_append ":" t)) ≡ some (s, t)
cut_join s t h =
    ap (λ x. cut (text_append s x))
      (append.cons ":" "" t ∙ ap (λ x. String.◌∷◌ ":" x) (append.nil t))
    ∙ cut_first s t h

-- A key is read from its text.
unfoldable pub by_kind : Segments → String → String → Option AccountRole → Option CacheKey
by_kind seg kind name none = none
by_kind seg kind name (some role) =
    if kind == seg.state
    then some (rules_state role name)
    else if kind == seg.account
    then some (rules_account role name)
    else some (rules_approval role name)

unfoldable pub by_role : Segments → String → Option (String × String) → Option CacheKey
unfolding by_kind
by_role seg kind none = none
by_role seg kind (some (role, name)) = by_kind seg kind name (parse role)

unfoldable pub of_rules : Segments → Option (String × String) → Option CacheKey
unfolding by_role
of_rules seg none = none
of_rules seg (some (kind, rest)) = by_role seg kind (cut rest)

unfoldable pub of_threshold : Option (String × String) → Option CacheKey
of_threshold none = none
of_threshold (some (word, account)) = some (threshold_profit account)

unfoldable pub of_instance : Option (String × String) → Option CacheKey
unfolding of_threshold
of_instance none = none
of_instance (some (id, rest)) =
    if rest == "accumulator" then some (accumulator id) else of_threshold (cut rest)

unfoldable pub by_head : Segments → Option (String × String) → Option CacheKey
unfolding of_rules of_instance
by_head seg none = none
by_head seg (some (head, rest)) =
    if head == seg.rules
    then of_rules seg (cut rest)
    else if head == seg.profile
    then some (profile rest)
    else if head == seg.profile_id
    then some (profile_id rest)
    else if head == seg.approvers
    then some (approvers rest)
    else of_instance (cut rest)

unfoldable pub recognize : Segments → String → Option CacheKey
unfolding by_head
recognize seg text = by_head seg (cut text)
