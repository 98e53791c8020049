-- ===== src/Pg/Placeholders.antt =====
-- The parameters that a statement names, read off its text: the numbers behind its dollar signs. An
-- independent reading of what the functions of crates/pg/src/sqls write.
pub mod Params
pub mod Rows
pub mod Insert
pub mod Stored
pub mod Balances
pub mod Words
pub mod Reads
use mxfactorial.Prelude.{
  ℕ, zero, suc, ◌+◌, ◌-◌, ◌*◌, ◌≤◌, String, Bool, true, false, ◌&&◌, List, [], ◌∷◌, ◌++◌, Option,
  none, some, ◌≡◌, refl, sym, ap, ◌∙◌, leb, eqb, if◌then◌else◌, pos, arith, append_assoc,
  append-nil, not, and_split, and_join, Bool-cases, inl, inr,
}
use Prim.Native.String.{◌++◌ as text_append}
use mxfactorial.Pg.Sqls.Params.{param}
use mxfactorial.Prelude.Numeral.{codes, show_i32, read_digits, i32_max}
use mxfactorial.Prelude.Numeral.Printed.{read_digits-show_i32, read_digits-induction}
use mxfactorial.Prelude.Text.{format, codes-append}

abbrev is_digit : ℕ → Bool
is_digit c = leb b'0' c && leb c b'9'

-- A number that is being read, and the numbers before it.
abbrev pub Reading : Type 0
Reading = Option ℕ × List ℕ

-- The number that ends here.
abbrev pub flush : Option ℕ → List ℕ → List ℕ
flush none found = found
flush (some n) found = found ++ (n ∷ [])

abbrev add_digit : Option ℕ → ℕ → Option ℕ
add_digit none c = none
add_digit (some n) c = some (n * 10 + (c - b'0'))

-- A digit goes on with the number; any other character ends it, and a dollar sign begins one.
abbrev step : Option ℕ → List ℕ → ℕ → Reading
step number found c =
    if is_digit c
    then (add_digit number c, found)
    else (if eqb c b'$' then some 0 else none, flush number found)

pub feed : Option ℕ → List ℕ → List ℕ → Reading
feed number found [] = (number, found)
feed number found (c ∷ s) = let (number', found') = step number found c in feed number' found' s

unfoldable pub placeholders : String → List ℕ
unfolding feed
placeholders sql = let (number, found) = feed none [] (codes sql) in flush number found

-- However a text before it ends, the text ends a number that is open there and names these.
pub record Names (s : String) (ns : List ℕ) : Type 0 where
  pub reads :
      (number : Option ℕ) (found : List ℕ)
      → flush (feed number found (codes s)).0 (feed number found (codes s)).1
        ≡ flush number found ++ ns

not-true : (b : Bool) → not b ≡ true → b ≡ false
not-true true h = cc
not-true false h = refl

pub feed-append :
    (number : Option ℕ) (found s t : List ℕ)
    → feed number found (s ++ t) ≡ feed (feed number found s).0 (feed number found s).1 t
unfolding feed
feed-append number found [] t = refl
feed-append number found (c ∷ s) t = feed-append (step number found c).0 (step number found c).1 s t

pub names_two :
    {s t : String} {ns ms : List ℕ} → Names s ns → Names t ms → Names (text_append s t) (ns ++ ms)
names_two {s} {t} {ns} {ms} a b = record {
  reads = λ number found.
      ap (λ r. flush r.0 r.1)
        (ap (feed number found) (codes-append s t) ∙ feed-append number found (codes s) (codes t))
      ∙ b.reads (feed number found (codes s)).0 (feed number found (codes s)).1
      ∙ ap (λ l. l ++ ms) (a.reads number found)
      ∙ append_assoc (flush number found) ns ms;
}

-- The last part of a `format!`.
pub names_last : {s : String} {ns : List ℕ} → Names s ns → Names (text_append s "") ns
names_last {s} {ns} a = record {
  reads = λ number found.
      ap (λ l. flush (feed number found l).0 (feed number found l).1)
        (codes-append s "" ∙ append-nil (codes s))
      ∙ a.reads number found;
}

abbrev no_dollar : List ℕ → Bool
no_dollar [] = true
no_dollar (c ∷ s) = not (eqb c b'$') && no_dollar s

abbrev pub is_plain : List ℕ → Bool
is_plain [] = true
is_plain (c ∷ s) = not (is_digit c) && no_dollar (c ∷ s)

feed-no_dollar : (found s : List ℕ) → no_dollar s ≡ true → feed none found s ≡ (none, found)
unfolding feed
feed-no_dollar found [] h = refl
feed-no_dollar found (c ∷ s) h =
    let (a, k) = and_split (not (eqb c b'$')) (no_dollar s) h in
    elim (Bool-cases (is_digit c)) [
      | inl d ↦ rw d (feed-no_dollar found s k)
      | inr d ↦ rw (d, not-true (eqb c b'$') a) (feed-no_dollar found s k)
    ]

step_plain :
    (number : Option ℕ) (found : List ℕ) (c : ℕ)
    → is_digit c ≡ false
    → eqb c b'$' ≡ false
    → step number found c ≡ (none, flush number found)
step_plain number found c d e =
    ap
      (λ b.
        if b
        then (add_digit number c, found)
        else (if eqb c b'$' then some 0 else none, flush number found))
      d
    ∙ ap (λ b. ((if b then some 0 else none), flush number found)) e

-- A text with no dollar sign, and no digit in front, names nothing.
plain_reads :
    (s : List ℕ)
    → is_plain s ≡ true
    → (number : Option ℕ) (found : List ℕ)
    → flush (feed number found s).0 (feed number found s).1 ≡ flush number found ++ []
unfolding feed
plain_reads [] h number found = sym (append-nil (flush number found))
plain_reads (c ∷ s) h number found =
    let (a, k) = and_split (not (is_digit c)) (no_dollar (c ∷ s)) h in
    let (b, l) = and_split (not (eqb c b'$')) (no_dollar s) k in
    ap (λ r. flush r.0 r.1)
      (ap (λ q. feed q.0 q.1 s)
          (step_plain number found c (not-true (is_digit c) a) (not-true (eqb c b'$') b))
        ∙ feed-no_dollar (flush number found) s l)
    ∙ sym (append-nil (flush number found))

pub names_plain : (s : String) → is_plain (codes s) ≡ true → Names s []
names_plain s h = record { reads = plain_reads (codes s) h }

feed_digits :
    (r : ℕ) (found : List ℕ) (n : ℕ) (s : List ℕ)
    → read_digits s n ≡ some r
    → feed (some n) found s ≡ (some r, found)
unfolding feed
feed_digits r found =
    read_digits-induction (λ n s. feed (some n) found s ≡ (some r, found)) r refl
      (λ n c s low high h. rw (and_join (leb b'0' c) (leb c b'9') (ground arith) (ground arith)) h)

-- A parameter names its position.
pub names_param : (p : ℕ) → p ≤ i32_max → Names (param p) (p ∷ [])
unfolding feed
names_param p h = record {
  reads = λ number found.
      ap (λ l. flush (feed number found l).0 (feed number found l).1)
        (codes-append "$" (text_append (show_i32 (pos p)) ""))
      ∙ ap
          (λ l.
            flush (feed (some 0) (flush number found) l).0 (feed (some 0) (flush number found) l).1)
          (codes-append (show_i32 (pos p)) "" ∙ append-nil (codes (show_i32 (pos p))))
      ∙ ap (λ r. flush r.0 r.1)
          (feed_digits p (flush number found) 0 (codes (show_i32 (pos p)))
            (read_digits-show_i32 p h));
}

pub placeholders-Names : (s : String) (ns : List ℕ) → Names s ns → placeholders s ≡ ns
unfolding placeholders
placeholders-Names s ns a = a.reads none []
