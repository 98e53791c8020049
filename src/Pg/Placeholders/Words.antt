-- ===== src/Pg/Placeholders/Words.antt =====
-- Statements that are written word by word: words that name no parameter before and behind a list
-- of parameters.
use mxfactorial.Prelude.{
  ℕ, ◌<◌, String, Bool, true, ◌&&◌, and_split, List, [], ◌∷◌, ◌++◌, map, length-map, Outcome, ok,
  err, panic, ◌≡◌, refl, sym, ap, ◌∙◌, subst, arith, length, append-nil,
}
use mxfactorial.Prelude.Numeral.{i32_max, codes}
use mxfactorial.Prelude.Text.{format, join}
use mxfactorial.Pg.Sqls.Column.{Columns, join_with_casting}
use mxfactorial.Pg.Sqls.Params.{create_params}
use mxfactorial.Pg.Placeholders.{
  Names, names_two, names_last, names_plain, is_plain, placeholders, placeholders-Names,
}
use mxfactorial.Pg.Placeholders.Params.{from, create_params-Names}

-- The statement is built, and its parameters are numbered from 1 on in order, one for each value.
pub record Numbered {ℓ κ} {E : Type ℓ} {V : Type κ} (m : Outcome E (String × List V))
    : Type (ℓ ⊔ κ) where
  pub sql : String
  pub values : List V
  pub is_built : m ≡ ok (sql, values)
  pub numbered : placeholders sql ≡ from 1 (length values)

abbrev pub all_plain : List String → Bool
all_plain [] = true
all_plain (w ∷ words) = is_plain (codes w) && all_plain words

-- Words in front of a text that names parameters.
names_words :
    (words : List String) (s : String) (rest : List String) {ns : List ℕ}
    → all_plain words ≡ true
    → Names (join " " (s ∷ rest)) ns
    → Names (join " " (words ++ (s ∷ rest))) ns
names_words [] s rest h n = n
names_words (w ∷ []) s rest h n =
    names_two (names_plain w (and_split (is_plain (codes w)) true h).0)
      (names_two (names_plain " " refl) n)
names_words (w ∷ v ∷ words) s rest h n =
    names_two (names_plain w (and_split (is_plain (codes w)) (all_plain (v ∷ words)) h).0) (
      names_two (names_plain " " refl) (
        names_words (v ∷ words) s rest (and_split (is_plain (codes w)) (all_plain (v ∷ words)) h).1
          n))

abbrev pub in_list : ℕ → String
in_list k = format ("(" ∷ (create_params k 1).0 ∷ ")" ∷ [])

in_list-Names : (k : ℕ) → k < i32_max → Names (in_list k) (from 1 k)
in_list-Names k h = subst (Names (in_list k)) (append-nil (from 1 k)) (
    names_two (names_plain "(" refl)
      (names_two (create_params-Names k 1 (omega arith)) (names_last (names_plain ")" refl))))

-- Words behind it.
names_behind :
    {s : String} {ns : List ℕ} (words : List String)
    → all_plain words ≡ true
    → Names s ns
    → Names (join " " (s ∷ words)) ns
names_behind [] h n = n
names_behind {s} {ns} (w ∷ words) h n = subst (Names (join " " (s ∷ w ∷ words))) (append-nil ns) (
    names_two n (
      names_two (names_plain " " refl) (
        names_behind words (and_split (is_plain (codes w)) (all_plain words) h).1
          (names_plain w (and_split (is_plain (codes w)) (all_plain words) h).0))))

-- The texts of the columns of a table.
abbrev pub selected : Outcome (Unit {0}) Columns → String
selected (ok columns) = join_with_casting columns
selected (err e) = ""
selected panic = ""

pub in_statement :
    {A V : Type 0} (columns table key : String) (behind : List String) (f : A → V) (l : List A)
    → all_plain ("SELECT" ∷ columns ∷ "FROM" ∷ table ∷ "WHERE" ∷ key ∷ "IN" ∷ []) ≡ true
    → all_plain behind ≡ true
    → length l < i32_max
    → placeholders (
        join " " (
          "SELECT" ∷ columns ∷ "FROM" ∷ table ∷ "WHERE" ∷ key ∷ "IN" ∷ in_list (length l) ∷ behind))
      ≡ from 1 (length (map f l))
in_statement columns table key behind f l h k small =
    placeholders-Names _ _ (
      names_words ("SELECT" ∷ columns ∷ "FROM" ∷ table ∷ "WHERE" ∷ key ∷ "IN" ∷ [])
        (in_list (length l)) behind h (names_behind behind k (in_list-Names (length l) small)))
    ∙ ap (from 1) (sym (length-map f l))
