-- ===== src/AutoConfirm/Names.antt =====
-- The first and the last name that services/auto-confirm/src/main.rs guesses.
use mxfactorial.Prelude.{
  ℕ, zero, suc, ◌+◌, ◌-◌, ◌/◌, ◌≤◌, String, Bool, true, false, List, [], ◌∷◌, Outcome, ok, panic,
  >>=-eq-ok, ok_injective, eqb, leb, if◌then◌else◌, Bool-cases, ◌⊎◌, inl, inr, ◌≡◌, refl, sym,
  subst, ap, ◌∙◌, arith,
}
use Prim.Native.Char.{Char, code, len_utf8}
use Prim.Native.String.append
use Prim.Native.String.len as Len
use Prim.Native.String.{◌++◌ as text_append, len}
use mxfactorial.AutoConfirm.{Unicode, split_at, next_capital, guess_first_and_last_names}

-- Every character takes one byte and is not below the space, where the control characters are.
abbrev pub IsPrintable : String → Type 0
IsPrintable String.[] = Unit
IsPrintable (String.◌∷◌ c s) = (len_utf8 c ≡ 1) × (32 ≤ code c) × IsPrintable s

if_ok :
    {A : Type 0} (b : Bool) {m : Outcome (Unit {0}) A} {a : A}
    → (if b then m else panic) ≡ ok a
    → m ≡ ok a
if_ok true h = h
if_ok false h = cc

-- The parts of a text are the text.
split_at-append :
    (s : String) (n : ℕ) (a b : String)
    → split_at {E = Unit {0}} s n ≡ ok (a, b)
    → text_append a b ≡ s
unfolding split_at
split_at-append s zero a b h =
    sym (ap (λ p. text_append p.0 p.1) (ok_injective ("", s) (a, b) h)) ∙ append.nil s
split_at-append String.[] (suc n) a b h = cc
split_at-append (String.◌∷◌ c s) (suc n) a b h =
    let put : String × String → Outcome (Unit {0}) (String × String) =
      λ parts. ok (String.◌∷◌ c parts.0, parts.1) in
    let (parts, p, q) =
      >>=-eq-ok (split_at s (suc n - len_utf8 c)) put (if_ok (leb (len_utf8 c) (suc n)) h) in
    sym (ap (λ p. text_append p.0 p.1) (ok_injective (String.◌∷◌ c parts.0, parts.1) (a, b) q))
    ∙ append.cons c parts.0 parts.1
    ∙ ap (λ t. String.◌∷◌ c t) (split_at-append s (suc n - len_utf8 c) parts.0 parts.1 p)

-- Where every character takes one byte, every position up to the end is a place to cut.
split_at-IsPrintable :
    (s : String) (n : ℕ)
    → IsPrintable s
    → n ≤ len s
    → (parts : String × String) × (split_at {E = Unit {0}} s n ≡ ok parts) × (len parts.0 ≡ n)
unfolding split_at
split_at-IsPrintable s zero h k = (("", s), refl, Len.nil)
split_at-IsPrintable String.[] (suc n) h k = absurd (omega arith)
split_at-IsPrintable (String.◌∷◌ c s) (suc n) (one, shown, h) k =
    let (parts, p, q) = split_at-IsPrintable s n h (omega (arith, one, Len.cons c s)) in
    let before : suc n - 1 ≡ n = omega arith in
    let fits : leb 1 (suc n) ≡ true = ground arith in
    (
      (String.◌∷◌ c parts.0, parts.1),
      rw (one, fits, before, p) refl,
      omega (arith, q, Len.cons c parts.0),
    )

-- A text is cut behind its first part.
split_at-prefix :
    (f t : String) → IsPrintable f → split_at {E = Unit {0}} (text_append f t) (len f) ≡ ok (f, t)
unfolding split_at
split_at-prefix String.[] t h = ap (λ s. ok ("", s)) (append.nil t)
split_at-prefix (String.◌∷◌ c f) t (one, shown, h) =
    let before : suc (len f) - 1 ≡ len f = omega arith in
    let fits : leb 1 (suc (len f)) ≡ true = ground arith in
    let size : len (String.◌∷◌ c f) ≡ suc (len f) = omega (arith, Len.cons c f) in
    rw (append.cons c f t, size, one, fits, before, split_at-prefix f t h) refl

prefix-IsPrintable : (f t : String) → IsPrintable (text_append f t) → IsPrintable f
prefix-IsPrintable String.[] t h = tt
prefix-IsPrintable (String.◌∷◌ c f) t h =
    let (one, shown, rest) = subst IsPrintable (append.cons c f t) h in
    (one, shown, prefix-IsPrintable f t rest)

split_at-first :
    (c : Char) (s : String)
    → len_utf8 c ≡ 1
    → split_at {E = Unit {0}} (String.◌∷◌ c s) 1 ≡ ok (String.◌∷◌ c "", s)
unfolding split_at
split_at-first c s one = rw one refl

-- Each character by itself.
abbrev pub singles : String → List String
singles String.[] = []
singles (String.◌∷◌ c s) = String.◌∷◌ c "" ∷ singles s

module _ (unicode : Unicode) where
  -- No character is a capital letter.
  abbrev pub NoCapital : String → Type 0
  NoCapital String.[] = Unit
  NoCapital (String.◌∷◌ c s) = (unicode.is_uppercase c ≡ false) × NoCapital s

  -- A text is cut in front of its first capital letter.
  abbrev pub IsCut : String → String → String → Type 0
  IsCut s f last =
      (text_append f last ≡ s)
      × NoCapital f
      × ((d : Char) × (l : String) × (last ≡ String.◌∷◌ d l) × (unicode.is_uppercase d ≡ true))

  -- The first capital letter is found, or there is none.
  next_capital-singles :
      (s : String) (i : ℕ)
      → IsPrintable s
      → ((f : String) × (last : String) × (index : ℕ) × (next_capital unicode {E = Unit {0}}
              (singles s)
              i
            ≡ ok index)
          × (index ≡ suc (i + len f))
          × IsCut s f last)
        ⊎ ((next_capital unicode {E = Unit {0}} (singles s) i ≡ ok 0) × NoCapital s)
  unfolding next_capital
  next_capital-singles String.[] i h = inr (refl, tt)
  next_capital-singles (String.◌∷◌ c s) i (one, shown, h) =
      elim (Bool-cases (unicode.is_uppercase c)) [
        | inl upper ↦ inl (
          "",
          String.◌∷◌ c s,
          i + 1,
          rw upper refl,
          omega (arith, Len.nil),
          (append.nil _, tt, (c, s, refl, upper)),
        )
        | inr lower ↦ elim (next_capital-singles s (suc i) h) [
          | inl (f, last, index, found, at, (whole, none_before, begins)) ↦ inl (
            String.◌∷◌ c f,
            last,
            index,
            rw lower found,
            omega (arith, at, one, Len.cons c f),
            (append.cons c f last ∙ ap (λ t. String.◌∷◌ c t) whole, (lower, none_before), begins),
          )
          | inr (none_found, no_capital) ↦ inr (rw lower none_found, (lower, no_capital))
        ]
      ]

-- Each character of one byte, other than the control characters, is a grapheme by itself.
pub record GraphemeLaws (unicode : Unicode) : Type 0 where
  pub single : (s : String) → IsPrintable s → unicode.graphemes s ≡ singles s

module _ (unicode : Unicode) (laws : GraphemeLaws unicode) where
  -- The first character is left out of the search.
  guess-cut :
      (c : Char) (rest : String) {index : ℕ}
      → IsPrintable (String.◌∷◌ c rest)
      → next_capital unicode {E = Unit {0}} (singles rest) 0 ≡ ok index
      → guess_first_and_last_names unicode {E = Unit {0}} (String.◌∷◌ c rest)
        ≡ split_at (String.◌∷◌ c rest) (if eqb index 0 then len (String.◌∷◌ c rest) / 2 else index)
  unfolding guess_first_and_last_names
  guess-cut c rest (one, shown, h) found =
      let first : split_at {E = Unit {0}} (String.◌∷◌ c rest) 1 ≡ ok (String.◌∷◌ c "", rest) =
        split_at-first c rest one in
      rw (first, laws.single rest h, found) refl

  cut_here :
      (c : Char) (rest f last : String) (index : ℕ)
      → IsPrintable (String.◌∷◌ c rest)
      → index ≡ suc (0 + len f)
      → text_append (String.◌∷◌ c f) last ≡ String.◌∷◌ c rest
      → split_at {E = Unit {0}}
          (String.◌∷◌ c rest)
          (if eqb index 0 then len (String.◌∷◌ c rest) / 2 else index)
        ≡ ok (String.◌∷◌ c f, last)
  cut_here c rest f last index h at whole =
      let first-IsPrintable =
        prefix-IsPrintable (String.◌∷◌ c f) last (subst IsPrintable (sym whole) h) in
      let found : eqb index 0 ≡ false = ground (arith, at) in
      let size : index ≡ len (String.◌∷◌ c f) = omega (arith, at, h.0, Len.cons c f) in
      rw (found, size, ← whole) (split_at-prefix (String.◌∷◌ c f) last first-IsPrintable)

  -- For a name of printable characters of one byte: if a capital letter stands behind the first
  -- character, the first of them begins the last name, and if none does, the name is cut behind half
  -- of its bytes, rounded down; what stands before the cut is the first name. Nothing panics.
  pub guess_first_and_last_names-capital :
      (c : Char) (rest : String)
      → IsPrintable (String.◌∷◌ c rest)
      → (first : String) × (last : String) × (guess_first_and_last_names unicode {E = Unit {0}}
            (String.◌∷◌ c rest)
          ≡ ok (first, last))
        × (text_append first last ≡ String.◌∷◌ c rest)
        × (((f : String) × (first ≡ String.◌∷◌ c f) × IsCut unicode rest f last)
            ⊎ (NoCapital unicode rest × (len first ≡ len (String.◌∷◌ c rest) / 2)))
  guess_first_and_last_names-capital c rest h = elim (next_capital-singles unicode rest 0 h.2) [
    | inl (f, last, index, found, at, (whole, none_before, begins)) ↦
        let whole_name : text_append (String.◌∷◌ c f) last ≡ String.◌∷◌ c rest =
          append.cons c f last ∙ ap (λ t. String.◌∷◌ c t) whole in
        (
          String.◌∷◌ c f,
          last,
          guess-cut c rest h found ∙ cut_here c rest f last index h at whole_name,
          whole_name,
          inl (f, refl, (whole, none_before, begins)),
        )
    | inr (none_found, no_capital) ↦
        let (names, p, q) =
          split_at-IsPrintable (String.◌∷◌ c rest) (len (String.◌∷◌ c rest) / 2) h (omega arith) in
        (
          names.0,
          names.1,
          guess-cut c rest h none_found ∙ p,
          split_at-append _ _ names.0 names.1 p,
          inr (no_capital, q),
        )
  ]
