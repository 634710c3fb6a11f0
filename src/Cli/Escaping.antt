-- ===== src/Cli/Escaping.antt =====
-- The patterns that cmd/logsieve/main.go writes for texts.
use logsieve.Prelude.{
  ℕ, String, Bool, true, false, ◌||◌, List, [], ◌∷◌, ◌++◌, append_assoc, append-nil, Option, none,
  some, ◌==◌, ==_iff, if◌then◌else◌, has_number, ◌≡◌, refl, sym, ap, ◌∙◌, arith,
}
use Prim.Native.Char.{Char, code}
use logsieve.Cli.{special, escape_char, escape_chars, escape_regex}

abbrev consed : Char → Option String → Option String
consed c none = none
consed c (some s) = some (String.◌∷◌ c s)

-- The characters that package regexp reads as operators, those of QuoteMeta.
abbrev operators : List ℕ
operators =
    b'\\' ∷ b'.' ∷ b'+' ∷ b'*' ∷ b'?' ∷ b'(' ∷ b')' ∷ b'[' ∷ b']' ∷ b'{' ∷ b'}' ∷ b'^' ∷ b'$' ∷ b'|'
    ∷ []

-- The text that a pattern without operators stands for: a backslash before an operator stands for
-- that character, and an operator by itself is none.
abbrev pub literal_from : Bool → String → Option String
literal_from true String.[] = none
literal_from false String.[] = some ""
literal_from true (String.◌∷◌ c s) =
    let rest = literal_from false s in if has_number (code c) operators then consed c rest else none
literal_from false (String.◌∷◌ c s) =
    let rest = literal_from false s in
    let escaped = literal_from true s in
    if code c == 92 then escaped else if has_number (code c) operators then none else consed c rest

-- Every character of a list escaped, in one pass.
abbrev escape_each : List ℕ → String → String
escape_each done String.[] = ""
escape_each done (String.◌∷◌ c s) =
    let rest = escape_each done s in
    if has_number (code c) done then String.◌∷◌ "\\" (String.◌∷◌ c rest) else String.◌∷◌ c rest

has_number-append :
    (n d : ℕ) (done : List ℕ) → has_number n (done ++ d ∷ []) ≡ has_number n done || d == n
has_number-append n d [] = ground arith
has_number-append n d (x ∷ xs) = ground (arith, has_number-append n d xs)

escape_char-escape_each :
    (d : ℕ) (done : List ℕ) (s : String)
    → has_number d done ≡ false
    → (92 == d) ≡ false
    → escape_char d (escape_each done s) ≡ escape_each (done ++ d ∷ []) s
unfolding escape_char
escape_char-escape_each d done String.[] n b = refl
escape_char-escape_each d done (String.◌∷◌ c s) n b = ground (
  arith,
  n,
  b,
  escape_char-escape_each d done s n b,
  has_number-append (code c) d done,
  ==_iff (code c) d,
  ==_iff d (code c),
)

escape_char-backslash : (s : String) → escape_char 92 s ≡ escape_each (92 ∷ []) s
unfolding escape_char
escape_char-backslash String.[] = refl
escape_char-backslash (String.◌∷◌ c s) =
    ground (arith, escape_char-backslash s, ==_iff (code c) 92, ==_iff 92 (code c))

-- Each number is new when its turn comes, and is no backslash.
abbrev AreNew : List ℕ → List ℕ → Type 0
AreNew [] done = Unit {0}
AreNew (d ∷ ds) done =
    (has_number d done ≡ false) × ((92 == d) ≡ false) × AreNew ds (done ++ d ∷ [])

escape_chars-escape_each :
    (ds done : List ℕ) (s : String)
    → AreNew ds done
    → escape_chars ds (escape_each done s) ≡ escape_each (done ++ ds) s
escape_chars-escape_each [] done s n = ap (λ xs. escape_each xs s) (sym (append-nil done))
escape_chars-escape_each (d ∷ ds) done s n =
    ap (escape_chars ds) (escape_char-escape_each d done s n.0 n.1)
    ∙ (escape_chars-escape_each ds (done ++ d ∷ []) s n.2
        ∙ ap (λ xs. escape_each xs s) (append_assoc done (d ∷ []) ds))

-- The passes of escapeRegex, one for each special character, are a single pass: what a pass writes is
-- not escaped again by a later one.
escape_regex-escape_each : (s : String) → escape_regex s ≡ escape_each special s
unfolding escape_regex
escape_regex-escape_each s =
    ap (escape_chars (46 ∷ 43 ∷ 42 ∷ 63 ∷ 40 ∷ 41 ∷ 91 ∷ 93 ∷ 123 ∷ 125 ∷ 94 ∷ 36 ∷ 124 ∷ []))
      (escape_char-backslash s)
    ∙ escape_chars-escape_each
        (46 ∷ 43 ∷ 42 ∷ 63 ∷ 40 ∷ 41 ∷ 91 ∷ 93 ∷ 123 ∷ 125 ∷ 94 ∷ 36 ∷ 124 ∷ []) (92 ∷ []) s new
  where
    new : AreNew (46 ∷ 43 ∷ 42 ∷ 63 ∷ 40 ∷ 41 ∷ 91 ∷ 93 ∷ 123 ∷ 125 ∷ 94 ∷ 36 ∷ 124 ∷ []) (92 ∷ [])
    new = ground arith

literal_from-escape_each : (s : String) → literal_from false (escape_each special s) ≡ some s
literal_from-escape_each String.[] = refl
literal_from-escape_each (String.◌∷◌ c s) = ground (arith, literal_from-escape_each s)

-- The pattern that escapeRegex writes for a text is a literal of it: each operator of package regexp
-- stands behind a backslash in it, and without these backslashes it is the text.
pub literal_from-escape_regex : (s : String) → literal_from false (escape_regex s) ≡ some s
literal_from-escape_regex s =
    ap (literal_from false) (escape_regex-escape_each s) ∙ literal_from-escape_each s
