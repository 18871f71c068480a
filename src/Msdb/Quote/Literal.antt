-- ===== src/Msdb/Quote/Literal.antt =====
-- Quoting against an independent reading of SQL string literals.
use build_project.Prelude.{
  zero, suc, ◌<◌, take, ℕ, ◌+◌, ◌*◌, ◌≤◌, ◌≡◌, refl, false, Option, none, some, [], ◌∷◌, ◌++◌,
  Bytes, length, arith, ◌==◌, if◌then◌else◌, All,
}
use build_project.Msdb.Quote.{quote, double_quotes, translate_loop, translate_pwd}

abbrev put : ℕ → Option (Bytes × Bytes) → Option (Bytes × Bytes)
put c none = none
put c (some (s, rest)) = some (c ∷ s, rest)

-- How SQL reads a literal behind its opening quote: two quotes stand for one, and one ends the
-- literal. The value and what follows, or `none` if the literal does not end.
unfoldable mutual
  pub read_literal : Bytes → Option (Bytes × Bytes)
  read_literal [] = none
  read_literal (c ∷ s) =
      let ended = read_quote s in
      let more = put c (read_literal s) in if c == quote then ended else more

  -- Behind a quote inside the literal.
  pub read_quote : Bytes → Option (Bytes × Bytes)
  read_quote [] = some ([], [])
  read_quote (c ∷ s) =
      let doubled = put quote (read_literal s) in if c == quote then doubled else some ([], c ∷ s)

-- A text that does not go on with a quote.
abbrev pub NoQuote : Bytes → Type 0
NoQuote [] = Unit
NoQuote (c ∷ s) = (c == quote) ≡ false

read_quote_end : (rest : Bytes) → NoQuote rest → read_quote rest ≡ some ([], rest)
unfolding read_quote read_literal
read_quote_end [] h = refl
read_quote_end (c ∷ s) h = rw h

-- SQL reads a text with doubled quotes back as the text, and goes on right behind the literal.
pub read_literal-double_quotes :
    (s rest : Bytes)
    → NoQuote rest
    → read_literal (double_quotes s ++ (quote ∷ rest)) ≡ some (s, rest)
unfolding read_literal read_quote double_quotes
read_literal-double_quotes [] rest h = read_quote_end rest h
read_literal-double_quotes (c ∷ s) rest h = ground (arith, read_literal-double_quotes s rest h)

-- Doubling quotes at most doubles the length.
pub length-double_quotes : (s : Bytes) → length (double_quotes s) ≤ 2 * length s
unfolding double_quotes
length-double_quotes [] = omega arith
length-double_quotes (c ∷ s) = ground (arith, length-double_quotes s)

-- How many bytes of a text are quotes.
abbrev pub quotes : Bytes → ℕ
quotes [] = 0
quotes (c ∷ s) = if c == quote then quotes s + 1 else quotes s

translate_loop-double_quotes :
    (len : ℕ) (s : Bytes)
    → len ≤ length s
    → translate_loop len s ≡ some (double_quotes (take len s), len + quotes (take len s))
unfolding translate_loop double_quotes
translate_loop-double_quotes zero s le = refl
translate_loop-double_quotes (suc len) [] le = absurd (omega arith)
translate_loop-double_quotes (suc len) (c ∷ s) le =
    rw (translate_loop-double_quotes len s (omega arith)) (ground arith)

translate_loop_behind : (len : ℕ) (s : Bytes) → length s < len → translate_loop len s ≡ none
unfolding translate_loop
translate_loop_behind zero s lt = absurd (omega arith)
translate_loop_behind (suc len) [] lt = refl
translate_loop_behind (suc len) (c ∷ s) lt = rw (translate_loop_behind len s (omega arith)) refl

-- translate_pwd of the first `len` bytes of an array writes a text that SQL reads back, between quotes,
-- as those bytes, and goes on right behind. It returns the `len` bytes and one for each quote and the
-- NUL. With any more bytes than the array has it reads behind it.
pub translate_pwd_lem :
    (s rest : Bytes) (len : ℕ)
    → NoQuote rest
    → len ≤ length s
    → ((dst : Bytes) × (translate_pwd s len ≡ some (dst, len + quotes (take len s) + 1))
        × (read_literal (dst ++ (quote ∷ rest)) ≡ some (take len s, rest)))
      × ((k : ℕ) → translate_pwd s (length s + suc k) ≡ none)
unfolding translate_pwd
translate_pwd_lem s rest len h le = (
  (
    double_quotes (take len s),
    rw (translate_loop-double_quotes len s le) refl,
    read_literal-double_quotes (take len s) rest h,
  ),
  λ k. rw (translate_loop_behind (length s + suc k) s (omega arith)) refl,
)

-- A text that goes in as it is: its first quote, if none follows, ends the literal, and the rest of
-- the text is read as SQL.
pub read_literal-raw :
    (a b : Bytes)
    → All (λ c. (c == quote) ≡ false) a
    → NoQuote b
    → read_literal (a ++ (quote ∷ b)) ≡ some (a, b)
unfolding read_literal read_quote
read_literal-raw [] b h n = read_quote_end b n
read_literal-raw (c ∷ a) b h n = rw (h.0, read_literal-raw a b h.1 n)
