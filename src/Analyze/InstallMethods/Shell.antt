-- ===== src/Analyze/InstallMethods/Shell.antt =====
-- What a POSIX shell reads of an install command: the words of a line, by the quoting rules of the
-- shell's grammar. A character that the shell may expand is not read outside quotes.
use keco.Prelude.{
  ℕ, ◌≡◌, refl, Bool, true, ◌&&◌, ◌||◌, Bool-cases, inl, inr, Option, none, some, List, [], ◌∷◌,
  ◌==◌, if◌then◌else◌, ◌++◌, arith, zero, suc, ==_iff, ap, sym, append_assoc,
}
use keco.Prelude.Text.{Text, codes}
use keco.Analyze.InstallMethods.{
  is_slug_char, all_slug_chars, is_safe_slug, quote, backslash, escape, shell_quote, helm_command,
}

pub data Mode : Type 0 where
  plain quoted escaped : Mode

abbrev pub newline : ℕ
newline = 10

abbrev pub is_word_end : ℕ → Bool
is_word_end c = c == b' ' || c == newline

abbrev pub is_literal : ℕ → Bool
is_literal c = is_slug_char c || c == b'/'

abbrev pushed : ℕ → Option (Text × Text) → Option (Text × Text)
pushed c none = none
pushed c (some (w, rest)) = some (c ∷ w, rest)

-- The word that a text begins with, and what follows it.
unfoldable pub word : Mode → Text → Option (Text × Text)
word plain [] = some ([], [])
word quoted [] = none
word escaped [] = none
word plain (c ∷ cs) =
    let more = word plain cs in
    let inside = word quoted cs in
    let literally = word escaped cs in
    if c == quote
    then inside
    else if c == backslash
    then literally
    else if is_word_end c
    then some ([], c ∷ cs)
    else if is_literal c
    then pushed c more
    else none
word quoted (c ∷ cs) =
    let more = word quoted cs in
    let outside = word plain cs in if c == quote then outside else pushed c more
word escaped (c ∷ cs) = let more = word plain cs in pushed c more

abbrev with_word : Text → Option (List Text × Text) → Option (List Text × Text)
with_word w none = none
with_word w (some (ws, rest)) = some (w ∷ ws, rest)

-- The words of the first line, `n` at most, and the lines after it.
unfoldable pub line : ℕ → Text → Option (List Text × Text)
unfolding word
line zero t = none
line (suc n) t = elim (word plain t) [
  | none ↦ none
  | some (w, []) ↦ some (w ∷ [], [])
  | some (w, c ∷ cs) ↦
      let more = line n cs in if c == newline then some (w ∷ [], cs) else with_word w more
]

unfoldable pub all_literal : Text → Bool
all_literal [] = true
all_literal (c ∷ cs) = is_literal c && all_literal cs

word-literal :
    (v : Text) (c : ℕ) (rest : Text)
    → all_literal v ≡ true
    → is_word_end c ≡ true
    → word plain (v ++ (c ∷ rest)) ≡ some (v, c ∷ rest)
unfolding word all_literal
word-literal [] c rest h e = ground arith
word-literal (d ∷ v) c rest h e =
    let more = word-literal v c rest (ground arith) e in rw more (ground arith)

word-escape :
    (v : Text) (c : ℕ) (rest : Text)
    → is_word_end c ≡ true
    → word quoted (escape v ++ (quote ∷ c ∷ rest)) ≡ some (v, c ∷ rest)
unfolding word escape
word-escape [] c rest e = ground arith
word-escape (d ∷ v) c rest e =
    let more = word-escape v c rest e in
    elim (Bool-cases (d == quote)) [
      | inl same ↦
          rw (same, more) (ap (λ (x : ℕ). some (x ∷ v, c ∷ rest)) (sym ((==_iff d quote).0 same)))
      | inr other ↦ rw (other, more, other) refl
    ]

-- A text that is quoted is one word of the shell, that text itself, whatever it holds.
shell_quote-word :
    (v : Text) (c : ℕ) (rest : Text)
    → is_word_end c ≡ true
    → word plain (shell_quote v ++ (c ∷ rest)) ≡ some (v, c ∷ rest)
unfolding shell_quote word
shell_quote-word v c rest e =
    rw (append_assoc (escape v) (quote ∷ []) (c ∷ rest)) (word-escape v c rest e)

slug-literal : (v : Text) → all_slug_chars v ≡ true → all_literal v ≡ true
unfolding all_slug_chars all_literal
slug-literal [] h = refl
slug-literal (c ∷ cs) h = let more = slug-literal cs (ground arith) in ground arith

safe_slug-literal : (v : Text) → is_safe_slug v ≡ true → all_literal v ≡ true
unfolding is_safe_slug all_literal
safe_slug-literal [] h = refl
safe_slug-literal (c ∷ cs) h = let more = slug-literal cs (ground arith) in ground arith

-- A word that ends at a blank is read, and then the words after it.
line-blank :
    (n : ℕ) (t w rest : Text)
    → word plain t ≡ some (w, b' ' ∷ rest)
    → line (suc n) t ≡ with_word w (line n rest)
unfolding line
line-blank n t w rest h = rw (h, line) refl

line-newline :
    (n : ℕ) (t w rest : Text)
    → word plain t ≡ some (w, newline ∷ rest)
    → line (suc n) t ≡ some (w ∷ [], rest)
unfolding line
line-newline n t w rest h = rw (h, line) refl

line-end : (n : ℕ) (t w : Text) → word plain t ≡ some (w, []) → line (suc n) t ≡ some (w ∷ [], [])
unfolding line
line-end n t w h = rw (h, line) refl

-- The first line of the command for a chart, whatever its URL is, where its repository has a safe
-- slug: the shell reads the five words that are meant, and nothing more of the URL.
pub helm_command-line :
    (repository url repo_name chart : Text)
    → is_safe_slug repository ≡ true
    → line 5 (helm_command repository url repo_name chart)
      ≡ some (
        codes "helm" ∷ codes "repo" ∷ codes "add" ∷ repository ∷ url ∷ [],
        codes "helm install " ++ (repo_name ++ (b' ' ∷ (repository ++ (b'/' ∷ chart)))),
      )
unfolding helm_command
helm_command-line repository url repo_name chart safe =
    let after = codes "helm install " ++ (repo_name ++ (b' ' ∷ (repository ++ (b'/' ∷ chart)))) in
    let tail = b' ' ∷ (shell_quote url ++ (newline ∷ after)) in
    let last = line-newline zero _ _ _ (shell_quote-word url newline after refl) in
    let named = line-blank 1 _ _ _ (
      word-literal repository b' ' (shell_quote url ++ (newline ∷ after))
        (safe_slug-literal repository safe) refl) in
    let third =
      line-blank 2 (codes "add " ++ (repository ++ tail)) (codes "add") (repository ++ tail)
        (word-literal (codes "add") b' ' _ (unfold all_literal in refl) refl) in
    let second =
      line-blank 3 (codes "repo add " ++ (repository ++ tail)) (codes "repo")
        (codes "add " ++ (repository ++ tail))
        (word-literal (codes "repo") b' ' _ (unfold all_literal in refl) refl) in
    let first =
      line-blank 4 (codes "helm repo add " ++ (repository ++ tail)) (codes "helm")
        (codes "repo add " ++ (repository ++ tail))
        (word-literal (codes "helm") b' ' _ (unfold all_literal in refl) refl) in
    rw (first, second, third, named, last) refl
