-- ===== src/Web/Spelling/Distance.antt =====
-- editDistance of apps/web/src/lib/spelling.ts: up to its bound it is the Levenshtein distance.
use keco.Prelude.{
  ℕ, suc, ◌+◌, ◌-◌, ◌≤◌, ◌≡◌, refl, sym, ap, ◌∙◌, inl, inr, Bool-cases, List, [], ◌∷◌, arith, min,
  ltb, ltb→lt, if◌then◌else◌, length, All,
}
use mathlib.Core.Path.{subst}
use keco.Prelude.Text.{Text, text_eq, text_eq_iff}
use keco.Web.Spelling.{
  first_row, first_or_zero, after_first, fill, next_row, row_best, entry, rows, edit_distance,
}
use keco.Web.Spelling.Levenshtein.{
  cost, levenshtein, levenshtein-Edits, levenshtein-onto, levenshtein-same, onto, Edits-length,
}

-- The row of the matrix from a column on: the words before it are reversed.
unfoldable distances : Text → Text → Text → List ℕ
distances p q [] = levenshtein p q ∷ []
distances p q (y ∷ ys) = levenshtein p q ∷ distances p (y ∷ q) ys

first_row-distances : (q ys : Text) → first_row (length q) ys ≡ distances [] q ys
unfolding first_row distances levenshtein
first_row-distances q [] = refl
first_row-distances q (y ∷ ys) = ap (λ r. length q ∷ r) (first_row-distances (y ∷ q) ys)

distances-first : (p q ys : Text) → first_or_zero (distances p q ys) ≡ levenshtein p q
unfolding distances
distances-first p q [] = refl
distances-first p q (y ∷ ys) = refl

abbrev rest_of : Text → Text → Text → List ℕ
rest_of p q [] = []
rest_of p q (y ∷ ys) = distances p (y ∷ q) ys

distances-rest : (p q ys : Text) → after_first (distances p q ys) ≡ rest_of p q ys
unfolding distances
distances-rest p q [] = refl
distances-rest p q (y ∷ ys) = refl

fill-distances :
    (x : ℕ) (p q ys : Text)
    → levenshtein (x ∷ p) q ∷ fill x ys (levenshtein p q) (rest_of p q ys) (levenshtein (x ∷ p) q)
      ≡ distances (x ∷ p) q ys
unfolding fill distances levenshtein cost
fill-distances x p q [] = refl
fill-distances x p q (y ∷ ys) =
    rw (distances-first p (y ∷ q) ys, distances-rest p (y ∷ q) ys)
      (ap (λ r. levenshtein (x ∷ p) q ∷ r) (fill-distances x p (y ∷ q) ys))

levenshtein-start : (p : Text) → levenshtein p [] ≡ length p
unfolding levenshtein
levenshtein-start [] = refl
levenshtein-start (x ∷ p) = refl

next_row-distances :
    (x : ℕ) (p b : Text) → next_row x b (length (x ∷ p)) (distances p [] b) ≡ distances (x ∷ p) [] b
unfolding next_row
next_row-distances x p b =
    rw (distances-first p [] b, distances-rest p [] b, ← levenshtein-start (x ∷ p))
      (fill-distances x p [] b)

entry-distances :
    (p q ys : Text) (missing : ℕ) → entry (distances p q ys) ys missing ≡ levenshtein p (onto q ys)
unfolding entry distances onto
entry-distances p q [] missing = refl
entry-distances p q (y ∷ ys) missing = entry-distances p (y ∷ q) ys missing

-- Nothing in the row is below its running minimum.
row_best-le :
    (best : ℕ) (ns : List ℕ) → (row_best best ns ≤ best) × All (λ n. row_best best ns ≤ n) ns
unfolding row_best
row_best-le best [] = (omega arith, tt)
row_best-le best (n ∷ ns) =
    let m = if ltb n best then n else best in
    let ih = row_best-le m ns in
    let low : (m ≤ n) × (m ≤ best) = ground arith in
    (omega (arith, ih.0, low), (omega (arith, ih.0, low), ih.1))

abbrev AreAbove : ℕ → List ℕ → Type 0
AreAbove k = All (λ n. k ≤ n)

AreAbove-le : (k l : ℕ) (ns : List ℕ) → k ≤ l → AreAbove l ns → AreAbove k ns
AreAbove-le k l [] h a = tt
AreAbove-le k l (n ∷ ns) h a = (omega arith, AreAbove-le k l ns h a.1)

AreAbove-first : (k : ℕ) (p q ys : Text) → AreAbove k (distances p q ys) → k ≤ levenshtein p q
unfolding distances
AreAbove-first k p q [] h = h.0
AreAbove-first k p q (y ∷ ys) h = h.0

-- The next row is no lower than the row before it.
AreAbove-next :
    (k x : ℕ) (p q ys : Text)
    → AreAbove k (distances p q ys)
    → k ≤ levenshtein (x ∷ p) q
    → AreAbove k (distances (x ∷ p) q ys)
unfolding distances levenshtein
AreAbove-next k x p q [] h g = (g, tt)
AreAbove-next k x p q (y ∷ ys) h g =
    let up = AreAbove-first k p (y ∷ q) ys h.1 in
    let diagonal : k ≤ levenshtein p q = h.0 in
    (g, AreAbove-next k x p (y ∷ q) ys h.1 (omega arith))

AreAbove-entry :
    (k : ℕ) (p q ys : Text) → AreAbove k (distances p q ys) → k ≤ levenshtein p (onto q ys)
unfolding distances onto
AreAbove-entry k p q [] h = h.0
AreAbove-entry k p q (y ∷ ys) h = AreAbove-entry k p (y ∷ q) ys h.1

-- Nor is any later one, so that the bound may be tested at each row.
AreAbove-end :
    (k : ℕ) (p b xs : Text)
    → AreAbove k (distances p [] b)
    → k ≤ levenshtein (onto p xs) (onto [] b)
unfolding onto
AreAbove-end k p b [] h = AreAbove-entry k p [] b h
AreAbove-end k p b (x ∷ xs) h =
    let start = AreAbove-first k p [] b h in
    AreAbove-end k (x ∷ p) b xs
      (AreAbove-next k x p [] b h (omega (arith, levenshtein-start p, levenshtein-start (x ∷ p))))

row_best-AreAbove :
    (x : ℕ) (p b : Text) (i : ℕ)
    → i ≡ length (x ∷ p)
    → AreAbove (row_best i (after_first (distances (x ∷ p) [] b))) (distances (x ∷ p) [] b)
unfolding distances
row_best-AreAbove x p [] i e = (omega (arith, levenshtein-start (x ∷ p), (row_best-le i []).0), tt)
row_best-AreAbove x p (y ∷ b) i e =
    let row = distances (x ∷ p) (y ∷ []) b in
    (omega (arith, levenshtein-start (x ∷ p), (row_best-le i row).0), (row_best-le i row).1)

rows-levenshtein :
    (bound : ℕ) (p xs b : Text) (i : ℕ)
    → i ≡ suc (length p)
    → min (rows bound xs b i (distances p [] b)) (suc bound)
      ≡ min (levenshtein (onto p xs) (onto [] b)) (suc bound)
unfolding rows onto
rows-levenshtein bound p [] b i e = omega (arith, entry-distances p [] b (bound + 1))
rows-levenshtein bound p (x ∷ xs) b i e =
    let current : next_row x b i (distances p [] b) ≡ distances (x ∷ p) [] b =
      ap (λ (n : ℕ). next_row x b n (distances p [] b)) e ∙ next_row-distances x p b in
    let best = row_best i (after_first (distances (x ∷ p) [] b)) in
    subst
      (λ (row : List ℕ).
        min
          (if ltb bound (row_best i (after_first row))
            then bound + 1
            else rows bound xs b (suc i) row)
          (suc bound)
        ≡ min (levenshtein (onto (x ∷ p) xs) (onto [] b)) (suc bound))
      (sym current)
      (elim (Bool-cases (ltb bound best)) [
        | inl past ↦
            let above =
              AreAbove-le (suc bound) best (distances (x ∷ p) [] b)
                (omega (arith, ltb→lt bound best past)) (row_best-AreAbove x p b i e) in
            rw past (omega (arith, AreAbove-end (suc bound) (x ∷ p) b xs above))
        | inr within ↦ rw within (rows-levenshtein bound (x ∷ p) xs b (suc i) (omega arith))
      ])

-- The distance of two words and their Levenshtein distance are the same up to the bound: both are
-- past it, or they are equal.
pub edit_distance-levenshtein :
    (a b : Text) (bound : ℕ)
    → min (edit_distance a b bound) (suc bound) ≡ min (levenshtein a b) (suc bound)
unfolding edit_distance
edit_distance-levenshtein a b bound =
    let apart = Edits-length (levenshtein-Edits a b) in
    let steps : min (rows bound a b 1 (first_row 0 b)) (suc bound)
        ≡ min (levenshtein a b) (suc bound) =
      rw (first_row-distances [] b) (
        rows-levenshtein bound [] a b 1 refl
        ∙ ap (λ (n : ℕ). min n (suc bound)) (levenshtein-onto a b)) in
    elim (Bool-cases (text_eq a b)) [
      | inl same ↦ rw same (
          subst (λ c. min 0 (suc bound) ≡ min (levenshtein a c) (suc bound))
            ((text_eq_iff a b).0 same) (omega (arith, levenshtein-same a)))
      | inr other ↦
          let gap = (length a - length b) + (length b - length a) in
          rw other (elim (Bool-cases (ltb bound gap)) [
            | inl far ↦ rw far (omega (arith, ltb→lt bound gap far, apart))
            | inr near ↦ rw near steps
          ])
    ]
