-- ===== src/Web/Spelling/Levenshtein.antt =====
-- The reference of editDistance: the Levenshtein distance, by the first characters of the words, and
-- the edits that it counts.
use keco.Prelude.{
  ℕ, suc, ◌+◌, ◌≤◌, ◌≡◌, refl, ◌∙◌, inl, inr, ◌⊎◌, Bool-cases, [], ◌∷◌, ◌++◌, append-nil, arith,
  min, if◌then◌else◌, ◌==◌, ==_iff, length,
}
use mathlib.Core.Path.{subst}
use keco.Prelude.Text.{Text}

unfoldable pub cost : ℕ → ℕ → ℕ
cost x y = if x == y then 0 else 1

unfoldable pub levenshtein : Text → Text → ℕ
unfolding cost
levenshtein [] b = length b
levenshtein (x ∷ a) [] = suc (length a)
levenshtein (x ∷ a) (y ∷ b) =
    min (min (levenshtein a b + cost x y) (levenshtein a (y ∷ b) + 1)) (levenshtein (x ∷ a) b + 1)

-- `n` edits turn the first text into the second.
pub data Edits : Text → Text → ℕ → Type 0 where
  done : Edits [] [] 0
  keep : {a b : Text} {n : ℕ} (x : ℕ) → Edits a b n → Edits (x ∷ a) (x ∷ b) n
  replace : {a b : Text} {n : ℕ} (x y : ℕ) → Edits a b n → Edits (x ∷ a) (y ∷ b) (suc n)
  remove : {a b : Text} {n : ℕ} (x : ℕ) → Edits a b n → Edits (x ∷ a) b (suc n)
  insert : {a b : Text} {n : ℕ} (y : ℕ) → Edits a b n → Edits a (y ∷ b) (suc n)

insert_all : (b : Text) → Edits [] b (length b)
insert_all [] = done
insert_all (y ∷ b) = insert y (insert_all b)

remove_all : (a : Text) → Edits a [] (length a)
remove_all [] = done
remove_all (x ∷ a) = remove x (remove_all a)

min_of_three : (P : ℕ → Type 0) (l m n : ℕ) → P l → P m → P n → P (min (min l m) n)
min_of_three P l m n p q r =
    let two : (min l m ≡ l) ⊎ (min l m ≡ m) = ground arith in
    let three : (min (min l m) n ≡ min l m) ⊎ (min (min l m) n ≡ n) = ground arith in
    elim three [ inl e ↦ rw e (elim two [ inl f ↦ rw f p | inr f ↦ rw f q ]) | inr e ↦ rw e r ]

change : {a b : Text} {n : ℕ} (x y : ℕ) → Edits a b n → Edits (x ∷ a) (y ∷ b) (n + cost x y)
unfolding cost
change {a} {b} {n} x y e = elim (Bool-cases (x == y)) [
  | inl same ↦ rw same (
      subst (λ z. Edits (x ∷ a) (z ∷ b) (n + 0)) ((==_iff x y).0 same)
        (subst (Edits (x ∷ a) (x ∷ b)) (omega arith) (keep x e)))
  | inr other ↦ rw other (subst (Edits (x ∷ a) (y ∷ b)) (omega arith) (replace x y e))
]

pub levenshtein-Edits : (a b : Text) → Edits a b (levenshtein a b)
unfolding levenshtein
levenshtein-Edits [] b = insert_all b
levenshtein-Edits (x ∷ a) [] = remove_all (x ∷ a)
levenshtein-Edits (x ∷ a) (y ∷ b) =
    min_of_three (Edits (x ∷ a) (y ∷ b)) _ _ _ (change x y (levenshtein-Edits a b))
      (subst (Edits (x ∷ a) (y ∷ b)) (omega arith) (remove x (levenshtein-Edits a (y ∷ b))))
      (subst (Edits (x ∷ a) (y ∷ b)) (omega arith) (insert y (levenshtein-Edits (x ∷ a) b)))

levenshtein-insert_le : (a b : Text) (y : ℕ) → levenshtein a (y ∷ b) ≤ suc (levenshtein a b)
unfolding levenshtein
levenshtein-insert_le [] b y = omega arith
levenshtein-insert_le (x ∷ a) b y = omega arith

levenshtein-remove_le : (a b : Text) (x : ℕ) → levenshtein (x ∷ a) b ≤ suc (levenshtein a b)
unfolding levenshtein
levenshtein-remove_le [] [] x = omega arith
levenshtein-remove_le (w ∷ a) [] x = omega arith
levenshtein-remove_le a (y ∷ b) x = omega arith

levenshtein-keep_le : (a b : Text) (x : ℕ) → levenshtein (x ∷ a) (x ∷ b) ≤ levenshtein a b
unfolding levenshtein cost
levenshtein-keep_le a b x = ground arith

levenshtein-replace_le :
    (a b : Text) (x y : ℕ) → levenshtein (x ∷ a) (y ∷ b) ≤ suc (levenshtein a b)
unfolding levenshtein cost
levenshtein-replace_le a b x y = ground arith

-- No fewer edits do.
pub levenshtein-le : {a b : Text} {n : ℕ} → Edits a b n → levenshtein a b ≤ n
unfolding levenshtein
levenshtein-le done = omega arith
levenshtein-le (keep {a} {b} x e) = omega (arith, levenshtein-le e, levenshtein-keep_le a b x)
levenshtein-le (replace {a} {b} x y e) =
    omega (arith, levenshtein-le e, levenshtein-replace_le a b x y)
levenshtein-le (remove {a} {b} x e) = omega (arith, levenshtein-le e, levenshtein-remove_le a b x)
levenshtein-le (insert {a} {b} y e) = omega (arith, levenshtein-le e, levenshtein-insert_le a b y)

-- The first text, reversed, before the second.
unfoldable pub onto : Text → Text → Text
onto p [] = p
onto p (x ∷ a) = onto (x ∷ p) a

Edits-onto :
    {a b : Text} {n : ℕ}
    → Edits a b n
    → {p q : Text} {m : ℕ} → Edits p q m
    → Edits (onto p a) (onto q b) (m + n)
unfolding onto
Edits-onto done {p} {q} e = subst (Edits p q) (omega arith) e
Edits-onto (keep x d) e = Edits-onto d (keep x e)
Edits-onto (replace x y d) e = subst (Edits _ _) (omega arith) (Edits-onto d (replace x y e))
Edits-onto (remove x d) e = subst (Edits _ _) (omega arith) (Edits-onto d (remove x e))
Edits-onto (insert y d) e = subst (Edits _ _) (omega arith) (Edits-onto d (insert y e))

onto-onto : (q p a : Text) → onto q (onto p a) ≡ onto (a ++ q) p
unfolding onto
onto-onto q p [] = refl
onto-onto q p (x ∷ a) = onto-onto q (x ∷ p) a

onto_twice : (a : Text) → onto [] (onto [] a) ≡ a
unfolding onto
onto_twice a = onto-onto [] [] a ∙ append-nil a

onto-levenshtein_le : (a b : Text) → levenshtein (onto [] a) (onto [] b) ≤ levenshtein a b
onto-levenshtein_le a b = omega (arith, levenshtein-le (Edits-onto (levenshtein-Edits a b) done))

-- Reversed words are as far from each other.
pub levenshtein-onto : (a b : Text) → levenshtein (onto [] a) (onto [] b) ≡ levenshtein a b
levenshtein-onto a b =
    let back : levenshtein a b ≤ levenshtein (onto [] a) (onto [] b) =
      subst (λ c. levenshtein c b ≤ levenshtein (onto [] a) (onto [] b)) (onto_twice a)
        (subst (λ c. levenshtein (onto [] (onto [] a)) c ≤ levenshtein (onto [] a) (onto [] b))
          (onto_twice b) (onto-levenshtein_le (onto [] a) (onto [] b))) in
    omega (arith, onto-levenshtein_le a b)

pub levenshtein-same : (a : Text) → levenshtein a a ≡ 0
levenshtein-same a = omega (arith, levenshtein-le (keep_all a))
  where
    keep_all : (c : Text) → Edits c c 0
    keep_all [] = done
    keep_all (x ∷ c) = keep x (keep_all c)

-- A word is no nearer than the difference of the lengths.
pub Edits-length :
    {a b : Text} {n : ℕ} → Edits a b n → (length a ≤ length b + n) × (length b ≤ length a + n)
Edits-length done = omega arith
Edits-length (keep x e) = omega (arith, (Edits-length e).0, (Edits-length e).1)
Edits-length (replace x y e) = omega (arith, (Edits-length e).0, (Edits-length e).1)
Edits-length (remove x e) = omega (arith, (Edits-length e).0, (Edits-length e).1)
Edits-length (insert y e) = omega (arith, (Edits-length e).0, (Edits-length e).1)
