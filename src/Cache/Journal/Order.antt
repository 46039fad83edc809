-- ===== src/Cache/Journal/Order.antt =====
-- `<` on ids, as packages/cache/src/journal.ts compares them.
use keco.Prelude.{◌≡◌, refl, true, false, [], ◌∷◌, arith}
use keco.Prelude.Text.{Text, text_eq}
use keco.DataStore.Values.{text_lt}

pub text_lt-irreflexive : (a : Text) → text_lt a a ≡ false
unfolding text_lt
text_lt-irreflexive [] = refl
text_lt-irreflexive (x ∷ xs) = ground (arith, text_lt-irreflexive xs)

pub text_lt_trans : (a b c : Text) → text_lt a b ≡ true → text_lt b c ≡ true → text_lt a c ≡ true
unfolding text_lt
text_lt_trans a [] [] h k = cc
text_lt_trans a (y ∷ ys) [] h k = cc
text_lt_trans [] b (z ∷ zs) h k = refl
text_lt_trans (x ∷ xs) [] (z ∷ zs) h k = cc
text_lt_trans (x ∷ xs) (y ∷ ys) (z ∷ zs) h k = ground (arith, text_lt_trans xs ys zs)

pub text_lt_asym : (a b : Text) → text_lt a b ≡ true → text_lt b a ≡ false
unfolding text_lt
text_lt_asym [] [] h = refl
text_lt_asym [] (y ∷ ys) h = refl
text_lt_asym (x ∷ xs) [] h = cc
text_lt_asym (x ∷ xs) (y ∷ ys) h = ground (arith, text_lt_asym xs ys)

-- An id is not another that it comes before.
pub text_lt-text_eq : (a b : Text) → text_lt a b ≡ true → text_eq a b ≡ false
unfolding text_lt text_eq
text_lt-text_eq [] [] h = cc
text_lt-text_eq [] (y ∷ ys) h = refl
text_lt-text_eq (x ∷ xs) [] h = refl
text_lt-text_eq (x ∷ xs) (y ∷ ys) h = ground (arith, text_lt-text_eq xs ys)
