-- ===== src/DataStore/Values.antt =====
-- JSON values and documents, as apps/workers/src/lib/data-store.ts stores them. Every store passes
-- a document through JSON, so a value is one that JSON can hold.
use keco.Prelude.{ℕ, String, Bool, true, false, ◌&&◌, ◌||◌, Option, [], ◌∷◌, ltb, ◌==◌}
use keco.Prelude.Text.{Text, text_eq}
use keco.Prelude.Maps.{Map, get, string_key, text_key}

-- `neg n` is the number -(n + 1).
mutual
  pub data Value : Type 0 where
    null : Value
    bool : Bool → Value
    num : ℕ → Value
    neg : ℕ → Value
    text : Text → Value
    arr : Items → Value
    obj : Fields → Value

  pub data Items : Type 0 where
    nil : Items
    cons : Value → Items → Items

  pub data Fields : Type 0 where
    end : Fields
    entry : String → Value → Fields → Fields

abbrev pub Document : Type 0
Document = Map String Value

-- `document[field]`, with `undefined` as `none`.
abbrev pub field : Document → String → Option Value
field d name = get d name

bool_eq : Bool → Bool → Bool
bool_eq true b = b
bool_eq false true = false
bool_eq false false = true

-- `===`, where the right side is a string, a number or a boolean.
unfoldable pub strict_eq : Value → Value → Bool
unfolding bool_eq
strict_eq null null = true
strict_eq (bool a) (bool b) = bool_eq a b
strict_eq (num a) (num b) = a == b
strict_eq (neg a) (neg b) = a == b
strict_eq (text a) (text b) = text_eq a b
strict_eq _ _ = false

-- `<` on texts compares code units.
unfoldable pub text_lt : Text → Text → Bool
text_lt [] [] = false
text_lt [] (y ∷ ys) = true
text_lt (x ∷ xs) [] = false
text_lt (x ∷ xs) (y ∷ ys) = ltb x y || (x == y && text_lt xs ys)

-- `<` on two values of one type. A column that mixes types is a fault of the caller, as the port
-- says; it compares as false here.
unfoldable pub value_lt : Value → Value → Bool
value_lt (num a) (num b) = ltb a b
value_lt (neg a) (num b) = true
value_lt (neg a) (neg b) = ltb b a
value_lt (text a) (text b) = text_lt a b
value_lt (bool false) (bool true) = true
value_lt _ _ = false
