-- ===== src/Wave/Value.antt =====
-- The Python values that src/desmata/wave.py reads and writes.
use desmata.Prelude.{ℕ, Bool, Option, List}
use desmata.Prelude.Texts.{Text}

-- `negsuc n` is -(n + 1).
pub data ℤ : Type 0 where
  pos : ℕ → ℤ
  negsuc : ℕ → ℤ

-- A dictionary key: a `str`, or an object of another type.
pub data Key : Type 0 where
  name : Text → Key
  foreign : Key

-- `F` is the type of floats. `bytes` stands for `bytes` and `bytearray`, `object` for a value of a
-- type that none of the tests of `encode` accepts.
mutual
  pub data Value (F : Type 0) : Type 0 where
    null : Value F
    bool : Bool → Value F
    int : ℤ → Value F
    float : F → Value F
    str : Text → Value F
    bytes : List ℕ → Value F
    list : Items F → Value F
    tuple : Items F → Value F
    dict : Fields F → Value F
    object : Value F

  pub data Items (F : Type 0) : Type 0 where
    nil : Items F
    cons : Value F → Items F → Items F

  pub data Fields (F : Type 0) : Type 0 where
    end : Fields F
    field : Key → Value F → Fields F → Fields F

-- What the interpreter supplies: its floats with `repr` and `float(text)` (`none` is a ValueError),
-- and its Unicode tables for the code points from 128: `str.isdigit`, the decimal value that `int`
-- reads, and white space.
pub record Runtime : Type 1 where
  pub Float : Type 0
  pub repr_float : Float → Text
  pub float_of : Text → Option Float
  pub is_digit_beyond : ℕ → Bool
  pub decimal_beyond : ℕ → Option ℕ
  pub is_space_beyond : ℕ → Bool
