-- ===== src/Wit/Values.antt =====
-- What `json.loads` returns, and the `dict` and `list` operations that src/desmata/wit.py uses.
use desmata.Prelude.{ℕ, zero, suc, Bool, false, ◌||◌, Option, none, some, if◌then◌else◌}
use desmata.Prelude.Texts.{Text, eq_text}
use desmata.Wave.Value.{ℤ, pos, negsuc}

-- A `float` is never looked into. The members of an object have distinct names.
mutual
  pub data Json : Type 0 where
    null : Json
    bool : Bool → Json
    int : ℤ → Json
    float : Json
    text : Text → Json
    array : Elements → Json
    object : Members → Json

  pub data Elements : Type 0 where
    nil : Elements
    cons : Json → Elements → Elements

  pub data Members : Type 0 where
    end : Members
    member : Text → Json → Members → Members

-- name in object
unfoldable pub has_member : Text → Members → Bool
unfolding eq_text
has_member k end = false
has_member k (member j v ms) = eq_text j k || has_member k ms

-- object.get(name): `None` where the name is missing.
unfoldable pub get : Text → Members → Json
unfolding eq_text
get k end = null
get k (member j v ms) = if eq_text j k then v else get k ms

-- object.get(name, default)
unfoldable pub get_or : Text → Members → Json → Json
unfolding has_member get
get_or k ms d = if has_member k ms then get k ms else d

-- list[i], `none` out of range
unfoldable pub get_elem? : Elements → ℕ → Option Json
get_elem? nil i = none
get_elem? (cons x xs) zero = some x
get_elem? (cons x xs) (suc i) = get_elem? xs i

-- 0 <= i < len(list), and list[i]
unfoldable pub at : Elements → ℤ → Option Json
unfolding get_elem?
at xs (pos n) = get_elem? xs n
at xs (negsuc n) = none
