-- ===== src/Archive/Lines.antt =====
-- `str.splitlines`, `str.strip` and `str.split`, as src/desmata/cell_archive.py reads its declaration
-- files with them.
use desmata.Prelude.{
  ℕ, Bool, true, false, ◌&&◌, ◌||◌, List, [], ◌∷◌, ◌==◌, leb, if◌then◌else◌, ◌≡◌, refl,
}
use desmata.Prelude.Texts.{Text, codes}

-- str.isspace of one character
unfoldable pub is_blank : ℕ → Bool
is_blank c =
    (leb 9 c && leb c 13)
    || ((leb 28 c && leb c 32)
        || (c == 0x85
            || (c == 0xA0
                || (c == 0x1680
                    || ((leb 0x2000 c && leb c 0x200A)
                        || (c == 0x2028
                            || (c == 0x2029 || (c == 0x202F || (c == 0x205F || c == 0x3000)))))))))

-- The characters that end a line.
unfoldable pub ends_line : ℕ → Bool
ends_line c =
    (leb 10 c && leb c 13)
    || ((leb 28 c && leb c 30) || (c == 0x85 || (c == 0x2028 || c == 0x2029)))

abbrev pub add_to : ℕ → List Text → List Text
add_to c [] = (c ∷ []) ∷ []
add_to c (l ∷ ls) = (c ∷ l) ∷ ls

-- s.splitlines(): the lines with no end of a line; behind the last end there is no line.
unfoldable pub splitlines : Text → List Text
unfolding ends_line
splitlines [] = []
splitlines (c ∷ []) = if ends_line c then [] ∷ [] else (c ∷ []) ∷ []
splitlines (c ∷ d ∷ s) =
    let after = splitlines s in
    let rest = splitlines (d ∷ s) in
    if c == b'\r' && d == b'\n'
    then [] ∷ after
    else if ends_line c
    then [] ∷ rest
    else add_to c rest

unfoldable pub lstrip : Text → Text
unfolding is_blank
lstrip [] = []
lstrip (c ∷ s) = let rest = lstrip s in if is_blank c then rest else c ∷ s

abbrev pub unless_blank : ℕ → Text → Text
unless_blank c (d ∷ s) = c ∷ d ∷ s
unless_blank c [] = if is_blank c then [] else c ∷ []

unfoldable pub rstrip : Text → Text
unfolding is_blank
rstrip [] = []
rstrip (c ∷ s) = unless_blank c (rstrip s)

-- s.strip()
unfoldable pub strip : Text → Text
unfolding lstrip rstrip
strip s = rstrip (lstrip s)

abbrev pub new_word : Bool → ℕ → List Text → List Text
new_word true c ws = (c ∷ []) ∷ ws
new_word false c ws = add_to c ws

abbrev pub starts_blank : Text → Bool
starts_blank [] = true
starts_blank (c ∷ s) = is_blank c

-- s.split(): the runs of characters that are not white space.
unfoldable pub split : Text → List Text
unfolding is_blank
split [] = []
split (c ∷ s) = let ws = split s in if is_blank c then ws else new_word (starts_blank s) c ws

lines_of : splitlines (codes "a\r\nb\n\nc") ≡ codes "a" ∷ codes "b" ∷ [] ∷ codes "c" ∷ []
unfolding splitlines
lines_of = refl

words_of : split (codes "  x/y.wasm\t dsm:ipfs:Q ") ≡ codes "x/y.wasm" ∷ codes "dsm:ipfs:Q" ∷ []
unfolding split
words_of = refl

strip_of : strip (codes " \t a b \n") ≡ codes "a b"
unfolding strip
strip_of = refl
