-- ===== src/Dumps/Injective.antt =====
-- What printed JSON determines.
use desmata.Prelude.{Bool, true, false, [], ◌∷◌, ◌++◌, ◌≡◌, refl, ap, sym, ◌∙◌, arith}
use desmata.Prelude.Texts.{Text}
use desmata.Wave.Value.{ℤ}
use desmata.Wave.Decimal.{stops}
use desmata.Wit.Values.{
  Json, Elements, Members, null, bool, int, float, text, array, object, nil, cons, end, member,
}
use desmata.Dumps.{quote, dumps, dumps_elements, dumps_more, dumps_members, dumps_later}
use desmata.Dumps.Cancel.{
  IsExact, AreExact, HasExact, kind, same_kind, show_int-cancel, quote-cancel, stops-more,
  stops-later, more-cons, member-cons, behind, not_closed,
}

-- The texts, opened one step, in front of what follows them.
elements_end : (r : Text) → dumps_elements nil ++ r ≡ b']' ∷ r
unfolding dumps
elements_end r = refl

more_end : (r : Text) → dumps_more nil ++ r ≡ b']' ∷ r
unfolding dumps
more_end r = refl

members_end : (r : Text) → dumps_members end ++ r ≡ b'}' ∷ r
unfolding dumps
members_end r = refl

later_end : (r : Text) → dumps_later end ++ r ≡ b'}' ∷ r
unfolding dumps
later_end r = refl

elements_open :
    (j : Json) (es : Elements) (r : Text)
    → dumps_elements (cons j es) ++ r ≡ dumps j ++ (dumps_more es ++ r)
unfolding dumps
elements_open j es r = more-cons j es r

more_open :
    (j : Json) (es : Elements) (r : Text)
    → dumps_more (cons j es) ++ r ≡ b',' ∷ (dumps j ++ (dumps_more es ++ r))
unfolding dumps
more_open j es r = ap (λ t. b',' ∷ t) (more-cons j es r)

-- A member in front of what follows it.
abbrev member_text : Text → Json → Text → Text
member_text n j r = quote n ++ b':' ∷ (dumps j ++ r)

members_open :
    (n : Text) (j : Json) (ms : Members) (r : Text)
    → dumps_members (member n j ms) ++ r ≡ member_text n j (dumps_later ms ++ r)
unfolding dumps
members_open n j ms r = member-cons n j ms r

later_open :
    (n : Text) (j : Json) (ms : Members) (r : Text)
    → dumps_later (member n j ms) ++ r ≡ b',' ∷ member_text n j (dumps_later ms ++ r)
unfolding dumps
later_open n j ms r = ap (λ t. b',' ∷ t) (member-cons n j ms r)

array_open : (es : Elements) (r : Text) → dumps (array es) ++ r ≡ b'[' ∷ (dumps_elements es ++ r)
unfolding dumps
array_open es r = refl

object_open : (ms : Members) (r : Text) → dumps (object ms) ++ r ≡ b'{' ∷ (dumps_members ms ++ r)
unfolding dumps
object_open ms r = refl

comma_closing : {s r : Text} → ◌≡◌ {A = Text} (b',' ∷ s) (b']' ∷ r) → ⊥
comma_closing h = cc

comma_end : {s r : Text} → ◌≡◌ {A = Text} (b',' ∷ s) (b'}' ∷ r) → ⊥
comma_end h = cc

member_end : (n : Text) (j : Json) (s r : Text) → member_text n j s ≡ b'}' ∷ r → ⊥
unfolding quote
member_end n j s r h = cc

cons_both : {j k : Json} {es fs : Elements} → j ≡ k → es ≡ fs → cons j es ≡ cons k fs
cons_both p q = cc

member_both :
    {n m : Text} {j k : Json} {ms ns : Members}
    → n ≡ m
    → j ≡ k
    → ms ≡ ns
    → member n j ms ≡ member m k ns
member_both e p q = cc

-- A value with no parts, against a value of the same kind.
cancel_null : (r s : Text) → dumps null ++ r ≡ dumps null ++ s → r ≡ s
unfolding dumps
cancel_null r s h = cc

cancel_bool : (b : Bool) (r s : Text) → dumps (bool b) ++ r ≡ dumps (bool b) ++ s → r ≡ s
unfolding dumps
cancel_bool true r s h = cc
cancel_bool false r s h = cc

cancel_int :
    (z w : ℤ) (r s : Text)
    → stops r ≡ true
    → stops s ≡ true
    → dumps (int z) ++ r ≡ dumps (int w) ++ s
    → (int z ≡ int w) × (r ≡ s)
unfolding dumps
cancel_int z w r s hr hs h = let (p, q) = show_int-cancel z w r s hr hs h in (ap int p, q)

cancel_text :
    (t u r s : Text) → dumps (text t) ++ r ≡ dumps (text u) ++ s → (text t ≡ text u) × (r ≡ s)
unfolding dumps
cancel_text t u r s h = let (p, q) = quote-cancel t u r s h in (ap text p, q)

mutual
  cancel :
      (j k : Json) (r s : Text)
      → IsExact j
      → IsExact k
      → stops r ≡ true
      → stops s ≡ true
      → kind j ≡ kind k
      → dumps j ++ r ≡ dumps k ++ s
      → (j ≡ k) × (r ≡ s)
  cancel float k r s x y hr hs e h = absurd x
  cancel null null r s x y hr hs e h = (refl, cancel_null r s h)
  cancel (bool true) (bool true) r s x y hr hs e h = (refl, cancel_bool true r s h)
  cancel (bool false) (bool false) r s x y hr hs e h = (refl, cancel_bool false r s h)
  cancel (int z) (int w) r s x y hr hs e h = cancel_int z w r s hr hs h
  cancel (text t) (text u) r s x y hr hs e h = cancel_text t u r s h
  cancel (array es) (array fs) r s x y hr hs e h =
      let (p, q) =
        cancel_elements es fs r s x y (behind (sym (array_open es r) ∙ h ∙ array_open fs s)) in
      (ap array p, q)
  cancel (object ms) (object ns) r s x y hr hs e h =
      let (p, q) =
        cancel_members ms ns r s x y (behind (sym (object_open ms r) ∙ h ∙ object_open ns s)) in
      (ap object p, q)
  cancel null (bool true) r s x y hr hs e h = absurd (omega arith)
  cancel null (bool false) r s x y hr hs e h = absurd (omega arith)
  cancel null _ r s x y hr hs e h = absurd (omega arith)
  cancel (bool true) (bool false) r s x y hr hs e h = absurd (omega arith)
  cancel (bool true) _ r s x y hr hs e h = absurd (omega arith)
  cancel (bool false) (bool true) r s x y hr hs e h = absurd (omega arith)
  cancel (bool false) _ r s x y hr hs e h = absurd (omega arith)
  cancel (int z) (bool true) r s x y hr hs e h = absurd (omega arith)
  cancel (int z) (bool false) r s x y hr hs e h = absurd (omega arith)
  cancel (int z) _ r s x y hr hs e h = absurd (omega arith)
  cancel (text t) (bool true) r s x y hr hs e h = absurd (omega arith)
  cancel (text t) (bool false) r s x y hr hs e h = absurd (omega arith)
  cancel (text t) _ r s x y hr hs e h = absurd (omega arith)
  cancel (array es) (bool true) r s x y hr hs e h = absurd (omega arith)
  cancel (array es) (bool false) r s x y hr hs e h = absurd (omega arith)
  cancel (array es) _ r s x y hr hs e h = absurd (omega arith)
  cancel (object ms) (bool true) r s x y hr hs e h = absurd (omega arith)
  cancel (object ms) (bool false) r s x y hr hs e h = absurd (omega arith)
  cancel (object ms) _ r s x y hr hs e h = absurd (omega arith)

  cancel_elements :
      (es fs : Elements) (r s : Text)
      → AreExact es
      → AreExact fs
      → dumps_elements es ++ r ≡ dumps_elements fs ++ s
      → (es ≡ fs) × (r ≡ s)
  cancel_elements nil nil r s x y h = (refl, behind (sym (elements_end r) ∙ h ∙ elements_end s))
  cancel_elements nil (cons k fs) r s x y h =
      absurd
        (not_closed k r (dumps_more fs ++ s) y.0 (sym (elements_end r) ∙ h ∙ elements_open k fs s))
  cancel_elements (cons j es) nil r s x y h = absurd (
      not_closed j s (dumps_more es ++ r) x.0 (sym (elements_end s) ∙ sym h ∙ elements_open j es r))
  cancel_elements (cons j es) (cons k fs) r s x y h =
      let e = sym (elements_open j es r) ∙ h ∙ elements_open k fs s in
      let (p, q) =
        cancel j k (dumps_more es ++ r) (dumps_more fs ++ s) x.0 y.0 (stops-more es r)
          (stops-more fs s) (same_kind j k (dumps_more es ++ r) (dumps_more fs ++ s) x.0 y.0 e) e in
      let (ps, rest) = cancel_more es fs r s x.1 y.1 q in (cons_both p ps, rest)

  cancel_more :
      (es fs : Elements) (r s : Text)
      → AreExact es
      → AreExact fs
      → dumps_more es ++ r ≡ dumps_more fs ++ s
      → (es ≡ fs) × (r ≡ s)
  cancel_more nil nil r s x y h = (refl, behind (sym (more_end r) ∙ h ∙ more_end s))
  cancel_more nil (cons k fs) r s x y h =
      absurd (comma_closing (sym (more_open k fs s) ∙ sym h ∙ more_end r))
  cancel_more (cons j es) nil r s x y h =
      absurd (comma_closing (sym (more_open j es r) ∙ h ∙ more_end s))
  cancel_more (cons j es) (cons k fs) r s x y h =
      let e = behind (sym (more_open j es r) ∙ h ∙ more_open k fs s) in
      let (p, q) =
        cancel j k (dumps_more es ++ r) (dumps_more fs ++ s) x.0 y.0 (stops-more es r)
          (stops-more fs s) (same_kind j k (dumps_more es ++ r) (dumps_more fs ++ s) x.0 y.0 e) e in
      let (ps, rest) = cancel_more es fs r s x.1 y.1 q in (cons_both p ps, rest)

  cancel_members :
      (ms ns : Members) (r s : Text)
      → HasExact ms
      → HasExact ns
      → dumps_members ms ++ r ≡ dumps_members ns ++ s
      → (ms ≡ ns) × (r ≡ s)
  cancel_members end end r s x y h = (refl, behind (sym (members_end r) ∙ h ∙ members_end s))
  cancel_members end (member m k ns) r s x y h =
      absurd (
        member_end m k (dumps_later ns ++ s) r
          (sym (members_open m k ns s) ∙ sym h ∙ members_end r))
  cancel_members (member n j ms) end r s x y h =
      absurd
        (member_end n j (dumps_later ms ++ r) s (sym (members_open n j ms r) ∙ h ∙ members_end s))
  cancel_members (member n j ms) (member m k ns) r s x y h =
      let (e, after) =
        quote-cancel n m (b':' ∷ (dumps j ++ (dumps_later ms ++ r)))
          (b':' ∷ (dumps k ++ (dumps_later ns ++ s)))
          (sym (members_open n j ms r) ∙ h ∙ members_open m k ns s) in
      let (p, q) =
        cancel j k (dumps_later ms ++ r) (dumps_later ns ++ s) x.0 y.0 (stops-later ms r)
          (stops-later ns s)
          (same_kind j k (dumps_later ms ++ r) (dumps_later ns ++ s) x.0 y.0 (behind after))
          (behind after) in
      let (ps, rest) = cancel_later ms ns r s x.1 y.1 q in (member_both e p ps, rest)

  cancel_later :
      (ms ns : Members) (r s : Text)
      → HasExact ms
      → HasExact ns
      → dumps_later ms ++ r ≡ dumps_later ns ++ s
      → (ms ≡ ns) × (r ≡ s)
  cancel_later end end r s x y h = (refl, behind (sym (later_end r) ∙ h ∙ later_end s))
  cancel_later end (member m k ns) r s x y h =
      absurd (comma_end (sym (later_open m k ns s) ∙ sym h ∙ later_end r))
  cancel_later (member n j ms) end r s x y h =
      absurd (comma_end (sym (later_open n j ms r) ∙ h ∙ later_end s))
  cancel_later (member n j ms) (member m k ns) r s x y h =
      let (e, after) =
        quote-cancel n m (b':' ∷ (dumps j ++ (dumps_later ms ++ r)))
          (b':' ∷ (dumps k ++ (dumps_later ns ++ s)))
          (behind (sym (later_open n j ms r) ∙ h ∙ later_open m k ns s)) in
      let (p, q) =
        cancel j k (dumps_later ms ++ r) (dumps_later ns ++ s) x.0 y.0 (stops-later ms r)
          (stops-later ns s)
          (same_kind j k (dumps_later ms ++ r) (dumps_later ns ++ s) x.0 y.0 (behind after))
          (behind after) in
      let (ps, rest) = cancel_later ms ns r s x.1 y.1 q in (member_both e p ps, rest)

-- Two values without floats that print the same text are the same.
pub dumps-injective : (j k : Json) → IsExact j → IsExact k → dumps j ≡ dumps k → j ≡ k
dumps-injective j k x y h =
    let e = ap (λ t. t ++ []) h in (cancel j k [] [] x y refl refl (same_kind j k [] [] x y e) e).0
