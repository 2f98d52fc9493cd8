-- ===== src/Wit/Examples.antt =====
-- The theorems on the renderer at sample type tables.
use desmata.Prelude.{ℕ, zero, suc, ◌≡◌, ◌↔◌, refl, Option, some, [], true, arith}
use desmata.Prelude.Results.{ok, err, out_of_fuel}
use desmata.Prelude.Texts.{Text, codes, eq_text, join}
use desmata.Wave.Value.{pos}
use desmata.Wit.{render_ref, among}
use desmata.Wit.Values.{
  Json, Elements, Members, int, text, array, object, nil, cons, end, member, at, get, has_member,
}
use desmata.Wit.Signature.{canonical_signature}
use desmata.Wit.Signed.{HasSignature, canonical_signature-eq-ok_iff}
use desmata.Wit.Renders.{Renders}
use desmata.Wit.Renders.Complete.{render_ref-eq-ok_iff}
use desmata.Wit.Renders.Ends.{IsOrdered, EntryBelow, Returns, render_ref-Returns, render_ref-cyclic}

-- list<u8>, and a record of such a list and a text.
abbrev two_types : Elements
two_types =
    cons
      (object (member (codes "kind") (object (member (codes "list") (text (codes "u8")) end)) end))
      (cons
        (object (
          member (codes "kind")
            (object (
              member (codes "record")
                (object (
                  member (codes "fields")
                    (array (
                      cons
                        (object (
                          member (codes "name") (text (codes "body"))
                            (member (codes "type") (int (pos 0)) end)))
                        (cons
                          (object (
                            member (codes "name") (text (codes "tag"))
                              (member (codes "type") (text (codes "string")) end)))
                          nil)))
                    end))
                end))
            end))
        nil)

rendered :
    render_ref 3 two_types (int (pos 1))
    ≡ ok (some (codes "record { body: list<u8>, tag: string }"))
unfolding render_ref among join
rendered = refl

two_types-IsOrdered : IsOrdered two_types
unfolding at get eq_text
two_types-IsOrdered = record { below = below }
  where
    below : (i : ℕ) → EntryBelow i (at two_types (pos i))
    below zero = (tt, tt)
    below (suc zero) = (tt, (omega arith, (tt, tt)))
    below (suc (suc i)) = tt

render_ref-eq-ok_iff_example :
    ((f : ℕ) × (render_ref f two_types (int (pos 1))
        ≡ ok (some (codes "record { body: list<u8>, tag: string }"))))
    ↔ Renders two_types (int (pos 1)) (codes "record { body: list<u8>, tag: string }")
render_ref-eq-ok_iff_example =
    render_ref-eq-ok_iff two_types (int (pos 1)) (codes "record { body: list<u8>, tag: string }")

render_ref-Returns_example : Returns (render_ref 3 two_types (int (pos 1)))
render_ref-Returns_example =
    render_ref-Returns two_types two_types-IsOrdered 2 3 (int (pos 1)) (omega arith) (omega arith)

abbrev loop_kind : Members
loop_kind = member (codes "list") (int (pos 0)) end

abbrev loop_entry : Members
loop_entry = member (codes "kind") (object loop_kind) end

abbrev loop : Elements
loop = cons (object loop_entry) nil

loop-at : at loop (pos 0) ≡ some (object loop_entry)
unfolding at
loop-at = refl

loop-kind : get (codes "kind") loop_entry ≡ object loop_kind
unfolding get
loop-kind = refl

loop-has_list : has_member (codes "list") loop_kind ≡ true
unfolding has_member
loop-has_list = refl

loop-list : get (codes "list") loop_kind ≡ int (pos 0)
unfolding get
loop-list = refl

render_ref-cyclic_example : render_ref 1000 loop (int (pos 0)) ≡ err out_of_fuel
render_ref-cyclic_example =
    render_ref-cyclic loop (pos 0) loop_entry loop_kind loop-at loop-kind loop-has_list loop-list
      1000

-- A world that exports one interface with the function `greet`, from a list and a record to a text.
abbrev greet_params : Elements
greet_params =
    cons (object (member (codes "type") (int (pos 0)) end))
      (cons (object (member (codes "type") (text (codes "string")) end)) nil)

abbrev greeter : Json
greeter = object (
    member (codes "worlds")
      (array (
        cons
          (object (
            member (codes "exports")
              (object (
                member (codes "interface-0")
                  (object (
                    member (codes "interface") (object (member (codes "id") (int (pos 0)) end))
                      end))
                  end))
              end))
          nil))
      (member (codes "interfaces")
        (array (
          cons
            (object (
              member (codes "functions")
                (object (
                  member (codes "greet")
                    (object (
                      member (codes "params") (array greet_params)
                        (member (codes "result") (text (codes "string")) end)))
                    end))
                end))
            nil))
        (member (codes "types") (array two_types) end)))

abbrev greeter_only : Text → Option Json
greeter_only t = some greeter

greet_signature :
    canonical_signature greeter_only 3 [] (codes "greet")
    ≡ ok (some (codes "(list<u8>, string)", codes "string"))
unfolding canonical_signature among join render_ref
greet_signature = refl

canonical_signature-eq-ok_iff_example :
    ((f : ℕ) × (canonical_signature greeter_only f [] (codes "greet")
        ≡ ok (some (codes "(list<u8>, string)", codes "string"))))
    ↔ HasSignature greeter_only [] (codes "greet") (codes "(list<u8>, string)", codes "string")
canonical_signature-eq-ok_iff_example =
    canonical_signature-eq-ok_iff greeter_only [] (codes "greet")
      (codes "(list<u8>, string)", codes "string")
