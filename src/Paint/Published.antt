-- ===== src/Paint/Published.antt =====
-- What src/desmata/paint.py publishes, and when: `publish_strokes`.
use desmata.Prelude.{
  ℕ, true, List, [], ◌∷◌, map, ◌≡◌, refl, sym, ap, ◌∙◌, ◌↔◌, Bool-cases, inl, inr,
}
use desmata.Prelude.Results.{ok, >>=-eq-ok, ok_eq, raised_returns}
use desmata.Prelude.Texts.{Text, eq_text, eq_text→eq, eq_text_refl}
use desmata.Wit.Values.{Members}
use desmata.Provenance.{Brushstroke, Hashing, signed, content_id}
use desmata.Provenance.Ledger.{Dir, load_brushstrokes}
use desmata.Paint.Node.{
  Node, Published, eq_texts, sign_all, ids, zip_published, confirm, publish_all, publish_strokes,
}

eq_texts→eq : (xs ys : List Text) → eq_texts xs ys ≡ true → xs ≡ ys
unfolding eq_texts
eq_texts→eq [] [] h = refl
eq_texts→eq [] (y ∷ ys) h = cc
eq_texts→eq (x ∷ xs) [] h = cc
eq_texts→eq (x ∷ xs) (y ∷ ys) h = elim (Bool-cases (eq_text x y)) [
  | inl e ↦ let rest = eq_texts→eq xs ys (rw e at h) in let p = eq_text→eq x y e in cc
  | inr e ↦ let q = rw e at h in cc
]

eq_texts_refl : (xs : List Text) → eq_texts xs xs ≡ true
unfolding eq_texts
eq_texts_refl [] = refl
eq_texts_refl (x ∷ xs) = rw (eq_text_refl x, eq_texts_refl xs) refl

module _ (H : Hashing) where
  confirm-ok :
      (strokes : List Brushstroke) (placed : List Text) (ps : List Published)
      → confirm H strokes placed ≡ ok ps
      → (placed ≡ ids H strokes) × (ps ≡ zip_published H strokes (ids H strokes))
  unfolding confirm
  confirm-ok strokes placed ps h = elim (Bool-cases (eq_texts placed (ids H strokes))) [
    | inl e ↦ (eq_texts→eq placed (ids H strokes) e, sym (ok_eq (rw e at h)))
    | inr e ↦ absurd (raised_returns (rw e at h))
  ]

  confirm_expected :
      (strokes : List Brushstroke)
      → confirm H strokes (ids H strokes) ≡ ok (zip_published H strokes (ids H strokes))
  unfolding confirm
  confirm_expected strokes = rw (eq_texts_refl (ids H strokes)) refl

  module _ (node : Node) (signer : Text) (sign : List ℕ → Text) where
    -- The signed form of a stroke, with its content id.
    abbrev pub as_published : Brushstroke → Published
    as_published b = record {
      stroke = signed H signer sign b;
      content_id = content_id H (signed H signer sign b);
    }

    zip_published-sign_all :
        (bs : List Brushstroke)
        → zip_published H (sign_all H signer sign bs) (ids H (sign_all H signer sign bs))
          ≡ map as_published bs
    unfolding zip_published sign_all ids
    zip_published-sign_all [] = refl
    zip_published-sign_all (b ∷ bs) = ap (λ ps. as_published b ∷ ps) (zip_published-sign_all bs)

    -- The node places the signed strokes under their content ids. Where there are none, it is not asked.
    abbrev pub PlacesAsExpected : List Brushstroke → Type 0
    PlacesAsExpected [] = Unit
    PlacesAsExpected (b ∷ bs) =
        node.publish (sign_all H signer sign (b ∷ bs))
        ≡ ok (ids H (sign_all H signer sign (b ∷ bs)))

    publish_all-ok_iff :
        (bs : List Brushstroke) (ps : List Published)
        → (publish_all H node signer sign bs ≡ ok ps)
          ↔ (PlacesAsExpected bs × (ps ≡ map as_published bs))
    unfolding publish_all
    publish_all-ok_iff [] ps = (λ h. (tt, sym (ok_eq h)), λ (u, e). ap ok (sym e))
    publish_all-ok_iff (b ∷ bs) ps =
        let strokes = sign_all H signer sign (b ∷ bs) in
        (
          λ h.
              let (placed, p, q) = >>=-eq-ok (node.publish strokes) (confirm H strokes) h in
              let (same, e) = confirm-ok strokes placed ps q in
              (p ∙ ap ok same, e ∙ zip_published-sign_all (b ∷ bs)),
          λ (p, e).
              rw p (confirm_expected strokes) ∙ ap ok (zip_published-sign_all (b ∷ bs) ∙ sym e),
        )

    -- Publishing a ledger returns if and only if the ledger's strokes load and, unless there are none,
    -- the node answers for their signed forms with exactly the content ids computed here. It then
    -- returns these signed forms with these ids, one for each stroke in the order of the ledger.
    pub publish_strokes-ok_iff :
        (ledger : Dir Members) (ps : List Published)
        → (publish_strokes H node signer sign ledger ≡ ok ps) ↔ (
            (bs : List Brushstroke) × (load_brushstrokes ledger ≡ ok bs)
            × (PlacesAsExpected bs × (ps ≡ map as_published bs)))
    unfolding publish_strokes
    publish_strokes-ok_iff ledger ps = (
      λ h.
          let (bs, p, q) =
            >>=-eq-ok (load_brushstrokes ledger) (publish_all H node signer sign) h in
          let (to, from) = publish_all-ok_iff bs ps in (bs, p, to q),
      λ (bs, p, q). let (to, from) = publish_all-ok_iff bs ps in rw p (from q),
    )
