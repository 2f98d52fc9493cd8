-- ===== src/Provenance/StorePath.antt =====
-- Paths of the store, and the names of their files: `_ident` of src/desmata/provenance.py.
use desmata.Prelude.{
  true, false, ◌==◌, [], ◌∷◌, ◌++◌, ◌≡◌, refl, ap, sym, ◌∙◌, arith, Bool-cases, inl, inr,
}
use desmata.Prelude.Texts.{
  Text, codes, eq_text, eq_text→eq, eq_text_refl, has, starts_with, length, length-append,
}
use desmata.Provenance.Builds.{store_prefix, without_prefixes, record_name}

-- A path of the store: a name without a slash behind the prefix.
abbrev pub IsStorePath : Text → Type 0
IsStorePath p = (name : Text) × (p ≡ store_prefix ++ name) × (has name b'/' ≡ false)

no_slash : (name : Text) → has name b'/' ≡ false → without_prefixes 0 name ≡ name
unfolding without_prefixes has starts_with
no_slash [] h = refl
no_slash (c ∷ s) h = elim (Bool-cases (c == b'/')) [
  | inl e ↦ let q = rw e at h in cc
  | inr e ↦ rw e (ap (λ s. c ∷ s) (no_slash s (rw e at h)))
]

record_name-store :
    (name : Text)
    → has name b'/' ≡ false
    → record_name (store_prefix ++ name) ≡ name ++ codes ".json"
unfolding record_name without_prefixes starts_with
record_name-store name h = ap (λ t. t ++ codes ".json") (no_slash name h)

cancel_end : (xs ys zs : Text) → xs ++ zs ≡ ys ++ zs → xs ≡ ys
cancel_end [] [] zs h = refl
cancel_end [] (y ∷ ys) zs h = absurd (omega (arith, ap length h, length-append (y ∷ ys) zs))
cancel_end (x ∷ xs) [] zs h = absurd (omega (arith, ap length h, length-append (x ∷ xs) zs))
cancel_end (x ∷ xs) (y ∷ ys) zs h = let rest = cancel_end xs ys zs cc in cc

record_name-injective :
    (p q : Text) → IsStorePath p → IsStorePath q → record_name p ≡ record_name q → p ≡ q
record_name-injective p q (m, ep, hp) (n, eq, hq) h =
    let same = cancel_end m n (codes ".json") (
      sym (record_name-store m hp)
      ∙ ap record_name (sym ep)
      ∙ h
      ∙ ap record_name eq
      ∙ record_name-store n hq) in
    ep ∙ ap (λ n. store_prefix ++ n) same ∙ sym eq

-- The two tests agree on paths of the store.
pub same_test :
    (p q : Text)
    → IsStorePath p
    → IsStorePath q
    → eq_text (record_name p) (record_name q) ≡ eq_text p q
same_test p q hp hq = elim (Bool-cases (eq_text p q)) [
  | inl e ↦
      ap (λ q. eq_text (record_name p) (record_name q)) (sym (eq_text→eq p q e))
      ∙ eq_text_refl (record_name p)
      ∙ sym e
  | inr e ↦ elim (Bool-cases (eq_text (record_name p) (record_name q))) [
    | inl k ↦
        let same = record_name-injective p q hp hq (eq_text→eq (record_name p) (record_name q) k) in
        absurd (differ (sym (eq_text_refl p) ∙ ap (eq_text p) same ∙ e))
    | inr k ↦ k ∙ sym e
  ]
]
  where
    differ : true ≡ false → ⊥
    differ h = cc
