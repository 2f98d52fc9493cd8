-- ===== src/Transport/Behind.antt =====
-- Where the references have no cycle: each path comes behind what it refers to.
use desmata.Prelude.{
  ℕ, ◌<◌, true, false, not, ◌&&◌, Option, none, some, List, [], ◌∷◌, ◌++◌, ◌≡◌, refl, sym, subst,
  ◌∙◌, arith, &&_both, Bool-cases, inl, inr, ◌⊎◌, append_assoc, append-nil,
}
use desmata.Prelude.Results.{ok, Option-cases, some_eq, nothing_there}
use desmata.Prelude.Texts.{Text, eq_text, eq_text→eq, eq_text_refl}
use desmata.Wit.{among}
use desmata.Transport.{Info, subset, references_of, members, deps, deps_of, topo_order}
use desmata.Transport.Leaves.{leaves_first, topo_order-leaves_first, among-keep_if}
use desmata.Transport.Members.{HasPath, member-HasPath, HasPath-member}

-- An info of the path lists the other among its references.
abbrev pub Lists : List Info → Text → Text → Type 0
Lists [] p r = ⊥
Lists (i ∷ infos) p r = ((i.path ≡ p) × (among r i.references ≡ true)) ⊎ Lists infos p r

-- Within the closure, the path refers to another.
abbrev pub Refers : List Info → Text → Text → Type 0
Refers infos p r = Lists infos p r × (r ≡ p → ⊥) × HasPath infos r

-- Each path has one info.
abbrev pub HasOneEach : List Info → Type 0
HasOneEach [] = Unit
HasOneEach (i ∷ infos) = (HasPath infos i.path → ⊥) × HasOneEach infos

-- Each path of the list comes behind everything in the closure that it refers to.
abbrev pub IsBehind : List Info → List Text → Type 0
IsBehind infos l =
    (before after : List Text) (p r : Text)
    → l ≡ before ++ p ∷ after
    → Refers infos p r
    → among r before ≡ true

listed :
    (infos : List Info) (p r : Text) (rs : List Text)
    → references_of infos p ≡ some rs
    → among r rs ≡ true
    → Lists infos p r
unfolding references_of
listed [] p r rs e a = absurd (nothing_there e)
listed (i ∷ infos) p r rs e a = elim (Option-cases (references_of infos p)) [
  | inr (qs, q) ↦ inr (listed infos p r rs (q ∙ rw q at e) a)
  | inl q ↦ elim (Bool-cases (eq_text i.path p)) [
    | inl same ↦ inl (eq_text→eq i.path p same, rw (some_eq (rw (q, same) at e)) a)
    | inr other ↦ absurd (nothing_there (rw (q, other) at e))
  ]
]

unlisted : (infos : List Info) (p : Text) → (HasPath infos p → ⊥) → references_of infos p ≡ none
unfolding references_of
unlisted [] p h = refl
unlisted (i ∷ infos) p h = elim (Bool-cases (eq_text i.path p)) [
  | inl e ↦ absurd (h (inl (eq_text→eq i.path p e)))
  | inr e ↦ rw (unlisted infos p (λ x. h (inr x)), e) refl
]

entry_of :
    (infos : List Info) (p r : Text)
    → HasOneEach infos
    → Lists infos p r
    → (rs : List Text) × (references_of infos p ≡ some rs) × (among r rs ≡ true)
unfolding references_of
entry_of [] p r one h = absurd h
entry_of (i ∷ infos) p r (new, one) (inl (e, a)) = (
  i.references,
  rw (unlisted infos p (λ x. new (subst (HasPath infos) (sym e) x)), e, eq_text_refl p) refl,
  a,
)
entry_of (i ∷ infos) p r (new, one) (inr h) =
    let (rs, e, a) = entry_of infos p r one h in (rs, rw e refl, a)

module _ (infos : List Info) where
  kept :
      (p r : Text) (o : Option (List Text))
      → among r (deps_of infos p o) ≡ true
      → (rs : List Text) × (o ≡ some rs)
        × (among r rs ≡ true)
        × (eq_text r p ≡ false)
        × (among r (members infos) ≡ true)
  unfolding among deps_of
  kept p r none h = absurd cc
  kept p r (some rs) h =
      let all = sym (among-keep_if (λ r. not (eq_text r p) && among r (members infos)) r rs) ∙ h in
      let (tests, a) = &&_both (not (eq_text r p) && among r (members infos)) (among r rs) all in
      let (other, m) = &&_both (not (eq_text r p)) (among r (members infos)) tests in
      (rs, refl, a, ground arith, m)

  pub deps-Refers : (p r : Text) → among r (deps infos p) ≡ true → Refers infos p r
  unfolding deps
  deps-Refers p r h =
      let (rs, e, a, other, m) = kept p r (references_of infos p) h in
      (
        listed infos p r rs e a,
        λ same. different (subst (λ r. eq_text r p ≡ false) same other),
        member-HasPath infos r m,
      )
    where
      different : eq_text p p ≡ false → ⊥
      different q = let k = eq_text_refl p in cc

  pub Refers-deps :
      HasOneEach infos → (p r : Text) → Refers infos p r → among r (deps infos p) ≡ true
  unfolding deps deps_of
  Refers-deps one p r (l, other, m) =
      let (rs, e, a) = entry_of infos p r one l in
      rw
        (
          e,
          among-keep_if (λ r. not (eq_text r p) && among r (members infos)) r rs,
          unequal,
          HasPath-member infos r m,
          a,
        )
        refl
    where
      unequal : eq_text r p ≡ false
      unequal = elim (Bool-cases (eq_text r p)) [
        | inl e ↦ absurd (other (eq_text→eq r p e))
        | inr e ↦ e
      ]

  pub among-subset :
      (r : Text) (xs ys : List Text) → subset xs ys ≡ true → among r xs ≡ true → among r ys ≡ true
  unfolding subset among
  among-subset r [] ys h k = absurd cc
  among-subset r (x ∷ xs) ys h k = elim (Bool-cases (eq_text x r)) [
    | inl e ↦ subst (λ x. among x ys ≡ true) (eq_text→eq x r e) (&&_both _ _ h).0
    | inr e ↦ among-subset r xs ys (&&_both _ _ h).1 (ground arith)
  ]

  all_before :
      (done before after : List Text) (p : Text)
      → leaves_first infos done (before ++ p ∷ after) ≡ true
      → subset (deps infos p) (done ++ before) ≡ true
  unfolding leaves_first
  all_before done [] after p h = rw (append-nil done) (&&_both _ _ h).0
  all_before done (x ∷ before) after p h =
      subst (λ l. subset (deps infos p) l ≡ true) (append_assoc done (x ∷ []) before)
        (all_before (done ++ x ∷ []) before after p (&&_both _ _ h).1)

  -- Where each path has one info, and the references within the closure have no cycle (they fall along
  -- some rank), the order is found, and in it each path comes behind every other path of the closure
  -- that its info lists among its references.
  pub topo_order-IsBehind :
      HasOneEach infos
      → (rank : Text → ℕ) → ((p r : Text) → Refers infos p r → rank r < rank p)
      → (l : List Text) × (topo_order infos ≡ ok l) × IsBehind infos l
  topo_order-IsBehind one rank falls =
      let (l, e, first) =
        topo_order-leaves_first infos rank (λ p r a. falls p r (deps-Refers p r a)) in
      (
        l,
        e,
        λ before after p r q refers.
            among-subset r (deps infos p) before
              (all_before [] before after p (subst (λ l. leaves_first infos [] l ≡ true) q first))
              (Refers-deps one p r refers),
      )
