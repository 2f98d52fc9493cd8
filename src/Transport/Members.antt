-- ===== src/Transport/Members.antt =====
-- The paths of a closure, and that the order holds each of them once.
use desmata.Prelude.{
  true, List, [], ◌∷◌, ◌≡◌, refl, sym, ◌∙◌, map, arith, Bool-cases, inl, inr, ◌⊎◌, if◌then◌else◌,
}
use desmata.Prelude.Results.{ok}
use desmata.Prelude.Texts.{Text, eq_text, eq_text→eq, eq_text_refl}
use desmata.Wit.{among}
use desmata.Archive.Cell.{distinct}
use desmata.Archive.Files.{times, times-distinct}
use desmata.Transport.{Info, members, topo_order}
use desmata.Transport.Order.{among-times, topo_order_complete}

-- One of the infos is that of the path.
abbrev pub HasPath : List Info → Text → Type 0
HasPath [] p = ⊥
HasPath (i ∷ infos) p = (i.path ≡ p) ⊎ HasPath infos p

pub among-HasPath :
    (infos : List Info) (p : Text) → among p (map (λ i. i.path) infos) ≡ true → HasPath infos p
unfolding among
among-HasPath [] p h = absurd cc
among-HasPath (i ∷ infos) p h = elim (Bool-cases (eq_text i.path p)) [
  | inl e ↦ inl (eq_text→eq i.path p e)
  | inr e ↦ inr (among-HasPath infos p (ground arith))
]

pub HasPath-among :
    (infos : List Info) (p : Text) → HasPath infos p → among p (map (λ i. i.path) infos) ≡ true
unfolding among
HasPath-among [] p h = absurd h
HasPath-among (i ∷ infos) p (inl e) = rw (e, eq_text_refl p) refl
HasPath-among (i ∷ infos) p (inr h) = ground (arith, HasPath-among infos p h)

module _ (infos : List Info) where
  pub among-members : (c : Text) → among c (members infos) ≡ among c (map (λ i. i.path) infos)
  unfolding members among
  among-members c = ground (
    arith,
    among-times c (distinct [] (map (λ (i : Info). i.path) infos)),
    times-distinct c [] (map (λ (i : Info). i.path) infos),
  )

  pub times-members :
      (p : Text) → times p (members infos) ≡ (if among p (members infos) then 1 else 0)
  unfolding members among
  times-members p = ground (
    arith,
    times-distinct p [] (map (λ (i : Info). i.path) infos),
    among-times p (distinct [] (map (λ (i : Info). i.path) infos)),
  )

  pub member-HasPath : (p : Text) → among p (members infos) ≡ true → HasPath infos p
  member-HasPath p h = among-HasPath infos p (sym (among-members p) ∙ h)

  pub HasPath-member : (p : Text) → HasPath infos p → among p (members infos) ≡ true
  HasPath-member p h = among-members p ∙ HasPath-among infos p h

  -- Each path of the infos stands in the list once, and nothing else does.
  abbrev pub EachOnce : List Text → Type 0
  EachOnce l =
      (p : Text) → (HasPath infos p → times p l ≡ 1) × ((HasPath infos p → ⊥) → times p l ≡ 0)

  -- The loop ends within as many rounds as the closure has members, and its result holds the path of
  -- each info once and nothing else, also where several infos have one path and where the references
  -- form a cycle.
  pub topo_order-EachOnce : (l : List Text) × (topo_order infos ≡ ok l) × EachOnce l
  topo_order-EachOnce =
      let (l, e, all) = topo_order_complete infos in
      (
        l,
        e,
        λ p. (
          λ h. all p ∙ times-members p ∙ rw (HasPath-member p h) refl,
          λ n. all p ∙ times-members p ∙ elim (Bool-cases (among p (members infos))) [
            | inl a ↦ absurd (n (member-HasPath p a))
            | inr a ↦ rw a refl
          ],
        ),
      )
