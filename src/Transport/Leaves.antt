-- ===== src/Transport/Leaves.antt =====
-- Where the references have no cycle: which paths stand before a path.
use desmata.Prelude.{
  ℕ, zero, suc, ◌<◌, Bool, true, false, ◌&&◌, not, List, [], ◌∷◌, ◌++◌, ◌≡◌, refl, ap, sym, subst,
  &&_both, ◌∙◌, none, some, arith, ltb, Bool-cases, inl, inr, ◌⊎◌, append_assoc, append-nil, Option,
}
use desmata.Prelude.Results.{Result, ok}
use desmata.Prelude.Texts.{Text, eq_text, eq_text→eq, eq_text_refl, length}
use desmata.Wit.{among}
use desmata.Archive.Cell.{sorted}
use desmata.Archive.Files.{times-sorted}
use desmata.Transport.{
  Info, keep_if, subset, references_of, members, deps, deps_of, waiting, ready, batch_of, batch,
  order, topo_order,
}
use desmata.Transport.Order.{topo_order_complete, among-times, among-append, times-waiting}

among-sorted : (n : Text) (xs : List Text) → among n (sorted xs) ≡ among n xs
among-sorted n xs =
    among-times n (sorted xs) ∙ ap (λ t. ltb 0 t) (times-sorted n xs) ∙ sym (among-times n xs)

pub among-keep_if :
    (test : Text → Bool) (n : Text) (xs : List Text)
    → among n (keep_if test xs) ≡ (test n && among n xs)
unfolding among keep_if
among-keep_if test n [] = ground arith
among-keep_if test n (x ∷ xs) = ground (arith, among-keep_if test n xs, same_test)
  where
    same_test : eq_text x n ≡ true → test x ≡ test n
    same_test e = ap test (eq_text→eq x n e)

-- A set that is not a part of another has an element outside it.
pub outside_of :
    (xs ys : List Text)
    → subset xs ys ≡ false
    → (x : Text) × (among x xs ≡ true) × (among x ys ≡ false)
unfolding subset among
outside_of [] ys h = cc
outside_of (x ∷ xs) ys h = elim (Bool-cases (among x ys)) [
  | inl e ↦ let (z, p, q) = outside_of xs ys (rw e at h) in (z, ground (arith), q)
  | inr e ↦ (x, rw (eq_text_refl x) refl, e)
]

pub subset-more : (xs ys zs : List Text) → subset xs ys ≡ true → subset xs (ys ++ zs) ≡ true
unfolding subset
subset-more [] ys zs h = refl
subset-more (x ∷ xs) ys zs h = ground (arith, subset-more xs ys zs, among-append x ys zs)

module _ (infos : List Info) where
  -- Behind what is `done`, each path comes behind everything that it refers to.
  unfoldable pub leaves_first : List Text → List Text → Bool
  leaves_first done [] = true
  leaves_first done (p ∷ ps) = subset (deps infos p) done && leaves_first (done ++ p ∷ []) ps

  kept :
      (p r : Text) (o : Option (List Text))
      → among r (deps_of infos p o) ≡ true
      → among r (members infos) ≡ true
  unfolding among deps_of
  kept p r none h = cc
  kept p r (some rs) h =
      ground (arith, among-keep_if (λ r. not (eq_text r p) && among r (members infos)) r rs)

  among-waiting :
      (done : List Text) (n : Text)
      → among n (waiting infos done) ≡ (not (among n done) && among n (members infos))
  among-waiting done n = ground (
    arith,
    among-times n (waiting infos done),
    times-waiting infos done n,
    among-times n (members infos),
  )

  among-deps : (p r : Text) → among r (deps infos p) ≡ true → among r (members infos) ≡ true
  unfolding deps
  among-deps p r h = kept p r (references_of infos p) h

  leaves_first-append :
      (done xs ys : List Text)
      → leaves_first done xs ≡ true
      → leaves_first (done ++ xs) ys ≡ true
      → leaves_first done (xs ++ ys) ≡ true
  unfolding leaves_first
  leaves_first-append done [] ys h k = rw (append-nil done) at k
  leaves_first-append done (x ∷ xs) ys h k =
      ground (arith, leaves_first-append (done ++ x ∷ []) xs ys, grouped)
    where
      grouped : leaves_first ((done ++ x ∷ []) ++ xs) ys ≡ true
      grouped = rw (append_assoc done (x ∷ []) xs) k

  all_ready :
      (done xs : List Text)
      → ((p : Text) → among p xs ≡ true → subset (deps infos p) done ≡ true)
      → leaves_first done xs ≡ true
  unfolding leaves_first among
  all_ready done [] h = refl
  all_ready done (x ∷ xs) h =
      let first = h x (rw (eq_text_refl x) refl) in
      let rest =
        all_ready (done ++ x ∷ []) xs
          (λ p a. subset-more (deps infos p) done (x ∷ []) (h p (ground arith))) in
      rw (first, rest) refl

  module _ (rank : Text → ℕ)
      (falls : (p r : Text) → among r (deps infos p) ≡ true → rank r < rank p) where
    some_ready :
        (k : ℕ) (done : List Text) (p : Text)
        → rank p < k
        → among p (waiting infos done) ≡ true
        → (q : Text) × (among q (ready infos done) ≡ true)
    unfolding ready
    some_ready zero done p l h = absurd (omega arith)
    some_ready (suc k) done p l h = elim (Bool-cases (subset (deps infos p) done)) [
      | inl yes_ready ↦ (
        p,
        rw (among-keep_if (λ p. subset (deps infos p) done) p (waiting infos done), yes_ready, h)
            refl,
      )
      | inr blocked ↦
          let (r, in_deps, not_done) = outside_of (deps infos p) done blocked in
          some_ready k done r (omega (arith, falls p r in_deps))
            (rw (among-waiting done r, not_done, among-deps p r in_deps) refl)
    ]

    a_batch : (q : Text) (r w : List Text) → among q r ≡ true → batch_of r w ≡ sorted r
    unfolding among
    a_batch q [] w h = cc
    a_batch q (p ∷ ps) w h = refl

    among-batch_of :
        (p : Text) (r w : List Text)
        → among p (batch_of r w) ≡ true
        → (among p r ≡ true) ⊎ (among p w ≡ true)
    among-batch_of p [] w h = inr (sym (among-sorted p w) ∙ h)
    among-batch_of p (q ∷ ps) w h = inl (sym (among-sorted p (q ∷ ps)) ∙ h)

    among-ready :
        (done : List Text) (p : Text)
        → among p (ready infos done) ≡ true
        → (subset (deps infos p) done ≡ true) × (among p (waiting infos done) ≡ true)
    unfolding ready
    among-ready done p h =
        &&_both _ _
          (sym (among-keep_if (λ p. subset (deps infos p) done) p (waiting infos done)) ∙ h)

    batched :
        (done : List Text) (p : Text)
        → among p (batch infos done) ≡ true
        → among p (waiting infos done) ≡ true
    unfolding batch
    batched done p h = elim (among-batch_of p (ready infos done) (waiting infos done) h) [
      | inl r ↦ (among-ready done p r).1
      | inr w ↦ w
    ]

    batch_ready :
        (done : List Text) (p : Text)
        → among p (batch infos done) ≡ true
        → subset (deps infos p) done ≡ true
    unfolding batch
    batch_ready done p h =
        let (q, r) = some_ready (suc (rank p)) done p (omega arith) (batched done p h) in
        let same = a_batch q (ready infos done) (waiting infos done) r in
        (among-ready done p
          (sym (among-sorted p (ready infos done)) ∙ ap (among p) (sym same) ∙ h)).0

    order_leaves :
        (f : ℕ) (done l : List Text)
        → leaves_first [] done ≡ true
        → order f infos done ≡ ok l
        → leaves_first [] l ≡ true
    unfolding order
    order_leaves zero done l h e = cc
    order_leaves (suc f) done l h e =
        elim (Bool-cases (ltb (length done) (length (members infos)))) [
          | inl more ↦
              order_leaves f (done ++ batch infos done) l
                (leaves_first-append [] done (batch infos done) h
                  (all_ready done (batch infos done) (batch_ready done)))
                (rw more at e)
          | inr all ↦ subst (λ l. leaves_first [] l ≡ true) (returned (rw all at e)) h
        ]
      where
        returned : {a b : List Text} → ◌≡◌ {A = Result (List Text)} (ok a) (ok b) → a ≡ b
        returned p = cc

    -- Where the references within the closure have no cycle (they fall along some rank), the order is
    -- found, and in it each path stands behind everything that it refers to.
    pub topo_order-leaves_first :
        (l : List Text) × (topo_order infos ≡ ok l) × (leaves_first [] l ≡ true)
    unfolding topo_order
    topo_order-leaves_first =
        let (l, e, all) = topo_order_complete infos in
        (l, e, order_leaves (suc (length (members infos))) [] l (unfold leaves_first in refl) e)
