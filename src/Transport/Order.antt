-- ===== src/Transport/Order.antt =====
-- What the order of a closure holds, and when its loop ends.
use desmata.Prelude.{
  ℕ, zero, suc, ◌+◌, ◌-◌, ◌<◌, Bool, true, false, ◌||◌, List, [], ◌∷◌, ◌++◌, ◌≡◌, refl, sym, ap,
  ◌∙◌, if◌then◌else◌, arith, ltb, Bool-cases, inl, inr, ◌⊎◌,
}
use desmata.Prelude.Results.{ok}
use desmata.Prelude.Texts.{Text, eq_text, eq_text→eq, eq_text_refl, length, length-append}
use desmata.Wit.{among}
use desmata.Archive.Cell.{sorted}
use desmata.Archive.Files.{times, times-sorted, times-outside}
use desmata.Transport.{
  Info, keep_if, subset, members, deps, waiting, ready, batch_of, batch, order, topo_order,
}

both_eq : (k m n : Text) → eq_text k n ≡ true → eq_text m n ≡ true → eq_text k m ≡ true
both_eq k m n h e = rw (eq_text→eq k n h, eq_text→eq m n e, eq_text_refl n) refl

-- The list without the first occurrence of an element.
without : Text → List Text → List Text
without n [] = []
without n (m ∷ ms) = if eq_text m n then ms else m ∷ without n ms

times-without :
    (n m : Text) (ms : List Text)
    → times n (without m ms) ≡ times n ms - (if eq_text m n then 1 else 0)
unfolding times without
times-without n m [] = ground arith
times-without n m (k ∷ ms) = elim (Bool-cases (eq_text k m)) [
  | inl e ↦ rw (eq_text→eq k m e, eq_text_refl m) (ground arith)
  | inr e ↦ rw e (ground (arith, times-without n m ms, both_eq k m n))
]

length-without :
    (m : Text) (ms : List Text) → 0 < times m ms → length ms ≡ suc (length (without m ms))
unfolding times without
length-without m [] h = ground arith
length-without m (k ∷ ms) h = ground (arith, length-without m ms)

times_first : (x : Text) (xs : List Text) → times x (x ∷ xs) ≡ suc (times x xs)
unfolding times
times_first x xs = rw (eq_text_refl x) refl

times_rest :
    (n x : Text) (xs : List Text) → times n xs ≡ times n (x ∷ xs) - (if eq_text x n then 1 else 0)
unfolding times
times_rest n x xs = ground arith

pub nothing : (n : Text) → times n [] ≡ 0
unfolding times
nothing n = refl

-- Lists that hold each element equally often have the same length.
pub same_length :
    (xs ys : List Text) → ((n : Text) → times n xs ≡ times n ys) → length xs ≡ length ys
same_length [] [] h = refl
same_length [] (y ∷ ys) h = absurd (omega (arith, h y, times_first y ys, nothing y))
same_length (x ∷ xs) ys h = rw (length-without x ys (omega (arith, h x, times_first x xs))) (
    ap suc (
      same_length xs (without x ys) (λ n.
        times_rest n x xs
        ∙ ap (λ t. t - (if eq_text x n then 1 else 0)) (h n)
        ∙ sym (times-without n x ys))))

pub times-append : (n : Text) (xs ys : List Text) → times n (xs ++ ys) ≡ times n xs + times n ys
unfolding times
times-append n [] ys = ground arith
times-append n (x ∷ xs) ys = ground (arith, times-append n xs ys)

pub among-append : (n : Text) (xs ys : List Text) → among n (xs ++ ys) ≡ (among n xs || among n ys)
unfolding among
among-append n [] ys = refl
among-append n (x ∷ xs) ys = ground (arith, among-append n xs ys)

pub among-times : (n : Text) (xs : List Text) → among n xs ≡ ltb 0 (times n xs)
unfolding among times
among-times n [] = refl
among-times n (x ∷ xs) = ground (arith, among-times n xs)

same_test : (test : Text → Bool) (x n : Text) → eq_text x n ≡ true → test x ≡ test n
same_test test x n e = ap test (eq_text→eq x n e)

pub times-keep_if :
    (test : Text → Bool) (n : Text) (xs : List Text)
    → times n (keep_if test xs) ≡ (if test n then times n xs else 0)
unfolding times keep_if
times-keep_if test n [] = ground arith
times-keep_if test n (x ∷ xs) = ground (arith, times-keep_if test n xs, same_test test x n)

pub times-batch_of :
    (n : Text) (r w : List Text)
    → (times n (batch_of r w) ≡ times n r) ⊎ (times n (batch_of r w) ≡ times n w)
times-batch_of n [] w = inr (times-sorted n w)
times-batch_of n (p ∷ ps) w = inl (times-sorted n (p ∷ ps))

length-sorted : (xs : List Text) → length (sorted xs) ≡ length xs
length-sorted xs = same_length (sorted xs) xs (λ n. times-sorted n xs)

length-batch_of : (r w : List Text) → 0 < length w → 0 < length (batch_of r w)
length-batch_of [] w h = rw (length-sorted w) h
length-batch_of (p ∷ ps) w h = rw (length-sorted (p ∷ ps)) (omega arith)

module _ (infos : List Info) where
  -- Every path that is ordered stands there as often as among the members.
  abbrev pub Partial : List Text → Type 0
  Partial done = (n : Text) → times n done ≡ (if among n done then times n (members infos) else 0)

  pub times-waiting :
      (done : List Text) (n : Text)
      → times n (waiting infos done) ≡ (if among n done then 0 else times n (members infos))
  unfolding waiting
  times-waiting done n = times-outside n done (members infos)

  pub times-ready :
      (done : List Text) (n : Text)
      → times n (ready infos done)
        ≡ (if subset (deps infos n) done then times n (waiting infos done) else 0)
  unfolding ready
  times-ready done n = times-keep_if (λ p. subset (deps infos p) done) n (waiting infos done)

  times-batch :
      (done : List Text) (n : Text)
      → (times n (batch infos done) ≡ 0)
        ⊎ ((among n done ≡ false) × (times n (batch infos done) ≡ times n (members infos)))
  unfolding batch
  times-batch done n = ground (
    arith,
    times-batch_of n (ready infos done) (waiting infos done),
    times-waiting done n,
    times-ready done n,
  )

  pub Partial-batch : (done : List Text) → Partial done → Partial (done ++ batch infos done)
  Partial-batch done h n = ground (
    arith,
    h n,
    times-batch done n,
    times-append n done (batch infos done),
    among-append n done (batch infos done),
    among-times n (batch infos done),
  )

  times_left :
      (done : List Text)
      → Partial done
      → (n : Text) → times n (done ++ waiting infos done) ≡ times n (members infos)
  times_left done h n =
      ground (arith, h n, times-waiting done n, times-append n done (waiting infos done))

  pub length_left :
      (done : List Text)
      → Partial done
      → length done + length (waiting infos done) ≡ length (members infos)
  length_left done h =
      sym (length-append done (waiting infos done)) ∙ same_length _ _ (times_left done h)

  length-batch :
      (done : List Text)
      → Partial done
      → length done < length (members infos)
      → 0 < length (batch infos done)
  unfolding batch
  length-batch done h l =
      length-batch_of (ready infos done) (waiting infos done) (omega (arith, length_left done h))

  pub empty : (xs : List Text) → length xs ≡ 0 → (n : Text) → times n xs ≡ 0
  empty [] h n = nothing n
  empty (x ∷ xs) h n = absurd (omega arith)

  complete :
      (done : List Text)
      → Partial done
      → ltb (length done) (length (members infos)) ≡ false
      → (n : Text) → times n done ≡ times n (members infos)
  complete done h l n = ground (
    arith,
    h n,
    times-waiting done n,
    empty (waiting infos done) (ground (arith, length_left done h)) n,
  )

  longer :
      (f : ℕ) (done : List Text)
      → Partial done
      → length (members infos) < suc f + length done
      → ltb (length done) (length (members infos)) ≡ true
      → length (members infos) < f + length (done ++ batch infos done)
  longer f done h l more =
      omega (arith, length-append done (batch infos done), length-batch done h (ground arith))

  order_ends :
      (f : ℕ) (done : List Text)
      → Partial done
      → length (members infos) < f + length done
      → (l : List Text) × (order f infos done ≡ ok l)
        × ((n : Text) → times n l ≡ times n (members infos))
  unfolding order
  order_ends zero done h l = absurd (omega (arith, length_left done h))
  order_ends (suc f) done h l = elim (Bool-cases (ltb (length done) (length (members infos)))) [
    | inl more ↦
        rw more
          (order_ends f (done ++ batch infos done) (Partial-batch done h) (longer f done h l more))
    | inr all ↦ (done, rw all, complete done h all)
  ]

  -- The loop ends within as many rounds as the closure has members, and its result holds every
  -- member of the closure once and nothing else, also where the references form a cycle.
  pub topo_order_complete :
      (l : List Text) × (topo_order infos ≡ ok l)
      × ((n : Text) → times n l ≡ times n (members infos))
  unfolding topo_order
  topo_order_complete =
      order_ends (suc (length (members infos))) [] (λ n. unfold times among in refl) (omega arith)
