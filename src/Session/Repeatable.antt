-- ===== src/Session/Repeatable.antt =====
-- Two sessions over fresh homes with the same declared inputs.
use desmata.Prelude.{true, none, [], ◌++◌, ◌≡◌, sym, ◌∙◌, subst, append-nil}
use desmata.Prelude.Results.{Result, ok, err, Error}
use desmata.Disk.{FilePath, folder, Disk, below, put, mkdir}
use desmata.Disk.Paths.{below-append}
use desmata.Session.{
  Overlay, ephemeral, Context, run_next, left, sessions, new_home, make_subdirs, lay_over,
  home_subdirs, furnish, prepare,
}
use desmata.Session.Traces.{all_inside, Within, make_subdirs-Within}
use desmata.Session.Scopes.{temporary-Within}
use desmata.Session.Missing.{prepared_temporary}
use desmata.Session.Seeded.{IsSame, put-IsSame}
use desmata.Session.Determined.{EndSame, make_subdirs-EndSame, lay_over-EndSame, IsGiven}

module _ (g h : FilePath) where
  -- Both homes are ready and hold the same, or both calls raise the same error.
  pub data Together : Result FilePath × Disk → Result FilePath × Disk → Type 0 where
    both_ready : {a b : Disk} → IsSame g h a b → Together (ok g, a) (ok h, b)
    both_refused : {x : Error} {a b : Disk} → Together (err x, a) (err x, b)

  refused :
      {x y : Error} (a b : Disk)
      → ◌≡◌ {A = Result (Unit {0})} (err x) (err y)
      → Together (err x, a) (err y, b)
  refused {x} {y} a b same =
      subst (λ z. Together (err x, a) (err z, b)) (same_error same) both_refused
    where
      same_error : {x y : Error} → ◌≡◌ {A = Result (Unit {0})} (err x) (err y) → x ≡ y
      same_error same = cc

  raised_ok : {x : Error} → ◌≡◌ {A = Result (Unit {0})} (err x) (ok tt) → ⊥
  raised_ok same = cc

  lay_over-Together :
      (u v : Result (Unit {0}) × Disk)
      → EndSame g h u v
      → Together (run_next (λ laid f. (ok g, f)) u) (run_next (λ laid f. (ok h, f)) v)
  lay_over-Together (ok laid, a) (ok too, b) e = both_ready e.disks
  lay_over-Together (ok laid, a) (err y, b) e = absurd (raised_ok (sym e.outcomes))
  lay_over-Together (err x, a) (ok too, b) e = absurd (raised_ok e.outcomes)
  lay_over-Together (err x, a) (err y, b) e = refused a b e.outcomes

  module _ (m n : Disk) (overlay : Overlay) (inside : all_inside overlay ≡ true)
      (given : IsGiven g h m n overlay) where
    make_subdirs-Together :
        (u v : Result (Unit {0}) × Disk)
        → EndSame g h u v
        → Within g m (left u)
        → Within h n (left v)
        → Together
            (run_next (λ made e. run_next (λ laid f. (ok g, f)) (lay_over g overlay e)) u)
            (run_next (λ made e. run_next (λ laid f. (ok h, f)) (lay_over h overlay e)) v)
    make_subdirs-Together (ok made, a) (ok too, b) e p q =
        lay_over-Together (lay_over g overlay a) (lay_over h overlay b)
          (lay_over-EndSame g h m n overlay a b inside given p q e.disks)
    make_subdirs-Together (ok made, a) (err y, b) e p q = absurd (raised_ok (sym e.outcomes))
    make_subdirs-Together (err x, a) (ok too, b) e p q = absurd (raised_ok e.outcomes)
    make_subdirs-Together (err x, a) (err y, b) e p q = refused a b e.outcomes

    furnish-Together :
        (a b : Disk)
        → Within g m a
        → Within h n b
        → IsSame g h a b
        → Together (furnish overlay g a) (furnish overlay h b)
    unfolding furnish
    furnish-Together a b p q s =
        make_subdirs-Together (make_subdirs g home_subdirs a) (make_subdirs h home_subdirs b)
          (make_subdirs-EndSame g h m n home_subdirs a b p q s)
          (make_subdirs-Within g m home_subdirs a p) (make_subdirs-Within h n home_subdirs b q)

module _ (C K : Context) (d e m n : Disk) where
  put-IsSame_fresh :
      ((r : FilePath) → below (new_home C m) r ≡ true → m r ≡ none)
      → ((r : FilePath) → below (new_home K n) r ≡ true → n r ≡ none)
      → IsSame
          (new_home C m)
          (new_home K n)
          (put (new_home C m) folder m)
          (put (new_home K n) folder n)
  put-IsSame_fresh p q =
      subst
        (λ t. IsSame (new_home C m) (new_home K n) (put t folder m) (put (new_home K n) folder n))
        (append-nil (new_home C m))
        (subst
          (λ t.
            IsSame (new_home C m) (new_home K n) (put (new_home C m ++ []) folder m)
              (put t folder n))
          (append-nil (new_home K n))
          (put-IsSame (new_home C m) (new_home K n) [] folder m n (λ r.
            p (new_home C m ++ r) (below-append (new_home C m) r)
            ∙ sym (q (new_home K n ++ r) (below-append (new_home K n) r)))))

  -- Two sessions over fresh homes, of whatever cells and on whatever disks, with the same overlay,
  -- whose inputs go into the home and whose files are the same on both disks and stand in neither of
  -- the new homes: both homes get ready and hold the same at each path below them, or the making of
  -- both raises the same error.
  pub home_determined :
      (overlay : Overlay)
      → mkdir (sessions C) d ≡ ok m
      → mkdir (sessions K) e ≡ ok n
      → ((r : FilePath) → below (new_home C m) r ≡ true → m r ≡ none)
      → ((r : FilePath) → below (new_home K n) r ≡ true → n r ≡ none)
      → all_inside overlay ≡ true
      → IsGiven (new_home C m) (new_home K n) m n overlay
      → Together
          (new_home C m)
          (new_home K n)
          (prepare C (ephemeral overlay) d)
          (prepare K (ephemeral overlay) e)
  home_determined overlay made made_too p q inside given =
      rw (prepared_temporary C overlay d m made, prepared_temporary K overlay e n made_too)
        (furnish-Together (new_home C m) (new_home K n) m n overlay inside given
          (put (new_home C m) folder m) (put (new_home K n) folder n) (temporary-Within C d m made)
          (temporary-Within K e n made_too) (put-IsSame_fresh p q))
