-- ===== src/Wit/Texts.antt =====
-- The texts of a function's parameters and result, as src/desmata/wit.py renders them.
use Prim.Native.Nat.{max}
use desmata.Prelude.{
  ℕ, suc, ◌<◌, Option, none, some, List, [], ◌∷◌, ◌++◌, subst, ◌≡◌, refl, ap, sym, ◌∙◌, arith,
}
use desmata.Prelude.Results.{
  Result, ok, err, >>=-eq-ok, ok_eq, some_eq, nothing_there, raised_returns,
}
use desmata.Prelude.Texts.{Text, codes, join}
use desmata.Wit.{render_ref, and_then}
use desmata.Wit.Values.{Json, Elements, null, bool, int, float, text, array, object}
use desmata.Wit.Renders.{Renders}
use desmata.Wit.Renders.Sound.{render_ref_sound}
use desmata.Wit.Renders.Complete.{depth, complete}
use desmata.Wit.Signature.{render_params, render_result, params_text, signature_of}

and_then-some :
    {A B C : Type 0} (o : Option A) (rest : Result (Option B)) (f : A → B → C) (c : C)
    → and_then o rest f ≡ ok (some c)
    → (a : A) × (b : B) × (o ≡ some a) × (rest ≡ ok (some b)) × (c ≡ f a b)
unfolding and_then
and_then-some none rest f c h = absurd (nothing_there (ok_eq h))
and_then-some (some a) (err e) f c h = absurd (raised_returns h)
and_then-some (some a) (ok none) f c h = absurd (nothing_there (ok_eq h))
and_then-some (some a) (ok (some b)) f c h = (a, b, refl, refl, sym (some_eq (ok_eq h)))

and_then_there :
    {A B C : Type 0} (a : A) (b : B) (rest : Result (Option B)) (f : A → B → C)
    → rest ≡ ok (some b)
    → and_then (some a) rest f ≡ ok (some (f a b))
unfolding and_then
and_then_there a b rest f h = rw h refl

-- The texts, one after the other, with a comma and a space between two of them.
abbrev pub Listed : List Text → Text → Type 0
Listed [] t = t ≡ []
Listed (p ∷ []) t = t ≡ p
Listed (p ∷ q ∷ ps) t = (rest : Text) × Listed (q ∷ ps) rest × (t ≡ p ++ (codes ", " ++ rest))

-- A single parameter's text stands as it is, and any other number of them in parentheses.
abbrev pub AreParameters : List Text → Text → Type 0
AreParameters (p ∷ []) t = t ≡ p
AreParameters ps t = (inner : Text) × Listed ps inner × (t ≡ codes "(" ++ (inner ++ codes ")"))

join-Listed : (ps : List Text) → Listed ps (join (codes ", ") ps)
unfolding join
join-Listed [] = refl
join-Listed (p ∷ []) = refl
join-Listed (p ∷ q ∷ ps) = (join (codes ", ") (q ∷ ps), join-Listed (q ∷ ps), refl)

Listed-join : (ps : List Text) (t : Text) → Listed ps t → t ≡ join (codes ", ") ps
unfolding join
Listed-join [] t h = h
Listed-join (p ∷ []) t h = h
Listed-join (p ∷ q ∷ ps) t (rest, h, e) = rw (e, Listed-join (q ∷ ps) rest h) refl

params_text-AreParameters : (ps : List Text) → AreParameters ps (params_text ps)
unfolding params_text
params_text-AreParameters [] = ([], refl, refl)
params_text-AreParameters (p ∷ []) = refl
params_text-AreParameters (p ∷ q ∷ ps) = (_, join-Listed (p ∷ q ∷ ps), refl)

AreParameters-params_text : (ps : List Text) (t : Text) → AreParameters ps t → t ≡ params_text ps
unfolding params_text join
AreParameters-params_text [] t (inner, h, e) = rw (e, h) refl
AreParameters-params_text (p ∷ []) t h = h
AreParameters-params_text (p ∷ q ∷ ps) t (inner, h, e) =
    e ∙ ap (λ t. codes "(" ++ (t ++ codes ")")) (Listed-join (p ∷ q ∷ ps) inner h)

module _ (types : Elements) where
  -- Each reference has its canonical text.
  abbrev pub RendersAll : List Json → List Text → Type 0
  RendersAll [] [] = Unit
  RendersAll [] (t ∷ ts) = ⊥
  RendersAll (ref ∷ refs) [] = ⊥
  RendersAll (ref ∷ refs) (t ∷ ts) = Renders types ref t × RendersAll refs ts

  -- An absent result has the empty text.
  abbrev pub RendersResult : Json → Text → Type 0
  RendersResult null t = t ≡ []
  RendersResult ref t = Renders types ref t

  params_sound :
      (f : ℕ) (refs : List Json) (ts : List Text)
      → render_params f types refs ≡ ok (some ts)
      → RendersAll refs ts
  unfolding render_params
  params_sound f [] [] h = tt
  params_sound f [] (t ∷ ts) h = let e = some_eq (ok_eq h) in cc
  params_sound f (ref ∷ refs) ts h =
      let (o, r, k) = >>=-eq-ok (render_ref f types ref) _ h in
      let (p, ps, eo, er, e) = and_then-some o (render_params f types refs) (λ p ps. p ∷ ps) ts k in
      rw e (render_ref_sound types f ref p (r ∙ ap ok eo), params_sound f refs ps er)

  params_complete :
      (refs : List Json) (ts : List Text)
      → RendersAll refs ts
      → (n : ℕ) × ((f : ℕ) → n < f → render_params f types refs ≡ ok (some ts))
  unfolding render_params
  params_complete [] [] h = (0, λ f l. refl)
  params_complete [] (t ∷ ts) h = absurd h
  params_complete (ref ∷ refs) [] h = absurd h
  params_complete (ref ∷ refs) (t ∷ ts) (d, h) =
      let (n, rest) = params_complete refs ts h in
      (
        max (depth types d) n,
        λ f l. rw (complete types d f (omega arith)) (
            and_then_there t ts (render_params f types refs) (λ p ps. p ∷ ps)
              (rest f (omega arith))),
      )

  result_sound :
      (f : ℕ) (ref : Json) (t : Text)
      → render_result f types ref ≡ ok (some t)
      → RendersResult ref t
  unfolding render_result
  result_sound f null t h = sym (some_eq (ok_eq h))
  result_sound f (bool b) t h = render_ref_sound types f (bool b) t h
  result_sound f (int i) t h = render_ref_sound types f (int i) t h
  result_sound f float t h = render_ref_sound types f float t h
  result_sound f (text s) t h = render_ref_sound types f (text s) t h
  result_sound f (array es) t h = render_ref_sound types f (array es) t h
  result_sound f (object ms) t h = render_ref_sound types f (object ms) t h

  with_depth :
      (ref : Json) (t : Text)
      → Renders types ref t
      → (n : ℕ) × ((f : ℕ) → n < f → render_ref f types ref ≡ ok (some t))
  with_depth ref t d = (depth types d, λ f l. complete types d f l)

  result_complete :
      (ref : Json) (t : Text)
      → RendersResult ref t
      → (n : ℕ) × ((f : ℕ) → n < f → render_result f types ref ≡ ok (some t))
  unfolding render_result
  result_complete null t h = (0, λ f l. rw h refl)
  result_complete (bool b) t h = with_depth (bool b) t h
  result_complete (int i) t h = with_depth (int i) t h
  result_complete float t h = with_depth float t h
  result_complete (text s) t h = with_depth (text s) t h
  result_complete (array es) t h = with_depth (array es) t h
  result_complete (object ms) t h = with_depth (object ms) t h

  -- The texts of a function's parameters and of its result.
  abbrev pub Signs : List Json → Json → Text → Text → Type 0
  Signs params result p t =
      (ps : List Text) × RendersAll params ps × AreParameters ps p × RendersResult result t

  pub signature_of-ok :
      (f : ℕ) (params : List Json) (result : Json) (p t : Text)
      → signature_of f types (params, result) ≡ ok (some (p, t))
      → Signs params result p t
  unfolding signature_of
  signature_of-ok f params result p t h =
      let (o, r, k) = >>=-eq-ok (render_params f types params) _ h in
      let (ps, u, eo, er, e) =
        and_then-some o (render_result f types result) (λ ts t. (params_text ts, t)) (p, t) k in
      (
        ps,
        params_sound f params ps (r ∙ ap ok eo),
        subst (AreParameters ps) (ap (λ x. x.0) (sym e)) (params_text-AreParameters ps),
        result_sound f result t (er ∙ ap (λ x. ok (some (x.1))) (sym e)),
      )

  pub signature_of_complete :
      (params : List Json) (result : Json) (p t : Text)
      → Signs params result p t
      → (f : ℕ) × (signature_of f types (params, result) ≡ ok (some (p, t)))
  unfolding signature_of
  signature_of_complete params result p t (ps, all, e, r) =
      let (n, rest) = params_complete params ps all in
      let (k, last) = result_complete result t r in
      let f = suc (max n k) in
      (
        f,
        rw (rest f (omega arith), AreParameters-params_text ps p e)
            (and_then_there ps t (render_result f types result) (λ ts t. (params_text ts, t))
              (last f (omega arith))),
      )
