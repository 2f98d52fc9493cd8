-- ===== src/Environ/Lookup.antt =====
-- What a filtered environment holds.
use desmata.Prelude.{
  Bool, true, false, ◌&&◌, Option, none, some, List, [], ◌∷◌, ◌≡◌, refl, ap, ◌∙◌, subst, arith,
  if◌then◌else◌, Bool-cases, inl, inr,
}
use desmata.Prelude.Texts.{Text, eq_text, eq_text→eq}
use desmata.Wit.{among}
use desmata.Provenance.Ledger.{write, file_at}
use desmata.Provenance.Kept.{
  copies, IsDistinct, file_at-write, write-IsDistinct, rest-IsDistinct, first_only,
}
use desmata.Environ.{
  EnvVars, update, keys, pass_var, pass_vars, get_passed_thru_vars, env_vars, env_filter,
}

-- The last value that a list of assignments gives a name, or the one before.
unfoldable pub last_value : Text → EnvVars → Option Text → Option Text
unfolding eq_text
last_value k [] before = before
last_value k ((name, value) ∷ more) before =
    last_value k more (if eq_text name k then some value else before)

pub file_at-update :
    (k : Text) (more env : EnvVars)
    → file_at k (update env more) ≡ last_value k more (file_at k env)
unfolding update last_value
file_at-update k [] env = refl
file_at-update k ((name, value) ∷ more) env =
    file_at-update k more (write name value env)
    ∙ ap (last_value k more) (file_at-write k name value env)

-- The one value, or else the other.
abbrev pub either : Option Text → Option Text → Option Text
either none other = other
either (some value) other = some value

no_copy : (n : Text) (env : EnvVars) → copies n env ≡ 0 → file_at n env ≡ none
unfolding copies file_at
no_copy n [] h = refl
no_copy n ((name, value) ∷ env) h = ground (arith, no_copy n env)

last_value-either :
    (k : Text) (env : EnvVars) (before : Option Text)
    → IsDistinct env
    → last_value k env before ≡ either (file_at k env) before
unfolding last_value file_at
last_value-either k [] before h = refl
last_value-either k ((name, value) ∷ env) before h = elim (Bool-cases (eq_text name k)) [
  | inr e ↦ rw e (last_value-either k env before (rest-IsDistinct name value env h))
  | inl e ↦
      let gone : file_at k env ≡ none =
        subst (λ n. file_at n env ≡ none) (eq_text→eq name k e)
          (no_copy name env (first_only name value env h)) in
      rw e (
        last_value-either k env (some value) (rest-IsDistinct name value env h)
        ∙ ap (λ o. either o (some value)) gone)
]

-- A value is there.
abbrev pub is_some : Option Text → Bool
is_some none = false
is_some (some value) = true

abbrev pub value_of : Bool → Option Text → Option Text
value_of true value = value
value_of false value = none

among-keys : (k : Text) (env : EnvVars) → among k (keys env) ≡ is_some (file_at k env)
unfolding among keys file_at
among-keys k [] = refl
among-keys k ((name, value) ∷ env) = elim (Bool-cases (eq_text name k)) [
  | inl e ↦ rw e refl
  | inr e ↦ rw e (among-keys k env)
]

module _ (matches : Text → Text → Bool) where
  -- The value of the last variable that a pattern matches, or the one before.
  unfoldable pub last_match : Text → EnvVars → Option Text → Option Text
  last_match pattern [] before = before
  last_match pattern ((var, val) ∷ environ) before =
      last_match pattern environ (if matches pattern var then some val else before)

  file_at-pass_var :
      (k : Text) (patterns : List Text) (var val : Text) (env : EnvVars)
      → file_at k (pass_var matches patterns var val env)
        ≡ (if among k patterns && matches k var then some val else file_at k env)
  unfolding pass_var among
  file_at-pass_var k [] var val env = refl
  file_at-pass_var k (p ∷ patterns) var val env = elim (Bool-cases (matches p var)) [
    | inl m ↦ rw m (
        ground (
          arith,
          file_at-pass_var k patterns var val (write p val env),
          file_at-write k p val env,
          same_match,
        ))
    | inr m ↦ rw m (ground (arith, file_at-pass_var k patterns var val env, same_match))
  ]
    where
      same_match : eq_text p k ≡ true → matches p var ≡ matches k var
      same_match e = ap (λ q. matches q var) (eq_text→eq p k e)

  file_at-pass_vars :
      (k : Text) (patterns : List Text) (environ env : EnvVars)
      → file_at k (pass_vars matches patterns environ env)
        ≡ (if among k patterns then last_match k environ (file_at k env) else file_at k env)
  unfolding pass_vars last_match
  file_at-pass_vars k patterns [] env = ground arith
  file_at-pass_vars k patterns ((var, val) ∷ environ) env =
      file_at-pass_vars k patterns environ (pass_var matches patterns var val env)
      ∙ rw (file_at-pass_var k patterns var val env)
          (elim (Bool-cases (among k patterns)) [ inl e ↦ rw e refl | inr e ↦ rw e refl ])

  file_at-get_passed_thru_vars :
      (k : Text) (patterns : List Text) (environ : EnvVars)
      → file_at k (get_passed_thru_vars matches patterns environ)
        ≡ value_of (among k patterns) (last_match k environ none)
  unfolding get_passed_thru_vars file_at
  file_at-get_passed_thru_vars k patterns environ =
      file_at-pass_vars k patterns environ [] ∙ as_value (among k patterns)
    where
      as_value :
          (b : Bool)
          → (if b then last_match k environ none else none) ≡ value_of b (last_match k environ none)
      as_value true = refl
      as_value false = refl

  passed_twice :
      (k : Text) (patterns : List Text) (early late : EnvVars)
      → file_at k
          (get_passed_thru_vars matches (keys (get_passed_thru_vars matches patterns early)) late)
        ≡ value_of (among k patterns && is_some (last_match k early none)) (last_match k late none)
  passed_twice k patterns early late =
      file_at-get_passed_thru_vars k (keys (get_passed_thru_vars matches patterns early)) late
      ∙ ap (λ b. value_of b (last_match k late none))
          (among-keys k (get_passed_thru_vars matches patterns early)
            ∙ (ap is_some (file_at-get_passed_thru_vars k patterns early)
                ∙ some_value (among k patterns) (last_match k early none)))
    where
      some_value : (b : Bool) (o : Option Text) → is_some (value_of b o) ≡ (b && is_some o)
      some_value true o = refl
      some_value false o = refl

  pass_var-IsDistinct :
      (patterns : List Text) (var val : Text) (env : EnvVars)
      → IsDistinct env
      → IsDistinct (pass_var matches patterns var val env)
  unfolding pass_var
  pass_var-IsDistinct [] var val env h = h
  pass_var-IsDistinct (p ∷ patterns) var val env h = elim (Bool-cases (matches p var)) [
    | inl m ↦
        rw m (pass_var-IsDistinct patterns var val (write p val env) (write-IsDistinct p val env h))
    | inr m ↦ rw m (pass_var-IsDistinct patterns var val env h)
  ]

  pass_vars-IsDistinct :
      (patterns : List Text) (environ env : EnvVars)
      → IsDistinct env
      → IsDistinct (pass_vars matches patterns environ env)
  unfolding pass_vars
  pass_vars-IsDistinct patterns [] env h = h
  pass_vars-IsDistinct patterns ((var, val) ∷ environ) env h =
      pass_vars-IsDistinct patterns environ (pass_var matches patterns var val env)
        (pass_var-IsDistinct patterns var val env h)

  get_passed_thru_vars-IsDistinct :
      (patterns : List Text) (environ : EnvVars)
      → IsDistinct (get_passed_thru_vars matches patterns environ)
  unfolding get_passed_thru_vars
  get_passed_thru_vars-IsDistinct patterns environ =
      pass_vars-IsDistinct patterns environ [] (λ k. unfold copies in omega arith)

  -- What a name has in a filtered environment, whatever environment the filter is given: the last
  -- value that the overrides give it; or else, where it is itself one of the patterns, and matched
  -- some variable when the filter was made, the value of the last variable that it matches when the
  -- filter is called; or else its default. So a variable that a pattern matches is passed under the
  -- pattern's name, and under no other.
  pub env_filter-lookup :
      (k home : Text) (patterns : List Text) (set_default : Bool)
      (overrides early late env : EnvVars)
      → file_at k (env_filter matches home patterns set_default overrides early late env)
        ≡ last_value k overrides (
            either
              (value_of
                (among k patterns && is_some (last_match k early none))
                (last_match k late none))
              (file_at k (env_vars home set_default)))
  unfolding env_filter
  env_filter-lookup k home patterns set_default overrides early late env =
      let names = keys (get_passed_thru_vars matches patterns early) in
      let passed = get_passed_thru_vars matches names late in
      file_at-update k overrides (update (env_vars home set_default) passed)
      ∙ ap (last_value k overrides) (
          file_at-update k passed (env_vars home set_default)
          ∙ (last_value-either k passed (file_at k (env_vars home set_default))
                (get_passed_thru_vars-IsDistinct names late)
              ∙ ap (λ o. either o (file_at k (env_vars home set_default)))
                  (passed_twice k patterns early late)))
