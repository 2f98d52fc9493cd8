-- ===== src/Environ/Examples.antt =====
-- Tests and instances for environments.
use desmata.Prelude.{Bool, true, ◌&&◌, none, some, [], ◌∷◌, ◌≡◌, refl, if◌then◌else◌}
use desmata.Prelude.Texts.{Text, codes, eq_text, starts_with}
use desmata.Wit.{among}
use desmata.Provenance.Ledger.{write, file_at}
use desmata.Environ.{
  EnvVars, update, keys, default_env, default_passthrough_vars, pass_var, pass_vars,
  get_passed_thru_vars, env_vars, env_filter,
}
use desmata.Environ.Lookup.{last_value, either, value_of, is_some, last_match, env_filter-lookup}

-- re.match, for the patterns of this file
abbrev matches : Text → Text → Bool
matches pattern var =
    if eq_text pattern (codes "LC_.*")
    then starts_with var (codes "LC_")
    else starts_with var pattern

abbrev environ : EnvVars
environ =
    (codes "TERM", codes "xterm")
    ∷ (codes "LC_ALL", codes "C")
    ∷ (codes "TERMINFO", codes "/info")
    ∷ []

abbrev filtered : EnvVars
filtered = env_filter matches (codes "/home") default_passthrough_vars true [] environ environ []

-- A variable that `LC_.*` matches is passed under the pattern's name.
lc_all : file_at (codes "LC_ALL") filtered ≡ none
unfolding env_filter update keys get_passed_thru_vars pass_vars pass_var env_vars default_env write
    file_at eq_text starts_with
lc_all = refl

lc_pattern : file_at (codes "LC_.*") filtered ≡ some (codes "C")
unfolding env_filter update keys get_passed_thru_vars pass_vars pass_var env_vars default_env write
    file_at eq_text starts_with
lc_pattern = refl

-- TERM has the value of TERMINFO, which it matches as well.
term : file_at (codes "TERM") filtered ≡ some (codes "/info")
unfolding env_filter update keys get_passed_thru_vars pass_vars pass_var env_vars default_env write
    file_at eq_text starts_with
term = refl

home_default : file_at (codes "TMP") filtered ≡ some (codes "/home/.tmp")
unfolding env_filter update keys get_passed_thru_vars pass_vars pass_var env_vars default_env write
    file_at eq_text starts_with
home_default = refl

env_filter-lookup_example :
    file_at
      (codes "TERM")
      (env_filter matches (codes "/home") default_passthrough_vars true [] environ environ [])
    ≡ last_value (codes "TERM") [] (
        either
          (value_of
            (among (codes "TERM") default_passthrough_vars
              && is_some (last_match matches (codes "TERM") environ none))
            (last_match matches (codes "TERM") environ none))
          (file_at (codes "TERM") (env_vars (codes "/home") true)))
env_filter-lookup_example =
    env_filter-lookup matches (codes "TERM") (codes "/home") default_passthrough_vars true []
      environ environ []
