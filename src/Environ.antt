-- ===== src/Environ.antt =====
-- The environment of a cell's tools: BasicContext.get_env_filter of src/desmata/cell_factory.py. The
-- test of `re.match` is a parameter, and so are the two states of `os.environ`, as it is when the
-- filter is made and as it is when the filter is called.
mod Examples
pub mod Lookup
use desmata.Prelude.{Bool, true, false, Option, none, some, List, [], ◌∷◌, ◌++◌, if◌then◌else◌}
use desmata.Prelude.Texts.{Text, codes}
use desmata.Provenance.Ledger.{Dir, write}

-- EnvVars, a dict
abbrev pub EnvVars : Type 0
EnvVars = Dir Text

-- env.update(more)
unfoldable pub update : EnvVars → EnvVars → EnvVars
unfolding write
update env [] = env
update env ((name, value) ∷ more) = update (write name value env) more

-- The keys of a dict, in its order.
unfoldable pub keys : EnvVars → List Text
keys [] = []
keys ((name, value) ∷ env) = name ∷ keys env

-- default_passthrough_vars
abbrev pub default_passthrough_vars : List Text
default_passthrough_vars =
    codes "TERM"
    ∷ codes "COLORTERM"
    ∷ codes "EDITOR"
    ∷ codes "VISUAL"
    ∷ codes "PAGER"
    ∷ codes "LANG"
    ∷ codes "LC_.*"
    ∷ []

-- _get_default_env, of the home's path
unfoldable pub default_env : Text → EnvVars
default_env home =
    (codes "USER", codes "desmata-user")
    ∷ (codes "HOME", home)
    ∷ (codes "TMP", home ++ codes "/.tmp")
    ∷ (codes "XDG_CACHE_HOME", home ++ codes "/.cache")
    ∷ (codes "XDG_CONFIG_HOME", home ++ codes "/.config")
    ∷ (codes "XDG_DATA_HOME", home ++ codes "/.local/share")
    ∷ (codes "XDG_STATE_HOME", home ++ codes "/.local/state")
    ∷ []

-- env_vars
unfoldable pub env_vars : Text → Bool → EnvVars
unfolding default_env
env_vars home true = default_env home
env_vars home false = []

-- matches p v: re.match(p, v) finds something
module _ (matches : Text → Text → Bool) where
  -- for passthru_var in passthru_vars
  unfoldable pub pass_var : List Text → Text → Text → EnvVars → EnvVars
  unfolding write
  pass_var [] var val env = env
  pass_var (pattern ∷ patterns) var val env =
      pass_var patterns var val (if matches pattern var then write pattern val env else env)

  -- for var, val in os.environ.items()
  unfoldable pub pass_vars : List Text → EnvVars → EnvVars → EnvVars
  unfolding pass_var
  pass_vars patterns [] env = env
  pass_vars patterns ((var, val) ∷ environ) env =
      pass_vars patterns environ (pass_var patterns var val env)

  -- _get_passed_thru_vars
  unfoldable pub get_passed_thru_vars : List Text → EnvVars → EnvVars
  unfolding pass_vars
  get_passed_thru_vars patterns environ = pass_vars patterns environ []

  -- get_env_filter, and the filter that it returns. The environment that the filter is given is not
  -- read, nor is `exec_path`: the value that is computed from it stays in a local variable.
  unfoldable pub env_filter :
      Text → List Text → Bool → EnvVars → EnvVars → EnvVars → EnvVars → EnvVars
  unfolding update keys get_passed_thru_vars env_vars
  env_filter home passthru_vars set_default_env env_overrides early late env =
      update
        (update (env_vars home set_default_env)
          (get_passed_thru_vars (keys (get_passed_thru_vars passthru_vars early)) late))
        env_overrides
