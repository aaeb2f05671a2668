-- ===== src/Runner/Startup/Main.antt =====
-- runner.go, `main`: the environment, the subcommand and the run.
pub mod Order
use mechanicaldinosaurs.Base.{
  ℤ, pos, Bytes, codes, equal, if◌then◌else◌, ◌⊎◌, inl, inr, Bool, false, not, Option, none, some,
  List, [], ◌∷◌,
}
use mechanicaldinosaurs.Base.FilePath.{join_path}
use mechanicaldinosaurs.Runner.Env.{Entries, lookup_env, lookup_env_or, merge_env}
use mechanicaldinosaurs.Runner.Supervisor.{System, Run, run_all}
use mechanicaldinosaurs.Runner.Startup.{Library, StartError, build_components}

-- The error of `loadEnvFile`: the file is not there, or another.
pub data LoadError : Type 0 where
  not_there load_failed : LoadError

-- What the process is given: its arguments, its environment, `os.Getenv`, its working directory or
-- none for an error,
-- what `loadEnvFile` gives for a path, and whether a command succeeds, by its program and arguments.
pub record ProcessInput : Type 0 where
  pub args : List Bytes
  pub environ : List Bytes
  pub getenv : Bytes → Bytes
  pub cwd : Option Bytes
  pub load : Bytes → LoadError ⊎ Entries
  pub runs : List Bytes → Bool

pub data MigrationError : Type 0 where
  no_script script_failed no_database no_sql_file psql_failed : MigrationError

-- How `main` ends: a fatal error, the subcommand, or the run.
pub data Outcome : Type 0 where
  no_cwd : Outcome
  env_failed : Outcome
  migrated : Option MigrationError → Outcome
  not_started : StartError → Outcome
  finished : Run → Outcome

-- `10*time.Second`.
abbrev pub ten_seconds : ℤ
ten_seconds = pos 10_000_000_000

module _ (library : Library) (input : ProcessInput) where
  open library use {exists, parse_duration}
  open input use {args, environ, getenv, load, runs}

  -- `getenv` with a default.
  getenv_or : Bytes → Bytes → Bytes
  unfolding equal
  getenv_or key default = if equal (getenv key) [] then default else getenv key

  -- `loadRunnerEnv`, with none for a fatal error.
  unfoldable pub load_runner_env : Bytes → Option (List Bytes)
  unfolding getenv_or join_path merge_env
  load_runner_env cwd =
      let root = getenv_or (codes "MD_ROOT") cwd in
      let env_file = getenv_or (codes "MD_ENV_FILE") (join_path (root ∷ codes ".env" ∷ [])) in
      elim (load env_file) [
        | inr entries ↦ some (merge_env environ entries)
        | inl not_there ↦ some (merge_env environ [])
        | inl load_failed ↦ none
      ]

  -- `executeRunMigrationsSubcommand`.
  unfoldable pub execute_run_migrations : Bytes → List Bytes → Option MigrationError
  unfolding join_path lookup_env equal
  execute_run_migrations root env =
      let script = join_path (root ∷ codes "compile_django_sql.sh" ∷ []) in
      let url = lookup_env env (codes "DATABASE_URL") in
      let sql_file = join_path (root ∷ codes "all_migrations.sql" ∷ []) in
      if not (exists script)
      then some no_script
      else if not (runs (script ∷ []))
      then some script_failed
      else if equal url []
      then some no_database
      else if not (exists sql_file)
      then some no_sql_file
      else if not (runs (codes "psql" ∷ url ∷ codes "-f" ∷ sql_file ∷ []))
      then some psql_failed
      else none

  -- `len(os.Args) > 1 && os.Args[1] == "run-migrations"`.
  is_migration : List Bytes → Bool
  unfolding equal
  is_migration [] = false
  is_migration (program ∷ []) = false
  is_migration (program ∷ command ∷ rest) = equal command (codes "run-migrations")

  -- `parseDurationOr`; a duration counts nanoseconds.
  pub parse_duration_or : Bytes → ℤ → ℤ
  unfolding equal
  parse_duration_or s default =
      if equal s [] then default else elim (parse_duration s) [ some d ↦ d | none ↦ default ]

  -- The system is asked with the grace period. `mustGetwd` gives the same directory at both calls.
  unfoldable pub main_in : Bytes → (ℤ → System) → Outcome
  unfolding load_runner_env execute_run_migrations is_migration build_components run_all lookup_env
      lookup_env_or parse_duration_or
  main_in cwd system = elim (load_runner_env cwd) [
    | none ↦ env_failed
    | some env ↦
        let root = lookup_env_or env (codes "MD_ROOT") cwd in
        let grace = parse_duration_or (lookup_env env (codes "MD_SHUTDOWN_GRACE")) ten_seconds in
        if is_migration args
        then migrated (execute_run_migrations root env)
        else elim (build_components library root env) [
          | inl e ↦ not_started e
          | inr components ↦
              finished
                (run_all (system grace) (lookup_env env (codes "CONSOLE_MIGRATE")) components)
        ]
  ]

  unfoldable pub main : (ℤ → System) → Outcome
  unfolding main_in
  main system = elim input.cwd [ none ↦ no_cwd | some cwd ↦ main_in cwd system ]
