-- ===== src/Runner/Startup.antt =====
-- runner.go: what the runner starts, from its environment: the components, the console's command with
-- its Python program, and the subcommand that runs the migrations.
pub mod Literals
pub mod Main
use mechanicaldinosaurs.Base.{
  ℕ, ℤ, Option, ◌+◌, ◌-◌, ◌/◌, ◌%◌, Bytes, codes, concat, equal, ltb, leb, ◌==◌, if◌then◌else◌, ◌⊎◌,
  inl, inr, Bool, true, not, ◌&&◌, List, [], ◌∷◌, ◌++◌,
}
use mechanicaldinosaurs.Base.FilePath.{is_abs, join_path}
use mechanicaldinosaurs.Runner.Env.{lookup_env, lookup_env_or}
use mechanicaldinosaurs.Runner.Supervisor.{Component}

abbrev hex_digit : ℕ → ℕ
hex_digit d = if ltb d 10 then b'0' + d else b'a' + (d - 10)

-- A byte below 128 as "%q" writes it.
pub escape : ℕ → Bytes
escape c =
    if c == b'"'
    then codes "\\\""
    else if c == b'\\'
    then codes "\\\\"
    else if leb 32 c && ltb c 127
    then c ∷ []
    else if c == 7
    then codes "\\a"
    else if c == 8
    then codes "\\b"
    else if c == 12
    then codes "\\f"
    else if c == 10
    then codes "\\n"
    else if c == 13
    then codes "\\r"
    else if c == 9
    then codes "\\t"
    else if c == 11
    then codes "\\v"
    else b'\\' ∷ b'x' ∷ hex_digit (c / 16) ∷ hex_digit (c % 16) ∷ []

-- The bytes behind the first quote, up to the last.
pub quote_rest : Bytes → Bytes
unfolding escape
quote_rest [] = codes "\""
quote_rest (c ∷ s) = escape c ++ quote_rest s

unfoldable pub is_ascii : Bytes → Bool
is_ascii [] = true
is_ascii (c ∷ s) = ltb c 128 && is_ascii s

-- "%q" of a string; `wide` is what it gives for one with bytes from 128 on, which depends on Unicode.
unfoldable pub quote : (Bytes → Bytes) → Bytes → Bytes
unfolding quote_rest is_ascii
quote wide s = if is_ascii s then b'"' ∷ quote_rest s else wide s

pub import_segment : Bytes
import_segment = concat (
    codes "\nimport sys\nfrom gunicorn.app.wsgiapp import WSGIApplication\n"
    ∷ codes "from whitenoise import WhiteNoise\n\nserver = "
    ∷ [])

pub static_segment : Bytes
static_segment = codes "\nstatic_dir = "

pub bind_segment : Bytes
bind_segment = concat (
    codes "\n\nif server == \"asgi\":\n"
    ∷ codes "    from app.asgi import application as base_app\nelse:\n"
    ∷ codes "    from app.wsgi import application as base_app\n\n"
    ∷ codes "application = WhiteNoise(base_app, root=static_dir, prefix=\"/static/\")\n"
    ∷ codes "\nclass StandaloneApplication(WSGIApplication):\n    def load(self):\n"
    ∷ codes "        return application\n\nsys.argv = [\n    \"gunicorn\",\n"
    ∷ codes "    \"--bind\", "
    ∷ [])

pub workers_segment : Bytes
workers_segment = codes ",\n    \"--workers\", "

pub end_segment : Bytes
end_segment = concat (
    codes ",\n]\nif server == \"asgi\":\n"
    ∷ codes "    sys.argv.extend([\"-k\", \"uvicorn.workers.UvicornWorker\"])\n\n"
    ∷ codes "sys.argv.append(\"application\")\nStandaloneApplication().run()\n"
    ∷ [])

-- `absPath`.
abbrev abs_path : Bytes → Bytes → Bytes
unfolding join_path
abs_path root p = if is_abs p then p else join_path (root ∷ p ∷ [])

-- The functions of the library that the program calls: `os.Stat` without an error, "%q" of a text that
-- is not ASCII, and `strings.ToLower`.
pub record Library : Type 0 where
  pub exists : Bytes → Bool
  pub wide : Bytes → Bytes
  pub to_lower : Bytes → Bytes
  pub parse_duration : Bytes → Option ℤ

pub data StartError : Type 0 where
  no_console_directory : Bytes → StartError
  no_binary : Bytes → StartError

module _ (library : Library) where
  open library use {exists, wide, to_lower}

  -- The Python program of the console.
  pub console_script : Bytes → Bytes → Bytes → Bytes → Bytes
  unfolding quote import_segment static_segment bind_segment workers_segment end_segment concat
  console_script server static_dir bind workers =
      import_segment
      ++ (quote wide server
          ++ (static_segment
              ++ (quote wide static_dir
                  ++ (bind_segment
                      ++ (quote wide bind
                          ++ (workers_segment ++ (quote wide workers ++ end_segment)))))))

  -- `consoleCommand`, which gives no error.
  unfoldable pub console_command : List Bytes → Bytes → List Bytes
  unfolding lookup_env lookup_env_or join_path equal console_script
  console_command env console_dir =
      let custom = lookup_env env (codes "CONSOLE_CMD") in
      let static_dir = lookup_env_or env (codes "CONSOLE_STATIC_DIR") (codes "static") in
      if not (equal custom [])
      then codes "sh" ∷ codes "-c" ∷ custom ∷ []
      else lookup_env_or env (codes "CONSOLE_PYTHON") (codes "python3")
        ∷ codes "-c"
        ∷ console_script (to_lower (lookup_env_or env (codes "CONSOLE_SERVER") (codes "wsgi")))
            (if is_abs static_dir then static_dir else join_path (console_dir ∷ static_dir ∷ []))
            (lookup_env_or env (codes "CONSOLE_BIND") (codes "0.0.0.0:8000"))
            (lookup_env_or env (codes "CONSOLE_WORKERS") (codes "3"))
        ∷ []

  -- `buildComponents`.
  unfoldable pub build_components : Bytes → List Bytes → StartError ⊎ List Component
  unfolding lookup_env_or join_path console_command abs_path
  build_components root env =
      let console_dir =
        join_path (root ∷ lookup_env_or env (codes "CONSOLE_DIR") (codes "frontend") ∷ []) in
      let automation_bin =
        abs_path root
          (lookup_env_or env (codes "AUTOMATION_ENGINE_BIN") (codes "./automation-engine")) in
      let proxy_bin = abs_path root (lookup_env_or env (codes "PROXY_BIN") (codes "./proxy")) in
      if not (exists console_dir)
      then inl (no_console_directory console_dir)
      else if not (exists automation_bin)
      then inl (no_binary automation_bin)
      else if not (exists proxy_bin)
      then inl (no_binary proxy_bin)
      else inr (
          record {
            name = codes "console";
            dir = console_dir;
            args = console_command env console_dir;
          }
          ∷ record { name = codes "automation-engine"; dir = root; args = automation_bin ∷ [] }
          ∷ record { name = codes "proxy"; dir = root; args = proxy_bin ∷ [] }
          ∷ [])
