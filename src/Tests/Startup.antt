-- ===== src/Tests/Startup.antt =====
-- The start of the runner at concrete inputs.
use mechanicaldinosaurs.Base.{
  ℤ, none, Bytes, codes, equal, ◌≡◌, refl, inl, not, true, false, some, [], ◌∷◌, ◌++◌,
}
use mechanicaldinosaurs.Runner.Supervisor.{System, Run, shutdown_requested, start_failed}
use mechanicaldinosaurs.Runner.Startup.{
  Library, is_ascii, import_segment, static_segment, bind_segment, workers_segment, end_segment,
  console_script,
}
use mechanicaldinosaurs.Runner.Startup.Literals.{read_string, console_script-settings}
use mechanicaldinosaurs.Runner.Startup.Main.{ProcessInput, not_there}

-- A host where everything is there and every command succeeds.
abbrev everything : Library
everything = record {
  exists = λ path. true;
  wide = λ s. s;
  to_lower = λ s. s;
  parse_duration = λ s. none;
}

abbrev input : ProcessInput
input = record {
  args = codes "runner" ∷ [];
  environ = codes "CONSOLE_CMD=run" ∷ [];
  getenv = λ key. [];
  cwd = some (codes "/srv");
  load = λ path. inl not_there;
  runs = λ command. true;
}

-- Every process starts but the proxy.
abbrev no_proxy : ℤ → System
no_proxy grace = record {
  starts = λ c. not (equal c.name (codes "proxy"));
  ends_on_sigterm = λ c. true;
  forks = λ c. false;
  others_end_on_sigterm = λ c. true;
  event = shutdown_requested;
  migrations = true;
}

abbrev two_started : Run
two_started = record {
  processes =
      record {
        component = record {
          name = codes "console";
          dir = codes "/srv/frontend";
          args = codes "sh" ∷ codes "-c" ∷ codes "run" ∷ [];
        };
        running = true;
        others = false;
        signals = [];
      }
      ∷ record {
        component = record {
          name = codes "automation-engine";
          dir = codes "/srv";
          args = codes "/srv/automation-engine" ∷ [];
        };
        running = true;
        others = false;
        signals = [];
      }
      ∷ [];
  returns = true;
  error = some (start_failed (codes "proxy"));
}

console_script-settings_example :
    (a : Bytes) × (b : Bytes) × (c : Bytes) × (d : Bytes) × (console_script everything
        (codes "wsgi")
        (codes "/srv/\"a\"\\\n")
        (codes ":80")
        (codes "3")
      ≡ import_segment ++ a)
    × (read_string a ≡ some (codes "wsgi", static_segment ++ b))
    × (read_string b ≡ some (codes "/srv/\"a\"\\\n", bind_segment ++ c))
    × (read_string c ≡ some (codes ":80", workers_segment ++ d))
    × (read_string d ≡ some (codes "3", end_segment))
unfolding is_ascii
console_script-settings_example =
    console_script-settings everything (codes "wsgi") (codes "/srv/\"a\"\\\n") (codes ":80")
      (codes "3") refl refl refl refl
