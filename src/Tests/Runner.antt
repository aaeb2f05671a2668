-- ===== src/Tests/Runner.antt =====
-- The supervisor at concrete inputs.
use mechanicaldinosaurs.Base.{
  Bytes, codes, equal, split, ◌≡◌, refl, true, some, List, [], ◌∷◌, arith,
}
use mechanicaldinosaurs.Runner.PrefixWriter.{PrefixWriter, new_prefix_writer, write}
use mechanicaldinosaurs.Runner.PrefixWriter.Lines.{write-printed}
use mechanicaldinosaurs.Runner.Env.{split_env_line, load_lines, merge_env, is_present, lookup_env}
use mechanicaldinosaurs.Runner.Env.Merged.{lookup_env-merge_env-load_lines}
use mechanicaldinosaurs.Runner.Supervisor.{Component, System, exited, start_failed, run_all}
use mechanicaldinosaurs.Runner.Supervisor.Shutdown.{run_all_orphans}

abbrev fresh : PrefixWriter
fresh = new_prefix_writer [] (codes "proxy")

write_two_lines :
    (write fresh (codes "ab\ncd\ne")).0
    ≡ record { out = codes "[proxy] ab\n[proxy] cd\n"; prefix = codes "[proxy] "; buf = codes "e" }
unfolding write new_prefix_writer
write_two_lines = refl

write-printed_example :
    (write fresh (codes "ab\ncd")).0
    ≡ record { out = codes "[proxy] ab\n"; prefix = codes "[proxy] "; buf = codes "cd" }
unfolding new_prefix_writer split
write-printed_example = write-printed fresh (codes "ab\ncd")

split_env_line_comment :
    split_env_line (codes "PORT = 80 # the port") ≡ some (codes "PORT", codes "80")
unfolding split_env_line
split_env_line_comment = refl

abbrev file_lines : List Bytes
file_lines = codes "# secrets" ∷ codes "HOST=file" ∷ codes " PORT=80" ∷ []

lookup_env-merge_env-load_lines_example :
    lookup_env (merge_env (codes "HOST=process" ∷ []) (load_lines file_lines [])) (codes "PORT")
    ≡ codes "80"
unfolding is_present load_lines
lookup_env-merge_env-load_lines_example =
    lookup_env-merge_env-load_lines (codes "HOST=process" ∷ []) file_lines (codes "PORT")
      (omega arith, (omega arith, (omega arith, (omega arith, tt))))

abbrev proxy : Component
proxy = record { name = codes "proxy"; dir = codes "/opt/proxy"; args = codes "proxy" ∷ [] }

abbrev console : Component
console = record { name = codes "console"; dir = codes "/opt/console"; args = codes "puma" ∷ [] }

-- The console ignores SIGTERM; the proxy ends first.
abbrev stubborn : System
stubborn = record {
  starts = λ c. true;
  ends_on_sigterm = λ c. equal c.name (codes "proxy");
  forks = λ c. true;
  others_end_on_sigterm = λ c. equal c.name (codes "proxy");
  event = exited (codes "proxy");
  migrations = true;
}

-- The binary of the console is missing.
abbrev incomplete : System
incomplete = record stubborn { starts = λ c. equal c.name (codes "proxy") }

run_all_orphans_example : run_all incomplete [] (proxy ∷ console ∷ []) ≡ record {
  processes = record { component = proxy; running = true; others = true; signals = [] } ∷ [];
  returns = true;
  error = some (start_failed (codes "console"));
}
unfolding equal
run_all_orphans_example = run_all_orphans incomplete (proxy ∷ []) console [] refl refl
