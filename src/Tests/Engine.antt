-- ===== src/Tests/Engine.antt =====
-- The automation engine at concrete inputs.
use mechanicaldinosaurs.Base.{
  ℕ, ℤ, pos, negsuc, ◌*◌, ◌/◌, Bytes, codes, equal, join, ltb, length, ok, scale64, ◌≡◌, refl, ◌↔◌,
  inr, Bool, true, false, not, ◌&&◌, none, some, List, [], ◌∷◌, arith,
}
use mechanicaldinosaurs.Engine.Context.{
  Platform, Value, string_value, float64_value, map_value, Entries, end, entry, get,
}
use mechanicaldinosaurs.Engine.Context.Lookup.{Resolves, get_iff}
use mechanicaldinosaurs.Engine.Condition.{Condition, greater_than, equals, evaluate}
use mechanicaldinosaurs.Engine.Condition.Meaning.{evaluate_iff}
use mechanicaldinosaurs.Engine.Trigger.{
  Time, interval_trigger, machine_info_refresh_trigger, new_trigger, trigger_type, register,
  deregister,
}
use mechanicaldinosaurs.Engine.Trigger.Loops.{Wake, interval_loop}
use mechanicaldinosaurs.Engine.Action.{email_action, Transport, do_action, render_template}
use mechanicaldinosaurs.Engine.Automation.{
  Automation, AutomationCommunicable, Readings, Event, on_triggered, run_triggered, enable, disable,
  to_communicable, to_automation,
}
use mechanicaldinosaurs.Engine.Automation.Edges.{action_on_rising_edge, action_on_each_interval}
use mechanicaldinosaurs.Engine.Automation.Reenable.{reenabled_is_silent}
use mechanicaldinosaurs.Engine.Automation.RoundTrip.{to_automation-to_communicable}
use mechanicaldinosaurs.Engine.Server.{Env, State, clear_logs}
use mechanicaldinosaurs.Engine.Server.Guard.{Call, serve, serve-admitted}
use mechanicaldinosaurs.Engine.Alerts.{Alerts, buffer, start_goroutine, deregister_refresh}
use mechanicaldinosaurs.Engine.Alerts.Delivery.{deregister_before_start}

abbrev pub second : ℕ
second = 1_000_000_000

abbrev pub whole_seconds : ℤ → ℤ
whole_seconds (pos n) = pos (n / second)
whole_seconds (negsuc n) = negsuc (n / second)

abbrev pub int_lt : ℤ → ℤ → Bool
int_lt (pos a) (pos b) = ltb a b
int_lt (pos a) (negsuc b) = false
int_lt (negsuc a) (pos b) = true
int_lt (negsuc a) (negsuc b) = ltb b a

abbrev pub text_of : Value ℤ → Bytes
text_of (string_value s) = s
text_of _ = codes "?"

-- Floats as whole nanoseconds; no pattern compiles.
abbrev pub nanos : Platform ℤ
nanos = record {
  of_int = scale64 second;
  float_eq = λ a b. not (int_lt a b) && not (int_lt b a);
  float_lt = int_lt;
  float_le = λ a b. not (int_lt b a);
  seconds = λ d. d;
  to_int64 = whole_seconds;
  sprint = text_of;
  match_string = λ pattern text. none;
}

abbrev pub at : ℕ → Time
at n = record { sec = pos n; nsec = 0 }

abbrev pub machine : Entries ℤ
machine = entry (codes "cpu_temp") (float64_value (pos (81 * second))) end

abbrev pub seen_machine : Entries ℤ
seen_machine =
    entry (codes "machines_info") (map_value (entry (codes "pineapple") (map_value machine) end))
      end

abbrev pub hot : Condition ℤ
hot = record {
  variable = codes "machines_info.pineapple.cpu_temp";
  op = greater_than;
  value = float64_value (pos (80 * second));
  negated = false;
}

evaluate-hot : evaluate nanos hot seen_machine ≡ ok true
unfolding evaluate get
evaluate-hot = refl

evaluate_iff_example : evaluate nanos hot seen_machine ≡ ok true
unfolding get
evaluate_iff_example =
    (evaluate_iff nanos hot seen_machine true).1
      (float64_value (pos (81 * second)), true, refl, refl, refl)

abbrev pub named : Entries ℤ
named = entry (codes "hostname") (string_value (codes "pineapple")) end

abbrev is_pineapple : Condition ℤ
is_pineapple = record {
  variable = codes "hostname";
  op = equals;
  value = string_value (codes "pineapple");
  negated = false;
}

get_iff_example :
    (get seen_machine (codes "machines_info.pineapple") ≡ ok (map_value machine))
    ↔ Resolves
        (map_value machine)
        (map_value seen_machine)
        (codes "machines_info" ∷ codes "pineapple" ∷ [])
unfolding join
get_iff_example =
    get_iff seen_machine (codes "machines_info") (codes "pineapple" ∷ []) (map_value machine)
      (omega arith)

abbrev pub mute : Transport
mute = record { send = λ to subject body. none; post = λ channel text. inr 500 }

abbrev pub clock : Readings
clock = record {
  triggered = at 10;
  condition_error = at 11;
  action_started = at 12;
  action_error = at 13;
}

abbrev pub alarm : Automation ℤ
alarm = record {
  id = codes "a1";
  enabled = true;
  trigger = new_trigger (machine_info_refresh_trigger none);
  condition = some hot;
  action =
      email_action (record { to = codes "ops"; subject = codes "hot"; body = codes "too hot" });
  last_triggered = at 1;
  last_action_done = at 1;
  error_logs = [];
  action_done_on_last_trigger = false;
}

abbrev hourly : Automation ℤ
hourly = record alarm {
  id = codes "a2";
  trigger = new_trigger (interval_trigger (pos (3600 * second)));
}

abbrev pub on : Entries ℤ → Event ℤ
on ctx = record { clock = clock; transport = mute; context = ctx }

abbrev events : List (Event ℤ)
events = on seen_machine ∷ on seen_machine ∷ on named ∷ on seen_machine ∷ []

action_on_rising_edge_example : length (run_triggered nanos alarm events).requests ≡ 2
unfolding run_triggered on_triggered trigger_type equal render_template do_action evaluate get
action_on_rising_edge_example = action_on_rising_edge nanos alarm events refl refl

action_on_each_interval_example : length (run_triggered nanos hourly events).requests ≡ 3
unfolding run_triggered on_triggered trigger_type equal render_template do_action evaluate get
action_on_each_interval_example = action_on_each_interval nanos hourly events refl refl

abbrev renewed : Automation ℤ
renewed = record hourly {
  trigger = record { kind = hourly.trigger.kind; closed = true; started = 1 };
}

abbrev due_later : List Wake
due_later =
    record { due = false; closed = true; picks_due = true }
    ∷ record { due = true; closed = true; picks_due = true }
    ∷ []

reenabled_is_silent_example : interval_loop 0 due_later ≡ []
unfolding enable disable register deregister
reenabled_is_silent_example =
    ((reenabled_is_silent (at 20) hourly renewed refl refl).3
      (record { due = false; closed = true; picks_due = true })
      (record { due = true; closed = true; picks_due = true } ∷ []) refl refl).1

abbrev twice_a_second : Automation ℤ
twice_a_second = record alarm { trigger = new_trigger (interval_trigger (pos 500_000_000)) }

to_automation-to_communicable_example :
    to_automation nanos (to_communicable nanos twice_a_second)
    ≡ ok (record twice_a_second { trigger = new_trigger (interval_trigger (pos 0)) })
to_automation-to_communicable_example = to_automation-to_communicable nanos twice_a_second

abbrev pub works : Env
works = record { now = at 20; works = true }

abbrev empty : State ℤ
empty = record { automations = []; rows = []; unsubscribed = [] }

abbrev stranger : Call ℤ
stranger = record { env = works; authorization = []; request = clear_logs (codes "a1") }

abbrev operator_call : Call ℤ
operator_call = record stranger { authorization = codes "Bearer s" }

serve-admitted_example :
    (serve nanos
      (codes "s")
      (operator_call ∷ stranger ∷ operator_call ∷ [])
      (record { locked = false; state = empty })).0.locked
    ≡ true
unfolding equal
serve-admitted_example =
    (serve-admitted nanos (codes "s") (operator_call ∷ stranger ∷ operator_call ∷ [])
      (record { locked = false; state = empty }) refl).2

-- What a scan leaves that fails before the type of the trigger.
abbrev half_read : AutomationCommunicable ℤ
half_read = record {
  id = codes "a1";
  enabled = true;
  trigger = record { type_ = []; time = pos 0; every = pos 0 };
  condition = none;
  action = record { type_ = []; email = none; slack = none };
  last_triggered = at 0;
  last_action_done = at 0;
  error_logs = [];
}

abbrev one_listener : Alerts ℕ
one_listener = record { listeners = (0, none) ∷ []; next = 1 }

deregister_before_start_example :
    buffer 1 (deregister_refresh (start_goroutine (alarm.trigger, one_listener))).1.listeners ≡ none
deregister_before_start_example = (deregister_before_start alarm.trigger one_listener refl refl).0
