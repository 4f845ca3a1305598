-- ===== src/Kwin/Observer/Tests.antt =====
-- src/kwin-virtual-desktops/main.cpp: an observer that attaches to KWin, hears it, and is told to stop.
use nagi_shell.Prelude.{◌≡◌, refl, true, some, List, [], ◌∷◌, any, list_eq}
use nagi_shell.Prelude.Int.{pos}
use nagi_shell.Notifications.Text.{QString, literal}
use nagi_shell.Json.{string, object, end, field, value, has_exact_keys}
use nagi_shell.Bytes.{split_lines}
use nagi_shell.Kwin.Snapshot.{Codec}
use nagi_shell.Kwin.Observer.{Session, shutdown, detach_owner, retire_generation}
use nagi_shell.Kwin.Observer.Commands.{
  is_shutdown, read_bytes, consume_lines, take_line, keep_rest, handle_frame,
}
use nagi_shell.Kwin.Observer.Events.{
  initial, Event, initialized, owner_changed, published, input_read, timed_out, step, run,
}
use nagi_shell.Kwin.Observer.Validity.{IsOrderly}
use nagi_shell.Kwin.Observer.Validity.Histories.{run-initial-IsOrderly, run-shutdown}
use nagi_shell.Kwin.Observer.Scripts.{open_at, live}
use nagi_shell.Kwin.Observer.Scripts.Histories.{run-initial-Tidy}
use nagi_shell.Kwin.Observer.Framing.{obeys, feed, concat, feed_lem}

-- A parser that reads every frame as the command.
abbrev stopping : Codec
stopping = record {
  to_utf8 = λ t. t;
  from_json = λ l. some (object (field (literal "op") (string (literal "shutdown")) end));
  to_json = λ j. literal "printed";
}

abbrev answers : Session
answers = record {
  codec = stopping;
  token = literal "00112233445566778899aabbccddeeff";
  template = some (literal "@NAGI_HELPER_DESTINATION@ @NAGI_SCRIPT_GENERATION@");
  json_literal = λ t. t;
  writes_script = λ script. true;
  loads = some (pos 3);
  runs = true;
  callable = λ name. true;
  connected = true;
  base_service = literal ":1.7";
  registers = true;
  prints = true;
  prints_ready = true;
  service_owner = literal ":1.2";
}

abbrev epoch : QString
epoch = literal "ffeeddccbbaa99887766554433221100"

abbrev history : List (Session × Event)
history =
    (answers, initialized)
    ∷ (answers, published (some (literal ":1.2")) answers.token (literal "{}"))
    ∷ (answers, owner_changed (literal ":1.9"))
    ∷ (answers, timed_out)
    ∷ (answers, input_read (literal "stop\n"))
    ∷ []

run-initial-IsOrderly_example : IsOrderly (run history (initial epoch))
run-initial-IsOrderly_example =
    run-initial-IsOrderly epoch history (refl, (refl, (refl, (refl, (refl, tt)))))

-- The command alone.
abbrev stopped : List (Session × Event)
stopped = (answers, input_read (literal "stop\n")) ∷ []

run-shutdown_example : run history (run stopped (initial epoch)) ≡ run stopped (initial epoch)
unfolding run step initial read_bytes consume_lines take_line keep_rest handle_frame is_shutdown
    shutdown detach_owner retire_generation split_lines value list_eq has_exact_keys
run-shutdown_example = run-shutdown epoch stopped history (refl, tt) refl

feed_lem_example :
    (feed answers (literal "st" ∷ literal "op\n\n" ∷ []) (initial epoch)).shutting_down
    ≡ any (obeys stopping) (split_lines (concat (literal "st" ∷ literal "op\n\n" ∷ []))).lines
unfolding initial
feed_lem_example =
    feed_lem answers (literal "st" ∷ literal "op\n\n" ∷ []) (initial epoch) refl refl refl

-- The script at the first owner was unloaded.
run-initial-Tidy_example :
    open_at (literal ":1.2") (run history (initial epoch)).calls
    ≡ live
        (literal ":1.2")
        (run history (initial epoch)).active_owner
        (run history (initial epoch)).plugin_name
run-initial-Tidy_example =
    run-initial-Tidy (literal ":1.2") epoch history refl
      ((refl, refl), ((refl, refl), ((refl, refl), ((refl, refl), ((refl, refl), tt)))))
