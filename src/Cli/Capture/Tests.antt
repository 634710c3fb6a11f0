-- ===== src/Cli/Capture/Tests.antt =====
-- A capture of one line (cmd/logsieve/main.go).
use logsieve.Prelude.{◌+◌, String, Bool, true, false, [], ◌∷◌, some, length, ◌≡◌, refl}
use logsieve.Cli.Capture.{
  unknown_source, Machine, Flags, prepare, capture_source, Main, Capture, Step, Reach,
}
use logsieve.Cli.Capture.Complete.{capture_complete}

abbrev every_line : String → Bool
every_line line = true

abbrev one_line : Capture
one_line = record {
  produced = "a" ∷ [];
  pipe = [];
  written = "a" ∷ [];
  lost = [];
  counted = 1;
  runs = false;
  cancelled = false;
  reader_ended = true;
  main = Main.reported 1;
}

one_line_reached : Reach (some 60) every_line one_line
one_line_reached =
    Reach.later
      (Reach.later
        (Reach.later
          (Reach.later (Reach.later (Reach.later Reach.start (Step.prints "a" refl)) Step.exits)
            (Step.copies "a" [] refl refl refl))
          (Step.sees_end refl refl))
        (Step.hears_reader refl refl))
      (Step.waits refl refl)

capture_complete_example :
    (1 ≡ length one_line.produced)
    × (1 ≡ length one_line.written + length one_line.lost)
    × (one_line.lost ≡ [] → one_line.written ≡ one_line.produced)
capture_complete_example = capture_complete (λ line. refl) one_line 1 one_line_reached refl refl

abbrev machine : Machine
machine = record {
  has_docker = false;
  has_kubectl = true;
  parse_duration = λ text. some 3600;
  creates = λ name. true;
  starts = λ program arguments. true;
}

abbrev flags : Flags
flags = record {
  container = "web";
  duration = "1h";
  output = "web.log";
  follow = true;
  source = "podman";
}

-- The file web.log has been made anew by then.
unknown_after_create : (prepare machine flags).0 ≡ some unknown_source
unfolding prepare capture_source
unknown_after_create = refl
