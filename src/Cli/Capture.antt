-- ===== src/Cli/Capture.antt =====
-- The command capture of cmd/logsieve/main.go: what it runs, and the life of a capture as a relation
-- between states: the command that is run, the goroutine that copies its lines, the timer, the signal
-- and the goroutine of the command take their steps in any order. The tools that are there, reading a
-- duration, os.Create and starting a program are parameters, and so are the lines that bufio.Scanner
-- takes, which are those of less than 64 KiB.
pub mod Complete
pub mod Tests
use logsieve.Prelude.{
  ℕ, ◌+◌, String, Bool, true, false, not, ◌&&◌, ◌||◌, List, [], ◌∷◌, ◌++◌, Option, none, some,
  length, if◌then◌else◌, str_eq, ◌≡◌,
}

pub data CaptureError : Type 0 where
  no_tool invalid_duration create_fails unknown_source start_fails : CaptureError

pub record Flags : Type 0 where
  pub container : String
  pub duration : String
  pub output : String
  pub follow : Bool
  pub source : String

pub record Machine : Type 0 where
  pub has_docker : Bool
  pub has_kubectl : Bool
  pub parse_duration : String → Option ℕ
  pub creates : String → Bool
  pub starts : String → List String → Bool

-- The program with its arguments, the time limit, and the file that was made, or nothing for the
-- standard output.
pub record Plan : Type 0 where
  pub program : String
  pub arguments : List String
  pub limit : Option ℕ
  pub file : Option String

unfoldable pub capture_source : Machine → String → Option String
capture_source m source =
    if str_eq source "auto" || str_eq source ""
    then (if m.has_docker then some "docker" else (if m.has_kubectl then some "kubectl" else none))
    else some source

abbrev pub file_of : String → Option String
file_of output = if not (str_eq output "") && not (str_eq output "-") then some output else none

abbrev pub can_write : Machine → Option String → Bool
can_write m none = true
can_write m (some name) = m.creates name

unfoldable pub arguments_of : Flags → List String
arguments_of f =
    "logs" ∷ ((if f.follow then "-f" ∷ [] else []) ++ "--timestamps" ∷ f.container ∷ [])

-- Up to the Start of the program; the file is made before the source is looked at.
abbrev pub start_program : Machine → Flags → ℕ → String → Option CaptureError × Option Plan
start_program m f limit source =
    if not (str_eq source "docker" || str_eq source "kubectl")
    then (some unknown_source, none)
    else if m.starts source (arguments_of f)
    then (
      none,
      some (record {
        program = source;
        arguments = arguments_of f;
        limit = if f.follow then none else some limit;
        file = file_of f.output;
      }),
    )
    else (some start_fails, none)

unfoldable pub prepare : Machine → Flags → Option CaptureError × Option Plan
prepare m f = elim (capture_source m f.source) [
  | none ↦ (some no_tool, none)
  | some source ↦ elim (m.parse_duration f.duration) [
    | none ↦ (some invalid_duration, none)
    | some limit ↦
        if can_write m (file_of f.output)
        then start_program m f limit source
        else (some create_fails, none)
  ]
]

pub data Main : Type 0 where
  selecting reaping : Main
  reported : ℕ → Main

pub record Capture : Type 0 where
  pub produced : List String
  pub pipe : List String
  pub written : List String
  pub lost : List String
  pub counted : ℕ
  pub runs : Bool
  pub cancelled : Bool
  pub reader_ended : Bool
  pub main : Main

abbrev pub begun : Capture
begun = record {
  produced = [];
  pipe = [];
  written = [];
  lost = [];
  counted = 0;
  runs = true;
  cancelled = false;
  reader_ended = false;
  main = selecting;
}

abbrev pub is_reported : Main → Bool
is_reported (reported n) = true
is_reported _ = false

-- The error of Fprintln is not looked at: a line that it does not write is counted and lost. Wait
-- closes the pipe once the program has ended.
pub data Step (limit : Option ℕ) (scans : String → Bool) (s : Capture) : Capture → Type 0 where
  prints :
      (line : String)
      → s.runs ≡ true
      → Step limit scans s
          (record s { produced = s.produced ++ line ∷ []; pipe = s.pipe ++ line ∷ [] })
  exits : Step limit scans s (record s { runs = false })
  is_interrupted : Step limit scans s (record s { cancelled = true })
  time_is_up : (n : ℕ) → limit ≡ some n → Step limit scans s (record s { cancelled = true })
  copies :
      (line : String) (rest : List String)
      → s.reader_ended ≡ false
      → s.pipe ≡ line ∷ rest
      → scans line ≡ true
      → Step limit scans s
          (record s { written = s.written ++ line ∷ []; pipe = rest; counted = s.counted + 1 })
  loses :
      (line : String) (rest : List String)
      → s.reader_ended ≡ false
      → s.pipe ≡ line ∷ rest
      → scans line ≡ true
      → Step limit scans s
          (record s { pipe = rest; counted = s.counted + 1; lost = s.lost ++ line ∷ [] })
  gives_up :
      (line : String) (rest : List String)
      → s.pipe ≡ line ∷ rest
      → scans line ≡ false
      → Step limit scans s (record s { reader_ended = true })
  sees_end : s.pipe ≡ [] → s.runs ≡ false → Step limit scans s (record s { reader_ended = true })
  finds_pipe_closed :
      is_reported s.main ≡ true → Step limit scans s (record s { reader_ended = true })
  kills :
      s.main ≡ selecting
      → s.cancelled ≡ true
      → Step limit scans s (record s { main = reaping; runs = false })
  hears_reader :
      s.main ≡ selecting → s.reader_ended ≡ true → Step limit scans s (record s { main = reaping })
  waits :
      s.main ≡ reaping
      → s.runs ≡ false
      → Step limit scans s (record s { main = reported s.counted })

pub data Reach (limit : Option ℕ) (scans : String → Bool) : Capture → Type 0 where
  start : Reach limit scans begun
  later : {s t : Capture} → Reach limit scans s → Step limit scans s t → Reach limit scans t
