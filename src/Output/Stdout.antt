-- ===== src/Output/Stdout.antt =====
-- The StdoutAdapter of pkg/output/stdout.go. The line that encoding/json makes of an entry is a
-- parameter, nothing where it reports an error.
use logsieve.Prelude.{
  Bool, true, false, List, [], ◌∷◌, map, Option, none, some, ◌≡◌, refl, arith, Option-cases, inl,
  inr,
}
use logsieve.Ingestion.Entry.{LogEntry}

-- Whether Send reports no error, and the lines that it has printed.
module _ {Line : Type 0} (marshal : LogEntry → Option Line) where
  unfoldable pub send : List LogEntry → Bool × List Line
  send [] = (true, [])
  send (e ∷ es) =
      let rest = send es in
      elim (marshal e) [ none ↦ (false, []) | some line ↦ (rest.0, line ∷ rest.1) ]

  -- Send prints a line for each entry when it reports no error.
  pub send_prints :
      (es : List LogEntry) → (send es).0 ≡ true → map some (send es).1 ≡ map marshal es
  unfolding send
  send_prints [] h = refl
  send_prints (e ∷ es) h = elim (Option-cases (marshal e)) [
    | inl n ↦ absurd (ground (arith, n, h))
    | inr (line, s) ↦ ground (arith, s, h, send_prints es)
  ]
