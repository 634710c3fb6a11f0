-- ===== src/Config/Validation.antt =====
-- What a validated configuration guarantees (validateConfig of pkg/config/loader.go).
use logsieve.Prelude.{
  ◌≤◌, ◌<◌, true, false, ◌||◌, List, [], ◌∷◌, none, str_eq, has_any, is_lower_of, All, ◌≡◌, refl,
  sym, subst, ap, ◌∙◌, arith,
}
use logsieve.Profiles.Rules.{is_in_range}
use logsieve.Config.{
  ServerConfig, OutputConfig, Config, log_levels, fill_output, validate_outputs, validate_config,
}

-- An output after the loop: it has a name, a type and positive numbers. The timeout is left out, which
-- is kept below 0, and is 0 where ten times the write timeout is.
pub record IsFilled (o : OutputConfig) : Type 0 where
  pub named : str_eq o.name "" ≡ false
  pub typed : str_eq o.kind "" ≡ false
  pub batches : 0 < o.batch_size
  pub tries : 0 < o.retries
  pub starts : 0 < o.initial_backoff
  pub limited : 0 < o.max_backoff
  pub counted : 0 < o.max_failures
  pub cools : 0 < o.cooldown

fill_output-IsFilled :
    (server : ServerConfig) (o : OutputConfig)
    → str_eq o.name "" ≡ false
    → str_eq o.kind "" ≡ false
    → IsFilled (fill_output server o)
unfolding fill_output
fill_output-IsFilled server o n k = ground arith

fill_output_idem :
    (server : ServerConfig) (o : OutputConfig)
    → fill_output server (fill_output server o) ≡ fill_output server o
unfolding fill_output
fill_output_idem server o = ground arith

fill_output-name :
    (server : ServerConfig) (o : OutputConfig)
    → str_eq (fill_output server o).name "" ≡ str_eq o.name ""
unfolding fill_output
fill_output-name server o = refl

fill_output-kind :
    (server : ServerConfig) (o : OutputConfig)
    → str_eq (fill_output server o).kind "" ≡ str_eq o.kind ""
unfolding fill_output
fill_output-kind server o = refl

validate_outputs-IsFilled :
    (server : ServerConfig) (os : List OutputConfig)
    → (validate_outputs server os).0 ≡ none
    → All IsFilled (validate_outputs server os).1
unfolding validate_outputs
validate_outputs-IsFilled server [] v = tt
validate_outputs-IsFilled server (o ∷ os) v =
    ground (arith, fill_output-IsFilled server o, validate_outputs-IsFilled server os)

validate_outputs-cons :
    (server : ServerConfig) (o : OutputConfig) (os : List OutputConfig)
    → str_eq o.name "" ≡ false
    → str_eq o.kind "" ≡ false
    → let rest = validate_outputs server os in
      validate_outputs server (o ∷ os) ≡ (rest.0, fill_output server o ∷ rest.1)
unfolding validate_outputs
validate_outputs-cons server o os n k = ground arith

accepted_output :
    (server : ServerConfig) (o : OutputConfig) (os : List OutputConfig)
    → (validate_outputs server (o ∷ os)).0 ≡ none
    → (str_eq o.name "" ≡ false)
      × (str_eq o.kind "" ≡ false)
      × ((validate_outputs server os).0 ≡ none)
unfolding validate_outputs
accepted_output server o os v = ground arith

outputs_again :
    (server : ServerConfig) (os : List OutputConfig)
    → (validate_outputs server os).0 ≡ none
    → validate_outputs server (validate_outputs server os).1
      ≡ (none, (validate_outputs server os).1)
outputs_again server [] v = unfold validate_outputs in refl
outputs_again server (o ∷ os) v =
    let a = accepted_output server o os v in
    let filled = fill_output server o in
    let rest = (validate_outputs server os).1 in
    let first = ap (λ r. r.1) (validate_outputs-cons server o os a.0 a.1) in
    let again : validate_outputs server (filled ∷ rest) ≡ (none, filled ∷ rest) = cc (
      validate_outputs-cons server filled rest (fill_output-name server o ∙ a.0)
          (fill_output-kind server o ∙ a.1),
      outputs_again server os a.2,
      fill_output_idem server o,
    ) in
    subst (λ l. validate_outputs server l ≡ (none, l)) (sym first) again

-- The ranges that validateConfig sees to.
pub record IsChecked (c : Config) : Type 0 where
  pub port : (0 < c.server.port) × (c.server.port ≤ 65535)
  pub metrics_port : c.metrics.enabled ≡ true → (0 < c.metrics.port) × (c.metrics.port ≤ 65535)
  pub batch : 0 < c.ingestion.max_batch_size
  pub threshold : is_in_range c.dedup.similarity_threshold ≡ true
  pub engine : (str_eq c.dedup.engine "drain3" || str_eq c.dedup.engine "simple") ≡ true
  pub level : has_any (is_lower_of c.logging.level) log_levels ≡ true
  pub outputs : All IsFilled c.outputs

-- A configuration that is accepted is in range, with what the loop fills in, and to validate it again
-- changes nothing.
pub validate_config-IsChecked :
    (c : Config)
    → (validate_config c).0 ≡ none
    → IsChecked (validate_config c).1
      × (validate_config (validate_config c).1 ≡ (none, (validate_config c).1))
unfolding validate_config
validate_config-IsChecked c v =
    let again = outputs_again c.server c.outputs in
    let usable = validate_outputs-IsFilled c.server c.outputs in
    (ground (arith, usable), ground (arith, again))
