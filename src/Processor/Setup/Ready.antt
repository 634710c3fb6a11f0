-- ===== src/Processor/Setup/Ready.antt =====
-- When a processor can be made (NewProcessor of pkg/processor/processor.go), and that it then never
-- panics on a batch.
use logsieve.Prelude.{
  ◌/◌, ◌==◌, String, Bool, true, false, not, ◌&&◌, ◌||◌, List, [], ◌∷◌, map, Option, none, some,
  if◌then◌else◌, str_eq, has_any, insert, subst, sym, Dict, ◌≡◌, refl, ap, ◌∙◌, arith, Option-cases,
  Bool-cases, inl, inr,
}
use logsieve.Ingestion.Entry.{LogEntry, Heap}
use logsieve.Dedup.Engine.{Times}
use logsieve.Profiles.Manager.Creation.{new_manager}
use logsieve.Profiles.Manager.Processing.{HasGeneric}
use logsieve.Profiles.Manager.Loading.Generic.{load_profiles-HasGeneric}
use logsieve.Output.Router.{
  Router, is_nil, is_supported, create_adapter, put_adapter, initialize_adapters, no_adapters,
  new_router,
}
use logsieve.Output.Router as Router
use logsieve.Config.{Config, OutputConfig}
use logsieve.Processor.{Processor, process_batch}
use logsieve.Processor.Passing.{process_batch_returns}
use logsieve.Processor.Setup.{
  router_config, Startup, panics, fails, ready, Assembled, Environment, loaded_manager,
  new_processor, adapter_panics, buffer_panics,
}

abbrev pub is_ready : {P : Type 0} → Startup P → Bool
is_ready panics = false
is_ready fails = false
is_ready (ready p) = true

-- An output that an adapter can be made for.
abbrev pub creates : (Router.OutputConfig → Bool) → OutputConfig → Bool
creates constructs o =
    is_supported o.kind && (str_eq o.kind "stdout" || constructs (router_config o))

is_nil-insert : {V : Type 0} (name : String) (v : V) (m : Dict V) → is_nil (insert name v m) ≡ false
unfolding insert
is_nil-insert name v [] = refl
is_nil-insert name v ((k, w) ∷ m) = ground arith

created :
    (constructs : Router.OutputConfig → Bool) (o : OutputConfig)
    → create_adapter constructs (router_config o)
      ≡ (if creates constructs o then some o.name else none)
unfolding create_adapter
created constructs o = refl

is_nil-initialize :
    (constructs : Router.OutputConfig → Bool) (os : List OutputConfig) (r : Router)
    → is_nil (initialize_adapters constructs (map router_config os) r).adapters
      ≡ is_nil r.adapters && not (has_any (creates constructs) os)
unfolding initialize_adapters
is_nil-initialize constructs [] r = ground arith
is_nil-initialize constructs (o ∷ os) r =
    let after = λ (a : Option String).
      is_nil
        (initialize_adapters constructs (map router_config os)
          (put_adapter a (router_config o) r)).adapters in
    elim (Bool-cases (creates constructs o)) [
      | inl y ↦
          ap after (created constructs o ∙ ap (λ b. if b then some o.name else none) y)
          ∙ ground (
            arith,
            y,
            is_nil-initialize constructs os (put_adapter (some o.name) (router_config o) r),
            is_nil-insert o.name o.name r.adapters,
          )
      | inr n ↦
          ap after (created constructs o ∙ ap (λ b. if b then some o.name else none) n)
          ∙ ground (arith, n, is_nil-initialize constructs os r)
    ]

new_router-none :
    (constructs : Router.OutputConfig → Bool) (os : List OutputConfig)
    → has_any (creates constructs) os ≡ false
    → new_router constructs (map router_config os) ≡ none
unfolding new_router
new_router-none constructs os n = ground (arith, n, is_nil-initialize constructs os no_adapters)

new_router-some :
    (constructs : Router.OutputConfig → Bool) (os : List OutputConfig)
    → has_any (creates constructs) os ≡ true
    → (r : Router) × (new_router constructs (map router_config os) ≡ some r)
unfolding new_router
new_router-some constructs os y = (
  initialize_adapters constructs (map router_config os) no_adapters,
  ground (arith, y, is_nil-initialize constructs os no_adapters),
)

module _ {Key Signature D : Type 0} (L : Type 0) (env : Environment Key Signature D) where
  -- A processor can be made of a configuration exactly when the lifetime of fingerprints has at least
  -- two nanoseconds, no S3 adapter's interval makes its ticker panic, the buffer can be made, and an
  -- adapter can be made for some output.
  pub new_processor-is_ready :
      (c : Config)
      → is_ready (new_processor env {L = L} c)
        ≡ not (c.dedup.fingerprint_ttl / 2 == 0)
          && not (has_any (adapter_panics env) c.outputs)
          && not (buffer_panics env c.ingestion)
          && has_any (creates env.constructs) c.outputs
  unfolding new_processor
  new_processor-is_ready c = elim (Bool-cases (has_any (creates env.constructs) c.outputs)) [
    | inl y ↦ (let made = new_router-some env.constructs c.outputs y in ground (arith, made.1, y))
    | inr n ↦ ground (arith, new_router-none env.constructs c.outputs n, n)
  ]

  ready_profiles :
      (c : Config) (a : Assembled Key L)
      → new_processor env c ≡ ready a
      → a.processor.profiles ≡ loaded_manager env c
  unfolding new_processor
  ready_profiles c a e =
      elim (Option-cases (new_router env.constructs (map router_config c.outputs))) [
        | inl n ↦ absurd (ground (arith, n, e))
        | inr (r, s) ↦ ground (arith, s, e)
      ]

  module _ (get_fingerprint : String → String) where
    -- The batches one after another: nothing where one of them panics.
    unfoldable pub process_batches :
        List (List (Times × LogEntry)) → Heap → Processor Key → Option (Heap × Processor Key)
    process_batches [] h p = some (h, p)
    process_batches (batch ∷ batches) h p = elim (process_batch env.re get_fingerprint batch h p) [
      | none ↦ none
      | some (routes, maps, after) ↦ process_batches batches maps after
    ]

    batches_return :
        (batches : List (List (Times × LogEntry))) (h : Heap) (p : Processor Key)
        → HasGeneric p.profiles
        → (r : Heap × Processor Key) × (process_batches batches h p ≡ some r)
    unfolding process_batches
    batches_return [] h p g = (_, refl)
    batches_return (batch ∷ batches) h p g =
        let r = process_batch_returns env.re get_fingerprint batch h p g in
        let rest = batches_return batches (r.0).1 (r.0).2 (subst HasGeneric (sym r.2) g) in
        (rest.0, rw (r.1, process_batches) rest.1)

    -- A processor that was made panics on no batch that it is given, up to the Sends: whatever the
    -- configuration and the files of profiles, a sequence of batches has a result.
    pub ready_processes :
        (c : Config) (a : Assembled Key L) (batches : List (List (Times × LogEntry))) (h : Heap)
        → new_processor env c ≡ ready a
        → (r : Heap × Processor Key) × (process_batches batches h a.processor ≡ some r)
    ready_processes c a batches h e =
        let g =
          load_profiles-HasGeneric env.re env.crypto env.unmarshal env.listing c.profiles.local_path
            c.profiles.cache_path (new_manager env.base64 env.hex c.profiles) in
        batches_return batches h a.processor (subst HasGeneric (sym (ready_profiles c a e)) g)
