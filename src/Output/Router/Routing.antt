-- ===== src/Output/Router/Routing.antt =====
-- Route of pkg/output/router.go with its Sends, Close and Stats. The outputs of one Route are served
-- one after another, in the order of the routing map; each has its own answers to the Sends and its
-- own reading of the clock.
use logsieve.Prelude.{
  ℕ, zero, suc, ◌++◌, append-nil, String, Bool, List, [], ◌∷◌, Option, none, some, keep, length,
  Dict, lookup, ◌≡◌, refl, ap, ◌∙◌, arith, Option-cases, inl, inr,
}
use logsieve.Ingestion.Entry.{LogEntry, Heap}
use logsieve.Output.Retry.{Environment, successes-send_loop}
use logsieve.Output.Router.{
  Router, RouteError, keys, or_nil, get_adapter_names, determine_outputs, build_routing_map,
  send_to_output, or_default, config_of,
}
use logsieve.Output.Router.Routes.{AreDistinct, has_name, lookup-build_routing_map}

-- The errors with the outputs' names, the entries of each output's Sends that returned no error, and
-- the router after it.
pub record Routed : Type 0 where
  pub errors : List (String × RouteError)
  pub delivered : Dict (List LogEntry)
  pub router : Router

-- The entries as often as a Send of them returned no error.
abbrev pub times : ℕ → List LogEntry → List LogEntry
times zero es = []
times (suc n) es = es ++ times n es

abbrev add_result : String → List LogEntry → Option RouteError × ℕ × ℕ → Routed → Routed
add_result name es (none, tries, successes) r = record r {
  delivered = (name, times successes es) ∷ r.delivered;
}
add_result name es (some e, tries, successes) r = record r {
  errors = (name, e) ∷ r.errors;
  delivered = (name, times successes es) ∷ r.delivered;
}

unfoldable pub serve_outputs : (String → Environment × ℕ) → Dict (List LogEntry) → Router → Routed
serve_outputs answers [] r = record { errors = []; delivered = []; router = r }
serve_outputs answers ((name, es) ∷ m) r =
    let s = send_to_output (answers name).0 (answers name).1 name r in
    add_result name es s.0 (serve_outputs answers m s.1)

unfoldable pub route : (String → Environment × ℕ) → Heap → List LogEntry → Router → Routed
route answers h es r = serve_outputs answers (build_routing_map r h es []) r

-- The errors of the adapters' Close.
unfoldable pub close : (String → Bool) → Router → List String
close fails r = keep fails (keys r.adapters)

pub record RouterStats : Type 0 where
  pub adapter_count : ℕ
  pub adapters : List String

unfoldable pub stats : Router → RouterStats
stats r = record { adapter_count = length r.adapters; adapters = get_adapter_names r }

once :
    (env : Environment) (now : ℕ) (name : String) (r : Router)
    → (send_to_output env now name r).0.0 ≡ none
    → (send_to_output env now name r).0.2 ≡ 1
unfolding send_to_output
once env now name r n = ground (
  arith,
  n,
  successes-send_loop env (or_default 1 (config_of r name).retries) 0
      (or_default 5000000000 (config_of r name).max_backoff)
      (or_default 250000000 (config_of r name).initial_backoff) (lookup name r.breakers),
)

serve_all :
    (answers : String → Environment × ℕ) (m : Dict (List LogEntry)) (r : Router)
    → (serve_outputs answers m r).errors ≡ []
    → (serve_outputs answers m r).delivered ≡ m
unfolding serve_outputs
serve_all answers [] r e = refl
serve_all answers ((name, es) ∷ m) r e =
    let s = send_to_output (answers name).0 (answers name).1 name r in
    elim (Option-cases s.0.0) [
      | inl n ↦ ground (
        arith,
        n,
        e,
        once (answers name).0 (answers name).1 name r n,
        append-nil es,
        serve_all answers m s.1,
      )
      | inr (x, f) ↦ absurd (ground (arith, f, e))
    ]

-- When Route reports no error, the Sends of each output that returned none had exactly the entries of
-- the batch that are for it, in their order and each once, where the adapters have distinct names.
pub route_delivers :
    (answers : String → Environment × ℕ) (h : Heap) (es : List LogEntry) (r : Router)
    (name : String)
    → AreDistinct (keys r.adapters)
    → (route answers h es r).errors ≡ []
    → or_nil (lookup name (route answers h es r).delivered)
      ≡ keep (λ e. has_name name (determine_outputs r h e)) es
unfolding route
route_delivers answers h es r name d e =
    ap (λ m. or_nil (lookup name m)) (serve_all answers (build_routing_map r h es []) r e)
    ∙ lookup-build_routing_map r h es name d
