-- ===== src/Profiles/Detector.antt =====
-- pkg/profiles/detector.go: the profile whose rule scores highest for an entry. Scores and
-- priorities are numbers; logging is left out.
use logsieve.Prelude.{
  ℕ, ◌+◌, ◌*◌, ◌≤◌, ◌<◌, String, List, [], ◌∷◌, ◌++◌, none, some, ltb, ◌==◌, if◌then◌else◌, str_eq,
  contains, contains_lower, has_any, All, ◌≡◌, refl, arith,
}
use logsieve.Ingestion.Entry.{LogEntry, Heap, label_of}

pub record DetectionRule : Type 0 where
  pub profile_name : String
  pub image_patterns : List String
  pub log_patterns : List String
  pub priority : ℕ

abbrev pub default_detection_rules : List DetectionRule
default_detection_rules =
    record {
      profile_name = "nginx";
      image_patterns = "nginx" ∷ "nginx:" ∷ "bitnami/nginx" ∷ [];
      log_patterns = "\\d+\\.\\d+\\.\\d+\\.\\d+ - -" ∷ "\"GET " ∷ "\"POST " ∷ "HTTP/1.1\"" ∷ [];
      priority = 10;
    }
    ∷ record {
      profile_name = "postgres";
      image_patterns = "postgres" ∷ "postgres:" ∷ "postgresql" ∷ "bitnami/postgresql" ∷ [];
      log_patterns = "LOG:" ∷ "ERROR:" ∷ "FATAL:" ∷ "database system" ∷ "connection received" ∷ [];
      priority = 10;
    }
    ∷ record {
      profile_name = "java-spring";
      image_patterns = "openjdk" ∷ "java:" ∷ "spring" ∷ [];
      log_patterns =
          "org.springframework" ∷ "java.lang." ∷ "ERROR" ∷ "INFO" ∷ "DEBUG" ∷ "SpringApplication"
          ∷ [];
      priority = 8;
    }
    ∷ record {
      profile_name = "redis";
      image_patterns = "redis" ∷ "redis:" ∷ "bitnami/redis" ∷ [];
      log_patterns = "Redis server" ∷ "Ready to accept connections" ∷ "DB loaded from disk" ∷ [];
      priority = 10;
    }
    ∷ record {
      profile_name = "mysql";
      image_patterns = "mysql" ∷ "mysql:" ∷ "mariadb" ∷ "percona" ∷ [];
      log_patterns = "mysqld:" ∷ "InnoDB:" ∷ "Query_time:" ∷ "ready for connections" ∷ [];
      priority = 10;
    }
    ∷ []

-- The name that the image patterns are looked for in: the label container_image, or else image, or
-- else the container's name.
unfoldable pub image_name : Heap → LogEntry → String
image_name h e = elim (label_of h e "container_image") [
  | some image ↦ image
  | none ↦ elim (label_of h e "image") [ some image ↦ image | none ↦ e.container_name ]
]

unfoldable pub check_image_patterns : Heap → LogEntry → List String → ℕ
check_image_patterns h e patterns =
    if str_eq (image_name h e) ""
    then 0
    else if has_any (contains_lower (image_name h e)) patterns
    then 10
    else 0

abbrev pub match_count : String → List String → ℕ
match_count message [] = 0
match_count message (p ∷ ps) = (if contains message p then 1 else 0) + match_count message ps

unfoldable pub check_log_patterns : LogEntry → List String → ℕ
check_log_patterns e patterns =
    if match_count e.message patterns == 0 then 0 else match_count e.message patterns * 2

unfoldable pub calculate_score : Heap → LogEntry → DetectionRule → ℕ
calculate_score h e rule =
    (check_image_patterns h e rule.image_patterns + check_log_patterns e rule.log_patterns)
    * rule.priority

-- The loop of Detect, from the best rule so far.
unfoldable pub detect_from : Heap → LogEntry → List DetectionRule → String → ℕ → String × ℕ
detect_from h e [] best score = (best, score)
detect_from h e (rule ∷ rules) best score =
    let s = calculate_score h e rule in
    detect_from h e rules (if ltb score s then rule.profile_name else best)
      (if ltb score s then s else score)

unfoldable pub detect : Heap → List DetectionRule → LogEntry → String
detect h rules e = let r = detect_from h e rules "" 0 in if ltb 0 r.1 then r.0 else ""

unfoldable pub add_rule : DetectionRule → List DetectionRule → List DetectionRule
add_rule rule rules = rules ++ rule ∷ []

-- No rule of a list scores above a limit.
abbrev pub AtMost : Heap → LogEntry → ℕ → List DetectionRule → Type 0
AtMost h e limit = All (λ (r : DetectionRule). calculate_score h e r ≤ limit)

-- Every rule of a list scores below a limit.
abbrev pub Below : Heap → LogEntry → ℕ → List DetectionRule → Type 0
Below h e limit = All (λ (r : DetectionRule). calculate_score h e r < limit)

detect_from_rest :
    (h : Heap) (e : LogEntry) (rules : List DetectionRule) (best : String) (score : ℕ)
    → AtMost h e score rules
    → detect_from h e rules best score ≡ (best, score)
unfolding detect_from
detect_from_rest h e [] best score a = refl
detect_from_rest h e (rule ∷ rules) best score a =
    ground (arith, a.0, detect_from_rest h e rules best score a.1)

detect_from_winner :
    (h : Heap) (e : LogEntry) (before after : List DetectionRule) (rule : DetectionRule)
    (best : String) (score : ℕ)
    → Below h e (calculate_score h e rule) before
    → AtMost h e (calculate_score h e rule) after
    → score < calculate_score h e rule
    → detect_from h e (before ++ rule ∷ after) best score
      ≡ (rule.profile_name, calculate_score h e rule)
unfolding detect_from
detect_from_winner h e [] after rule best score b a l =
    ground (arith, detect_from_rest h e after rule.profile_name (calculate_score h e rule) a)
detect_from_winner h e (r ∷ before) after rule best score b a l =
    detect_from_winner h e before after rule _ _ b.1 a (ground arith)

-- Detect names the profile of the first rule with the greatest score, where that is not 0, and no
-- profile where all the scores are 0.
pub detect_best :
    (h : Heap) (e : LogEntry) (before after : List DetectionRule) (rule : DetectionRule)
    → (Below h e (calculate_score h e rule) before
        → AtMost h e (calculate_score h e rule) after
        → 0 < calculate_score h e rule
        → detect h (before ++ rule ∷ after) e ≡ rule.profile_name)
      × (AtMost h e 0 before → detect h before e ≡ "")
unfolding detect
detect_best h e before after rule = (
  λ b a l. ground (arith, detect_from_winner h e before after rule "" 0 b a l),
  λ z. ground (arith, detect_from_rest h e before "" 0 z),
)
