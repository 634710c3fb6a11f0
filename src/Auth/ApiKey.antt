-- ===== src/Auth/ApiKey.antt =====
-- pkg/auth/middleware.go: a request passes if a key from the header, a bearer token or the query
-- parameter is allowed. c.Next() is `passes`, the 401 response with c.Abort() is `unauthorized`.
use logsieve.Prelude.{
  ℕ, zero, suc, String, Bool, true, false, not, ◌&&◌, ◌||◌, List, [], ◌∷◌, Option, none, some,
  if◌then◌else◌, str_eq, length, Dict, lookup, insert, delete, lookup-insert, lookup-delete,
  has_prefix, ◌≡◌, refl, arith, ◌⊎◌, inl, inr, Bool-cases, Option-cases,
}

pub record Config : Type 0 where
  pub enabled : Bool
  pub api_keys : List String
  pub bearer_auth : Bool
  pub basic_auth : Bool

pub record AuthMiddleware : Type 0 where
  pub config : Config
  pub api_keys : Dict Bool

-- What the middleware reads of a request; a missing header or parameter is the empty text.
pub record Request : Type 0 where
  pub api_key_header : String
  pub authorization : String
  pub api_key_query : String

pub data Reply : Type 0 where
  passes unauthorized : Reply

unfoldable pub add_keys : List String → Dict Bool → Dict Bool
add_keys [] m = m
add_keys (k ∷ ks) m = add_keys ks (insert k true m)

unfoldable pub new_auth_middleware : Config → AuthMiddleware
unfolding add_keys
new_auth_middleware config = record { config = config; api_keys = add_keys config.api_keys [] }

-- A missing key reads as false.
abbrev pub flag : Option Bool → Bool
flag none = false
flag (some b) = b

unfoldable pub validate_api_key : AuthMiddleware → String → Bool
validate_api_key am key = if str_eq key "" then false else flag (lookup key am.api_keys)

-- strings.CutPrefix(header, "Bearer ")
unfoldable pub skip : ℕ → String → String
skip zero s = s
skip (suc n) String.[] = ""
skip (suc n) (String.◌∷◌ c s) = skip n s

unfoldable pub cut_bearer : String → Option String
unfolding skip
cut_bearer header = if has_prefix header "Bearer " then some (skip 7 header) else none

abbrev by_bearer : AuthMiddleware → String → Bool
by_bearer am header = elim (cut_bearer header) [
  | none ↦ false
  | some token ↦ validate_api_key am token
]

unfoldable pub middleware : AuthMiddleware → Request → Reply
middleware am r =
    if not am.config.enabled
    then passes
    else (let by_header =
          not (str_eq r.api_key_header "") && validate_api_key am r.api_key_header in
        let authenticated = by_header || (am.config.bearer_auth && by_bearer am r.authorization) in
        let by_query = not (str_eq r.api_key_query "") && validate_api_key am r.api_key_query in
        if authenticated || by_query then passes else unauthorized)

unfoldable pub add_api_key : String → AuthMiddleware → AuthMiddleware
add_api_key key am = record am { api_keys = insert key true am.api_keys }

unfoldable pub remove_api_key : String → AuthMiddleware → AuthMiddleware
remove_api_key key am = record am { api_keys = delete key am.api_keys }

unfoldable pub get_key_count : AuthMiddleware → ℕ
get_key_count am = length am.api_keys

-- The keys that a request offers, for the methods that are switched on.
abbrev pub Offers : AuthMiddleware → Request → String → Type 0
Offers am r key =
    (r.api_key_header ≡ key)
    ⊎ ((am.config.bearer_auth ≡ true) × (cut_bearer r.authorization ≡ some key))
    ⊎ (r.api_key_query ≡ key)

valid-ne-empty :
    (am : AuthMiddleware) (key : String) → validate_api_key am key ≡ true → str_eq key "" ≡ false
unfolding validate_api_key
valid-ne-empty am key h = ground arith

-- A request that passes names its key.
key_of_pass :
    (am : AuthMiddleware) (r : Request)
    → am.config.enabled ≡ true
    → middleware am r ≡ passes
    → (key : String) × Offers am r key × (validate_api_key am key ≡ true)
unfolding middleware
key_of_pass am r on p = elim (Bool-cases (validate_api_key am r.api_key_header)) [
  | inl v ↦ (r.api_key_header, inl refl, v)
  | inr v ↦ elim (Option-cases (cut_bearer r.authorization)) [
    | inl e ↦ (r.api_key_query, inr (inr refl), ground arith)
    | inr (token, e) ↦ elim (Bool-cases (am.config.bearer_auth && validate_api_key am token)) [
      | inl w ↦ (token, inr (inl (ground arith, e)), ground arith)
      | inr w ↦ (r.api_key_query, inr (inr refl), ground arith)
    ]
  ]
]

-- With authentication switched on, a request passes exactly when it offers a valid key, in the
-- header, as a bearer token where that is enabled, or in the query.
pub middleware_passes_iff :
    (am : AuthMiddleware) (r : Request)
    → am.config.enabled ≡ true
    → ((key : String) → Offers am r key → validate_api_key am key ≡ true → middleware am r ≡ passes)
      × (middleware am r ≡ passes
          → (key : String) × Offers am r key × (validate_api_key am key ≡ true))
unfolding middleware
middleware_passes_iff am r on =
    (λ key o v. ground (arith, valid-ne-empty am key v), key_of_pass am r on)

-- After keys have been added and removed a key is valid as the last change of it says, and the empty
-- text is never valid.
pub validate_api_key-changes :
    (am : AuthMiddleware) (key other : String)
    → (validate_api_key (add_api_key key am) other ≡ (
        if str_eq other ""
        then false
        else if str_eq key other
        then true
        else validate_api_key am other))
      × (validate_api_key (remove_api_key key am) other
          ≡ (if str_eq key other then false else validate_api_key am other))
unfolding validate_api_key add_api_key remove_api_key
validate_api_key-changes am key other =
    ground (arith, lookup-insert key other true am.api_keys, lookup-delete key other am.api_keys)

abbrev pub has_key : String → List String → Bool
has_key key [] = false
has_key key (k ∷ ks) = str_eq k key || has_key key ks

lookup-add_keys :
    (key : String) (ks : List String) (m : Dict Bool)
    → lookup key (add_keys ks m) ≡ (if has_key key ks then some true else lookup key m)
unfolding add_keys
lookup-add_keys key [] m = refl
lookup-add_keys key (k ∷ ks) m =
    ground (arith, lookup-add_keys key ks (insert k true m), lookup-insert k key true m)

-- A new middleware holds exactly the configured keys valid, but for the empty text.
pub validate_api_key-new :
    (config : Config) (key : String)
    → validate_api_key (new_auth_middleware config) key
      ≡ (if str_eq key "" then false else has_key key config.api_keys)
unfolding validate_api_key new_auth_middleware lookup
validate_api_key-new config key = ground (arith, lookup-add_keys key config.api_keys [])
