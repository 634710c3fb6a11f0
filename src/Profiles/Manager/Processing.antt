-- ===== src/Profiles/Manager/Processing.antt =====
-- ProcessWithProfile of pkg/profiles/manager.go: which rule decides, and that there is a result.
use logsieve.Prelude.{
  String, true, false, not, List, [], ◌∷◌, ◌++◌, Option, none, some, if◌then◌else◌, str_eq, eq_iff,
  lookup-delete, All, ◌≡◌, refl, sym, ap, subst, ◌∙◌, arith, Option-cases, inl, inr,
}
use logsieve.Ingestion.Entry.{LogEntry}
use logsieve.Profiles.Rules.{FingerprintRule, Profile, Regexp, effective_action}
use logsieve.Profiles.Manager.{
  Manager, ProcessedEntry, Crypto, hits, first_fingerprint, keep_entry, drop_entry, process_entry,
  add_profile, remove_profile, get_profile, process_with_profile,
}
use logsieve.Profiles.Manager.Accepting.{get_profile-add_profile}

-- No rule of a list hits the message.
abbrev pub NoneHits : Regexp → String → List FingerprintRule → Type 0
NoneHits re message = All (λ (r : FingerprintRule). hits re r.pattern message ≡ false)

first_fingerprint_hit :
    (re : Regexp) (message : String) (before after : List FingerprintRule) (rule : FingerprintRule)
    → NoneHits re message before
    → hits re rule.pattern message ≡ true
    → first_fingerprint re message (before ++ rule ∷ after) ≡ some rule
unfolding first_fingerprint
first_fingerprint_hit re message [] after rule n h = rw h refl
first_fingerprint_hit re message (r ∷ before) after rule n h =
    rw (n.0) (first_fingerprint_hit re message before after rule n.1 h)

first_fingerprint-none :
    (re : Regexp) (message : String) (rules : List FingerprintRule)
    → NoneHits re message rules
    → first_fingerprint re message rules ≡ none
unfolding first_fingerprint
first_fingerprint-none re message [] n = refl
first_fingerprint-none re message (r ∷ rules) n =
    rw (n.0) (first_fingerprint-none re message rules n.1)

process_entry_of :
    (re : Regexp) (e : LogEntry) (p : Profile) (rule : FingerprintRule)
    → first_fingerprint re e.message p.fingerprints ≡ some rule
    → process_entry re e p
      ≡ (if str_eq rule.action "drop" then drop_entry e p else keep_entry re e p (some rule))
unfolding process_entry
process_entry_of re e p rule f = rw (f, process_entry) refl

drop_is_no_template : (a : String) → a ≡ "drop" → str_eq a "template" ≡ false
drop_is_no_template a e = ap (λ x. str_eq x "template") e

-- The first fingerprint rule that hits the message decides, and no later one is heard: with the action
-- "drop" the entry is dropped, untouched and reported as unmatched; with any other it is kept and
-- matched, and is a template exactly when the action is "template".
pub process_entry_first_hit :
    (re : Regexp) (e : LogEntry) (p : Profile) (before after : List FingerprintRule)
    (rule : FingerprintRule)
    → p.fingerprints ≡ before ++ rule ∷ after
    → NoneHits re e.message before
    → hits re rule.pattern e.message ≡ true
    → let r = process_entry re e p in
      (r.drop ≡ str_eq rule.action "drop")
      × (r.matched ≡ not (str_eq rule.action "drop"))
      × (r.template ≡ str_eq rule.action "template")
      × (r.actions ≡ rule.action ∷ [])
      × (str_eq rule.action "drop" ≡ true → r.entry ≡ e)
unfolding keep_entry drop_entry
process_entry_first_hit re e p before after rule f n h =
    let first =
      ap (first_fingerprint re e.message) f
      ∙ first_fingerprint_hit re e.message before after rule n h in
    subst
      (λ (r : ProcessedEntry).
        (r.drop ≡ str_eq rule.action "drop")
        × (r.matched ≡ not (str_eq rule.action "drop"))
        × (r.template ≡ str_eq rule.action "template")
        × (r.actions ≡ rule.action ∷ [])
        × (str_eq rule.action "drop" ≡ true → r.entry ≡ e))
      (sym (process_entry_of re e p rule first))
      (ground (arith, eq_iff rule.action "drop", drop_is_no_template rule.action))

-- Validate gives an empty action the value "template", but only in a copy: when the rule that hits
-- has an empty action, the entry is matched but is no template.
pub empty_action_is_no_template :
    (re : Regexp) (e : LogEntry) (p : Profile) (after : List FingerprintRule)
    (rule : FingerprintRule)
    → p.fingerprints ≡ rule ∷ after
    → rule.action ≡ ""
    → hits re rule.pattern e.message ≡ true
    → (effective_action rule ≡ "template")
      × ((process_entry re e p).matched ≡ true)
      × ((process_entry re e p).template ≡ false)
unfolding effective_action
empty_action_is_no_template re e p after rule f a h =
    let r = process_entry_first_hit re e p [] after rule f tt h in
    (rw a refl, r.1 ∙ ap (λ x. not (str_eq x "drop")) a, r.2 ∙ ap (λ x. str_eq x "template") a)

-- An entry that no fingerprint rule hits is kept and unmatched, with no action.
no_hit_is_kept :
    (re : Regexp) (e : LogEntry) (p : Profile)
    → NoneHits re e.message p.fingerprints
    → ((process_entry re e p).drop ≡ false) × ((process_entry re e p).matched ≡ false)
unfolding process_entry keep_entry
no_hit_is_kept re e p n = ground (arith, first_fingerprint-none re e.message p.fingerprints n)

-- The profile that everything falls back to is there.
abbrev pub HasGeneric : {Key : Type 0} → Manager Key → Type 0
HasGeneric m = (p : Profile) × (get_profile "generic" m ≡ some p)

-- The first profile if there is one, else the second.
abbrev pub or_else : Option Profile → Profile → Profile
or_else none generic = generic
or_else (some p) generic = p

pub result :
    {Key : Type 0} (re : Regexp) (m : Manager Key) (e : LogEntry) (name : String)
    (generic : Profile)
    → get_profile "generic" m ≡ some generic
    → process_with_profile re e name m
      ≡ some (process_entry re e (or_else (get_profile name m) generic))
unfolding process_with_profile
result re m e name generic g = elim (Option-cases (get_profile name m)) [
  | inl n ↦ rw (n, g, process_with_profile) refl
  | inr (p, s) ↦ rw (s, process_with_profile) refl
]

added_keeps :
    {Key Signature : Type 0} (re : Regexp) (crypto : Crypto Key Signature) (m : Manager Key)
    (added : Profile)
    → HasGeneric m
    → HasGeneric (add_profile re crypto added m).1
added_keeps re crypto m added g =
    elim (Option-cases (get_profile "generic" (add_profile re crypto added m).1)) [
      | inl n ↦ absurd (ground (arith, g.1, get_profile-add_profile re crypto m added "generic"))
      | inr s ↦ s
    ]

removed_keeps :
    {Key : Type 0} (m : Manager Key) (name : String) (p : Profile)
    → str_eq name "generic" ≡ false
    → get_profile "generic" m ≡ some p
    → get_profile "generic" (remove_profile name m).1 ≡ some p
unfolding remove_profile get_profile
removed_keeps m name p n g = ground (arith, lookup-delete name "generic" m.profiles)

-- With the generic profile there, processing has a result for every name, that of the profile of that
-- name, or of the generic one if there is none; and adding a profile or removing another than "generic" keeps it so.
pub process_with_profile_safe :
    {Key Signature : Type 0} (re : Regexp) (crypto : Crypto Key Signature) (m : Manager Key)
    (e : LogEntry) (name : String) (added generic : Profile)
    → get_profile "generic" m ≡ some generic
    → (process_with_profile re e name m
        ≡ some (process_entry re e (or_else (get_profile name m) generic)))
      × HasGeneric (add_profile re crypto added m).1
      × (str_eq name "generic" ≡ false → HasGeneric (remove_profile name m).1)
process_with_profile_safe re crypto m e name added generic g = (
  result re m e name generic g,
  added_keeps re crypto m added (generic, g),
  λ n. (generic, removed_keeps m name generic n g),
)
