-- ===== src/Profiles/Manager/Accepting.antt =====
-- AddProfile and RemoveProfile of pkg/profiles/manager.go: which profiles are accepted, and what is
-- stored.
use logsieve.Prelude.{
  String, Bool, true, false, ◌&&◌, List, [], ◌∷◌, none, some, if◌then◌else◌, str_eq, trim_space,
  has_any, lookup-insert, ◌≡◌, refl, ap, arith, Option-cases, Bool-cases, inl, inr,
}
use mathlib.Core.List.{Memᴰ}
use logsieve.Profiles.Rules.{Profile, Transform, Regexp}
use logsieve.Profiles.Manager.{
  Manager, Crypto, is_wildcard, signable_bytes, validate_profile, check_transforms, verify_profile,
  verifies, add_profile, get_profile,
}

-- A signature that a configured key verifies.
pub record IsSigned {Key Signature : Type 0} (crypto : Crypto Key Signature) (m : Manager Key)
    (p : Profile) : Type 0 where
  pub sig : Signature
  pub key : Key
  pub decoded : crypto.decode (trim_space p.signature) ≡ some sig
  pub configured : Memᴰ key m.pubkeys
  pub verified : verifies crypto key (signable_bytes crypto.format_rate p) sig ≡ true

any_of {ℓ} :
    {A : Type ℓ} (f : A → Bool) (xs : List A)
    → has_any f xs ≡ true
    → (x : A) × Memᴰ x xs × (f x ≡ true)
any_of f [] h = absurd cc
any_of f (x ∷ xs) h = elim (Bool-cases (f x)) [
  | inl y ↦ (x, Memᴰ.head refl, y)
  | inr n ↦ (let r = any_of f xs (ground arith) in (r.0, Memᴰ.tail r.1, r.2))
]

strict :
    {Key : Type 0} (m : Manager Key)
    → m.trust_mode ≡ "strict"
    → (str_eq m.trust_mode "strict" ≡ true) × (str_eq m.trust_mode "offline" ≡ false)
strict m s = (ap (λ x. str_eq x "strict") s, ap (λ x. str_eq x "offline") s)

module _ {Key Signature : Type 0} (re : Regexp) (crypto : Crypto Key Signature) where
  verified-IsSigned :
      (m : Manager Key) (p : Profile)
      → m.trust_mode ≡ "strict"
      → is_wildcard p.images ≡ false
      → verify_profile re crypto m p ≡ true
      → IsSigned crypto m p
  unfolding verify_profile
  verified-IsSigned m p s w v = elim (Option-cases (crypto.decode (trim_space p.signature))) [
    | inl n ↦ absurd (ground (arith, strict m s))
    | inr (sig, d) ↦
        (let r =
            any_of (λ k. verifies crypto k (signable_bytes crypto.format_rate p) sig) m.pubkeys
              (ground (arith, strict m s)) in
          record { sig = sig; key = r.0; decoded = d; configured = r.1; verified = r.2 })
  ]

  -- In strict mode no profile is accepted unless it is valid and carries a signature that one of the
  -- configured keys verifies, or names every image by the wildcard alone.
  pub add_profile_strict :
      (m : Manager Key) (p : Profile)
      → m.trust_mode ≡ "strict"
      → is_wildcard p.images ≡ false
      → (add_profile re crypto p m).0 ≡ true
      → (validate_profile re p ≡ none) × IsSigned crypto m p
  unfolding add_profile
  add_profile_strict m p s w a =
      (ground arith, verified-IsSigned m p s w (ground (arith, (strict m s).0)))

  -- GetProfile after AddProfile: an accepted profile is found under its name, as it was given, a
  -- refused one changes nothing, and all other names are as before.
  pub get_profile-add_profile :
      (m : Manager Key) (p : Profile) (name : String)
      → get_profile name (add_profile re crypto p m).1 ≡ (
          if (add_profile re crypto p m).0 && str_eq p.name name
          then some p
          else get_profile name m)
  unfolding add_profile get_profile
  get_profile-add_profile m p name = ground (arith, lookup-insert p.name name p m.profiles)

  verify_profile-transforms :
      (m : Manager Key) (p : Profile) (ts : List Transform)
      → verify_profile re crypto m (record p { transforms = ts }) ≡ verify_profile re crypto m p
  unfolding verify_profile signable_bytes
  verify_profile-transforms m p ts = refl

  validate_profile-transforms :
      (p : Profile) (ts : List Transform)
      → validate_profile re p ≡ none
      → check_transforms re ts ≡ none
      → validate_profile re (record p { transforms = ts }) ≡ none
  unfolding validate_profile
  validate_profile-transforms p ts h k = ground arith

  -- The signature does not cover the transforms: when a profile is accepted, it is also accepted, in
  -- every trust mode, with any other transforms that are valid.
  pub add_profile_other_transforms :
      (m : Manager Key) (p : Profile) (ts : List Transform)
      → (add_profile re crypto p m).0 ≡ true
      → check_transforms re ts ≡ none
      → (add_profile re crypto (record p { transforms = ts }) m).0 ≡ true
  unfolding add_profile
  add_profile_other_transforms m p ts a k =
      ground (arith, validate_profile-transforms p ts, verify_profile-transforms m p ts)
