-- ===== src/Profiles/Manager/Loading/Trust.antt =====
-- Which profiles pkg/profiles/manager.go takes in strict mode.
use logsieve.Prelude.{
  ◌==◌, String, Bool, true, false, ◌||◌, List, [], ◌∷◌, Option, none, some, if◌then◌else◌, str_eq,
  eq_iff, has_suffix, trim_suffix, Dict, lookup, insert, lookup-insert, ◌≡◌, ◌⊎◌, inl, inr, refl,
  subst, arith, if_both, Bool-cases,
}
use Prim.Native.String.{◌++◌ as ◌<>◌}
use logsieve.Profiles.Rules.{Profile, Regexp}
use logsieve.Profiles.Manager.{Manager, Crypto, verify_profile}
use logsieve.Profiles.Manager.Loading.{
  DirEntry, generic_profile, nginx_profile, load_builtin_profiles, HubAnswer, unreachable, status,
  parse_profile, is_trusted, add_parsed, parse_content, load_file, load_profiles_from_dir,
  load_from_path, load_profiles, load_cached_profile, cache_profile, accept_body, download_profile,
}

abbrev pub IsBuiltin : Profile → Type 0
IsBuiltin p = (p ≡ generic_profile) ⊎ (p ≡ nginx_profile)

module _ {Key Signature : Type 0} (re : Regexp) (crypto : Crypto Key Signature) where
  abbrev pub IsVerified : Manager Key → Profile → Type 0
  IsVerified m p = verify_profile re crypto m p ≡ true

  -- The same keys and the same mode, and only profiles of which one thing or the other holds.
  abbrev IsLoaded : Manager Key → Manager Key → Type 0
  IsLoaded start m =
      (m.trust_mode ≡ start.trust_mode)
      × (m.pubkeys ≡ start.pubkeys)
      × ((name : String) (p : Profile)
          → lookup name m.profiles ≡ some p
          → IsBuiltin p ⊎ IsVerified start p)

  insert_profile :
      (start m : Manager Key) (q : Profile) (at : String)
      → IsLoaded start m
      → IsBuiltin q ⊎ IsVerified start q
      → IsLoaded start (record m { profiles = insert at q m.profiles })
  insert_profile start m q at l b = (
    l.0,
    l.1,
    λ name p f. elim (Bool-cases (str_eq at name)) [
      | inl e ↦
          subst (λ r. IsBuiltin r ⊎ IsVerified start r)
            (ground (arith, f, e, lookup-insert at name q m.profiles)) b
      | inr e ↦ l.2 name p (ground (arith, f, e, lookup-insert at name q m.profiles))
    ],
  )

  is_trusted-IsVerified :
      (start m : Manager Key) (p : Profile)
      → m.trust_mode ≡ start.trust_mode
      → m.pubkeys ≡ start.pubkeys
      → start.trust_mode ≡ "strict"
      → is_trusted re crypto m p ≡ true
      → IsVerified start p
  unfolding verify_profile
  is_trusted-IsVerified start m p t k s h = ground (arith, t, k, s, h, eq_iff m.trust_mode "strict")

  builtin-IsLoaded :
      (start m : Manager Key) → IsLoaded start m → IsLoaded start (load_builtin_profiles m)
  unfolding load_builtin_profiles
  builtin-IsLoaded start m l =
      insert_profile start (record m { profiles = insert "generic" generic_profile m.profiles })
        nginx_profile "nginx" (insert_profile start m generic_profile "generic" l (inl (inl refl)))
        (inl (inr refl))

  module _ (start : Manager Key) (s : start.trust_mode ≡ "strict") where
    add_parsed-IsLoaded :
        (o : Option Profile) (m : Manager Key)
        → IsLoaded start m
        → IsLoaded start (add_parsed re crypto o m)
    add_parsed-IsLoaded none m l = l
    add_parsed-IsLoaded (some p) m l = by_trust (is_trusted re crypto m p) refl
      where
        by_trust :
            (b : Bool)
            → is_trusted re crypto m p ≡ b
            → IsLoaded start (if b then record m { profiles = insert p.name p m.profiles } else m)
        by_trust true e =
            insert_profile start m p p.name l (inr (is_trusted-IsVerified start m p l.0 l.1 s e))
        by_trust false e = l

    module _ {D : Type 0} (unmarshal : D → Option (Profile × List String)) where
      load_file-IsLoaded :
          (e : DirEntry D) (m : Manager Key)
          → IsLoaded start m
          → IsLoaded start (load_file re crypto unmarshal e m)
      unfolding load_file
      load_file-IsLoaded e m l = if_both (IsLoaded start) e.is_dir m _ l (
          if_both (IsLoaded start) (has_suffix e.name ".yaml" || has_suffix e.name ".yml") _ m
            (add_parsed-IsLoaded (parse_content re unmarshal e.content) m l) l)

      dir-IsLoaded :
          (es : List (DirEntry D)) (m : Manager Key)
          → IsLoaded start m
          → IsLoaded start (load_profiles_from_dir re crypto unmarshal es m)
      unfolding load_profiles_from_dir
      dir-IsLoaded [] m l = l
      dir-IsLoaded (e ∷ es) m l =
          dir-IsLoaded es (load_file re crypto unmarshal e m) (load_file-IsLoaded e m l)

      path-IsLoaded :
          (listing : String → Option (List (DirEntry D))) (path : String) (m : Manager Key)
          → IsLoaded start m
          → IsLoaded start (load_from_path re crypto unmarshal listing path m)
      path-IsLoaded listing path m l =
          if_both (IsLoaded start) (str_eq path "") m _ l (by_listing (listing path))
        where
          by_listing :
              (o : Option (List (DirEntry D)))
              → IsLoaded start
                  (elim o [ none ↦ m | some es ↦ load_profiles_from_dir re crypto unmarshal es m ])
          by_listing none = l
          by_listing (some es) = dir-IsLoaded es m l

      -- What a manager in strict mode has loaded can be trusted: whatever files the two directories
      -- hold, each profile that is there after loading, where there was none before, is one of the
      -- two builtin ones or passes the verification.
      pub load_profiles_strict :
          (listing : String → Option (List (DirEntry D))) (local_path cache_path name : String)
          (p : Profile)
          → start.profiles ≡ []
          → lookup name
              (load_profiles re crypto unmarshal listing local_path cache_path start).profiles
            ≡ some p
          → IsBuiltin p ⊎ IsVerified start p
      unfolding load_profiles lookup
      load_profiles_strict listing local_path cache_path name p e f =
          (path-IsLoaded listing cache_path _ (
              path-IsLoaded listing local_path _ (
                builtin-IsLoaded start start
                  (refl, refl, λ n q found. absurd (none_there n q found))))).2
            name p f
        where
          none_there : (n : String) (q : Profile) → lookup n start.profiles ≡ some q → ⊥
          none_there n q found = ground (arith, e, found)

      -- Each file of the cache that can be parsed has a profile that passes the verification.
      abbrev pub IsVerifiedCache : Dict D → Type 0
      IsVerifiedCache cache =
          (name : String) (d : D) (p : Profile)
          → lookup name cache ≡ some d
          → parse_profile re unmarshal d ≡ some p
          → IsVerified start p

      -- A download and the cache after it.
      abbrev pub IsSafe : Option Profile × Dict D → Type 0
      IsSafe r = ((p : Profile) → r.0 ≡ some p → IsVerified start p) × IsVerifiedCache r.1

      refused-IsSafe : (cache : Dict D) → IsVerifiedCache cache → IsSafe (none, cache)
      refused-IsSafe cache c = (λ p f. absurd (cc), c)

      insert-IsVerifiedCache :
          (cache : Dict D) (name : String) (d : D) (p : Profile)
          → IsVerifiedCache cache
          → parse_profile re unmarshal d ≡ some p
          → IsVerified start p
          → IsVerifiedCache (insert name d cache)
      insert-IsVerifiedCache cache name d p c e v = λ other f q found parsed.
          elim (Bool-cases (str_eq name other)) [
            | inl same ↦
                subst (IsVerified start)
                  (ground (arith, same, found, parsed, e, lookup-insert name other d cache)) v
            | inr differs ↦
                c other f q (ground (arith, differs, found, lookup-insert name other d cache))
                  parsed
          ]

      accept_body-IsSafe :
          (cache_path name : String) (cache : Dict D) (body : Option D)
          → IsVerifiedCache cache
          → IsSafe (accept_body re crypto unmarshal cache_path name start cache body)
      unfolding cache_profile
      accept_body-IsSafe cache_path name cache none c = refused-IsSafe cache c
      accept_body-IsSafe cache_path name cache (some d) c =
          by_parse (parse_profile re unmarshal d) refl
        where
          by_trust :
              (p : Profile) (b : Bool)
              → parse_profile re unmarshal d ≡ some p
              → is_trusted re crypto start p ≡ b
              → IsSafe
                  (if b then (some p, cache_profile cache_path name d cache) else (none, cache))
          by_trust p false e t = refused-IsSafe cache c
          by_trust p true e t =
              let v = is_trusted-IsVerified start start p refl refl s t in
              (
                λ q f. subst (IsVerified start) (ground (arith, f)) v,
                if_both IsVerifiedCache (str_eq cache_path "") cache (insert name d cache) c
                    (insert-IsVerifiedCache cache name d p c e v),
              )

          by_parse :
              (o : Option Profile)
              → parse_profile re unmarshal d ≡ o
              → IsSafe (elim o [
                | none ↦ (none, cache)
                | some p ↦
                    if is_trusted re crypto start p
                    then (some p, cache_profile cache_path name d cache)
                    else (none, cache)
              ])
          by_parse none e = refused-IsSafe cache c
          by_parse (some p) e = by_trust p (is_trusted re crypto start p) e refl

      -- In strict mode a downloaded profile passes the verification, and so does what the cache holds
      -- afterwards, if what it held before did: what comes from the cache is not verified again.
      pub download_profile_strict :
          (hub : String → HubAnswer D) (hub_url cache_path name : String) (cache : Dict D)
          → IsVerifiedCache cache
          → IsSafe (download_profile re crypto unmarshal hub hub_url cache_path name start cache)
      unfolding download_profile load_cached_profile
      download_profile_strict hub hub_url cache_path name cache c =
          if_both IsSafe (str_eq hub_url "") (none, cache) _ (refused-IsSafe cache c)
            (by_cache (load_cached_profile re unmarshal cache_path cache name) refl)
        where
          by_answer :
              (a : HubAnswer D)
              → IsSafe (elim a [
                | unreachable ↦ (none, cache)
                | status code body ↦
                    if code == 200
                    then accept_body re crypto unmarshal cache_path name start cache body
                    else (none, cache)
              ])
          by_answer unreachable = refused-IsSafe cache c
          by_answer (status code body) =
              if_both IsSafe (code == 200) _ (none, cache)
                (accept_body-IsSafe cache_path name cache body c) (refused-IsSafe cache c)

          by_content :
              (p : Profile) (o : Option D)
              → lookup name cache ≡ o
              → parse_content re unmarshal o ≡ some p
              → IsVerified start p
          by_content p none f e = absurd (cc)
          by_content p (some d) f e = c name d p f e

          by_cache :
              (o : Option Profile)
              → load_cached_profile re unmarshal cache_path cache name ≡ o
              → IsSafe (elim o [
                | some cached ↦ (some cached, cache)
                | none ↦
                    elim (hub (trim_suffix hub_url "/" <> ("/profiles/" <> (name <> ".yaml")))) [
                      | unreachable ↦ (none, cache)
                      | status code body ↦
                          if code == 200
                          then accept_body re crypto unmarshal cache_path name start cache body
                          else (none, cache)
                    ]
              ])
          by_cache none e =
              by_answer (hub (trim_suffix hub_url "/" <> ("/profiles/" <> (name <> ".yaml"))))
          by_cache (some p) e = (
            λ q f.
                subst (IsVerified start) (ground (arith, f))
                  (by_content p (lookup name cache) refl (ground (arith, e))),
            c,
          )
