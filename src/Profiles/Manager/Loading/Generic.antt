-- ===== src/Profiles/Manager/Loading/Generic.antt =====
-- The generic profile through LoadProfiles of pkg/profiles/manager.go.
use logsieve.Prelude.{
  String, ◌||◌, List, [], ◌∷◌, Option, none, some, str_eq, has_suffix, insert, lookup-insert, inl,
  inr, arith, Bool-cases, if_both,
}
use logsieve.Profiles.Rules.{Profile, Regexp}
use logsieve.Profiles.Manager.{Manager, Crypto, get_profile}
use logsieve.Profiles.Manager.Processing.{HasGeneric}
use logsieve.Profiles.Manager.Loading.{
  DirEntry, generic_profile, nginx_profile, load_builtin_profiles, is_trusted, add_parsed,
  parse_content, load_file, load_profiles_from_dir, load_from_path, load_profiles,
}

-- The builtin generic profile stays, though files may replace it.
module _ {D Key Signature : Type 0} (re : Regexp) (crypto : Crypto Key Signature)
    (unmarshal : D → Option (Profile × List String)) where
  insert-HasGeneric :
      (m : Manager Key) (name : String) (p : Profile)
      → HasGeneric m
      → HasGeneric (record m { profiles = insert name p m.profiles })
  unfolding get_profile
  insert-HasGeneric m name p g = elim (Bool-cases (str_eq name "generic")) [
    | inl e ↦ (p, ground (arith, e, lookup-insert name "generic" p m.profiles))
    | inr e ↦ (g.0, ground (arith, e, g.1, lookup-insert name "generic" p m.profiles))
  ]

  add_parsed-HasGeneric :
      (o : Option Profile) (m : Manager Key) → HasGeneric m → HasGeneric (add_parsed re crypto o m)
  add_parsed-HasGeneric none m g = g
  add_parsed-HasGeneric (some p) m g =
      if_both HasGeneric (is_trusted re crypto m p) _ m (insert-HasGeneric m p.name p g) g

  load_file-HasGeneric :
      (e : DirEntry D) (m : Manager Key)
      → HasGeneric m
      → HasGeneric (load_file re crypto unmarshal e m)
  unfolding load_file
  load_file-HasGeneric e m g = if_both HasGeneric e.is_dir m _ g (
      if_both HasGeneric (has_suffix e.name ".yaml" || has_suffix e.name ".yml") _ m
        (add_parsed-HasGeneric (parse_content re unmarshal e.content) m g) g)

  load_dir-HasGeneric :
      (es : List (DirEntry D)) (m : Manager Key)
      → HasGeneric m
      → HasGeneric (load_profiles_from_dir re crypto unmarshal es m)
  unfolding load_profiles_from_dir
  load_dir-HasGeneric [] m g = g
  load_dir-HasGeneric (e ∷ es) m g = load_dir-HasGeneric es _ (load_file-HasGeneric e m g)

  load_listed-HasGeneric :
      (o : Option (List (DirEntry D))) (m : Manager Key)
      → HasGeneric m
      → HasGeneric (elim o [ none ↦ m | some es ↦ load_profiles_from_dir re crypto unmarshal es m ])
  load_listed-HasGeneric none m g = g
  load_listed-HasGeneric (some es) m g = load_dir-HasGeneric es m g

  load_from_path-HasGeneric :
      (listing : String → Option (List (DirEntry D))) (path : String) (m : Manager Key)
      → HasGeneric m
      → HasGeneric (load_from_path re crypto unmarshal listing path m)
  load_from_path-HasGeneric listing path m g =
      if_both HasGeneric (str_eq path "") m _ g (load_listed-HasGeneric (listing path) m g)

  builtin-HasGeneric : (m : Manager Key) → HasGeneric (load_builtin_profiles m)
  unfolding load_builtin_profiles get_profile
  builtin-HasGeneric m = (
    generic_profile,
    ground (
      arith,
      lookup-insert "generic" "generic" generic_profile m.profiles,
      lookup-insert "nginx" "generic" nginx_profile (insert "generic" generic_profile m.profiles),
    ),
  )

  -- Whatever the directories hold, there is a generic profile after LoadProfiles.
  pub load_profiles-HasGeneric :
      (listing : String → Option (List (DirEntry D))) (local_path cache_path : String)
      (m : Manager Key)
      → HasGeneric (load_profiles re crypto unmarshal listing local_path cache_path m)
  unfolding load_profiles
  load_profiles-HasGeneric listing local_path cache_path m =
      load_from_path-HasGeneric listing cache_path _
        (load_from_path-HasGeneric listing local_path _ (builtin-HasGeneric m))
