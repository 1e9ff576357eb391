-- ===== src/Config/Loading.antt =====
-- The file of the settings.
use clean_architect.Errs.{GoError, sentinel, empty_config_file_path}
use clean_architect.Config.{spaces, trim_space, is_empty, load_config, load_config_or_default}
use clean_architect.Common.{
  ◌≡◌, refl, ◌⊎◌, inl, true, Option, [], ◌∷◌, arith, nat_eq, Text, text_eq, trim_left, trim_right,
  AllIn,
}

trim_left-AllIn : (cut s : Text) → AllIn cut s → trim_left cut s ≡ []
unfolding trim_left
trim_left-AllIn cut [] h = refl
trim_left-AllIn cut (c ∷ s) h = rw (trim_left-AllIn cut s h.1, trim_left) (rw h.0)

blank-is_empty : (path : Text) → AllIn spaces path → is_empty (trim_space path) ≡ true
unfolding trim_space trim_right is_empty
blank-is_empty path h = rw (trim_left-AllIn spaces path h) refl

module _ {A : Type 0} (zero_config : A) (read_file : Text → GoError ⊎ Text)
    (extension : Text → Text) (from_json from_yaml from_toml : Text → A × Option GoError)
    (set_defaults : A → A × Option GoError) where
  -- For a path of nothing but spaces no file is read: LoadConfig fails with the error of an empty
  -- path, and LoadConfigOrDefault gives the defaults of the empty settings, with no error but theirs.
  pub load_config-blank :
      (path : Text)
      → AllIn spaces path
      → (load_config zero_config read_file extension from_json from_yaml from_toml set_defaults path
          ≡ inl (sentinel empty_config_file_path))
        × (load_config_or_default zero_config read_file extension from_json from_yaml from_toml
              set_defaults path
            ≡ set_defaults zero_config)
  unfolding load_config load_config_or_default
  load_config-blank path h = let e = blank-is_empty path h in ground (arith, e)
