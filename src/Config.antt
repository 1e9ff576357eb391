-- ===== src/Config.antt =====
-- pkg/config: the settings of each part of the program, and what is computed of them.
pub mod Settings
pub mod Plain
pub mod Drivers
pub mod Timing
pub mod Loading
use clean_architect.Common.Int.{ℤ, pos, is_pos, wrap64, ◌*ℤ◌}
use clean_architect.Cache.{Duration}
use clean_architect.Errs.{GoError, sentinel, text_error, empty_config_file_path}
use clean_architect.Common.{
  ℕ, ◌+◌, ◌/◌, ◌⊎◌, inl, inr, Bool, true, false, not, ◌&&◌, Option, none, some, [], ◌∷◌, ◌++◌, map,
  leb, if◌then◌else◌, ◌==◌, nat_eq, Text, txt, text_eq, contains_byte, trim_left, trim_right,
  decimal,
}

-- unicode.IsSpace and unicode.ToLower on ASCII.
abbrev pub spaces : Text
spaces = 32 ∷ 9 ∷ 10 ∷ 11 ∷ 12 ∷ 13 ∷ []

unfoldable pub trim_space : Text → Text
unfolding trim_left trim_right
trim_space s = trim_right spaces (trim_left spaces s)

unfoldable pub to_lower : Text → Text
to_lower = map (λ c. if leb 65 c && leb c 90 then c + 32 else c)

-- The method Driver of each of the five settings that name one.
unfoldable pub driver : Text → Text
unfolding trim_space to_lower
driver driver_name = to_lower (trim_space driver_name)

-- net.JoinHostPort: a host with a colon stands in brackets.
unfoldable pub join_host_port : Text → Text → Text
unfolding contains_byte
join_host_port host port =
    if contains_byte host 58
    then txt "[" ++ (host ++ (txt "]:" ++ port))
    else host ++ (txt ":" ++ port)

unfoldable pub is_empty : Text → Bool
is_empty [] = true
is_empty (c ∷ s) = false

-- getRedisURL
unfoldable pub get_redis_url : Text → Text → Text → Text → Text → Text
unfolding join_host_port is_empty
get_redis_url ip port username password db =
    txt "redis://"
    ++ ((if not (is_empty username) && not (is_empty password)
          then username ++ (txt ":" ++ (password ++ txt "@"))
          else [])
        ++ (join_host_port ip port ++ (if not (is_empty db) then txt "/" ++ db else [])))

-- The address `ip:port`, with the credentials before it if both are given.
unfoldable pub url_of : Text → ℕ → Text → Text → Text
unfolding is_empty decimal
url_of ip port user_name password =
    let url = ip ++ (txt ":" ++ decimal port) in
    if not (is_empty user_name) && not (is_empty password)
    then user_name ++ (txt ":" ++ (password ++ (txt "@" ++ url)))
    else url

-- The two forms `…user:password@…ip:port…/name` that databases use.
unfoldable pub postgres_url : Text → Text → Text → ℕ → Text → Text
unfolding decimal
postgres_url user_name password ip port name =
    txt "postgres://"
    ++ (user_name
        ++ (txt ":"
            ++ (password ++ (txt "@" ++ (ip ++ (txt ":" ++ (decimal port ++ (txt "/" ++ name))))))))

unfoldable pub mysql_url : Text → Text → Text → ℕ → Text → Text
unfolding decimal
mysql_url user_name password ip port name =
    user_name
    ++ (txt ":"
        ++ (password ++ (txt "@tcp(" ++ (ip ++ (txt ":" ++ (decimal port ++ (txt ")/" ++ name)))))))

-- LoadConfig and LoadConfigOrDefault, for the settings `A`. The file system, the extension of a path
-- and the three decoders are parameters; a decoder that fails may leave settings behind.
module _ {A : Type 0} (zero_config : A) (read_file : Text → GoError ⊎ Text)
    (extension : Text → Text) (from_json from_yaml from_toml : Text → A × Option GoError)
    (set_defaults : A → A × Option GoError) where
  abbrev decoded : Text → Text → A × Option GoError
  decoded ext bytes =
      if ext == txt ".json"
      then from_json bytes
      else if ext == txt ".yml"
      then from_yaml bytes
      else if ext == txt ".yaml"
      then from_yaml bytes
      else if ext == txt ".toml"
      then from_toml bytes
      else (zero_config, some (text_error (txt "unsupported config's file type")))

  unfoldable pub load : Text → A × Option GoError
  unfolding trim_space is_empty
  load config_file_path =
      if is_empty (trim_space config_file_path)
      then (zero_config, some (sentinel empty_config_file_path))
      else (elim (read_file config_file_path) [
        | inl err ↦ (zero_config, some err)
        | inr bytes ↦ decoded (extension config_file_path) bytes
      ])

  unfoldable pub load_config : Text → GoError ⊎ A
  unfolding load
  load_config config_file_path =
      let (cfg, failed) = load config_file_path in
      elim failed [ some err ↦ inl err | none ↦ inr cfg ]

  unfoldable pub load_config_or_default : Text → A × Option GoError
  unfolding load
  load_config_or_default file_address =
      let (cfg, failed) = load file_address in
      elim failed [ some err ↦ set_defaults cfg | none ↦ (cfg, none) ]
