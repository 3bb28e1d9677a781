-- ===== src/Config.antt =====
-- include/config.h: Config::parseArgs. `stoi` is the library's function, `none` where it throws, and
-- `A` its `int`.
use order_matching_engine.Prelude.{
  ◌≡◌, refl, Bool, true, false, Option, none, some, List, [], ◌∷◌, if◌then◌else◌, ◌∙◌, inl, inr,
  Option-cases,
}
use order_matching_engine.Prelude.Bytes.{Bytes, bytes_eq}

pub record Config {ℓ} (A : Type ℓ) : Type ℓ where
  pub port : A
  pub log_level : Bytes
  pub replay_mode : Bool

-- How `parseArgs` ends: `printHelp` leaves the program, and so does an exception of `stoi`.
pub data Parsed {ℓ} (A : Type ℓ) : Type ℓ where
  parsed : Config A → Parsed A
  helped threw : Parsed A

abbrev pub default_config {ℓ} : {A : Type ℓ} → A → Config A
default_config port = record {
  port = port;
  log_level = b'I' ∷ b'N' ∷ b'F' ∷ b'O' ∷ [];
  replay_mode = false;
}

abbrev pub port_flag : Bytes
port_flag = b'-' ∷ b'-' ∷ b'p' ∷ b'o' ∷ b'r' ∷ b't' ∷ []

abbrev pub log_level_flag : Bytes
log_level_flag = b'-' ∷ b'-' ∷ b'l' ∷ b'o' ∷ b'g' ∷ b'-' ∷ b'l' ∷ b'e' ∷ b'v' ∷ b'e' ∷ b'l' ∷ []

abbrev pub replay_mode_flag : Bytes
replay_mode_flag =
    b'-' ∷ b'-' ∷ b'r' ∷ b'e' ∷ b'p' ∷ b'l' ∷ b'a' ∷ b'y' ∷ b'-' ∷ b'm' ∷ b'o' ∷ b'd' ∷ b'e' ∷ []

abbrev pub help_flag : Bytes
help_flag = b'-' ∷ b'-' ∷ b'h' ∷ b'e' ∷ b'l' ∷ b'p' ∷ []

module _ {ℓ} {A : Type ℓ} (stoi : Bytes → Option A) where
  abbrev pub with_port : Option A → (A → Parsed A) → Parsed A
  with_port none next = threw
  with_port (some n) next = next n

  -- The loop over the arguments. An option that wants a value and is the last argument is skipped, as
  -- is what is no option.
  unfoldable pub parse_args : List Bytes → Config A → Parsed A
  parse_args [] c = parsed c
  parse_args (arg ∷ []) c =
      if bytes_eq arg replay_mode_flag
      then parsed (record c { replay_mode = true })
      else if bytes_eq arg help_flag
      then helped
      else parsed c
  parse_args (arg ∷ value ∷ args) c =
      let behind_port = λ (n : A). parse_args args (record c { port = n }) in
      let behind_level = parse_args args (record c { log_level = value }) in
      let behind_replay = parse_args (value ∷ args) (record c { replay_mode = true }) in
      let behind_other = parse_args (value ∷ args) c in
      if bytes_eq arg port_flag
      then with_port (stoi value) behind_port
      else if bytes_eq arg log_level_flag
      then behind_level
      else if bytes_eq arg replay_mode_flag
      then behind_replay
      else if bytes_eq arg help_flag
      then helped
      else behind_other

  -- What a user can ask for, and the arguments that say so.
  pub data Setting : Type 0 where
    port : Bytes → Setting
    log_level : Bytes → Setting
    replay_mode help : Setting

  abbrev pub arguments : List Setting → List Bytes
  arguments [] = []
  arguments (port text ∷ ss) = port_flag ∷ text ∷ arguments ss
  arguments (log_level text ∷ ss) = log_level_flag ∷ text ∷ arguments ss
  arguments (replay_mode ∷ ss) = replay_mode_flag ∷ arguments ss
  arguments (help ∷ ss) = help_flag ∷ arguments ss

  -- The settings one after the other: a later one overrides an earlier one.
  abbrev pub configured : List Setting → Config A → Parsed A
  configured [] c = parsed c
  configured (port text ∷ ss) c = with_port (stoi text) (λ n. configured ss (record c { port = n }))
  configured (log_level text ∷ ss) c = configured ss (record c { log_level = text })
  configured (replay_mode ∷ ss) c = configured ss (record c { replay_mode = true })
  configured (help ∷ ss) c = helped

  parse_args-replay_mode_flag :
      (args : List Bytes) (c : Config A)
      → parse_args (replay_mode_flag ∷ args) c ≡ parse_args args (record c { replay_mode = true })
  unfolding parse_args bytes_eq
  parse_args-replay_mode_flag [] c = refl
  parse_args-replay_mode_flag (arg ∷ args) c = refl

  parse_args-help_flag :
      (args : List Bytes) (c : Config A) → parse_args (help_flag ∷ args) c ≡ helped
  unfolding parse_args bytes_eq
  parse_args-help_flag [] c = refl
  parse_args-help_flag (arg ∷ args) c = refl

  -- Parsing the arguments that ask for some settings sets them one after the other, a later one
  -- overriding an earlier one, until one asks for help or has a port that `stoi` refuses.
  pub parse_args-arguments :
      (ss : List Setting) (c : Config A) → parse_args (arguments ss) c ≡ configured ss c
  unfolding parse_args bytes_eq
  parse_args-arguments [] c = refl
  parse_args-arguments (port text ∷ ss) c = elim (Option-cases (stoi text)) [
    | inl bad ↦ rw (bad, parse_args) refl
    | inr (n, good) ↦ rw (good, parse_args) (parse_args-arguments ss (record c { port = n }))
  ]
  parse_args-arguments (log_level text ∷ ss) c =
      parse_args-arguments ss (record c { log_level = text })
  parse_args-arguments (replay_mode ∷ ss) c =
      parse_args-replay_mode_flag (arguments ss) c
      ∙ parse_args-arguments ss (record c { replay_mode = true })
  parse_args-arguments (help ∷ ss) c = parse_args-help_flag (arguments ss) c
