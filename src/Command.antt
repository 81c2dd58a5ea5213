-- ===== src/Command.antt =====
-- main.go: the options of the command line with their environment variables, and the queues that are
-- made at the start. The environment is a map; strings.TrimSpace, strconv.ParseBool and url.Parse with
-- Port are arguments. A flag that is given is an option with a value.
use cloud_tasks_emulator.Base.{
  ◌≡◌, refl, ap, Bool, true, false, Option, none, some, List, [], ◌∷◌, ◌++◌, if◌then◌else◌, or_else,
  All,
}
use cloud_tasks_emulator.Base.Bytes.{Bytes, codes, is_empty}
use cloud_tasks_emulator.Base.Dict.{Dict, lookup}
use cloud_tasks_emulator.Std.Strings.{split, join, none_contains, split-join}
use cloud_tasks_emulator.Core.Status.{Result, ok, err}
use cloud_tasks_emulator.Core.Engine.{Engine, new_engine}
use cloud_tasks_emulator.Core.Engine.Queues.{ensure_queue}
use cloud_tasks_emulator.Base.Int.{pos}

unfoldable pub env_or : Dict Bytes → Bytes → Bytes → Bytes
env_or env key default = or_else (lookup key env) default

-- A text that is no Boolean counts as false.
unfoldable pub env_bool : (Bytes → Option Bool) → Dict Bytes → Bytes → Bool
unfolding env_or
env_bool parse_bool env key = or_else (parse_bool (env_or env key [])) false

unfoldable pub keep_parts : (Bytes → Bytes) → List Bytes → List Bytes
keep_parts trim [] = []
keep_parts trim (part ∷ parts) =
    let rest = keep_parts trim parts in
    let trimmed = trim part in if is_empty trimmed then rest else trimmed ∷ rest

unfoldable pub split_list : (Bytes → Bytes) → Bytes → List Bytes
unfolding keep_parts
split_list trim s = keep_parts trim (split b',' s)

pub record Flags : Type 0 where
  pub host : Option Bytes
  pub port : Option Bytes
  pub rest_port : Option Bytes
  pub app_engine_host : Option Bytes
  pub open_id_issuer : Option Bytes
  pub hard_reset : Option Bool
  pub queues : List Bytes

pub record Options : Type 0 where
  pub host : Bytes
  pub port : Bytes
  pub rest_port : Bytes
  pub app_engine_host : Bytes
  pub open_id_issuer : Bytes
  pub hard_reset : Bool
  pub queues : List Bytes

-- The queues of the environment count when no flag gives one.
unfoldable pub parse_flags : (Bytes → Bytes) → (Bytes → Option Bool) → Dict Bytes → Flags → Options
unfolding env_or env_bool split_list
parse_flags trim parse_bool env flags = record {
  host = or_else flags.host (env_or env (codes "CLOUD_TASKS_EMULATOR_HOST") (codes "localhost"));
  port = or_else flags.port (env_or env (codes "CLOUD_TASKS_EMULATOR_PORT") (codes "8123"));
  rest_port = or_else flags.rest_port (env_or env (codes "CLOUD_TASKS_REST_PORT") (codes "8124"));
  app_engine_host =
      or_else flags.app_engine_host (env_or env (codes "CLOUD_TASKS_APP_ENGINE_HOST") []);
  open_id_issuer = or_else flags.open_id_issuer (env_or env (codes "CLOUD_TASKS_OPENID_ISSUER") []);
  hard_reset =
      or_else flags.hard_reset
        (env_bool parse_bool env (codes "CLOUD_TASKS_HARD_RESET_ON_PURGE_QUEUE"));
  queues =
      if is_empty flags.queues
      then split_list trim (env_or env (codes "INITIAL_QUEUES") [])
      else flags.queues;
}

-- The port of an issuer, on every interface; an issuer without one is an error.
unfoldable pub open_id_addr : (Bytes → Option Bytes) → Bytes → Option Bytes
open_id_addr port_of issuer = elim (port_of issuer) [
  | none ↦ none
  | some port ↦ if is_empty port then none else some (codes "0.0.0.0:" ++ port)
]

module _ {P : Type 0} where
  -- The first queue that cannot be made stops the start.
  unfoldable pub ensure_all : Engine P → List Bytes → Engine P × Result (Unit {0})
  unfolding ensure_queue
  ensure_all e [] = (e, ok tt)
  ensure_all e (name ∷ names) =
      let (e', made) = ensure_queue e name in
      elim made [ err bad ↦ (e', err bad) | ok done ↦ ensure_all e' names ]

  unfoldable pub start_queues : Options → Engine P × Result (Unit {0})
  unfolding ensure_all new_engine
  start_queues opts =
      ensure_all
        (new_engine (record {
          default_app_engine_host = opts.app_engine_host;
          task_ttl = pos 0;
          tombstone_ttl = pos 0;
          hard_reset_on_purge = opts.hard_reset;
        }))
        opts.queues

-- Texts that TrimSpace leaves as they are and that are not empty.
abbrev pub Kept : (Bytes → Bytes) → List Bytes → Type 0
Kept trim names = All (λ n. (trim n ≡ n) × (is_empty n ≡ false)) names

keep_parts_lem :
    (trim : Bytes → Bytes) (names : List Bytes) → Kept trim names → keep_parts trim names ≡ names
unfolding keep_parts
keep_parts_lem trim [] h = refl
keep_parts_lem trim (n ∷ names) ((same, some_text), rest) =
    rw (keep_parts, same, some_text) (ap (◌∷◌ n) (keep_parts_lem trim names rest))

-- Without a queue flag, the queues of INITIAL_QUEUES are the names that it lists with commas between
-- them, in order, when no name has a comma, is empty, or has space around it, and there is a name.
pub parse_flags-queues :
    (trim : Bytes → Bytes) (parse_bool : Bytes → Option Bool) (env : Dict Bytes) (flags : Flags)
    (n : Bytes) (names : List Bytes)
    → flags.queues ≡ []
    → lookup (codes "INITIAL_QUEUES") env ≡ some (join b',' (n ∷ names))
    → none_contains b',' (n ∷ names) ≡ true
    → Kept trim (n ∷ names)
    → (parse_flags trim parse_bool env flags).queues ≡ n ∷ names
unfolding parse_flags env_or split_list
parse_flags-queues trim parse_bool env flags n names no_flag listed no_comma kept =
    rw (no_flag, listed, split-join b',' n names no_comma) (keep_parts_lem trim (n ∷ names) kept)
