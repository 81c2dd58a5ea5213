-- ===== src/Tests/Commands.antt =====
-- A start with queues from the environment.
use cloud_tasks_emulator.Base.{◌≡◌, refl, Option, none, Bool, [], ◌∷◌}
use cloud_tasks_emulator.Base.Bytes.{Bytes, codes, bytes_eq}
use cloud_tasks_emulator.Base.Dict.{Dict, lookup}
use cloud_tasks_emulator.Std.Strings.{join, contains_byte}
use cloud_tasks_emulator.Command.{Flags, parse_flags, parse_flags-queues}

abbrev no_flags : Flags
no_flags = record {
  host = none;
  port = none;
  rest_port = none;
  app_engine_host = none;
  open_id_issuer = none;
  hard_reset = none;
  queues = [];
}

-- Nothing is trimmed and no text is a Boolean.
abbrev as_it_is : Bytes → Bytes
as_it_is s = s

abbrev never : Bytes → Option Bool
never s = none

abbrev surroundings : Dict Bytes
surroundings = (codes "INITIAL_QUEUES", codes "a,b") ∷ []

parse_flags-queues_example :
    (parse_flags as_it_is never surroundings no_flags).queues ≡ codes "a" ∷ codes "b" ∷ []
unfolding join contains_byte lookup bytes_eq
parse_flags-queues_example =
    parse_flags-queues as_it_is never surroundings no_flags (codes "a") (codes "b" ∷ []) refl refl
      refl ((refl, refl), ((refl, refl), tt))
