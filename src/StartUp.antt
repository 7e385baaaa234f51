-- ===== src/StartUp.antt =====
-- server/main.cc: the command line, and what the program does with it.
pub mod Options
use chat_service.Base.{
  Text, Bool, true, false, ◌||◌, List, [], ◌∷◌, ◌++◌, Option, none, some, is_empty, codes, text_eq,
  if◌then◌else◌,
}
use chat_service.Status.{Status, success, failure}
use chat_service.Storage.{init}
use chat_service.Storage.Database.{Sqlite}
use chat_service.Storage.Dump.{OutputFile, dump_all_messages_json}

pub record ServerOptions : Type 0 where
  pub db_path : Text
  pub dump_path : Text
  pub dump_history : Bool

abbrev pub default_options : ServerOptions
default_options = record {
  db_path = codes "chat_history.sqlite3";
  dump_path = [];
  dump_history = false;
}

-- `parseOptions`: `true` with the options, or `false` with an error, which is empty for `--help`.
pub data ParsedOptions : Type 0 where
  parsed : ServerOptions → ParsedOptions
  usage : ParsedOptions
  rejected : Text → ParsedOptions

abbrev pub is_help : Text → Bool
is_help arg = text_eq arg (codes "--help") || text_eq arg (codes "-h")

abbrev unknown : Text → ParsedOptions
unknown arg = rejected (codes "unknown argument: " ++ arg)

-- An argument with none behind it.
unfoldable pub last_argument : Text → ParsedOptions
last_argument arg =
    if is_help arg
    then usage
    else if text_eq arg (codes "--db")
    then rejected (codes "--db requires a path")
    else if text_eq arg (codes "--dump-history")
    then rejected (codes "--dump-history requires an output path")
    else unknown arg

-- The loop over the arguments behind the name of the program.
unfoldable pub parse_arguments : List Text → ServerOptions → ParsedOptions
unfolding last_argument
parse_arguments [] options = parsed options
parse_arguments (arg ∷ []) options = last_argument arg
parse_arguments (arg ∷ value ∷ args) options =
    let with_path = parse_arguments args (record options { db_path = value }) in
    let with_dump =
      parse_arguments args (record options { dump_history = true; dump_path = value }) in
    if is_help arg
    then usage
    else if text_eq arg (codes "--db")
    then with_path
    else if text_eq arg (codes "--dump-history")
    then with_dump
    else unknown arg

-- The environment variable CHATSERVICE_DB_PATH, if it is set and not empty.
unfoldable pub from_environment : Option Text → ServerOptions → ServerOptions
from_environment none options = options
from_environment (some path) options =
    if is_empty path then options else record options { db_path = path }

unfoldable pub parse_options : Option Text → List Text → ParsedOptions
unfolding parse_arguments from_environment
parse_options environment args = parse_arguments args (from_environment environment default_options)

-- How the program goes on: it returns a code, or it serves with its storage.
pub data Outcome (Db : Type 0) : Type 0 where
  returns : Bool → Outcome Db
  serves : Option Db → Outcome Db

module _ {Db : Type 0} (sqlite : Sqlite Db) (file : Text → OutputFile) where
  abbrev code_of : Status → Outcome Db
  code_of success = returns true
  code_of (failure e) = returns false

  -- `returns true` is the code 0, `returns false` the code 1.
  unfoldable pub run_options : ServerOptions → Outcome Db
  unfolding init dump_all_messages_json
  run_options options =
      let (db, opened) = init sqlite options.db_path none in
      let (text, status) = dump_all_messages_json sqlite (file options.dump_path) db in
      if options.dump_history
      then if opened then code_of status else returns false
      else if opened
      then serves db
      else returns false

  unfoldable pub main : Option Text → List Text → Outcome Db
  unfolding parse_options run_options
  main environment args = elim (parse_options environment args) [
    | parsed options ↦ run_options options
    | usage ↦ returns true
    | rejected e ↦ returns false
  ]
