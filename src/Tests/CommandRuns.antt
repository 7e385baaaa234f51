-- ===== src/Tests/CommandRuns.antt =====
-- Commands that a user types, and what common/Protocol.cc makes of them.
use chat_service.Base.{◌++◌, codes, ◌≡◌, refl, is_empty}
use chat_service.Commands.Build.{built, timed_object, build_request_from_command}
use chat_service.Commands.Tokens.{to_upper_copy, trim_left, trim_right, trim_copy}
use chat_service.Commands.Typed.{
  Command, private, name_of, arguments_of, request_of, IsWritable, build_request-command,
}
use chat_service.Commands.Words.{IsToken}
use chat_service.Json.{make_json_line}

abbrev note : Command
note = private (codes "bob") (codes "see  you")

pri : IsToken (codes "pRiVaTe")
unfolding codes is_empty
pri = (refl, (refl, (refl, (refl, (refl, (refl, (refl, (refl, tt))))))))

pri_name : to_upper_copy (codes "pRiVaTe") ≡ name_of note
unfolding to_upper_copy codes
pri_name = refl

note-IsWritable : IsWritable note
unfolding codes is_empty trim_copy trim_left trim_right
note-IsWritable = ((refl, (refl, (refl, (refl, tt)))), (refl, refl))

build_request-command_example :
    build_request_from_command 1_700 (codes "pRiVaTe" ++ arguments_of note)
    ≡ built (make_json_line (timed_object 1_700 (request_of note)))
build_request-command_example =
    build_request-command 1_700 (codes "pRiVaTe") note pri pri_name note-IsWritable
