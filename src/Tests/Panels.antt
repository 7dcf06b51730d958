-- ===== src/Tests/Panels.antt =====
-- Requests to the admin API of the server with one room.
use blueboat_cpp.Server.Admin.Access.{
  handle_admin_request-credentials, get_game_values-set_game_values,
}
use blueboat_cpp.Run.{done}
use blueboat_cpp.Tests.Servers.{hooks, managed}
use blueboat_cpp.Json.Sample.{sample, Tree, num, write, read}
use blueboat_cpp.Server.Admin.{
  handle_admin_request, unauthorized, set_game_values, get_game_values, done_reply, json_reply,
}
use blueboat_cpp.Server.State.{Server}
use blueboat_cpp.Server.Auth.{check_basic_auth, base64_decode, check_basic_auth-credentials}
use blueboat_cpp.Http.Lines.{Request}
use blueboat_cpp.Base.{
  ◌≡◌, refl, true, Option, some, [], ◌∷◌, ◌++◌, Bytes, codes, bytes_eq, Assoc, find, ok,
}

-- Every text decodes to "ab:cde".
abbrev decoder : Bytes → Option Bytes
decoder text = some (codes "ab:cde")

abbrev admins : Assoc Bytes
admins = (codes "ab", codes "cde") ∷ []

abbrev asked : Request
asked = record {
  method = codes "GET";
  path = codes "/blueboat-panel/rooms/r1";
  query = [];
  headers = (codes "authorization", codes "Basic QUJD") ∷ [];
  body = [];
}

decoded : base64_decode decoder (codes "QUJD") ≡ ok (codes "ab" ++ b':' ∷ codes "cde")
unfolding base64_decode
decoded = refl

check_basic_auth-credentials_example : check_basic_auth decoder admins asked ≡ ok true
unfolding find bytes_eq
check_basic_auth-credentials_example =
    check_basic_auth-credentials decoder admins asked (codes "QUJD") (codes "ab") (codes "cde") refl
      decoded (refl, (refl, tt))

-- the users of another server
abbrev others_known : Assoc Bytes
others_known = (codes "x", codes "cde") ∷ []

handle_admin_request-credentials_example :
    handle_admin_request sample hooks decoder others_known (codes "x") 7 done asked managed
    ≡ some (ok unauthorized, managed)
unfolding find bytes_eq
handle_admin_request-credentials_example =
    handle_admin_request-credentials sample hooks decoder others_known (codes "x") 7 done asked
      (codes "/rooms/r1") (codes "QUJD") (codes "ab") (codes "cde") managed refl refl decoded
      (refl, (refl, tt))

-- the game values 7, posted
abbrev posted : Request
posted = record asked { method = codes "POST"; body = write (num 7) }

get_game_values-set_game_values_example :
    (s' : Server Tree) × (set_game_values sample hooks posted managed ≡ some (ok done_reply, s'))
    × (get_game_values sample hooks (record s' { now = 9 })
        ≡ some (ok (json_reply 200 (codes "OK") (write (num 7))), record s' { now = 9 }))
unfolding write read
get_game_values-set_game_values_example =
    get_game_values-set_game_values sample hooks posted (num 7) (write (num 7)) 9 managed refl refl
      refl
