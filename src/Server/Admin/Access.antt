-- ===== src/Server/Admin/Access.antt =====
-- Who gets to the admin API's routes, and the values that it sets and shows.
use blueboat_cpp.GameValues.Values.{get_all-set_all}
use blueboat_cpp.Server.Auth.{check_basic_auth-credentials, base64_decode, has_password}
use blueboat_cpp.Http.Lines.{Request}
use blueboat_cpp.Server.State.{Server}
use blueboat_cpp.Run.{Run, lift, ◌>>=◌}
use blueboat_cpp.Room.State.{Hooks}
use blueboat_cpp.Json.{Json}
use blueboat_cpp.Server.Admin.{
  json_reply, unauthorized, admin_route, if_allowed, under_prefix, done_reply, admin_prefix,
  get_game_values, set_game_values, handle_admin_request, plain,
}
use blueboat_cpp.Base.{
  ℕ, ◌≡◌, refl, ap, ◌∙◌, Bool, true, false, ◌||◌, Option, some, [], ◌∷◌, ◌++◌, arith, if◌then◌else◌,
  Bytes, codes, is_empty, strip_prefix, Lacks, Assoc, find, Result, ok,
}
use blueboat_cpp.GameValues.Values
use blueboat_cpp.GameValues
use blueboat_cpp.Server.State.{Server}

module _ (json : Json) (hooks : Bytes → Hooks json.Value) where
  open json use {Value}

  strip_prefix-append : (p t : Bytes) → strip_prefix p (p ++ t) ≡ some t
  unfolding strip_prefix
  strip_prefix-append [] t = refl
  strip_prefix-append (b ∷ p) t = ground (arith, strip_prefix-append p t)

  -- A request under the API's prefix, with the credentials of a user, whose name has no colon, in an
  -- encoding that decodes to them: where there are no admins, or the user is one with that password,
  -- what the route does with it is done; otherwise it is answered 401, and the server is as before.
  pub handle_admin_request-credentials :
      (decode_block : Bytes → Option Bytes) (admins : Assoc Bytes) (id : Bytes) (n : ℕ)
      (others : Run (Server Value) (Unit {0})) (request : Request) (route text user pass : Bytes)
      (s : Server Value)
      → request.path ≡ admin_prefix ++ route
      → find (codes "authorization") request.headers ≡ some (codes "Basic " ++ text)
      → base64_decode decode_block text ≡ ok (user ++ b':' ∷ pass)
      → Lacks b':' user
      → handle_admin_request json hooks decode_block admins id n others request s ≡ (
          if is_empty admins || has_password decode_block (find user admins) pass
          then admin_route json hooks decode_block admins id n others route request s
          else some (ok unauthorized, s))
  unfolding handle_admin_request
  handle_admin_request-credentials decode_block admins id n others request route text user pass s p
        sent decodes plain =
      ap (λ (o : Option Bytes). under_prefix json hooks decode_block admins id n others request o s)
        (ap (strip_prefix admin_prefix) p ∙ strip_prefix-append admin_prefix route)
      ∙ ap
          (λ (r : Result Bool).
            (lift r >>= if_allowed json hooks decode_block admins id n others route request) s)
          (check_basic_auth-credentials decode_block admins request text user pass sent decodes
            plain)
      ∙ decided (is_empty admins) (has_password decode_block (find user admins) pass)
    where
      decided :
          (nobody known : Bool)
          → if_allowed json hooks decode_block admins id n others route request
              (if nobody then true else known)
              s
            ≡ (if nobody || known
                then admin_route json hooks decode_block admins id n others route request s
                else some (ok unauthorized, s))
      decided true known = refl
      decided false true = refl
      decided false false = refl

  -- Game values that are posted as text, and dump to a text that parses to them, are stored, and
  -- shown as that text at every later time.
  pub get_game_values-set_game_values :
      (request : Request) (v : Value) (text : Bytes) (later : ℕ) (s : Server Value)
      → json.parse request.body ≡ ok v
      → json.dump v ≡ ok text
      → json.parse text ≡ ok v
      → (s' : Server Value) × (set_game_values json hooks request s ≡ some (ok done_reply, s'))
        × (get_game_values json hooks (record s' { now = later })
            ≡ some (ok (json_reply 200 (codes "OK") text), record s' { now = later }))
  unfolding set_game_values get_game_values GameValues.set_all
  get_game_values-set_game_values request v text later s parsed dumps parses =
      let w : Values.IsStorable json v = record { text = text; dumped = dumps; parsed = parses } in
      (
        record s { storage = (GameValues.set_all json s.now v s.storage).1 },
        rw (parsed, dumps) refl,
        rw (get_all-set_all json s.now later v s.storage w, dumps) refl,
      )
