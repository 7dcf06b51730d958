-- ===== src/GameValues.antt =====
-- server/src/game_values.cpp: one JSON object of game values, kept in the store without expiry.
pub mod Values
use blueboat_cpp.Base.{ℕ, true, Option, none, some, if◌then◌else◌, Bytes, Result, Exec, ok, throws}
use blueboat_cpp.Json.{Json, object}
use blueboat_cpp.Protocol.{game_values}
use blueboat_cpp.Storage.{Storage}
use blueboat_cpp.Storage

module _ (json : Json) where
  open json use {Value}

  abbrev store_values : ℕ → Storage → Result Bytes → Result (Unit {0}) × Storage
  store_values now st (ok raw) = (ok tt, Storage.set now game_values raw true st)
  store_values now st (throws e) = (throws e, st)

  unfoldable pub set_all : ℕ → Value → Exec Storage (Unit {0})
  set_all now new_values st = store_values now st (json.dump new_values)

  abbrev parsed_or_object : Option Bytes → Value
  parsed_or_object none = object json
  parsed_or_object (some raw) = elim (json.parse raw) [ ok v ↦ v | throws e ↦ object json ]

  unfoldable pub get_all : ℕ → Storage → Value
  get_all now st = parsed_or_object (Storage.get now game_values st)

  unfoldable pub get : ℕ → Bytes → Value → Storage → Result Value
  get now key default_value st =
      let values = get_all now st in
      if json.contains values key then json.at values key else ok default_value

  abbrev store_assigned : ℕ → Storage → Result Value → Result (Unit {0}) × Storage
  store_assigned now st (ok values) = set_all now values st
  store_assigned now st (throws e) = (throws e, st)

  unfoldable pub set : ℕ → Bytes → Value → Exec Storage (Unit {0})
  unfolding set_all
  set now key value st = store_assigned now st (json.assign (get_all now st) key value)

  unfoldable pub reset : ℕ → Exec Storage (Unit {0})
  unfolding set_all
  reset now st = set_all now (object json) st
