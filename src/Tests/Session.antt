-- ===== src/Tests/Session.antt =====
-- Turns of the session, at the database of the examples.
use pace_poker.Prelude.{
  ◌+◌, ◌<◌, Int64, String, List, [], ◌∷◌, ◌++◌, keep, ◌≡◌, refl, inl, inr, arith, length, m64,
}
use pace_poker.Proto.{GameEvent, Event, PlayerCommand, bare, fold}
use pace_poker.Apply.{apply_all}
use pace_poker.Cards.Dealer.{FixedDealer, fixed_dealer}
use pace_poker.Storage.Errors.{is_err}
use pace_poker.Storage.Db.{EventRow}
use pace_poker.Lobby.Replay.{Holds}
use pace_poker.Storage.Io.{done, W}
use pace_poker.Storage.EventQueries.{
  find_event_by_command_id, latest_sequence, of_game, append_game_event, append_game_events,
}
use pace_poker.Storage.Events.{
  find_by_command, get_latest_sequence, append_events, event_to_params, params_of,
}
use pace_poker.Session.Stamping.{lookup_by_command_id, stamp_events, stamp_from, persist}
use pace_poker.Session.Loop.{envelope, turn}
use pace_poker.Session.Synced.{IsSynced, IsNew, turn-IsSynced}
use pace_poker.Session.Numbers.{IsNumbered, contents, persist-IsNumbered}
use pace_poker.Tests.Store.{Blob, calm, codec_table, value_or}
use pace_poker.Tests.Loading.{stored_table, two_events, empty_log}

abbrev pub folding : PlayerCommand
folding = record {
  command_id = "first";
  game_id = "table";
  client_state_version = 1;
  payload = fold;
}

abbrev pub no_ids : Int64 → String
no_ids n = "hand"

abbrev deck : FixedDealer
deck = record { cards = []; pos = 0 }

unseen : IsNew calm fixed_dealer no_ids 1 codec_table (envelope "alice" folding) empty_log
unfolding lookup_by_command_id find_by_command find_event_by_command_id is_err
unseen = inr (inl refl)

starts : IsSynced calm fixed_dealer no_ids 1 codec_table stored_table stored_table empty_log
unfolding apply_all
starts = ([], tt, refl, refl)

turn-IsSynced_example :
    IsSynced calm fixed_dealer no_ids 1 codec_table stored_table
      (turn calm fixed_dealer no_ids 1 (envelope "alice" folding) stored_table deck empty_log).0
      (turn calm fixed_dealer no_ids 1 (envelope "alice" folding) stored_table deck empty_log).2
turn-IsSynced_example =
    turn-IsSynced calm fixed_dealer no_ids 1 codec_table stored_table stored_table
      (envelope "alice" folding) deck empty_log unseen starts

abbrev two_checks : List GameEvent
two_checks = bare (Event.player_checked "alice") ∷ bare (Event.player_checked "bob") ∷ []

abbrev numbered : List GameEvent
numbered = value_or [] (persist calm "stamp" "store" 1 two_checks two_events).0

abbrev after_checks : W calm
after_checks = (persist calm "stamp" "store" 1 two_checks two_events).1

persists : persist calm "stamp" "store" 1 two_checks two_events ≡ (done numbered, after_checks)
unfolding persist stamp_events stamp_from get_latest_sequence latest_sequence append_events
    params_of event_to_params append_game_events append_game_event
persists = refl

below : latest_sequence 1 two_events.view + length two_checks < m64
unfolding latest_sequence
below = omega arith

persist-IsNumbered_example :
    IsNumbered (latest_sequence 1 two_events.view) numbered
    × (contents numbered ≡ contents two_checks)
    × ((rows : List (EventRow Blob)) × Holds calm rows numbered
        × (after_checks.base ≡ record two_events.base { events = two_events.base.events ++ rows })
        × (keep (of_game 1) rows ≡ rows))
persist-IsNumbered_example =
    persist-IsNumbered calm 1 codec_table "stamp" "store" two_checks numbered two_events
      after_checks below persists
