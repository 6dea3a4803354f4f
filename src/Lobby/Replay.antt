-- ===== src/Lobby/Replay.antt =====
-- `LoadState` of internal/engine/lobby.go gives the replay of the snapshot and all later events.
use pace_poker.Prelude.{
  ℕ, zero, suc, ◌≤◌, ◌<◌, none, some, List, [], ◌∷◌, ◌≡◌, refl, sym, ap, ◌∙◌, arith, length, take,
  drop, keep, le64, add64, h64, length-keep-le,
}
use pace_poker.Proto.{GameState, GameEvent}
use pace_poker.Apply.{apply_all}
use pace_poker.Rounds.Replay.{apply_all-++}
use pace_poker.Storage.Errors.{wrap}
use pace_poker.Storage.Env.{Env, Uuid}
use pace_poker.Storage.Db.{Db, EventRow, SnapshotRow}
use pace_poker.Storage.Io.{done, W, next, or_fail, >>=-step}
use pace_poker.Storage.EventQueries.{
  log_of, of_game, earlier_event, get_events_for_game, latest_snapshot,
}
use pace_poker.Storage.Events.{get_events, unmarshal_event_rows}
use pace_poker.Storage.Tables.{get_latest_snapshot, unmarshal_snapshot}
use pace_poker.Lobby.Loading.{
  load_state, load_pages, after_page, last_sequence, page_size, rounds_for,
}
use pace_poker.Lobby.Pages.{
  AscendsFrom, last_of, from, page-rest, take-++-drop, last_of-ge, last_of-drop, length-drop_le,
  length-sort_by,
}

from_from :
    {B : Type 0} (j k : ℕ) (rows : List (EventRow B))
    → k ≤ j
    → j < h64
    → from j (from k rows) ≡ from j rows
from_from j k [] le small = refl
from_from j k (r ∷ rs) le small = ground (arith, from_from j k rs le small, le, small)

module _ (env : Env) where
  -- The rows hold these events, each under its own sequence.
  abbrev pub Holds : List (EventRow env.Bytes) → List GameEvent → Type 0
  Holds [] [] = Unit
  Holds (r ∷ rs) (e ∷ es) =
      (env.unmarshal_event r.envelope ≡ some e) × (e.sequence ≡ r.sequence) × Holds rs es
  Holds _ _ = ⊥

  Holds-unmarshal :
      (rows : List (EventRow env.Bytes)) (es : List GameEvent)
      → Holds rows es
      → unmarshal_event_rows env rows ≡ done es
  unfolding unmarshal_event_rows
  Holds-unmarshal [] [] h = refl
  Holds-unmarshal [] (e ∷ es) h = elim h [ ]
  Holds-unmarshal (r ∷ rs) [] h = elim h [ ]
  Holds-unmarshal (r ∷ rs) (e ∷ es) (a, b, c) = ground (arith, a, Holds-unmarshal rs es c)

  Holds-take :
      (n : ℕ) (rows : List (EventRow env.Bytes)) (es : List GameEvent)
      → Holds rows es
      → Holds (take n rows) (take n es) × Holds (drop n rows) (drop n es)
  Holds-take zero rows es h = (tt, h)
  Holds-take (suc n) [] [] h = (tt, tt)
  Holds-take (suc n) [] (e ∷ es) h = elim h [ ]
  Holds-take (suc n) (r ∷ rs) [] h = elim h [ ]
  Holds-take (suc n) (r ∷ rs) (e ∷ es) (a, b, c) =
      let (t, d) = Holds-take n rs es c in ((a, b, t), d)

  Holds-last :
      (r : EventRow env.Bytes) (rows : List (EventRow env.Bytes)) (e : GameEvent)
      (es : List GameEvent)
      → e.sequence ≡ r.sequence
      → Holds rows es
      → last_sequence e es ≡ last_of r.sequence rows
  Holds-last r [] e [] k h = k
  Holds-last r [] e (f ∷ es) k h = elim h [ ]
  Holds-last r (x ∷ rs) e [] k h = elim h [ ]
  Holds-last r (x ∷ rs) e (f ∷ es) k (a, b, c) = Holds-last x rs f es b c

  get_events-page :
      (game : Uuid) (k n : ℕ) (rows : List (EventRow env.Bytes)) (es : List GameEvent) (w : W env)
      → env.fault w.tick ≡ none
      → from k (log_of game w.view) ≡ rows
      → Holds rows es
      → get_events env game k n w ≡ (done (take n es), next env w)
  unfolding get_events get_events_for_game
  get_events-page game k n rows es w calm log h =
      let (t, d) = Holds-take n rows es h in
      ground (arith, calm, log, Holds-unmarshal (take n rows) (take n es) t)

  load_pages-step :
      (n : ℕ) (game : Uuid) (s : GameState) (latest : ℕ) (es : List GameEvent) (w w1 : W env)
      → get_events env game (add64 latest 1) page_size w ≡ (done es, w1)
      → load_pages env (suc n) game s latest w ≡ after_page (load_pages env n game) s latest es w1
  unfolding load_pages
  load_pages-step n game s latest es w w1 h =
      >>=-step (or_fail (wrap "load events") (get_events env game (add64 latest 1) page_size))
        (after_page (load_pages env n game) s latest) w w1 es (ground (arith, h))

  -- With more rounds than there are rows, the loop ends with every event replayed.
  load_pages-replays :
      (rounds : ℕ) (game : Uuid) (s : GameState) (latest : ℕ) (rows : List (EventRow env.Bytes))
      (es : List GameEvent) (w : W env)
      → ((t : ℕ) → env.fault t ≡ none)
      → suc latest < h64
      → AscendsFrom (suc latest) rows
      → from (suc latest) (log_of game w.view) ≡ rows
      → Holds rows es
      → length rows < rounds
      → (load_pages env rounds game s latest w).0 ≡ done (apply_all s es, last_of latest rows)
  load_pages-replays zero game s latest rows es w calm small asc log h lt = ground (arith, lt)
  load_pages-replays (suc n) game s latest [] (e ∷ es) w calm small asc log h lt = elim h [ ]
  load_pages-replays (suc n) game s latest (r ∷ rs) [] w calm small asc log h lt = elim h [ ]
  load_pages-replays (suc n) game s latest [] [] w calm small asc log h lt =
      let eq : add64 latest 1 ≡ suc latest = omega (arith, small) in
      let page =
        get_events-page game (add64 latest 1) page_size [] [] w (calm w.tick) (rw eq log) tt in
      unfold apply_all in ap (λ x. x.0) (load_pages-step n game s latest [] w (next env w) page)
  load_pages-replays (suc n) game s latest (r ∷ rs) (e ∷ es) w calm small asc log h lt =
      let eq : add64 latest 1 ≡ suc latest = omega (arith, small) in
      let page =
        get_events-page game (add64 latest 1) page_size (r ∷ rs) (e ∷ es) w (calm w.tick)
          (rw eq log) h in
      let (read, left) = Holds-take 499 rs es h.2 in
      let last = Holds-last r (take 499 rs) e (take 499 es) h.1 read in
      let (same, asc2, small2) = page-rest 500 latest (r ∷ rs) asc small in
      let (ge, lt2) = last_of-ge 500 latest (r ∷ rs) asc small in
      let log2 =
        sym (
          from_from (suc (last_of latest (take 500 (r ∷ rs)))) (suc latest) (log_of game w.view)
            (omega (arith, ge)) small2)
        ∙ ap (from (suc (last_of latest (take 500 (r ∷ rs))))) log
        ∙ same in
      let rest =
        load_pages-replays n game (apply_all s (e ∷ take 499 es)) (last_of r.sequence (take 499 rs))
          (drop 499 rs) (drop 499 es) (next env w) calm small2 asc2 log2 left
          (omega (arith, lt, length-drop_le 499 rs)) in
      ap (λ x. x.0) (load_pages-step n game s latest (take 500 (e ∷ es)) w (next env w) page)
      ∙ ap (λ q. (load_pages env n game (apply_all s (e ∷ take 499 es)) q (next env w)).0) last
      ∙ rest
      ∙ ap (λ a. done (a, last_of (last_of r.sequence (take 499 rs)) (drop 499 rs)))
          (sym (apply_all-++ s (e ∷ take 499 es) (drop 499 es))
            ∙ ap (apply_all s) (take-++-drop 500 (e ∷ es)))
      ∙ ap (λ q. done (apply_all s (e ∷ es), q)) (last_of-drop 499 r.sequence rs)

  later-short :
      (game : Uuid) (k : ℕ) (db : Db env.Bytes)
      → length (from k (log_of game db)) < rounds_for env db
  later-short game k db = omega (
    arith,
    length-keep-le (λ r. le64 k r.sequence) (log_of game db),
    length-sort_by earlier_event (keep (of_game game) db.events),
    length-keep-le (of_game game) db.events,
  )

  -- Where the database answers every call, `LoadState` ends, and its state is the one of the latest
  -- snapshot with every later event of the table applied, in the order of the log and in one batch:
  -- the pages of 500 events leave no event out and repeat none, however many there are, and the
  -- sequence that it gives is that of the last event, or of the snapshot where there is none later.
  -- (The snapshot and the events can be parsed, each event has the sequence of its row, and the
  -- sequences grow and are below 2 ^ 63 - 1.)
  pub load_state-replays :
      (game : Uuid) (snap : SnapshotRow env.Bytes) (s : GameState) (es : List GameEvent) (w : W env)
      → ((t : ℕ) → env.fault t ≡ none)
      → latest_snapshot game w.view ≡ done snap
      → env.unmarshal_state snap.state_proto ≡ some s
      → suc snap.sequence < h64
      → AscendsFrom (suc snap.sequence) (from (suc snap.sequence) (log_of game w.view))
      → Holds (from (suc snap.sequence) (log_of game w.view)) es
      → (load_state env game w).0
        ≡ done
            (apply_all s es, last_of snap.sequence (from (suc snap.sequence) (log_of game w.view)))
  unfolding load_state get_latest_snapshot unmarshal_snapshot
  load_state-replays game snap s es w calm found parsed small asc h =
      let replays =
        load_pages-replays (rounds_for env w.view) game s snap.sequence
          (from (suc snap.sequence) (log_of game w.view)) es (next env w) calm small asc refl h
          (later-short game (suc snap.sequence) w.view) in
      let begins : env.fault w.tick ≡ none = calm w.tick in
      ground (arith, begins, found, parsed, replays)
