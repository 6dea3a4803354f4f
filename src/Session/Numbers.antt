-- ===== src/Session/Numbers.antt =====
-- The sequence numbers that `stampEvents` gives (internal/engine/session.go).
use mathlib.Core.Path.{subst}
use pace_poker.Prelude.{
  ℕ, ◌+◌, ◌<◌, String, List, [], ◌∷◌, ◌++◌, length, map, keep, ◌≡◌, refl, sym, ap, ◌∙◌, inl, inr,
  arith, m64, Option-cases,
}
use pace_poker.Proto.{GameEvent, Event}
use pace_poker.Storage.Env.{Env, Uuid, Codec}
use pace_poker.Storage.Db.{EventRow}
use pace_poker.Storage.Io.{done, W, Run-cases}
use pace_poker.Storage.EventQueries.{of_game, latest_sequence}
use pace_poker.Storage.Events.{get_latest_sequence}
use pace_poker.Lobby.Replay.{Holds}
use pace_poker.Session.Stamping.{stamp_from, stamp_events, persist}
use pace_poker.Session.Stored.{persist-Stores}

-- The events carry the numbers after `k`, one after the other, and each its number as the version of
-- the state.
abbrev pub IsNumbered : ℕ → List GameEvent → Type 0
IsNumbered k [] = Unit
IsNumbered k (e ∷ es) = (e.sequence ≡ k + 1) × (e.state_version ≡ k + 1) × IsNumbered (k + 1) es

stamp_from-IsNumbered :
    (g : String) (t k : ℕ) (es : List GameEvent)
    → k + length es < m64
    → IsNumbered k (stamp_from g t k es)
unfolding stamp_from
stamp_from-IsNumbered g t k [] lt = tt
stamp_from-IsNumbered g t k (e ∷ es) lt =
    (omega (arith, lt), omega (arith, lt), stamp_from-IsNumbered g t (k + 1) es (omega (arith, lt)))

-- What the events say, in their order.
abbrev pub contents : List GameEvent → List Event
contents es = map (λ e. e.event) es

stamp_from-contents :
    (g : String) (t k : ℕ) (es : List GameEvent) → contents (stamp_from g t k es) ≡ contents es
unfolding stamp_from
stamp_from-contents g t k [] = refl
stamp_from-contents g t k (e ∷ es) = ap (λ l. e.event ∷ l) (stamp_from-contents g t (k + 1) es)

module _ (env : Env) (game : Uuid) where
  stamp_events-IsNumbered :
      (es out : List GameEvent) (w w1 : W env)
      → latest_sequence game w.view + length es < m64
      → stamp_events env game es w ≡ (done out, w1)
      → IsNumbered (latest_sequence game w.view) out × (contents out ≡ contents es)
  unfolding stamp_events get_latest_sequence
  stamp_events-IsNumbered [] [] w w1 lt h = (tt, refl)
  stamp_events-IsNumbered [] (x ∷ out) w w1 lt h = ground (arith, h)
  stamp_events-IsNumbered (e ∷ es) out w w1 lt h = elim (Option-cases (env.fault w.tick)) [
    | inr (x, f) ↦ ground (arith, h, f)
    | inl calm ↦
        let same : stamp_from (env.uuid_text game) (env.clock (w.tick + 1))
              (latest_sequence game w.view) (e ∷ es)
            ≡ out =
          ground (arith, h, calm) in
        rw (← same) (
          stamp_from-IsNumbered (env.uuid_text game) (env.clock (w.tick + 1))
              (latest_sequence game w.view) (e ∷ es) lt,
          stamp_from-contents (env.uuid_text game) (env.clock (w.tick + 1))
              (latest_sequence game w.view) (e ∷ es),
        )
  ]

  -- What the session stores and answers with, when it stores events: the log grows by one row for
  -- each of the events it was given, in their order, all of the table, and nothing else changes; the
  -- rows hold the events of the answer, each under its own number, which say what the given ones say;
  -- and the numbers are those that follow the highest of the table's log, without a gap and without a
  -- repetition. (The numbers stay below 2 ^ 64; what is written can be read back.)
  pub persist-IsNumbered :
      (codec : Codec env game) (a b : String) (es out : List GameEvent) (w w2 : W env)
      → latest_sequence game w.view + length es < m64
      → persist env a b game es w ≡ (done out, w2)
      → IsNumbered (latest_sequence game w.view) out
        × (contents out ≡ contents es)
        × ((rows : List (EventRow env.Bytes)) × Holds env rows out
            × (w2.base ≡ record w.base { events = w.base.events ++ rows })
            × (keep (of_game game) rows ≡ rows))
  unfolding persist
  persist-IsNumbered codec a b es out w w2 lt h =
      let (rows, holds, mine, base, _, _, _) = persist-Stores env game codec a b es out w w2 h in
      elim (Run-cases (stamp_events env game es w)) [
        | inr (x, w1, q) ↦ ground (arith, h, q)
        | inl (stamped, w1, q) ↦
            let outs : stamped ≡ out = ground (arith, h, q) in
            let (numbers, same) = stamp_events-IsNumbered es stamped w w1 lt q in
            (
              subst (λ l. IsNumbered (latest_sequence game w.view) l) outs numbers,
              ap contents (sym outs) ∙ same,
              (rows, holds, base, mine),
            )
      ]
