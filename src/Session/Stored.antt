-- ===== src/Session/Stored.antt =====
-- What the session stores is what it answers with and applies (internal/engine/session.go).
use pace_poker.Prelude.{
  ℕ, ◌+◌, ◌%◌, m64, String, true, some, List, [], ◌∷◌, ◌++◌, ◌≡◌, refl, sym, ap, ◌∙◌, inl, inr,
  arith, keep, Option-cases,
}
use pace_poker.Proto.{GameEvent}
use pace_poker.Storage.Errors.{Err}
use pace_poker.Storage.Env.{Env, Uuid, Codec}
use pace_poker.Storage.Db.{Db, EventRow}
use pace_poker.Storage.Io.{done, failed, W, Run-cases, Outcome-cases}
use pace_poker.Storage.EventQueries.{of_game, latest_sequence}
use pace_poker.Storage.Events.{event_to_params, params_of, append_events, get_latest_sequence}
use pace_poker.Storage.Log.{append_events-adds, append_events-failed}
use pace_poker.Lobby.Replay.{Holds}
use pace_poker.Session.Stamping.{stamp_from, stamp_events, persist}

module _ (env : Env) (game : Uuid) where
  pub keep-++ :
      (xs ys : List (EventRow env.Bytes))
      → keep (of_game game) (xs ++ ys) ≡ keep (of_game game) xs ++ keep (of_game game) ys
  keep-++ [] ys = refl
  keep-++ (x ∷ xs) ys = ground (arith, keep-++ xs ys)

module _ (env : Env) (game : Uuid) (codec : Codec env game) where
  abbrev pub AreOf : List GameEvent → Type 0
  AreOf [] = Unit
  AreOf (e ∷ es) = (e.game_id ≡ env.uuid_text game) × AreOf es

  stamp_from-AreOf :
      (t latest : ℕ) (es : List GameEvent) → AreOf (stamp_from (env.uuid_text game) t latest es)
  unfolding stamp_from
  stamp_from-AreOf t latest [] = tt
  stamp_from-AreOf t latest (e ∷ es) = (refl, stamp_from-AreOf t (latest + 1) es)

  -- The events carry the numbers after `k`, one after the other, as int64s wrap round.
  abbrev pub AreStamped : ℕ → List GameEvent → Type 0
  AreStamped k [] = Unit
  AreStamped k (e ∷ es) = (e.sequence ≡ (k + 1) % m64) × AreStamped (k + 1) es

  stamp_from-AreStamped :
      (g : String) (t k : ℕ) (es : List GameEvent) → AreStamped k (stamp_from g t k es)
  unfolding stamp_from
  stamp_from-AreStamped g t k [] = tt
  stamp_from-AreStamped g t k (e ∷ es) = (refl, stamp_from-AreStamped g t (k + 1) es)

  -- The row of an event can be read back.
  event_to_params-holds :
      (e : GameEvent) (r : EventRow env.Bytes)
      → e.game_id ≡ env.uuid_text game
      → event_to_params env e ≡ done r
      → (env.unmarshal_event r.envelope ≡ some e)
        × (e.sequence ≡ r.sequence)
        × (of_game game r ≡ true)
  unfolding event_to_params
  event_to_params-holds e r k h = elim (Option-cases (env.marshal_event e)) [
    | inl x ↦ ground (arith, h, x)
    | inr (b, x) ↦ ground (arith, h, x, k, codec.0 e b x, codec.1)
  ]

  params_of-Holds :
      (es : List GameEvent) (rows : List (EventRow env.Bytes))
      → AreOf es
      → params_of env es ≡ done rows
      → Holds env rows es × (keep (of_game game) rows ≡ rows)
  unfolding params_of
  params_of-Holds [] [] a h = (tt, refl)
  params_of-Holds [] (r ∷ rows) a h = ground (arith, h)
  params_of-Holds (e ∷ es) rows a h = elim (Outcome-cases (event_to_params env e)) [
    | inr (x, q) ↦ ground (arith, h, q)
    | inl (r, q) ↦ elim (Outcome-cases (params_of env es)) [
      | inr (x, p) ↦ ground (arith, h, q, p)
      | inl (rs, p) ↦
          let (u, v, o) = event_to_params-holds e r a.0 q in
          let (hs, ks) = params_of-Holds es rs a.1 p in
          let split : rows ≡ r ∷ rs = ground (arith, h, q, p) in
          rw split ((u, v, hs), ground (arith, o, ks))
    ]
  ]

  -- What a turn that succeeds does to the rows: it adds those of the events that it answers with,
  -- under the numbers after the highest of the log.
  abbrev pub Stores : W env → List GameEvent → W env → Type 0
  Stores w es w2 =
      (rows : List (EventRow env.Bytes)) × Holds env rows es
      × (keep (of_game game) rows ≡ rows)
      × (w2.base ≡ record w.base { events = w.base.events ++ rows })
      × (w2.view ≡ record w.view { events = w.view.events ++ rows })
      × (params_of env es ≡ done rows)
      × AreStamped (latest_sequence game w.view) es

  stamp_events-reads :
      (es : List GameEvent) (w : W env)
      → ((stamp_events env game es w).1.view ≡ w.view)
        × ((stamp_events env game es w).1.base ≡ w.base)
  unfolding stamp_events get_latest_sequence
  stamp_events-reads [] w = (refl, refl)
  stamp_events-reads (e ∷ es) w = ground arith

  stamp_events-AreOf :
      (es out : List GameEvent) (w w1 : W env)
      → stamp_events env game es w ≡ (done out, w1)
      → AreOf out × AreStamped (latest_sequence game w.view) out
  unfolding stamp_events get_latest_sequence
  stamp_events-AreOf [] [] w w1 h = (tt, tt)
  stamp_events-AreOf [] (x ∷ out) w w1 h = ground (arith, h)
  stamp_events-AreOf (e ∷ es) out w w1 h = elim (Option-cases (env.fault w.tick)) [
    | inr (x, f) ↦ ground (arith, h, f)
    | inl calm ↦
        let same : stamp_from (env.uuid_text game) (env.clock (w.tick + 1))
              (latest_sequence game w.view) (e ∷ es)
            ≡ out =
          ground (arith, h, calm) in
        rw (← same) (stamp_from-AreOf _ _ (e ∷ es), stamp_from-AreStamped _ _ _ (e ∷ es))
  ]

  pub persist-Stores :
      (a b : String) (es out : List GameEvent) (w w2 : W env)
      → persist env a b game es w ≡ (done out, w2)
      → Stores w out w2
  unfolding persist
  persist-Stores a b es out w w2 h = elim (Run-cases (stamp_events env game es w)) [
    | inr (x, w1, q) ↦ ground (arith, h, q)
    | inl (stamped, w1, q) ↦ elim (Run-cases (append_events env stamped w1)) [
      | inr (x, w3, p) ↦ ground (arith, h, q, p)
      | inl (u, w3, p) ↦
          let (view1, base1) = stamp_events-reads es w in
          let (rows, ok, base, view) = append_events-adds env stamped w1 w3 u p in
          let outs : stamped ≡ out = ground (arith, h, q, p) in
          let ends : w3 ≡ w2 = ground (arith, h, q, p) in
          let (own, numbers) = stamp_events-AreOf es stamped w w1 q in
          let (holds, keeps) = params_of-Holds stamped rows own ok in
          let add : Db env.Bytes → Db env.Bytes = λ d. record d { events = d.events ++ rows } in
          (
            rows,
            rw (← outs) holds,
            keeps,
            sym (ap (λ x. x.base) ends) ∙ base ∙ ap add (sym (ap (λ x. x.1.base) q) ∙ base1),
            sym (ap (λ x. x.view) ends) ∙ view ∙ ap add (sym (ap (λ x. x.1.view) q) ∙ view1),
            rw (← outs) ok,
            rw (← outs) numbers,
          )
    ]
  ]

  pub persist-failed :
      (a b : String) (es : List GameEvent) (w w2 : W env) (e : Err)
      → persist env a b game es w ≡ (failed e, w2)
      → (w2.view ≡ w.view) × (w2.base ≡ w.base)
  unfolding persist
  persist-failed a b es w w2 e h = elim (Run-cases (stamp_events env game es w)) [
    | inr (x, w1, q) ↦ ground (arith, h, q, stamp_events-reads es w)
    | inl (stamped, w1, q) ↦ elim (Run-cases (append_events env stamped w1)) [
      | inr (x, w3, p) ↦
          ground
            (arith, h, q, p, stamp_events-reads es w, append_events-failed env stamped w1 w3 x p)
      | inl (u, w3, p) ↦ ground (arith, h, q, p)
    ]
  ]
