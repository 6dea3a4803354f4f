-- ===== src/Storage/Lookup.antt =====
-- An event that is appended is found again by its command (`AppendEvent` and `FindEventByCommandID`
-- of internal/store/store.go).
use pace_poker.Prelude.{
  Bool, true, false, none, some, List, [], ◌∷◌, ◌++◌, ◌≡◌, ◌≢◌, refl, ap, ◌∙◌, inl, inr, arith,
  keep, sort_by, insert_by, eq_iff, Bool-cases, Option-cases,
}
use pace_poker.Proto.{GameEvent}
use pace_poker.Storage.Env.{Env, Uuid, Codec}
use pace_poker.Storage.Db.{EventRow}
use pace_poker.Storage.Io.{done, Handle, W}
use pace_poker.Storage.EventQueries.{
  of_game, earlier_event, caused_by, log_of, find_event_by_command_id,
}
use pace_poker.Storage.Events.{event_to_params, append_event, find_by_command}
use pace_poker.Storage.Log.{append_event-adds}

module _ {A : Type 0} (less : A → A → Bool) where
  -- No element of the list is less than this one.
  abbrev pub IsLeast : A → List A → Type 0
  IsLeast x [] = Unit
  IsLeast x (y ∷ ys) = (less y x ≡ false) × IsLeast x ys

  IsLeast-insert :
      (x y : A) (ys : List A) → less y x ≡ false → IsLeast x ys → IsLeast x (insert_by less y ys)
  IsLeast-insert x y [] f h = (f, tt)
  IsLeast-insert x y (z ∷ ys) f (g, h) = elim (Bool-cases (less z y)) [
    | inl e ↦ rw e (g, IsLeast-insert x y ys f h)
    | inr e ↦ rw e (f, (g, h))
  ]

  IsLeast-sort : (x : A) (ys : List A) → IsLeast x ys → IsLeast x (sort_by less ys)
  IsLeast-sort x [] h = tt
  IsLeast-sort x (y ∷ ys) (f, h) = IsLeast-insert x y (sort_by less ys) f (IsLeast-sort x ys h)

  insert-IsLeast : (x : A) (ys : List A) → IsLeast x ys → insert_by less x ys ≡ x ∷ ys
  insert-IsLeast x [] h = refl
  insert-IsLeast x (y ∷ ys) (f, h) = rw f refl

module _ {A : Type 0} (less : A → A → Bool) (p : A → Bool) where
  keep-insert : (x : A) (ys : List A) → p x ≡ false → keep p (insert_by less x ys) ≡ keep p ys
  keep-insert x [] f = ground (arith, f)
  keep-insert x (y ∷ ys) f = ground (arith, f, keep-insert x ys f)

  keep-append_none :
      (x : A) (xs : List A) → keep p xs ≡ [] → keep p (xs ++ x ∷ []) ≡ keep p (x ∷ [])
  keep-append_none x [] n = refl
  keep-append_none x (y ∷ xs) n = ground (arith, n, keep-append_none x xs)

  -- The only element that passes is what is kept of the sorted list too.
  keep-sort :
      (x : A) (xs : List A)
      → keep p xs ≡ []
      → p x ≡ true
      → keep p (sort_by less (xs ++ x ∷ [])) ≡ x ∷ []
  keep-sort x [] n t = ground (arith, t)
  keep-sort x (y ∷ xs) n t = elim (Bool-cases (p y)) [
    | inl e ↦ ground (arith, n, e)
    | inr e ↦
        keep-insert y (sort_by less (xs ++ x ∷ [])) e ∙ keep-sort x xs (ground (arith, n, e)) t
  ]

  -- Sorting brings none of what passes where there is none.
  pub keep-sort_none : (xs : List A) → keep p xs ≡ [] → keep p (sort_by less xs) ≡ []
  keep-sort_none [] n = refl
  keep-sort_none (y ∷ xs) n = elim (Bool-cases (p y)) [
    | inl e ↦ ground (arith, n, e)
    | inr e ↦ keep-insert y (sort_by less xs) e ∙ keep-sort_none xs (ground (arith, n, e))
  ]

  -- After elements that do not pass, the least of the rest, which passes, comes first.
  pub keep-sort_first :
      (x : A) (xs ys : List A)
      → keep p xs ≡ []
      → p x ≡ true
      → IsLeast less x ys
      → keep p (sort_by less (xs ++ x ∷ ys)) ≡ x ∷ keep p (sort_by less ys)
  keep-sort_first x [] ys n t h =
      ap (λ l. keep p l) (insert-IsLeast less x (sort_by less ys) (IsLeast-sort less x ys h))
      ∙ ground (arith, t)
  keep-sort_first x (y ∷ xs) ys n t h = elim (Bool-cases (p y)) [
    | inl e ↦ ground (arith, n, e)
    | inr e ↦
        keep-insert y (sort_by less (xs ++ x ∷ ys)) e
        ∙ keep-sort_first x xs ys (ground (arith, n, e)) t h
  ]

module _ (env : Env) (game cmd : Uuid) (codec : Codec env game) (named : Codec env cmd) where
  params-found :
      (e : GameEvent) (r : EventRow env.Bytes)
      → e.game_id ≡ env.uuid_text game
      → e.caused_by_command_id ≡ env.uuid_text cmd
      → e.caused_by_command_id ≢ ""
      → event_to_params env e ≡ done r
      → (env.unmarshal_event r.envelope ≡ some e)
        × (of_game game r ≡ true)
        × (caused_by cmd r ≡ true)
  unfolding event_to_params
  params-found e r g c n h = elim (Option-cases (env.marshal_event e)) [
    | inl x ↦ ground (arith, h, x)
    | inr (b, x) ↦
        ground
          (arith, h, x, g, c, n, eq_iff e.caused_by_command_id "", codec.0 e b x, codec.1, named.1)
  ]

  grown :
      (r : EventRow env.Bytes) (rows : List (EventRow env.Bytes))
      → of_game game r ≡ true
      → keep (of_game game) (rows ++ r ∷ []) ≡ keep (of_game game) rows ++ r ∷ []
  grown r [] t = ground (arith, t)
  grown r (x ∷ rows) t = ground (arith, grown r rows t)

  -- An event that is appended for a command that the log of its table does not know yet is what the
  -- look-up by that command gives afterwards, whole, through the wire format and back. (The event has
  -- the texts of the table's id and of the command's; the database answers the look-up.)
  pub find_by_command-append :
      (h : Handle) (e : GameEvent) (w w2 : W env) (u : Unit {0})
      → e.game_id ≡ env.uuid_text game
      → e.caused_by_command_id ≡ env.uuid_text cmd
      → e.caused_by_command_id ≢ ""
      → keep (caused_by cmd) (keep (of_game game) w.view.events) ≡ []
      → append_event env h e w ≡ (done u, w2)
      → env.fault w2.tick ≡ none
      → (find_by_command env cmd game w2).0 ≡ done e
  unfolding find_by_command find_event_by_command_id
  find_by_command-append h e w w2 u g c n fresh ran calm =
      let (r, ok, adds) = append_event-adds env h e w w2 u ran in
      let (read, mine, caused) = params-found e r g c n ok in
      let log : keep (caused_by cmd) (log_of game w2.view) ≡ r ∷ [] =
        ap (λ d. keep (caused_by cmd) (log_of game d)) adds
        ∙ ap (λ l. keep (caused_by cmd) (sort_by earlier_event l)) (grown r w.view.events mine)
        ∙ keep-sort earlier_event (caused_by cmd) r (keep (of_game game) w.view.events) fresh
            caused in
      ground (arith, calm, log, read)
