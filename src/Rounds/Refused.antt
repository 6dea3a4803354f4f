-- ===== src/Rounds/Refused.antt =====
-- What `HandleCommand` of internal/engine/handler.go makes of a command that the validators refuse.
use mathlib.Core.Path.{subst}
use pace_poker.Prelude.{
  ℕ, Int64, String, Option, List, [], ◌∷◌, ◌<>◌, ◌≡◌, refl, ap, sym, ◌∙◌, ◌⊎◌, inl, inr, arith,
  add64,
}
use pace_poker.Proto.{GameState, GameEvent, PlayerCommand}
use pace_poker.Cards.Dealer.{Dealer, Result, ok, err}
use pace_poker.Rejection.{rejected, RejectionReason, to_command_rejected_event}
use pace_poker.Validate.{validate}
use pace_poker.Apply.{apply, apply_all, apply_event}
use pace_poker.Commands.{command_events}
use pace_poker.Advance.{advance, run_advance, handle_command, max_steps}
use pace_poker.Advance.Monad.{◌>>=◌, pure, wrapping}
use pace_poker.Rounds.Replay.{apply_all-++}
use pace_poker.Rounds.Settled.{Runs, run_advance-Settles}

Result-cases :
    {A D : Type 0} (r : Result A × D)
    → ((a : A) × (d : D) × (r ≡ (ok a, d))) ⊎ ((e : String) × (d : D) × (r ≡ (err e, d)))
Result-cases (ok a, d) = inl (a, d, refl)
Result-cases (err e, d) = inr (e, d, refl)

-- The table with nothing changed but the number of its version.
abbrev pub renumbered : GameState → GameState
renumbered s = record s { version = add64 s.version 1 }

abbrev pub rejection_of : RejectionReason → GameState → PlayerCommand → GameEvent
rejection_of r s cmd = to_command_rejected_event r s.game_id cmd.command_id

refused-apply_all :
    (s : GameState) (cmd : PlayerCommand) (r : RejectionReason)
    → apply_all s (rejection_of r s cmd ∷ []) ≡ renumbered s
unfolding apply_all apply apply_event to_command_rejected_event
refused-apply_all s cmd r = refl

refused-command_events :
    (s : GameState) (cmd : PlayerCommand) (actor : String) (r : RejectionReason)
    → validate s cmd.payload actor ≡ rejected r
    → command_events s cmd actor ≡ rejection_of r s cmd ∷ []
unfolding command_events
refused-command_events s cmd actor r e = rw e refl

module _ (dlr : Dealer) (hand_ids : Int64 → String) (now : Option ℕ) where
  -- Events of the server alone, by rounds of `advance` from a table to where they replay to, up to
  -- the limit or until `advance` has nothing to add.
  abbrev pub IsOwnPlay : GameState → dlr.State → List GameEvent → GameState → dlr.State → Type 0
  IsOwnPlay s d es t d2 =
      (k : ℕ) × (d1 : dlr.State) × Runs dlr hand_ids now k s d es t d1
      × (((k ≡ max_steps) × (d1 ≡ d2)) ⊎ (advance dlr hand_ids t now d1 ≡ (ok [], d2)))

  refused_then :
      (s : GameState) (cmd : PlayerCommand) (actor : String) (r : RejectionReason) (d : dlr.State)
      → validate s cmd.payload actor ≡ rejected r
      → handle_command dlr hand_ids s cmd actor now d
        ≡ (wrapping "advance" (run_advance dlr hand_ids (renumbered s) now) >>= λ more.
              pure (rejection_of r s cmd ∷ more))
            d
  unfolding handle_command
  refused_then s cmd actor r d e =
      rw (refused-command_events s cmd actor r e, refused-apply_all s cmd r) refl

  -- A command that the validators refuse, for any reason, does nothing to the table but raise its
  -- version by one. `HandleCommand` answers with the rejection, and then with the events that the
  -- server adds of its own to the table with that version, as it may when a deadline has passed: they
  -- come from rounds of `advance`, whatever the command was, and end in the state that the whole
  -- answer replays to. Where the server's own play fails, its error is the answer.
  pub handle_command-refused :
      (s : GameState) (cmd : PlayerCommand) (actor : String) (r : RejectionReason) (d : dlr.State)
      → validate s cmd.payload actor ≡ rejected r
      → (apply_all s (rejection_of r s cmd ∷ []) ≡ renumbered s)
        × (((more : List GameEvent) × (d2 : dlr.State) × (handle_command dlr hand_ids s cmd actor
                  now d
                ≡ (ok (rejection_of r s cmd ∷ more), d2))
              × IsOwnPlay (renumbered s) d more (apply_all s (rejection_of r s cmd ∷ more)) d2)
            ⊎ ((x : String) × (d2 : dlr.State) × (run_advance dlr hand_ids (renumbered s) now d
                  ≡ (err x, d2))
                × (handle_command dlr hand_ids s cmd actor now d
                    ≡ (err ("advance" <> ": " <> x), d2))))
  handle_command-refused s cmd actor r d e =
      let answer = refused_then s cmd actor r d e in
      (
        refused-apply_all s cmd r,
        elim (Result-cases (run_advance dlr hand_ids (renumbered s) now d)) [
          | inl (more, d2, q) ↦ inl (
            more,
            d2,
            ground (arith, answer, q),
            subst (λ t. IsOwnPlay (renumbered s) d more t d2)
                (sym (
                  apply_all-++ s (rejection_of r s cmd ∷ []) more
                  ∙ ap (λ t. apply_all t more) (refused-apply_all s cmd r)))
                (run_advance-Settles dlr hand_ids now (renumbered s) d more d2 q),
          )
          | inr (x, d2, q) ↦ inr (x, d2, q, ground (arith, answer, q))
        ],
      )
