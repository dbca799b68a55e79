-- ===== src/Sync/World.antt =====
-- What a synchronization calls: the CMDB client behind its interface cmdbTicketClient
-- (internal/secarch/ticket_service.go), the context, the clock and the database server. All of it
-- acts on the state `W` of the rest of the world, so that no two calls need answer alike.
use secarch_tickets.Base.{
  ◌||◌, Bool, Text, List, Option, Map, Result, ok, err, Error, errors_is, err_system_not_found,
  err_system_ambiguous, err_system_invalid_data,
}
use secarch_tickets.Cmdb.Types.{Time, Ticket, SystemReference}
use secarch_tickets.Store.{Database}
use secarch_tickets.Store.Persist.{Server}
use secarch_tickets.Store.Queries.{QueryFault}

pub record World (W : Type 0) : Type 0 where
  pub get_ticket : Text → W → Result Ticket × W
  pub list_tickets : Text → W → Result (List (Option Ticket)) × W
  pub resolve_departments : List SystemReference → W → Result (Map Text Text) × W
  -- ctx.Err()
  pub ctx_err : W → Option Error
  pub clock : W → Time × W
  pub query : W → Option QueryFault × W
  pub server : W → Server × W
  -- what other requests do to the tables while the CMDB is asked
  pub others : W → Database → Database

-- IsSystemResolutionDataError of system_client.go
abbrev pub is_system_resolution_data_error : Error → Bool
is_system_resolution_data_error e =
    errors_is e err_system_not_found
    || errors_is e err_system_ambiguous
    || errors_is e err_system_invalid_data

-- A function that calls the world and can fail; what it did before it failed stays done.
abbrev pub Exec : Type 0 → Type 0 → Type 0
Exec S A = S → Result A × S

module _ {S A : Type 0} where
  abbrev pub pure : A → Exec S A
  pure a s = (ok a, s)

  abbrev pub lift : Result A → Exec S A
  lift r s = (r, s)

module _ {S A B : Type 0} where
  abbrev pub continue : Result A → (A → Exec S B) → Exec S B
  continue (ok a) f s = f a s
  continue (err e) f s = (err e, s)

  infixl 5 ◌>>=◌
  abbrev pub ◌>>=◌ : Exec S A → (A → Exec S B) → Exec S B
  ◌>>=◌ m f s = continue (m s).0 f (m s).1
