-- ===== src/Base/Errors.antt =====
-- Go's `error` values as this service makes and tests them: the sentinels that errors.Is looks for,
-- errors made where they occur (named by the text of their Errorf), and wrapping by %w.
use Prim.Native.Nat.{ℕ}
use Prim.Native.String.{String}
use mathlib.Core.Path.{◌≡◌, refl}
use mathlib.Core.Logic.{◌⊎◌, inl, inr}
use mathlib.Core.Bool.{Bool, false}
use secarch_tickets.Base.Tests.{◌==◌, nat_eq}

pub data Sentinel : Type 0 where
  err_refresh_rejected err_access_identity_required : Sentinel
  -- secarch.ErrTicketNotFound
  err_ticket_not_found err_update_content_required err_update_content_too_long : Sentinel
  -- cmdb.ErrTicketNotFound and the three errors of one System's data
  err_cmdb_ticket_not_found err_system_not_found err_system_ambiguous err_system_invalid_data :
      Sentinel
  -- ctx.Err(), pgx.ErrNoRows, errClaimMissing
  err_context_done err_no_rows err_claim_missing : Sentinel

pub data Error : Type 0 where
  sentinel : Sentinel → Error
  failed : String → Error
  -- *ticketAPIStatusError
  api_status : ℕ → Error
  wrapped : String → Error → Error

-- The text of a sentinel's place in the list; two sentinels are one exactly if these agree.
abbrev rank : Sentinel → ℕ
rank err_refresh_rejected = 0
rank err_access_identity_required = 1
rank err_ticket_not_found = 2
rank err_update_content_required = 3
rank err_update_content_too_long = 4
rank err_cmdb_ticket_not_found = 5
rank err_system_not_found = 6
rank err_system_ambiguous = 7
rank err_system_invalid_data = 8
rank err_context_done = 9
rank err_no_rows = 10
rank err_claim_missing = 11

abbrev pub same_sentinel : Sentinel → Sentinel → Bool
same_sentinel a b = rank a == rank b

-- errors.Is
abbrev pub errors_is : Error → Sentinel → Bool
errors_is (sentinel s) t = same_sentinel s t
errors_is (failed m) t = false
errors_is (api_status c) t = false
errors_is (wrapped m e) t = errors_is e t

-- The values of a Go function that returns (A, error).
pub data Result {ℓ} (A : Type ℓ) : Type ℓ where
  err : Error → Result A
  ok : A → Result A

-- if err != nil { return err }
infixl 5 ◌>>=◌
abbrev pub ◌>>=◌ {ℓ κ} : {A : Type ℓ} {B : Type κ} (r : Result A) → (A → Result B) → Result B
err e >>= next = err e
ok a >>= next = next a

-- What a sequence that succeeded went through.
pub >>=-eq-ok {ℓ κ} :
    {A : Type ℓ} {B : Type κ} (r : Result A) (next : A → Result B) {b : B}
    → (r >>= next) ≡ ok b
    → (a : A) × (r ≡ ok a) × (next a ≡ ok b)
>>=-eq-ok (err e) next h = cc
>>=-eq-ok (ok a) next h = (a, refl, h)

-- fmt.Errorf("…: %w", err)
abbrev pub wrap_err {ℓ} : {A : Type ℓ} → String → Result A → Result A
wrap_err m (ok a) = ok a
wrap_err m (err e) = err (wrapped m e)

pub data IsOk {ℓ} {A : Type ℓ} (r : Result A) : Type ℓ where
  returns : (a : A) → r ≡ ok a → IsOk r

pub ok-injective {ℓ} : {A : Type ℓ} {a b : A} → ok a ≡ ok b → a ≡ b
ok-injective h = cc

pub Result-cases {ℓ} :
    {A : Type ℓ} (r : Result A) → ((a : A) × (r ≡ ok a)) ⊎ ((e : Error) × (r ≡ err e))
Result-cases (ok a) = inl (a, refl)
Result-cases (err e) = inr (e, refl)
