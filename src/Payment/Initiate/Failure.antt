-- ===== src/Payment/Initiate/Failure.antt =====
-- What an initiated payment that fails changes.
use lif_low_backend.Prelude.{ℕ, ◌≡◌, refl, some, List}
use lif_low_backend.Schema.{
  Db, err, Error, not_found, bad_request, conflict, validation, internal, p2002, p2003, p2025,
  p1001, other_database_error, toss_error, failed_to_initiate_payment,
}
use lif_low_backend.Carts.Totals.{IsValid, remove_items-IsValid}
use lif_low_backend.Carts.Changes.{IsCartChange, remove_items-IsCartChange}
use lif_low_backend.Payment.Initiate.{InitiateRequest, initiate_cart, normalised, initiate_payment}

-- What the caller is told of an error: "not found" and "bad request" as they are, and nothing of
-- any other.
abbrev pub IsTold : Error → Error → Type 0
IsTold (not_found r) told = told ≡ not_found r
IsTold (bad_request r) told = told ≡ bad_request r
IsTold (conflict r) told = told ≡ internal failed_to_initiate_payment
IsTold (validation r) told = told ≡ internal failed_to_initiate_payment
IsTold (internal r) told = told ≡ internal failed_to_initiate_payment
IsTold p2002 told = told ≡ internal failed_to_initiate_payment
IsTold p2003 told = told ≡ internal failed_to_initiate_payment
IsTold p2025 told = told ≡ internal failed_to_initiate_payment
IsTold p1001 told = told ≡ internal failed_to_initiate_payment
IsTold other_database_error told = told ≡ internal failed_to_initiate_payment
IsTold (toss_error n) told = told ≡ internal failed_to_initiate_payment

normalised-IsTold : (e : Error) → IsTold e (normalised e)
normalised-IsTold (not_found r) = refl
normalised-IsTold (bad_request r) = refl
normalised-IsTold (conflict r) = refl
normalised-IsTold (validation r) = refl
normalised-IsTold (internal r) = refl
normalised-IsTold p2002 = refl
normalised-IsTold p2003 = refl
normalised-IsTold p2025 = refl
normalised-IsTold p1001 = refl
normalised-IsTold other_database_error = refl
normalised-IsTold (toss_error n) = refl

-- An initiation that fails throws a "not found" or a "bad request" on as it is, and an internal
-- error with one fixed message for whatever else failed. It makes no order: only carts and their
-- items change, and every cart still keeps the total of its items, if it did so before. The request
-- has an address.
pub initiate_payment-fails :
    (draw : ℕ → ℕ) (req : InitiateRequest) (address : ℕ) (item_ids : List ℕ) (db : Db) {e : Error}
    → req.address ≡ some address
    → IsValid db
    → initiate_cart draw req address item_ids db ≡ err e
    → let r = initiate_payment draw req item_ids db in
      (told : Error) × (r.0 ≡ err told) × IsTold e told × IsCartChange db r.1 × IsValid r.1
unfolding initiate_payment
initiate_payment-fails draw req address item_ids db {e} here valid failed =
    rw (here, failed, initiate_payment)
      (
        normalised e,
        refl,
        normalised-IsTold e,
        remove_items-IsCartChange item_ids db,
        remove_items-IsValid item_ids db valid,
      )
