-- ===== src/Transfer/Once.antt =====
-- Proofs about the idempotency key of `CreateTransfer` in
-- services/transfer/internal/app/service.go.
use bank_core.Prelude.{
  ℕ, zero, suc, ◌≤◌, ◌≡◌, ◌≢◌, refl, arith, inl, inr, String, str_eq, str_eq_iff, true, false,
  if◌then◌else◌, ◌∷◌, none, some, Bool-cases,
}
use bank_core.Prelude.Int.{ℤ}
use bank_core.Prelude.Results.{Result, ok, err, Result-cases}
use bank_core.Apperr.{code_idempotency_conflict}
use bank_core.Ledger.Store.{find_row}
use bank_core.Transfer.State.{is_terminal}
use bank_core.Transfer.Tables.{SagaError, not_found, coded, Transfer, TransferDb, commit}
use bank_core.Transfer.Store.{
  get_transfer, append_event, insert_transfer, try_insert_key, get_key, has_key,
}
use bank_core.Transfer.Clients.{Clients, World}
use bank_core.Transfer.Saga.{drive}
use bank_core.Transfer.Drive.{drive-Returns}
use bank_core.Transfer.Create.{
  CreateCmd, hash, new_transfer, new_key, check_cmd, seen_before, create_tx, drive_created,
  create_transfer,
}

insert_transfer-keys :
    (t : Transfer) (db db' : TransferDb) → insert_transfer t db ≡ ok (tt, db') → db'.keys ≡ db.keys
unfolding insert_transfer
insert_transfer-keys t db db' h = ground (arith, h)

module _ (sha256_hex : String → String) (format_int : ℤ → String) where
  create_tx-new :
      (id e : String) (now : ℕ) (cmd : CreateCmd) (db db₁ : TransferDb)
      → get_key cmd.customer_id cmd.idempotency_key db ≡ err not_found
      → create_tx sha256_hex format_int id now cmd db ≡ ok (e, db₁)
      → (e ≡ "") × (db₁.keys ≡ new_key sha256_hex format_int id now cmd ∷ db.keys)
  unfolding create_tx get_key try_insert_key append_event
  create_tx-new id e now cmd db db₁ unused h =
      let keyed : TransferDb = record db {
        keys = new_key sha256_hex format_int id now cmd ∷ db.keys;
      } in
      let free : (find_row (has_key cmd.customer_id cmd.idempotency_key) db.keys ≡ none) =
        ground (arith, unused) in
      elim (Result-cases (insert_transfer (new_transfer id now cmd) keyed)) [
        | inr (x, refused) ↦ absurd (ground (arith, free, h, refused))
        | inl ((_, db₂), inserted) ↦
            let kept = insert_transfer-keys (new_transfer id now cmd) keyed db₂ inserted in
            ground (arith, free, h, inserted, kept)
      ]

  -- The transaction of a repeated request.
  create_tx-seen :
      (id id' : String) (now now' : ℕ) (cmd cmd' : CreateCmd) (db : TransferDb)
      → get_key cmd.customer_id cmd.idempotency_key db
        ≡ ok (new_key sha256_hex format_int id now cmd)
      → cmd'.customer_id ≡ cmd.customer_id
      → cmd'.idempotency_key ≡ cmd.idempotency_key
      → create_tx sha256_hex format_int id' now' cmd' db ≡ (
          if str_eq (hash sha256_hex format_int cmd) (hash sha256_hex format_int cmd')
          then ok (id, db)
          else err (coded code_idempotency_conflict))
  unfolding create_tx get_key try_insert_key seen_before
  create_tx-seen id id' now now' cmd cmd' db stored customer key =
      let hit : (find_row (has_key cmd'.customer_id cmd'.idempotency_key) db.keys
          ≡ some (new_key sha256_hex format_int id now cmd)) =
        rw (customer, key) (ground (arith, stored)) in
      ground (arith, hit)

  module _ {W : Type 0} (clients : Clients W) where
    -- A repeat looks up the transfer that Drive looks up again.
    drive_created-drive :
        (rounds : ℕ) (id existing : String) (clock : ℕ → ℕ) (w : World W)
        → existing ≢ ""
        → 1 ≤ rounds
        → drive_created clients rounds id existing clock w ≡ drive clients rounds existing clock w
    unfolding drive_created drive
    drive_created-drive zero id existing clock w given some_round = absurd (ground arith)
    drive_created-drive (suc rounds) id existing clock w given some_round =
        let named : (str_eq existing "" ≡ false) = ground (arith, given) in
        elim (Result-cases (get_transfer existing w.db)) [
          | inr (e, missing) ↦ ground (arith, named, missing)
          | inl (t, found) ↦ elim (Bool-cases (is_terminal t.state)) [
            | inl last ↦ ground (arith, named, found, last)
            | inr more ↦ rw named (rw found (rw more refl))
          ]
        ]

    -- After CreateTransfer has stored the request, its key is found.
    create_transfer-keyed :
        (rounds : ℕ) (id e : String) (now : ℕ) (clock : ℕ → ℕ) (cmd : CreateCmd) (w w₁ : World W)
        (db₁ : TransferDb) (r : Result SagaError Transfer)
        → 6 ≤ rounds
        → get_key cmd.customer_id cmd.idempotency_key w.db ≡ err not_found
        → check_cmd cmd ≡ ok tt
        → create_tx sha256_hex format_int id now cmd w.db ≡ ok (e, db₁)
        → create_transfer sha256_hex format_int clients rounds (some id) now clock cmd w
          ≡ some (r, w₁)
        → get_key cmd.customer_id cmd.idempotency_key w₁.db
          ≡ ok (new_key sha256_hex format_int id now cmd)
    unfolding create_transfer drive_created commit get_key
    create_transfer-keyed rounds id e now clock cmd w w₁ db₁ r enough unused valid made returned =
        let (fresh, keys) = create_tx-new id e now cmd w.db db₁ unused made in
        let (r', w', e', kept, _) =
          drive-Returns clients rounds id clock (record w { db = db₁ }) enough in
        let stored : (w₁.db.keys ≡ new_key sha256_hex format_int id now cmd ∷ w.db.keys) =
          ground (arith, valid, made, fresh, returned, e', kept, keys) in
        let hit : (has_key cmd.customer_id cmd.idempotency_key
              (new_key sha256_hex format_int id now cmd)
            ≡ true) =
          ground (
            arith,
            (str_eq_iff cmd.customer_id cmd.customer_id).1,
            (str_eq_iff cmd.idempotency_key cmd.idempotency_key).1,
          ) in
        ground (arith, stored, hit)

    -- One idempotency key makes one transfer. A customer uses a new key, the request is stored, and
    -- CreateTransfer returns. On any later tables in which the customer's key still finds the row it finds
    -- then, a valid request of the customer with the key, whatever id is drawn for it, does not make a
    -- transfer: for the same request it drives the first transfer on, and for a request with another hash
    -- it is a conflict and changes nothing.
    pub create_transfer_once :
        (rounds rounds' : ℕ) (id id' e : String) (now now' : ℕ) (clock clock' : ℕ → ℕ)
        (cmd cmd' : CreateCmd) (w w₁ w₂ : World W) (db₁ : TransferDb)
        (r : Result SagaError Transfer)
        → 6 ≤ rounds
        → 1 ≤ rounds'
        → id ≢ ""
        → get_key cmd.customer_id cmd.idempotency_key w.db ≡ err not_found
        → check_cmd cmd ≡ ok tt
        → create_tx sha256_hex format_int id now cmd w.db ≡ ok (e, db₁)
        → create_transfer sha256_hex format_int clients rounds (some id) now clock cmd w
          ≡ some (r, w₁)
        → get_key cmd.customer_id cmd.idempotency_key w₂.db
          ≡ get_key cmd.customer_id cmd.idempotency_key w₁.db
        → cmd'.customer_id ≡ cmd.customer_id
        → cmd'.idempotency_key ≡ cmd.idempotency_key
        → check_cmd cmd' ≡ ok tt
        → create_transfer sha256_hex format_int clients rounds' (some id') now' clock' cmd' w₂ ≡ (
            if str_eq (hash sha256_hex format_int cmd) (hash sha256_hex format_int cmd')
            then drive clients rounds' id clock' w₂
            else some (err (coded code_idempotency_conflict), w₂))
    unfolding create_transfer commit
    create_transfer_once rounds rounds' id id' e now now' clock clock' cmd cmd' w w₁ w₂ db₁ r enough
          some_round given unused valid made returned stored customer key valid' =
        let keyed =
          create_transfer-keyed rounds id e now clock cmd w w₁ db₁ r enough unused valid made
            returned in
        let seen =
          create_tx-seen id id' now now' cmd cmd' w₂.db (ground (arith, stored, keyed)) customer
            key in
        let again = drive_created-drive rounds' id' id clock' w₂ given some_round in
        elim (Bool-cases
          (str_eq (hash sha256_hex format_int cmd) (hash sha256_hex format_int cmd'))) [
            | inl same ↦ ground (arith, valid', seen, again, same)
            | inr other ↦ ground (arith, valid', seen, other)
          ]
