-- ===== src/Transfer/Tests/Stuck.antt =====
-- An instance of the theorem on recovery: a ledger that does not answer whether an entry exists, and that
-- refuses to release the hold.
use bank_core.Prelude.{◌≡◌, refl, some, List, [], ◌∷◌, string_discrete}
use bank_core.Prelude.Int.{pos}
use bank_core.Prelude.Results.{err}
use bank_core.Apperr.{
  context_deadline, grpc_status, invalid_argument, ambiguous, from_grpc, find_reason,
  code_of_status,
}
use bank_core.Transfer.Tables.{Transfer}
use bank_core.Transfer.Clients.{Clients, World}
use bank_core.Transfer.Recovery.{recover_one, release_pending, drive_failed}
use bank_core.Transfer.Stranded.{Refuses, InReleasing, Run, recoveries, recover_one_strands}
use bank_core.Transfer.Tests.{conversion}

abbrev silent : Clients (Unit {0})
silent = record {
  place_hold = λ ref amount currency id w. (err context_deadline, w);
  release_hold = λ h w. (err (grpc_status invalid_argument []), w);
  post_transaction = λ id hold legs w. (err context_deadline, w);
  transaction_exists = λ id w. (err context_deadline, w);
  get_account = λ id w. (err context_deadline, w);
  resolve_by_number = λ n w. (err context_deadline, w);
}

silent-Refuses : Refuses silent "h1"
unfolding ambiguous from_grpc find_reason code_of_status string_discrete
silent-Refuses w = (grpc_status invalid_argument [], refl, refl, refl)

abbrev exhausted : Transfer
exhausted = record conversion { recovery_attempts = pos 6 }

abbrev world : World (Unit {0})
world = record {
  db = record {
    transfers = exhausted ∷ [];
    events = [];
    keys = [];
    rates = [];
    limits = [];
    outbox = [];
  };
  outside = tt;
}

-- Two runs, with nothing done by others between them.
abbrev runs : List (Run silent)
runs = record { now = 90; others = λ v. v } ∷ record { now = 130; others = λ v. v } ∷ []

recover_one_strands_example :
    (w' : World (Unit {0})) × (w'' : World (Unit {0})) × (recover_one silent 6 "t1" 50
        (λ n. 50)
        world
      ≡ some (release_pending, w'))
    × InReleasing silent "t1" "h1" w'
    × (recoveries silent 6 30 "t1" (λ n. 90) runs w' ≡ some (drive_failed ∷ drive_failed ∷ [], w''))
    × InReleasing silent "t1" "h1" w''
recover_one_strands_example =
    recover_one_strands silent 5 30 "t1" "h1" 50 (λ n. 50) (λ n. 90) runs world exhausted
      (unfold string_discrete in refl) refl refl refl (λ u. (context_deadline, refl)) silent-Refuses
      (λ v stays. stays, (λ v stays. stays, tt))
