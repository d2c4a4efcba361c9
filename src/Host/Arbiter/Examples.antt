-- ===== src/Host/Arbiter/Examples.antt =====
-- Locks of host/src/state.ts at concrete inputs.
use vivim_omega.Common.{String, List, [], ◌∷◌, inl}
use vivim_omega.Common.Dict
use vivim_omega.Host.Arbiter.{shared, exclusive, StateArbitrator, holders_of}
use vivim_omega.Host.Arbiter.Exclusion.{
  IsSafe, LockCall, acquire, give_back, lock_run, lock_run-IsSafe, owned,
}

abbrev owner : String
owner = "vivim.vault"

abbrev other : String
other = "vivim.run"

abbrev calls : List LockCall
calls = acquire "db" other shared ∷ give_back "db" other ∷ []

no_locks-IsSafe : IsSafe []
unfolding holders_of Dict.get
no_locks-IsSafe = record { at_key = λ key. inl tt }

lock_run-IsSafe_example : IsSafe (lock_run [] (acquire "db" owner exclusive ∷ calls))
lock_run-IsSafe_example = lock_run-IsSafe [] (acquire "db" owner exclusive ∷ calls) no_locks-IsSafe

abbrev locked : StateArbitrator
locked = ("db", owned owner) ∷ []
