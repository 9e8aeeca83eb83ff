-- ===== src/Monitor/Tests.antt =====
-- Concrete registrations for monitoring.
use idris2_ouc.Base.{
  refl, All, ℕ, List, ◌++◌, ◌<◌, length, some, replicate, ℕ, ◌≡◌, List, [], ◌∷◌, true, arith,
}
use idris2_ouc.Monitor.Watched.{IsWatched, register-IsWatched}
use idris2_ouc.Idris.{Machine}
use idris2_ouc.Monitor.Status.{monitoring_status, status_start}
use idris2_ouc.Monitor.Status.Fits.{listed, status-fits}
use idris2_ouc.Monitor.Arguments.{canister_update_register_monitor}
use idris2_ouc.Monitor.Arguments.Message.{register_message, register_monitor-message}
use idris2_ouc.Monitor.Poll.{Monitoring, no_batch, poll_at, canister_update_poll_contract}
use idris2_ouc.Monitor.Poll.Index.{nat32_arg, poll_contract-nat32_arg}
use idris2_ouc.Monitor.{MonitoredContract, register_monitor, fresh_contract}
use idris2_ouc.Monitor.Register.{IsMonitor}

abbrev address : List ℕ
address = b'0' ∷ b'x' ∷ b'a' ∷ []

abbrev one_contract : List MonitoredContract
one_contract = (register_monitor address (b'0' ∷ b'x' ∷ b'1' ∷ []) 5 []).1

abbrev both : List MonitoredContract
both = fresh_contract (b'0' ∷ b'x' ∷ b'a' ∷ []) 1 ∷ fresh_contract [] 11155111 ∷ []

register-IsWatched_example :
    IsWatched
      (replicate 42 b'a')
      (replicate 10 b'1')
      5
      (register_monitor (replicate 42 b'a') (replicate 10 b'1') 5 both).1
register-IsWatched_example =
    register-IsWatched (replicate 42 b'a') (replicate 10 b'1') 5 both refl refl (omega arith) rooms
  where
    rooms : All (λ c. length c.selectors < 8) both
    rooms = unfold fresh_contract in ground arith

empty-IsMonitor : IsMonitor []
empty-IsMonitor = record { contracts_fit = omega arith; selectors_fit = tt }

both-IsMonitor : IsMonitor both
unfolding fresh_contract
both-IsMonitor = record { contracts_fit = omega arith; selectors_fit = ground arith }

status-fits_example :
    (monitoring_status both ≡ status_start both ++ (listed true both ++ (b']' ∷ b'}' ∷ [])))
    × (length (monitoring_status both) < 2048)
status-fits_example = status-fits both both-IsMonitor

register_monitor-message_example :
    canister_update_register_monitor
      (register_message (b'0' ∷ b'x' ∷ b'b' ∷ []) (b'0' ∷ b'x' ∷ b'1' ∷ []) 11155111)
      (replicate 1024 7)
      both
    ≡ some (register_monitor (b'0' ∷ b'x' ∷ b'b' ∷ []) (b'0' ∷ b'x' ∷ b'1' ∷ []) 11155111 both)
register_monitor-message_example =
    register_monitor-message (b'0' ∷ b'x' ∷ b'b' ∷ []) (b'0' ∷ b'x' ∷ b'1' ∷ []) (replicate 1024 7)
      11155111 both (omega arith) (omega arith) (ground arith) (ground arith) (omega arith)

abbrev idle : Machine ℕ
idle = record {
  channel = record { args = replicate 8 0; result = 0 };
  candid = record { buf = replicate 4096 0; len = 0 };
  json = record { buf = replicate 1024 0; len = 0 };
  rest = 0;
}

abbrev polled : Monitoring
polled = record { contracts = both; batch_contract_idx = no_batch }

poll_contract-nat32_arg_example :
    canister_update_poll_contract (λ m. some m) 0 (nat32_arg 1) polled idle
    ≡ poll_at (λ m. some m) 0 0 polled idle
poll_contract-nat32_arg_example = poll_contract-nat32_arg (λ m. some m) 0 1 polled idle
