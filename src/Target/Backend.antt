-- ===== src/Target/Backend.antt =====
-- The target as the backend shows it. What a call of the backend answers may depend on every
-- access before it, so the target is a function of the accesses so far, the latest first.
use stlink.Base.{ℕ, ◌^◌, ◌<◌, ◌≡◌, Option, some, List}
use stlink.Target.Types.{Status, TargetState, RunType}

-- One call of the backend, or of the host's clock. `write_mem32` and `write_mem8` send the first bytes of `q_buf`.
pub data Access : Type 0 where
  read_debug32 : ℕ → Access
  write_debug32 : ℕ → ℕ → Access
  read_mem32 : ℕ → ℕ → Access
  write_mem32 write_mem8 : ℕ → List ℕ → Access
  read_reg : ℕ → Access
  write_reg : ℕ → ℕ → Access
  core_id status target_voltage read_all_regs time_ms : Access
  run : RunType → Access

abbrev pub Trace : Type 0
Trace = List Access

-- `none` is an error of the backend. `uninitialised` is what an uninitialised local of the host
-- program holds. A debug word is a uint32_t. `status` says
-- what the backend leaves in `core_stat` too, no voltage is the answer -1, and `time_ms` is the
-- host's clock before it is cut to 32 bits.
pub record Hardware : Type 0 where
  pub word : Trace → ℕ → Option ℕ
  pub write_word : Trace → ℕ → ℕ → Status
  pub bytes : Trace → ℕ → ℕ → Option (List ℕ)
  pub write_bytes : Trace → ℕ → List ℕ → Status
  pub register : Trace → ℕ → Option ℕ
  pub write_register : Trace → ℕ → ℕ → Status
  pub core_id : Trace → Option ℕ
  pub status : Trace → Status × TargetState
  pub target_voltage : Trace → Option ℕ
  pub read_all_regs : Trace → Status
  pub run : Trace → RunType → Status
  pub time_ms : Trace → ℕ
  pub uninitialised : Trace → ℕ
  pub word_fits : (t : Trace) (a v : ℕ) → word t a ≡ some v → v < 2 ^ 32
  pub uninitialised_fits : (t : Trace) → uninitialised t < 2 ^ 32
