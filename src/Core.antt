-- ===== src/Core.antt =====
-- src/stlink-lib/common.c: the core behind the debug port, and the buffer in its SRAM.
pub mod Returns
use stlink.Base.{
  ℕ, zero, suc, ◌+◌, ◌-◌, ◌%◌, ◌^◌, Bool, true, false, ◌==◌, ◌&&◌, not, Option, none, some, List,
  ◌∷◌, take, drop, bit, bit_or, has_bits, add32, ltb, if◌then◌else◌,
}
use stlink.Target.{
  Access, Hardware, World, M, ◌>>=◌, ◌>>◌, pure, gets, skip, uninitialised, Status, success,
  failure, Stlink, TargetState, target_unknown, target_running, target_halted, target_reset,
  target_debug_running, RunType,
}
use stlink.Access.{read_reg, write_reg, fill_buffer, write_mem32, write_mem8}

-- The context with the core id that the backend found.
unfoldable pub with_core_id : Option ℕ → Stlink → Stlink
with_core_id none sl = sl
with_core_id (some id) sl = record sl { core_id = id }

abbrev pub found : Option ℕ → Status
found none = failure
found (some _) = success

-- `core_stat == TARGET_HALTED`
abbrev pub is_halted : TargetState → Bool
is_halted target_halted = true
is_halted _ = false

module _ ⦃hw : Hardware⦄ where
  unfoldable pub core_id : M Status
  core_id w =
      let o = hw.core_id w.trace in
      some (found o, record { sl = with_core_id o w.sl; trace = Access.core_id ∷ w.trace })

  unfoldable pub status : M Status
  status w =
      let (s, state) = hw.status w.trace in
      some (s, record { sl = record (w.sl) { core_stat = state }; trace = Access.status ∷ w.trace })

  unfoldable pub is_core_halted : M Bool
  is_core_halted = do s ← status; gets (λ sl. is_halted sl.core_stat)

  -- `none` is -1: an error of the backend, or a backend that reads no voltage.
  unfoldable pub target_voltage : M (Option ℕ)
  target_voltage w =
      some (hw.target_voltage w.trace, record w { trace = Access.target_voltage ∷ w.trace })

  -- The milliseconds of gettimeofday, cast to a uint32_t.
  unfoldable pub time_ms : M ℕ
  time_ms w = some (hw.time_ms w.trace % 2 ^ 32, record w { trace = Access.time_ms ∷ w.trace })

  unfoldable pub backend_run : RunType → M Status
  backend_run type w = some (hw.run w.trace type, record w { trace = Access.run type ∷ w.trace })

  -- The Thumb bit of xPSR is set first where it is clear.
  unfoldable pub run : RunType → M Status
  run type = do
    old ← uninitialised
    r ← read_reg 16 old
    if has_bits r.1 (bit 24) then skip else write_reg (bit_or r.1 (bit 24)) 16 >> skip
    backend_run type

  -- Whole words first, and then up to three bytes.
  unfoldable pub write_words_to_sram : ℕ → List ℕ → ℕ → M Status
  write_words_to_sram addr buf chunk =
      if chunk == 0 then pure success else fill_buffer (take chunk buf) >> write_mem32 addr chunk

  unfoldable pub write_rest_to_sram : ℕ → List ℕ → ℕ → ℕ → Status → M Status
  write_rest_to_sram addr buf chunk rem failure = pure failure
  write_rest_to_sram addr buf chunk rem success =
      if rem == 0
      then pure success
      else fill_buffer (take rem (drop chunk buf)) >> write_mem8 (add32 addr chunk) rem

  -- `size` is a uint16_t.
  unfoldable pub write_buffer_to_sram : ℕ → List ℕ → ℕ → M Status
  write_buffer_to_sram addr buf size = do
    let n = size % 2 ^ 16
    let rem = n % 4
    let chunk = n - rem
    s ← write_words_to_sram addr buf chunk
    write_rest_to_sram addr buf chunk rem s
