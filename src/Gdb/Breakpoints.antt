-- ===== src/Gdb/Breakpoints.antt =====
-- src/st-util/gdb-server.c: code breakpoints. The static variables are passed along.
pub mod Table
pub mod Registers
pub mod Stops
pub mod Effect
pub mod Removal
use stlink.Base.{
  ℕ, zero, suc, ◌+◌, ◌*◌, ◌/◌, ◌%◌, ◌^◌, ◌==◌, Bool, true, false, not, ◌&&◌, ◌||◌, List, [], ◌∷◌,
  drop, bit_and, bit_or, some, clear_mask, if◌then◌else◌,
}
use stlink.Target.{
  Status, success, failure, Hardware, World, M, ◌>>=◌, ◌>>◌, pure, skip, uninitialised,
}
use stlink.Access.{store, read_debug32}

-- STLINK_REG_CM3_CPUID, STLINK_REG_CM3_FP_CTRL, STLINK_REG_CM3_FP_COMPn, STLINK_REG_CM7_FP_LAR
-- and STLINK_REG_CM7_FP_LAR_KEY
abbrev pub cpuid : ℕ
cpuid = 0xe000ed00

abbrev pub fp_ctrl : ℕ
fp_ctrl = 0xe0002000

abbrev pub fp_comp : ℕ → ℕ
fp_comp n = 0xe0002008 + n * 4

abbrev pub fp_lar : ℕ
fp_lar = 0xe0000fb0

abbrev pub fp_lar_key : ℕ
fp_lar_key = 0xc5acce55

abbrev pub code_break_low : ℕ
code_break_low = 1

abbrev pub code_break_high : ℕ
code_break_high = 2

abbrev pub code_break_remap : ℕ
code_break_remap = 4

abbrev pub code_break_rev_v1 : ℕ
code_break_rev_v1 = 0

-- `code_hw_breakpoint`
pub record Break : Type 0 where
  pub addr : ℕ
  pub type : ℕ

-- The static variables; of the array, the first `code_break_num` slots are in use.
pub record Breaks : Type 0 where
  pub code_break_num : ℕ
  pub code_lit_num : ℕ
  pub code_break_rev : ℕ
  pub code_breaks : List Break

-- `((bp->type & 0x03) << 30) | bp->addr | 1`, or 0 where the slot is free.
abbrev pub comp_word : Break → ℕ
comp_word bp = if bp.type == 0 then 0 else bit_or (bit_or (bit_and bp.type 3 * 2 ^ 30) bp.addr) 1

-- The type and the address of a comparator for an address.
abbrev pub break_type : ℕ → ℕ → ℕ
break_type rev addr =
    if rev == code_break_rev_v1
    then (if addr / 2 % 2 == 0 then code_break_low else code_break_high)
    else code_break_remap

-- `addr & 0x1FFFFFFC` in version 1.
abbrev pub fpb_addr : ℕ → ℕ → ℕ
fpb_addr rev addr = if rev == code_break_rev_v1 then addr % 2 ^ 29 / 4 * 4 else addr

abbrev pub update_slot : Bool → ℕ → ℕ → Break → Break
update_slot set fpb type bp = record {
  addr = fpb;
  type = if set then bit_or bp.type type else clear_mask bp.type type;
}

abbrev pub matches : Bool → ℕ → Break → Bool
matches set fpb bp = (fpb == bp.addr) || (set && (bp.type == 0))

-- Any slot of the address, whatever its type.
abbrev pub has_slot : ℕ → ℕ → List Break → Bool
has_slot addr zero bps = false
has_slot addr (suc n) [] = false
has_slot addr (suc n) (bp ∷ bps) = (bp.addr == addr) || has_slot addr n bps

abbrev pub has_breakpoint : ℕ → Breaks → Bool
has_breakpoint addr s = has_slot addr s.code_break_num s.code_breaks

abbrev nothing_found : Bool → Status
nothing_found set = if set then failure else success

module _ ⦃hw : Hardware⦄ where
  -- The first slot that matches, of the `n` from the `i`th on, is updated and written.
  unfoldable pub update_loop : Bool → ℕ → ℕ → ℕ → ℕ → List Break → M (Status × List Break)
  update_loop set fpb type zero i bps = pure (nothing_found set, bps)
  update_loop set fpb type (suc n) i [] = pure (nothing_found set, [])
  update_loop set fpb type (suc n) i (bp ∷ bps) = elim (matches set fpb bp) [
    | true ↦
        store (fp_comp i) (comp_word (update_slot set fpb type bp))
        >> pure (success, update_slot set fpb type bp ∷ bps)
    | false ↦ update_loop set fpb type n (i + 1) bps >>= λ r. pure (r.0, bp ∷ r.1)
  ]

  unfoldable pub update_code_breakpoint : ℕ → Bool → Breaks → M (Status × Breaks)
  update_code_breakpoint addr set s = elim (addr % 2 == 0) [
    | true ↦
        update_loop set (fpb_addr s.code_break_rev addr) (break_type s.code_break_rev addr)
          s.code_break_num 0 s.code_breaks
        >>= λ r. pure (r.0, record s { code_breaks = r.1 })
    | false ↦ pure (failure, s)
  ]

  unfoldable pub clear_breaks : ℕ → ℕ → List Break → M (List Break)
  clear_breaks zero i bps = pure bps
  clear_breaks (suc n) i [] = pure []
  clear_breaks (suc n) i (bp ∷ bps) =
      store (fp_comp i) 0 >> clear_breaks n (i + 1) bps >>= λ r. pure (record bp { type = 0 } ∷ r)

  -- `memset(sl->q_buf, 0, 4)`
  unfoldable pub clear_buffer : M (Unit {0})
  clear_buffer w =
      some (tt, record w { sl = record (w.sl) { q_buf = 0 ∷ 0 ∷ 0 ∷ 0 ∷ drop 4 w.sl.q_buf } })

  unfoldable pub init_code_breakpoints : Breaks → M Breaks
  init_code_breakpoints s = do
    clear_buffer
    store fp_ctrl 3
    old ← uninitialised
    ctrl ← read_debug32 fp_ctrl old
    id ← read_debug32 cpuid ctrl.1
    if id.1 / 2 ^ 4 % 2 ^ 12 == 0xc27 then store fp_lar fp_lar_key else skip
    bps ← clear_breaks (ctrl.1 / 2 ^ 4 % 2 ^ 4) 0 s.code_breaks
    pure (record {
      code_break_num = ctrl.1 / 2 ^ 4 % 2 ^ 4;
      code_lit_num = ctrl.1 / 2 ^ 8 % 2 ^ 4;
      code_break_rev = ctrl.1 / 2 ^ 28 % 2 ^ 4;
      code_breaks = bps;
    })
