-- ===== src/Access.antt =====
-- src/stlink-lib/read_write.c: words in byte buffers, and the calls of the backend.
pub mod Words
use stlink.Base.{
  ℕ, ◌+◌, ◌*◌, ◌/◌, ◌%◌, ◌^◌, ◌-◌, List, [], ◌∷◌, ◌++◌, Option, none, some, get_or, take, drop,
  length, bit_or, ltb, leb, ◌==◌, ◌&&◌, if◌then◌else◌,
}
use stlink.Target.{
  Access, Hardware, World, M, ◌>>=◌, ◌>>◌, pure, skip, uninitialised, Status, success, failure,
  Stlink,
}

-- A byte of a buffer.
abbrev pub byte_at : List ℕ → ℕ → ℕ
byte_at c i = get_or c i 0

unfoldable pub read_uint16 : List ℕ → ℕ → ℕ
read_uint16 c pt = bit_or (byte_at c pt) (byte_at c (pt + 1) * 2 ^ 8)

unfoldable pub write_uint16 : ℕ → List ℕ
write_uint16 ui = (ui % 2 ^ 8) ∷ (ui / 2 ^ 8 % 2 ^ 8) ∷ []

unfoldable pub read_uint32 : List ℕ → ℕ → ℕ
read_uint32 c pt =
    bit_or
      (bit_or (bit_or (byte_at c pt) (byte_at c (pt + 1) * 2 ^ 8)) (byte_at c (pt + 2) * 2 ^ 16))
      (byte_at c (pt + 3) * 2 ^ 24)

unfoldable pub write_uint32 : ℕ → List ℕ
write_uint32 ui =
    (ui % 2 ^ 8) ∷ (ui / 2 ^ 8 % 2 ^ 8) ∷ (ui / 2 ^ 16 % 2 ^ 8) ∷ (ui / 2 ^ 24 % 2 ^ 8) ∷ []

-- The status of a read, and what the caller's variable then holds: on an error, what it held.
abbrev status_of {ℓ} : {A : Type ℓ} → Option A → Status
status_of none = failure
status_of (some _) = success

abbrev pub value_or : Option ℕ → ℕ → ℕ
value_or none old = old
value_or (some v) old = v

-- The receive buffer after a read of `len` bytes.
abbrev filled : Option (List ℕ) → ℕ → List ℕ → List ℕ
filled none len q = q
filled (some bs) len q = take len bs ++ drop len q

module _ ⦃hw : Hardware⦄ where
  unfoldable pub read_debug32 : ℕ → ℕ → M (Status × ℕ)
  read_debug32 addr old w =
      let o = hw.word w.trace addr in
      some ((status_of o, value_or o old), record w { trace = Access.read_debug32 addr ∷ w.trace })

  unfoldable pub write_debug32 : ℕ → ℕ → M Status
  write_debug32 addr value w = some (
    hw.write_word w.trace addr value,
    record w { trace = Access.write_debug32 addr value ∷ w.trace },
  )

  -- A word read into a fresh local, its status ignored.
  unfoldable pub load : ℕ → M ℕ
  unfolding read_debug32
  load addr = do old ← uninitialised; r ← read_debug32 addr old; pure r.1

  -- A write with its status ignored.
  unfoldable pub store : ℕ → ℕ → M (Unit {0})
  unfolding write_debug32
  store addr value = do r ← write_debug32 addr value; skip

  unfoldable pub read_mem32 : ℕ → ℕ → M Status
  read_mem32 addr len w =
      if len % 4 == 0
      then (let o = hw.bytes w.trace addr len in
          some (
            status_of o,
            record {
              sl = record (w.sl) { q_buf = filled o len w.sl.q_buf };
              trace = Access.read_mem32 addr len ∷ w.trace;
            },
          ))
      else some (failure, w)

  -- The first `len` bytes of the buffer are sent.
  unfoldable pub write_mem32 : ℕ → ℕ → M Status
  write_mem32 addr len w =
      if len % 4 == 0
      then (let sent = take len w.sl.q_buf in
          some (
            hw.write_bytes w.trace addr sent,
            record w { trace = Access.write_mem32 addr sent ∷ w.trace },
          ))
      else some (failure, w)

  unfoldable pub write_mem8 : ℕ → ℕ → M Status
  write_mem8 addr len w =
      let sent = take len w.sl.q_buf in
      some (
        hw.write_bytes w.trace addr sent,
        record w { trace = Access.write_mem8 addr sent ∷ w.trace },
      )

  unfoldable pub write_reg : ℕ → ℕ → M Status
  write_reg reg idx w =
      some
        (hw.write_register w.trace idx reg, record w { trace = Access.write_reg reg idx ∷ w.trace })

  -- The field of `struct stlink_reg` that the index names; `old` is what it held before.
  unfoldable pub read_reg : ℕ → ℕ → M (Status × ℕ)
  read_reg r_idx old w =
      if ltb 20 r_idx
      then some ((failure, old), w)
      else (let o = hw.register w.trace r_idx in
          some
            ((status_of o, value_or o old), record w { trace = Access.read_reg r_idx ∷ w.trace }))

  unfoldable pub read_all_regs : M Status
  read_all_regs w =
      some (hw.read_all_regs w.trace, record w { trace = Access.read_all_regs ∷ w.trace })

-- `memcpy(sl->q_buf, bytes, n)` of the `n` bytes.
unfoldable pub fill_buffer : List ℕ → M (Unit {0})
fill_buffer bs w =
    some (tt, record w { sl = record (w.sl) { q_buf = bs ++ drop (length bs) w.sl.q_buf } })
