-- ===== src/Core/Returns.antt =====
-- Termination of the calls of the backend, and the chip's parameters after them.
use stlink.Base.{ℕ, ◌%◌, ◌≡◌, refl, ◌==◌, Bool-cases, inl, inr, Option, none, some, List, ltb}
use stlink.Target.{Stlink, Status, success, failure, RunType, Hardware}
use stlink.Target.Returns.{Returns, returns_rules}
use stlink.Access.{
  read_debug32, write_debug32, load, store, read_mem32, write_mem32, write_mem8, write_reg,
  read_reg, read_all_regs, fill_buffer,
}
use stlink.Core.{
  with_core_id, core_id, status, is_core_halted, target_voltage, time_ms, backend_run, run,
  write_words_to_sram, write_rest_to_sram, write_buffer_to_sram,
}

-- The parameters of `c` that writing depends on.
pub record SameParams (c sl : Stlink) : Type 0 where
  pub chip_id : sl.chip_id ≡ c.chip_id
  pub flash_type : sl.flash_type ≡ c.flash_type
  pub flash_base : sl.flash_base ≡ c.flash_base
  pub flash_size : sl.flash_size ≡ c.flash_size
  pub chip_flags : sl.chip_flags ≡ c.chip_flags
  pub flash_pgsz : sl.flash_pgsz ≡ c.flash_pgsz

pub SameParams-refl : (sl : Stlink) → SameParams sl sl
SameParams-refl sl = record {
  chip_id = refl;
  flash_type = refl;
  flash_base = refl;
  flash_size = refl;
  chip_flags = refl;
  flash_pgsz = refl;
}

with_core_id-SameParams :
    (c sl : Stlink) (o : Option ℕ) → SameParams c sl → SameParams c (with_core_id o sl)
unfolding with_core_id
with_core_id-SameParams c sl none h = h
with_core_id-SameParams c sl (some id) h = record {
  chip_id = h.chip_id;
  flash_type = h.flash_type;
  flash_base = h.flash_base;
  flash_size = h.flash_size;
  chip_flags = h.chip_flags;
  flash_pgsz = h.flash_pgsz;
}

-- The parameters are fields of their own.
copied :
    (c sl sl' : Stlink)
    → sl'.chip_id ≡ sl.chip_id
    → sl'.flash_type ≡ sl.flash_type
    → sl'.flash_base ≡ sl.flash_base
    → sl'.flash_size ≡ sl.flash_size
    → sl'.chip_flags ≡ sl.chip_flags
    → sl'.flash_pgsz ≡ sl.flash_pgsz
    → SameParams c sl
    → SameParams c sl'
copied c sl sl' e f j k g i h = record {
  chip_id = rw e h.chip_id;
  flash_type = rw f h.flash_type;
  flash_base = rw j h.flash_base;
  flash_size = rw k h.flash_size;
  chip_flags = rw g h.chip_flags;
  flash_pgsz = rw i h.flash_pgsz;
}

module _ ⦃hw : Hardware⦄ {c : Stlink} where
  pub read_debug32-Returns : (a old : ℕ) → Returns (SameParams c) (read_debug32 a old)
  unfolding read_debug32
  read_debug32-Returns a old = record { at = λ w h. (_, (_, (refl, h))) }

  pub write_debug32-Returns : (a v : ℕ) → Returns (SameParams c) (write_debug32 a v)
  unfolding write_debug32
  write_debug32-Returns a v = record { at = λ w h. (_, (_, (refl, h))) }

  pub load-Returns : (a : ℕ) → Returns (SameParams c) (load a)
  unfolding load
  load-Returns a = search (returns_rules, read_debug32-Returns)

  pub store-Returns : (a v : ℕ) → Returns (SameParams c) (store a v)
  unfolding store
  store-Returns a v = search (returns_rules, write_debug32-Returns)

  pub read_mem32-Returns : (a n : ℕ) → Returns (SameParams c) (read_mem32 a n)
  unfolding read_mem32
  read_mem32-Returns a n = record {
    at = λ w h. elim (Bool-cases (n % 4 == 0)) [
      | inl e ↦ rw e (_, (_, (refl, copied c w.sl _ refl refl refl refl refl refl h)))
      | inr e ↦ rw e (_, (_, (refl, h)))
    ];
  }

  pub write_mem32-Returns : (a n : ℕ) → Returns (SameParams c) (write_mem32 a n)
  unfolding write_mem32
  write_mem32-Returns a n = record {
    at = λ w h. elim (Bool-cases (n % 4 == 0)) [
      | inl e ↦ rw e (_, (_, (refl, h)))
      | inr e ↦ rw e (_, (_, (refl, h)))
    ];
  }

  pub write_mem8-Returns : (a n : ℕ) → Returns (SameParams c) (write_mem8 a n)
  unfolding write_mem8
  write_mem8-Returns a n = record { at = λ w h. (_, (_, (refl, h))) }

  pub write_reg-Returns : (v n : ℕ) → Returns (SameParams c) (write_reg v n)
  unfolding write_reg
  write_reg-Returns v n = record { at = λ w h. (_, (_, (refl, h))) }

  pub read_reg-Returns : (n old : ℕ) → Returns (SameParams c) (read_reg n old)
  unfolding read_reg
  read_reg-Returns n old = record {
    at = λ w h. elim (Bool-cases (ltb 20 n)) [
      | inl e ↦ rw e (_, (_, (refl, h)))
      | inr e ↦ rw e (_, (_, (refl, h)))
    ];
  }

  pub read_all_regs-Returns : Returns (SameParams c) read_all_regs
  unfolding read_all_regs
  read_all_regs-Returns = record { at = λ w h. (_, (_, (refl, h))) }

  pub fill_buffer-Returns : (bs : List ℕ) → Returns (SameParams c) (fill_buffer bs)
  unfolding fill_buffer
  fill_buffer-Returns bs = record {
    at = λ w h. (_, (_, (refl, copied c w.sl _ refl refl refl refl refl refl h)));
  }

  pub core_id-Returns : Returns (SameParams c) core_id
  unfolding core_id
  core_id-Returns = record {
    at = λ w h. (_, (_, (refl, with_core_id-SameParams c w.sl (hw.core_id w.trace) h)));
  }

  status-Returns : Returns (SameParams c) status
  unfolding status
  status-Returns = record {
    at = λ w h. (_, (_, (refl, copied c w.sl _ refl refl refl refl refl refl h)));
  }

  pub is_core_halted-Returns : Returns (SameParams c) is_core_halted
  unfolding is_core_halted
  is_core_halted-Returns = search (returns_rules, status-Returns)

  pub target_voltage-Returns : Returns (SameParams c) target_voltage
  unfolding target_voltage
  target_voltage-Returns = record { at = λ w h. (_, (_, (refl, h))) }

  pub time_ms-Returns : Returns (SameParams c) time_ms
  unfolding time_ms
  time_ms-Returns = record { at = λ w h. (_, (_, (refl, h))) }

  backend_run-Returns : (t : RunType) → Returns (SameParams c) (backend_run t)
  unfolding backend_run
  backend_run-Returns t = record { at = λ w h. (_, (_, (refl, h))) }

  pub run-Returns : (t : RunType) → Returns (SameParams c) (run t)
  unfolding run
  run-Returns t =
      search (returns_rules, read_reg-Returns, write_reg-Returns, backend_run-Returns) depth 10

  write_words_to_sram-Returns :
      (a : ℕ) (bs : List ℕ) (n : ℕ) → Returns (SameParams c) (write_words_to_sram a bs n)
  unfolding write_words_to_sram
  write_words_to_sram-Returns a bs n =
      search (returns_rules, fill_buffer-Returns, write_mem32-Returns)

  write_rest_to_sram-Returns :
      (a : ℕ) (bs : List ℕ) (n m : ℕ) (s : Status)
      → Returns (SameParams c) (write_rest_to_sram a bs n m s)
  unfolding write_rest_to_sram
  write_rest_to_sram-Returns a bs n m failure = search returns_rules
  write_rest_to_sram-Returns a bs n m success =
      search (returns_rules, fill_buffer-Returns, write_mem8-Returns)

  pub write_buffer_to_sram-Returns :
      (a : ℕ) (bs : List ℕ) (n : ℕ) → Returns (SameParams c) (write_buffer_to_sram a bs n)
  unfolding write_buffer_to_sram
  write_buffer_to_sram-Returns a bs n =
      search (returns_rules, write_words_to_sram-Returns, write_rest_to_sram-Returns)

  pub ruleset access_rules = (
    returns_rules, load-Returns, store-Returns, read_debug32-Returns, write_debug32-Returns,
    write_reg-Returns, read_reg-Returns, fill_buffer-Returns, write_mem32-Returns,
    read_mem32-Returns,
  )
