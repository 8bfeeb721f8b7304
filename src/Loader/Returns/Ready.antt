-- ===== src/Loader/Returns/Ready.antt =====
-- Termination of the waits of src/stlink-lib/flash_loader.c, on a flash that becomes idle and a core
-- that halts.
use stlink.Base.{ℕ, ◌<◌, ◌≡◌, ◌≢◌, ◌==◌, refl, false, none, List, arith, if◌then◌else◌}
use stlink.Target.{Stlink, unknown, Status, success, failure, Hardware, M, World, skip}
use stlink.Target.Returns.{Returns}
use stlink.Core.Returns.{SameParams}
use stlink.Flash.Status.{wait_flash_busy}
use stlink.Flash.Status.Wait.{Settles, reads}
use stlink.Flash.Returns.{wait_flash_busy-Returns}
use stlink.Loader.Clock.{Halts}
use stlink.Loader.Init.{FlashLoader}
use stlink.Loader.Write.{count_pages}
use stlink.Loader.Run.{flash_loader_run}
use stlink.Loader.Returns.{flash_loader_run-Returns}

-- The flash is idle after `settled` reads of it in a row, a run of the program in SRAM halts after
-- `settled` polls of it in a row, and the fuel is more than that.
pub record Ready ⦃hw : Hardware⦄ (c : Stlink) (settled fuel : ℕ) : Type 0 where
  pub known : c.flash_type ≢ unknown
  pub settles : Settles reads c settled
  pub halts : Halts settled
  pub waits : settled < fuel
  pub some_page : 0 < c.flash_pgsz

-- By the result of one step.
pub by_status :
    {c : Stlink} (m n : M Status) (s : Status)
    → Returns (SameParams c) m
    → Returns (SameParams c) n
    → Returns (SameParams c) (elim s [ failure ↦ m | success ↦ n ])
by_status m n failure rm rn = rm
by_status m n success rm rn = rn

module _ ⦃hw : Hardware⦄ {c : Stlink} (settled fuel : ℕ) (ready : Ready c settled fuel) where
  pub wait-Returns : Returns (SameParams c) (wait_flash_busy fuel)
  wait-Returns = wait_flash_busy-Returns settled fuel ready.known ready.settles ready.waits

  pub run-Returns :
      (fl : FlashLoader) (a : ℕ) (bs : List ℕ) (n : ℕ)
      → Returns (SameParams c) (flash_loader_run fuel fl a bs n)
  run-Returns fl a bs n = flash_loader_run-Returns settled fuel fl a bs n ready.halts ready.waits

count_by : (n : ℕ) (w : World) → 0 < n → (if n == 0 then none else skip w) ≡ skip w
count_by n w pos = let some_size : (n == 0) ≡ false = ground arith in rw some_size refl

-- The page size that a message divides by.
pub count_pages-Returns : {c : Stlink} → 0 < c.flash_pgsz → Returns (SameParams c) count_pages
unfolding count_pages skip
count_pages-Returns pos = record {
  at = λ w h. (tt, (w, (count_by w.sl.flash_pgsz w (omega (arith, h.flash_pgsz)), h)));
}
