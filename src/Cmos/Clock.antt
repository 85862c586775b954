-- ===== src/Cmos/Clock.antt =====
-- The driver at a clock that answers from its registers and is never in the middle of an update.
use tiny_bios.Prelude.{
  Bool-cases, inl, inr, ℕ, zero, suc, ◌+◌, ◌<◌, ◌≡◌, refl, arith, List, [], ◌∷◌, ltb, true, false,
  bit_and, if◌then◌else◌, ◌==◌, ◌!=◌, ◌||◌, Bool-cases, inl, inr,
}
use tiny_bios.Prelude.Bits.{all_below, all_below_sound}
use tiny_bios.Device.{status_initialised, status_faulty}
use tiny_bios.Port.{Log, Hardware, wrote8, inb, outb, iodelay, Cmd, pure, ◌>>=◌}
use tiny_bios.Port.Triples.{Returns, returns, Returns-bind}
use tiny_bios.Cmos.{
  CmosData, data_addr, register_addr, select_register, cmos_read, update_ongoing, wait_for_update,
  rtc_read, timedate_loop, read_timedate, rtc_in_bcd_mode, rtc_in_12hr_mode, finish_init, init_loop,
  cmos_init, rtc_month, rtc_status_format,
}

-- The register that the newest write to the address port selected.
unfoldable pub selected : Log → ℕ
selected [] = 0
selected (wrote8 v port ∷ log) = if port == register_addr then v else selected log
selected (_ ∷ log) = selected log

-- The machine answers a read of the data port with the register that is selected. Registers hold
-- bytes, and that of the update status says that no update is going on.
pub record Serves (regs : ℕ → ℕ) (hw : Hardware) : Type 0 where
  pub answers : (log : Log) → hw log 8 data_addr ≡ regs (selected log)
  pub bytes : (reg : ℕ) → regs reg < 256
  pub steady : regs 0x0a < 128

idle_table : all_below 128 (λ v. bit_and v 0x80 == 0) ≡ true
unfolding all_below
idle_table = refl

same : (n : ℕ) → (n == n) ≡ true
same n = ground arith

-- On this machine, the command returns that value, whatever was done before.
pub record Gives (hw : Hardware) {A : Type 0} (m : Cmd A) (a : A) : Type 0 where
  pub gives : (log : Log) → Returns (λ b after. b ≡ a) (m hw log)

module _ {hw : Hardware} where
  Gives-bind :
      {A B : Type 0} {m : Cmd A} (k : A → Cmd B) {a : A} {b : B}
      → Gives hw m a
      → Gives hw (k a) b
      → Gives hw (m >>= k) b
  Gives-bind k h next = record {
    gives = λ log. Returns-bind k (h.gives log) (λ a' log' e. rw e (next.gives log'));
  }

  Gives-pure : {A : Type 0} (a : A) → Gives hw (pure a) a
  Gives-pure a = record { gives = λ log. returns refl }

  then_more :
      {m : Cmd ℕ} {ms : Cmd (List ℕ)} {v : ℕ} {vs : List ℕ}
      → Gives hw m v
      → Gives hw ms vs
      → Gives hw (m >>= λ v. ms >>= λ vs. pure (v ∷ vs)) (v ∷ vs)
  then_more h hs = Gives-bind _ h (Gives-bind _ hs (Gives-pure _))

module _ (regs : ℕ → ℕ) (hw : Hardware) (serves : Serves regs hw) where
  pub cmos_read-Gives : (cd : CmosData) (reg : ℕ) → Gives hw (cmos_read cd reg) (regs reg)
  unfolding cmos_read select_register inb outb iodelay selected
  cmos_read-Gives cd reg = record {
    gives = λ log. returns (omega (arith, serves.answers _, serves.bytes reg));
  }

  update_ongoing-Gives : (cd : CmosData) → Gives hw (update_ongoing cd) false
  unfolding update_ongoing
  update_ongoing-Gives cd =
      let idle : (bit_and (regs 0x0a) 0x80 != 0) ≡ false = ground (
        arith,
        all_below_sound 128 (λ v. bit_and v 0x80 == 0) (regs 0x0a) idle_table serves.steady,
      ) in
      Gives-bind _ (cmos_read-Gives cd 0x0a) (rw idle (Gives-pure false))

  wait_for_update-Gives : (fuel : ℕ) (cd : CmosData) → Gives hw (wait_for_update (suc fuel) cd) tt
  unfolding wait_for_update
  wait_for_update-Gives fuel cd = Gives-bind _ (update_ongoing-Gives cd) (Gives-pure tt)

  rtc_read-Gives :
      (fuel : ℕ) (cd : CmosData) (field : ℕ) → Gives hw (rtc_read (suc fuel) cd field) (regs field)
  unfolding rtc_read
  rtc_read-Gives fuel cd field =
      Gives-bind _ (wait_for_update-Gives fuel cd) (cmos_read-Gives cd field)

  timedate_loop-Gives :
      (fuel : ℕ) (cd : CmosData)
      → Gives hw
          (timedate_loop (suc fuel) 9 0 cd)
          (regs 0 ∷ regs 2 ∷ regs 4 ∷ regs 6 ∷ regs 7 ∷ regs 8 ∷ [])
  unfolding timedate_loop
  timedate_loop-Gives fuel cd = then_more (rtc_read-Gives fuel cd 0) (
      then_more (rtc_read-Gives fuel cd 2) (
        then_more (rtc_read-Gives fuel cd 4) (
          then_more (rtc_read-Gives fuel cd 6) (
            then_more (rtc_read-Gives fuel cd 7)
              (then_more (rtc_read-Gives fuel cd 8) (Gives-pure []))))))

  -- One round of the update loop is enough for each read: the date is made of the registers 0, 2, 4,
  -- 6 and 7, and its year is register 8, which is the month, for any registers of such a clock.
  pub read_timedate-Gives :
      (fuel : ℕ) (cd : CmosData)
      → Gives hw (read_timedate (suc fuel) cd) (record {
        second = regs 0;
        minute = regs 2;
        hour = regs 4;
        day_of_week = regs 6;
        day_of_month = regs 7;
        year = regs rtc_month;
      })
  unfolding read_timedate
  read_timedate-Gives fuel cd = Gives-bind _ (timedate_loop-Gives fuel cd) (Gives-pure _)

  -- What the data is after a successful end: the flags that the format register shows are set.
  abbrev pub configured : CmosData → CmosData
  configured cd = record cd {
    rtc_bcd_enabled = if rtc_in_bcd_mode (regs rtc_status_format) then true else cd.rtc_bcd_enabled;
    rtc_12hr_enabled =
        if rtc_in_12hr_mode (regs rtc_status_format) then true else cd.rtc_12hr_enabled;
  }

  finish_init-Gives :
      (cd : CmosData) → Gives hw (finish_init cd) (status_initialised, configured cd)
  unfolding finish_init
  finish_init-Gives cd = Gives-bind _ (cmos_read-Gives cd rtc_status_format) (Gives-pure _)

  good_month-Gives :
      (fuel left : ℕ) (cd : CmosData)
      → ((regs rtc_month == 0) || ltb 0x12 (regs rtc_month)) ≡ false
      → Gives hw (init_loop (suc fuel) (suc left) cd) (status_initialised, configured cd)
  unfolding init_loop
  good_month-Gives fuel left cd good = Gives-bind _ (wait_for_update-Gives fuel cd) (
      Gives-bind _ (cmos_read-Gives cd rtc_month) (
        rw good (
          Gives-bind _ (cmos_read-Gives cd rtc_month)
            (rw (same (regs rtc_month)) (finish_init-Gives cd)))))

  bad_month-Gives :
      (fuel left d : ℕ) (cd : CmosData)
      → ((regs rtc_month == 0) || ltb 0x12 (regs rtc_month)) ≡ true
      → d ≡ cd.delay + left
      → Gives hw (init_loop (suc fuel) left cd) (status_faulty, record cd { delay = d })
  unfolding init_loop
  bad_month-Gives fuel zero d cd bad e =
      let same_delay : d ≡ cd.delay = omega arith in rw same_delay (Gives-pure _)
  bad_month-Gives fuel (suc left) d cd bad e = Gives-bind _ (wait_for_update-Gives fuel cd) (
      Gives-bind _ (cmos_read-Gives cd rtc_month) (
        rw bad
          (bad_month-Gives fuel left d (record cd { delay = cd.delay + 1 }) bad (omega arith))))

  -- One round of the update loop is enough for each wait. With a month register of 1 to 0x12 the
  -- initialisation succeeds at delay 0, with the flags that the format register shows; with any
  -- other it fails, at delay 0x500.
  pub cmos_init-Gives :
      (fuel : ℕ) (cd : CmosData)
      → Gives hw (cmos_init (suc fuel) cd) (
          if (regs rtc_month == 0) || ltb 0x12 (regs rtc_month)
          then (status_faulty, record cd { delay = 0x500 })
          else (status_initialised, configured (record cd { delay = 0 })))
  unfolding cmos_init
  cmos_init-Gives fuel cd = elim (Bool-cases ((regs rtc_month == 0) || ltb 0x12 (regs rtc_month))) [
    | inl bad ↦ rw bad (bad_month-Gives fuel 0x500 0x500 (record cd { delay = 0 }) bad refl)
    | inr good ↦ rw good (good_month-Gives fuel _ (record cd { delay = 0 }) good)
  ]
