-- ===== src/Cmos/Tests.antt =====
-- The theorems on the CMOS at a simulated clock and at sizes of a small machine.
use tiny_bios.Prelude.{ℕ, refl, arith, false, ◌==◌, ◌||◌, ltb, if◌then◌else◌}
use tiny_bios.Device.{status_faulty, status_initialised}
use tiny_bios.Port.{Hardware}
use tiny_bios.Cmos.{CmosData, read_timedate, cmos_init}
use tiny_bios.Cmos.Clock.{selected, Serves, Gives, configured, read_timedate-Gives, cmos_init-Gives}

-- Half past ten on the 24th of December '25, a Wednesday, in BCD.
abbrev registers : ℕ → ℕ
registers reg =
    if reg == 2
    then 0x30
    else (if reg == 4
        then 0x10
        else (if reg == 6
            then 4
            else (if reg == 7
                then 0x24
                else (if reg == 8 then 0x12 else (if reg == 9 then 0x25 else 0)))))

abbrev clock : Hardware
clock log width port = registers (selected log)

clock-Serves : Serves registers clock
clock-Serves = record { answers = λ log. refl; bytes = λ reg. ground arith; steady = omega arith }

abbrev fresh : CmosData
fresh = record { delay = 0; rtc_bcd_enabled = false; rtc_12hr_enabled = false }

read_timedate-Gives_example : Gives clock (read_timedate 1 fresh) (record {
  second = 0;
  minute = 0x30;
  hour = 0x10;
  day_of_week = 4;
  day_of_month = 0x24;
  year = 0x12;
})
read_timedate-Gives_example = read_timedate-Gives registers clock clock-Serves 0 fresh

cmos_init-Gives_example : Gives clock (cmos_init 1 fresh) (
    if (registers 8 == 0) || ltb 0x12 (registers 8)
    then (status_faulty, record fresh { delay = 0x500 })
    else (status_initialised, configured registers clock clock-Serves (record fresh { delay = 0 })))
cmos_init-Gives_example = cmos_init-Gives registers clock clock-Serves 0 fresh
