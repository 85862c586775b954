-- ===== src/Ata/Wait.antt =====
-- What `ata_waitfor_status` waits for.
use tiny_bios.Prelude.{
  ℕ, zero, suc, ◌+◌, Bool, true, false, not, ◌&&◌, ◌||◌, ◌≡◌, refl, ◌∷◌, ◌==◌, bit_and, u8, u16,
  Bool-cases, inl, inr, ==_iff,
}
use tiny_bios.Prelude.Bits.{bit_and-zero}
use tiny_bios.Port.{Log, Hardware, ok, read8, inb}
use tiny_bios.Port.Triples.{Returns, returns}
use tiny_bios.Ata.{AtaBus, read_status, waitfor_status}

abbrev pub wanted : (mask : ℕ) → (set : Bool) → ℕ → Bool
wanted mask set v = (set && (bit_and v mask == mask)) || (not set && (bit_and v mask == 0))

-- The newest event is a status read without an error that has the flags as wanted.
unfoldable pub settled : AtaBus → (mask : ℕ) → Bool → Log → Bool
settled bus mask set (read8 v port ∷ log) =
    (port == u16 (bus.base_addr + 7)) && (not (bit_and v 1 == 1) && wanted mask set v)
settled bus mask set _ = false

either : (set : Bool) → ((set && true) || (not set && true)) ≡ true
either true = refl
either false = refl

-- With a mask of 0, which is the first wait of the identification, any wait of at least one round
-- ends after exactly one read of the status, and succeeds unless that shows an error.
pub waitfor_status-zero :
    (bus : AtaBus) (set : Bool) (wait : ℕ) (hw : Hardware) (log : Log)
    → waitfor_status bus 0 set (suc wait) hw log ≡ (
        let port = u16 (bus.base_addr + 7) in
        let v = u8 (hw log 8 port) in ok (not (bit_and v 1 == 1)) (read8 v port ∷ log))
unfolding waitfor_status read_status inb
waitfor_status-zero bus set wait hw log =
    let v : ℕ = u8 (hw log 8 (u16 (bus.base_addr + 7))) in
    elim (Bool-cases (bit_and v 1 == 1)) [
      | inl error ↦ rw error refl
      | inr clear ↦ rw clear (rw (bit_and-zero v) (rw (either set) refl))
    ]

-- A wait returns on any machine, and when it succeeds, its last event is a read of the status
-- without an error and with the flags of the mask as wanted.
pub waitfor_status-Returns :
    (bus : AtaBus) (mask : ℕ) (set : Bool) (wait : ℕ) (hw : Hardware) (log : Log)
    → Returns
        (λ done after. done ≡ true → settled bus mask set after ≡ true)
        (waitfor_status bus mask set wait hw log)
unfolding waitfor_status read_status inb settled
waitfor_status-Returns bus mask set zero hw log = returns (λ e. cc)
waitfor_status-Returns bus mask set (suc wait) hw log =
    let v : ℕ = u8 (hw log 8 (u16 (bus.base_addr + 7))) in
    elim (Bool-cases (bit_and v 1 == 1)) [
      | inl error ↦ rw error (returns (λ e. cc))
      | inr clear ↦ rw clear (elim (Bool-cases (wanted mask set v)) [
        | inl hit ↦ rw hit (returns (λ e. rw ((==_iff _ _).1 refl) (rw clear hit)))
        | inr miss ↦ rw miss (waitfor_status-Returns bus mask set wait hw _)
      ])
    ]
