-- ===== src/Pci/Space.antt =====
-- What a machine with a configuration space answers.
use tiny_bios.Prelude.{
  true, sym, ◌∙◌, ◌>>>◌, get_or, ℕ, zero, suc, ◌+◌, ◌*◌, ◌/◌, ◌%◌, ◌^◌, ◌<◌, ◌≡◌, refl, arith, Bool,
  false, List, [], ◌∷◌, ap, ◌==◌, ◌!=◌, bit_and, u8, u32, Bool-cases, inl, inr, if◌then◌else◌,
}
use tiny_bios.Prelude.Bits.{all_below, all_below_sound}
use tiny_bios.Device.{DeviceType, device_bridge, device_access_mmio}
use tiny_bios.Port.{Log, Hardware, ok, wrote32, read32, inl as port_inl, outl}
use tiny_bios.Port.Triples.{Ends, Ends-then, with_result}
use tiny_bios.Pci.{
  ConfigAddress, word, config_port, data_port, PciDevice, read_config, write_config, read_dwords,
  read_header, built_in_self_test, start_selftest, dev_is_bridge, header_type, pci_header_type,
  pci_class, pci_subclass,
}

-- The configuration space of a machine: a read of the data port answers for the address that was
-- written last.
abbrev pub Answers : (ℕ → ℕ) → Hardware → Type 0
Answers space hw = (w : ℕ) (log : Log) → hw (wrote32 w config_port ∷ log) 32 data_port ≡ space w

-- A dword of a function, by its offset.
abbrev pub reading : (ℕ → ℕ) → ConfigAddress → (off : ℕ) → ℕ
reading space a off = u32 (space (word (record a { offset = u8 off })))

-- So many dwords from a register on.
abbrev pub dwords : (ℕ → ℕ) → ConfigAddress → (count reg : ℕ) → List ℕ
dwords space a zero reg = []
dwords space a (suc count) reg = reading space a (reg * 4) ∷ dwords space a count (reg + 1)

-- The header of a function: 17 dwords if byte 14 is 2, which is a bridge to CardBus, else 15.
abbrev pub header_of : (ℕ → ℕ) → ConfigAddress → List ℕ
header_of space a =
    if reading space a 12 / 2 ^ 16 % 2 ^ 8 == 2 then dwords space a 17 0 else dwords space a 15 0

-- A function with class 6 and subclass 4 is a bridge.
abbrev pub type_of : (ℕ → ℕ) → ConfigAddress → DeviceType
type_of space a = if reading space a 8 / 2 ^ 16 == 0x0604 then device_bridge else device_access_mmio

bit_seven : all_below 256 (λ v. bit_and v 0x80 == v / 128 * 128) ≡ true
unfolding all_below
bit_seven = refl

bit_lem : (v : ℕ) → v < 256 → (bit_and v 0x80 != 0) ≡ (v / 128 == 1)
bit_lem v small =
    ground (arith, all_below_sound 256 (λ x. bit_and x 0x80 == x / 128 * 128) v bit_seven small)

top_bit : (v : ℕ) → v < 2 ^ 32 → (bit_and (u8 (v >>> 24)) 0x80 != 0) ≡ (v / 2 ^ 31 == 1)
top_bit v small = bit_lem (u8 (v >>> 24)) (omega arith) ∙ halved
  where
    halved : (u8 (v >>> 24) / 128 == 1) ≡ (v / 2 ^ 31 == 1)
    halved = ground arith

module _ (space : ℕ → ℕ) (hw : Hardware) (answers : Answers space hw) where
  pub read_lem :
      (a : ConfigAddress) (off : ℕ) (log : Log)
      → read_config a off hw log ≡ (
          let w = word (record a { offset = u8 off }) in
          ok
            (u32 (space w), record a { offset = 0 })
            (read32 (u32 (space w)) data_port ∷ wrote32 w config_port ∷ log))
  unfolding read_config port_inl outl
  read_lem a off log = rw (answers (word (record a { offset = u8 off })) log) refl

  read_dwords_lem :
      (count reg : ℕ) (a : ConfigAddress) (log : Log)
      → Ends
          (λ r. r ≡ (dwords space a (suc count) reg, record a { offset = 0 }))
          (read_dwords (suc count) reg a hw log)
  unfolding read_dwords
  read_dwords_lem zero reg a log = rw (read_lem a (reg * 4) log) (with_result refl)
  read_dwords_lem (suc count) reg a log = rw (read_lem a (reg * 4) log) (
      Ends-then hw _ (read_dwords_lem count (reg + 1) (record a { offset = 0 }) _)
        λ r log1 e. rw e (with_result refl))

  type_lem : (v : ℕ) → pci_header_type v ≡ v / 2 ^ 16 % 2 ^ 8
  unfolding pci_header_type
  type_lem v = omega arith

  pub read_header_lem :
      (dev : PciDevice) (log : Log)
      → Ends
          (λ d. d ≡ record dev {
            header = header_of space dev.address;
            address = record (dev.address) { offset = 0 };
          })
          (read_header dev hw log)
  unfolding read_header header_type
  read_header_lem dev log = Ends-then hw _ (read_dwords_lem 3 0 dev.address log) λ r log1 e.
      rw (e, type_lem (reading space dev.address 12))
        (elim (Bool-cases (reading space dev.address 12 / 2 ^ 16 % 2 ^ 8 == 2)) [
          | inl cardbus ↦ rw cardbus (
              Ends-then hw _ (read_dwords_lem 12 4 (record (dev.address) { offset = 0 }) log1)
                λ rest log2 f. rw f (with_result refl))
          | inr other ↦ rw other (
              Ends-then hw _ (read_dwords_lem 10 4 (record (dev.address) { offset = 0 }) log1)
                λ rest log2 f. rw f (with_result refl))
        ])

  get_or-header_of : (a : ConfigAddress) → get_or (header_of space a) 3 0 ≡ reading space a 12
  get_or-header_of a = elim (Bool-cases (reading space a 12 / 2 ^ 16 % 2 ^ 8 == 2)) [
    | inl cardbus ↦ rw cardbus refl
    | inr other ↦ rw other refl
  ]

  -- Bit 31 of the dword with the self test register says that a device has a self test.
  capable_lem :
      (dev : PciDevice) (a : ConfigAddress)
      → dev.header ≡ header_of space a
      → (bit_and (built_in_self_test dev) 0x80 != 0) ≡ (reading space a 12 / 2 ^ 31 == 1)
  unfolding built_in_self_test
  capable_lem dev a e =
      ap (λ h. bit_and (u8 (get_or h 3 0 >>> 24)) 0x80 != 0) e
      ∙ ap (λ v. bit_and (u8 (v >>> 24)) 0x80 != 0) (get_or-header_of a)
      ∙ top_bit (reading space a 12) (omega arith)

  -- The test is started exactly on a device that has one.
  pub start_selftest_lem :
      (dev : PciDevice) (a : ConfigAddress) (log : Log)
      → dev.header ≡ header_of space a
      → Ends
          (λ r.
            (r.1.header ≡ dev.header)
            × (record (r.1.address) { offset = 0 } ≡ record (dev.address) { offset = 0 })
            × (r.0 ≡ (reading space a 12 / 2 ^ 31 == 1)))
          (start_selftest dev hw log)
  unfolding start_selftest write_config outl
  start_selftest_lem dev a log e = elim (Bool-cases (bit_and (built_in_self_test dev) 0x80 != 0)) [
    | inl capable ↦ rw capable (with_result (refl, refl, sym capable ∙ capable_lem dev a e))
    | inr missing ↦ rw missing (with_result (refl, refl, sym missing ∙ capable_lem dev a e))
  ]

  bridge_lem :
      (v : ℕ)
      → v < 2 ^ 32
      → (if pci_class v == 6 then pci_subclass v == 4 else false) ≡ (v / 2 ^ 16 == 0x0604)
  unfolding pci_class pci_subclass
  bridge_lem v small = ground arith

  pub dev_is_bridge_lem :
      (a : ConfigAddress) (log : Log)
      → Ends
          (λ r.
            ((if r.0 then device_bridge else device_access_mmio) ≡ type_of space a)
            × (r.1 ≡ record a { offset = 0 }))
          (dev_is_bridge a hw log)
  unfolding dev_is_bridge
  dev_is_bridge_lem a log = rw (read_lem a 8 log) (
      with_result (
        ap (λ (b : Bool). if b then device_bridge else device_access_mmio)
            (bridge_lem (reading space a 8) (omega arith)),
        refl,
      ))
