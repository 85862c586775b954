-- ===== src/Pci/Steps.antt =====
-- What each operation on the configuration space keeps and returns, over any property of the log
-- that the two kinds of access and a message keep.
use tiny_bios.Prelude.{
  ℕ, zero, suc, ◌+◌, ◌*◌, ◌%◌, ◌^◌, ◌≤◌, ◌<◌, bit_or, ◌∷◌, ◌≡◌, refl, arith, u8, length, true, ltb,
  ltb→lt, length-append,
}
use tiny_bios.Prelude.Bits.{all_below, all_below_sound}
use tiny_bios.Port.{Log, wrote32, read32, inl, outl}
use tiny_bios.Port.Guards.{Guards, returned, Guards-pure, Guards-if, Guards-bind}
use tiny_bios.Pci.{
  ConfigAddress, word, config_port, data_port, read_config, write_config, PciDevice,
  built_in_self_test, start_selftest, read_dwords, read_header, dev_is_bridge,
}

-- An address dword that is enabled and names a whole register.
abbrev pub Enabled : ℕ → Type 0
Enabled w = (2 ^ 31 ≤ w) × (w % 4 ≡ 0)

-- The address that an operation leaves: enabled and at the same device.
abbrev pub Kept : (a b : ConfigAddress) → Type 0
Kept a b = (b.enable ≡ 1) × (b.device ≡ a.device)

word-Enabled :
    (a : ConfigAddress) (off : ℕ)
    → a.enable ≡ 1
    → off % 4 ≡ 0
    → Enabled (word (record a { offset = u8 off }))
unfolding word
word-Enabled a off on whole = (ground arith, ground arith)

byte_or_table : all_below 256 (λ r. ltb (bit_or r 0x40) 256) ≡ true
unfolding all_below
byte_or_table = refl

byte_or-small : (r : ℕ) → r < 256 → bit_or r 0x40 < 256
byte_or-small r h =
    ltb→lt _ 256 (all_below_sound 256 (λ r. ltb (bit_or r 0x40) 256) r byte_or_table h)

module _ {I : Log → Type 0}
    (reading : (w v : ℕ) (log : Log)
      → Enabled w
      → I log
      → I (read32 v data_port ∷ wrote32 w config_port ∷ log))
    (writing : (w v : ℕ) (log : Log)
      → Enabled w
      → v < 256
      → I log
      → I (wrote32 v data_port ∷ wrote32 w config_port ∷ log)) where
  pub read_config-Guards :
      (a : ConfigAddress) (off : ℕ)
      → a.enable ≡ 1
      → off % 4 ≡ 0
      → Guards I (λ r. Kept a r.1) (read_config a off)
  unfolding read_config inl outl
  read_config-Guards a off on whole = record {
    guards = λ hw log i. returned (reading _ _ log (word-Enabled a off on whole) i) (on, refl);
  }

  pub write_config-Guards :
      (a : ConfigAddress) (off v : ℕ)
      → a.enable ≡ 1
      → off % 4 ≡ 0
      → v < 256
      → Guards I (λ b. Kept a b) (write_config a off v)
  unfolding write_config outl
  write_config-Guards a off v on whole small = record {
    guards =
        λ hw log i. returned (writing _ _ log (word-Enabled a off on whole) small i) (on, refl);
  }

  pub read_dwords-Guards :
      (count reg : ℕ) (a : ConfigAddress)
      → a.enable ≡ 1
      → Guards I (λ r. (length r.0 ≡ count) × Kept a r.1) (read_dwords count reg a)
  unfolding read_dwords
  read_dwords-Guards zero reg a on = Guards-pure (refl, (on, refl))
  read_dwords-Guards (suc count) reg a on =
      Guards-bind (read_config-Guards a (reg * 4) on (omega arith)) λ first kept.
        Guards-bind (read_dwords-Guards count (reg + 1) first.1 kept.0)
          λ rest kept'. Guards-pure (cc kept'.0, (kept'.1.0, cc (kept.1, kept'.1.1)))

  pub read_header-Guards :
      (dev : PciDevice)
      → dev.address.enable ≡ 1
      → Guards I (λ d. (15 ≤ length d.header) × Kept dev.address d.address) (read_header dev)
  unfolding read_header
  read_header-Guards dev on = Guards-bind (read_dwords-Guards 4 0 dev.address on) λ common kept.
      Guards-bind (read_dwords-Guards _ 4 common.1 kept.1.0) λ rest kept'.
        Guards-pure
          (ground (arith, length-append common.0 rest.0), (kept'.1.0, cc (kept.1.1, kept'.1.1)))

  pub start_selftest-Guards :
      (dev : PciDevice)
      → dev.address.enable ≡ 1
      → Guards I
          (λ r. (r.1.header ≡ dev.header) × Kept dev.address r.1.address)
          (start_selftest dev)
  unfolding start_selftest built_in_self_test
  start_selftest-Guards dev on =
      Guards-if _
        (Guards-bind
          (write_config-Guards dev.address 0x0c _ on refl (byte_or-small _ (omega arith)))
          λ a kept. Guards-pure (refl, kept))
        (Guards-pure (refl, (on, refl)))

  pub dev_is_bridge-Guards :
      (a : ConfigAddress) → a.enable ≡ 1 → Guards I (λ r. Kept a r.1) (dev_is_bridge a)
  unfolding dev_is_bridge
  dev_is_bridge-Guards a on =
      Guards-bind (read_config-Guards a 8 on refl) λ r kept. Guards-pure kept
