-- ===== src/Pci/Config.antt =====
-- The configuration address of `pci.h` as the dword that goes out to the port.
use tiny_bios.Prelude.{ℕ, ◌/◌, ◌%◌, ◌^◌, ◌<◌, ◌≡◌, arith}
use tiny_bios.Pci.{ConfigAddress, word}

-- Each field fits its bits.
pub record Fits (a : ConfigAddress) : Type 0 where
  pub offset_fits : a.offset < 2 ^ 8
  pub function_fits : a.function < 2 ^ 3
  pub device_fits : a.device < 2 ^ 5
  pub bus_fits : a.bus < 2 ^ 8
  pub reserved_fits : a.reserved < 2 ^ 7
  pub enable_fits : a.enable < 2

-- What the host bridge reads off the dword.
unfoldable pub decode : ℕ → ConfigAddress
decode w = record {
  offset = w % 2 ^ 8;
  function = w / 2 ^ 8 % 2 ^ 3;
  device = w / 2 ^ 11 % 2 ^ 5;
  bus = w / 2 ^ 16 % 2 ^ 8;
  reserved = w / 2 ^ 24 % 2 ^ 7;
  enable = w / 2 ^ 31;
}

pub ConfigAddress-ext :
    {a b : ConfigAddress}
    → a.offset ≡ b.offset
    → a.function ≡ b.function
    → a.device ≡ b.device
    → a.bus ≡ b.bus
    → a.reserved ≡ b.reserved
    → a.enable ≡ b.enable
    → a ≡ b
ConfigAddress-ext p q r s t u = λ i. record {
  offset = p i;
  function = q i;
  device = r i;
  bus = s i;
  reserved = t i;
  enable = u i;
}

-- An address whose fields fit their bits is read back from its dword, and the dword is below
-- 2 ^ 32.
pub decode-word : (a : ConfigAddress) → Fits a → (decode (word a) ≡ a) × (word a < 2 ^ 32)
unfolding decode word
decode-word a h =
    let ho = h.offset_fits in
    let hf = h.function_fits in
    let hd = h.device_fits in
    let hb = h.bus_fits in
    let hr = h.reserved_fits in
    let he = h.enable_fits in
    (
      ConfigAddress-ext (omega arith) (omega arith) (omega arith) (omega arith) (omega arith)
          (omega arith),
      omega arith,
    )
