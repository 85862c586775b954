-- ===== src/Framebuffer/Registers.antt =====
-- The documented device: the registers behind the index port, after the writes of a log.
use tiny_bios.Prelude.{
  ℕ, ◌+◌, ◌%◌, ◌^◌, ◌<◌, ◌≤◌, ◌≡◌, refl, ap, ◌∙◌, arith, true, false, ◌&&◌, ◌||◌, [], ◌∷◌, ◌==◌,
  ltb, u16, if◌then◌else◌,
}
use tiny_bios.Device.{status_initialised}
use tiny_bios.Port.{Log, Hardware, wrote16, inw, outw, outb, outl}
use tiny_bios.Port.Triples.{Returns, returns, Returns-bind, Returns-mono}
use tiny_bios.Pci.{ConfigAddress, write_config}
use tiny_bios.Framebuffer.{
  index_code, must_disable, disable, vbe_in, vbe_out, vbe_version, base_of, set_mode,
  init_vga_controller, VbeIndex, idx_xres, idx_yres, idx_bpp, idx_enable, idx_bank, idx_v_width,
  idx_v_height, idx_x_off, idx_y_off,
}

pub record Vbe : Type 0 where
  pub index : ℕ
  pub register : ℕ → ℕ

-- The resolution is taken only while the device is disabled.
unfoldable pub put : ℕ → ℕ → (ℕ → ℕ) → ℕ → ℕ
put i v register k =
    if must_disable i && (register 4 % 2 == 1) then register k else if k == i then v else register k

abbrev pub on_write : (base v port : ℕ) → Vbe → Vbe
on_write base v port d =
    if port == base
    then record d { index = v }
    else if port == base + 1
    then record d { register = put d.index v d.register }
    else d

unfoldable pub vbe_after : (base : ℕ) → Log → Vbe
vbe_after base [] = record { index = 0; register = λ k. 0 }
vbe_after base (wrote16 v port ∷ log) = on_write base v port (vbe_after base log)
vbe_after base (_ ∷ log) = vbe_after base log

module _ (base : ℕ) (low : base + 1 < 2 ^ 16) (hw : Hardware) where
  next_port : u16 (base + 1) ≡ base + 1
  next_port = omega arith

  pair-put :
      (i v : ℕ) (log : Log)
      → (vbe_after base (wrote16 v (u16 (base + 1)) ∷ wrote16 i base ∷ log)).register
        ≡ put i v (vbe_after base log).register
  unfolding vbe_after
  pair-put i v log = rw (next_port, same base, behind base, same (base + 1)) refl
    where
      same : (n : ℕ) → (n == n) ≡ true
      same n = ground arith

      behind : (n : ℕ) → (n + 1 == n) ≡ false
      behind n = ground arith

  vbe_out-Returns :
      (v : ℕ) (idx : VbeIndex) (log : Log)
      → Returns
          (λ u after.
            (vbe_after base after).register ≡ put (index_code idx) v (vbe_after base log).register)
          (vbe_out base v idx hw log)
  unfolding vbe_out outw
  vbe_out-Returns v idx log = returns (pair-put (index_code idx) v log)

  disable-Returns :
      (log : Log)
      → Returns
          (λ u after. (vbe_after base after).register ≡ put 4 0 (vbe_after base log).register)
          (disable base hw log)
  unfolding disable outw index_code
  disable-Returns log = returns (pair-put 4 0 log)

  -- What the registers are after the mode is set, whatever they were before.
  abbrev mode_of : (ℕ → ℕ) → ℕ → ℕ
  mode_of r = put 4 0x41 (
      put 9 0
        (put 8 0 (put 7 480 (put 6 760 (put 2 480 (put 1 760 (put 3 32 (put 5 0 (put 4 0 r)))))))))

  out_after :
      (v : ℕ) (idx : VbeIndex) (log : Log) (r : ℕ → ℕ)
      → (vbe_after base log).register ≡ r
      → Returns
          (λ u after. (vbe_after base after).register ≡ put (index_code idx) v r)
          (vbe_out base v idx hw log)
  out_after v idx log r e =
      Returns-mono (vbe_out-Returns v idx log) (λ u log1 h. h ∙ ap (put (index_code idx) v) e)

  set_mode-Returns :
      (log : Log)
      → Returns
          (λ u after. (vbe_after base after).register ≡ mode_of (vbe_after base log).register)
          (set_mode base hw log)
  unfolding set_mode index_code outb vbe_after
  set_mode-Returns log = Returns-bind _ (disable-Returns log) λ u0 l0 h0.
      Returns-bind _ (out_after 0 idx_bank l0 _ h0) λ u1 l1 h1.
        Returns-bind _ (out_after 32 idx_bpp l1 _ h1) λ u2 l2 h2.
          Returns-bind _ (out_after 760 idx_xres l2 _ h2) λ u3 l3 h3.
            Returns-bind _ (out_after 480 idx_yres l3 _ h3) λ u4 l4 h4.
              Returns-bind _ (out_after 760 idx_v_width l4 _ h4) λ u5 l5 h5.
                Returns-bind _ (out_after 480 idx_v_height l5 _ h5) λ u6 l6 h6.
                  Returns-bind _ (out_after 0 idx_x_off l6 _ h6) λ u7 l7 h7.
                    Returns-bind _ (out_after 0 idx_y_off l7 _ h7) λ u8 l8 h8.
                      Returns-bind _ (out_after 0x41 idx_enable l8 _ h8) λ u9 l9 h9. returns h9

-- A mode of 760 by 480 pixels of 32 bits, enabled with its linear frame buffer.
pub record IsMode (register : ℕ → ℕ) : Type 0 where
  pub xres : register 1 ≡ 760
  pub yres : register 2 ≡ 480
  pub bpp : register 3 ≡ 32
  pub enabled : register 4 ≡ 0x41
  pub bank : register 5 ≡ 0
  pub v_width : register 6 ≡ 760
  pub v_height : register 7 ≡ 480
  pub x_off : register 8 ≡ 0
  pub y_off : register 9 ≡ 0

-- A device that answers a version from 0xb0c0 to 0xb0c5 behind the index of the id.
pub record IsVbe (base : ℕ) (hw : Hardware) : Type 0 where
  pub oldest : (log : Log) → (vbe_after base log).index ≡ 0 → 0xb0c0 ≤ hw log 16 (base + 1)
  pub newest : (log : Log) → (vbe_after base log).index ≡ 0 → hw log 16 (base + 1) ≤ 0xb0c5

module _ (base : ℕ) (low : base + 1 < 2 ^ 16) (hw : Hardware) (device : IsVbe base hw) where
  vbe_version-Returns :
      (log : Log)
      → Returns (λ v after. (ltb v 0xb0c0 || ltb 0xb0c5 v) ≡ false) (vbe_version base hw log)
  unfolding vbe_version vbe_in outw inw vbe_after index_code
  vbe_version-Returns log = rw (next_port base low hw) (
      returns (
        in_range (hw (wrote16 0 base ∷ log) 16 (base + 1))
          (device.oldest (wrote16 0 base ∷ log) (selected base))
          (device.newest (wrote16 0 base ∷ log) (selected base))))
    where
      in_range :
          (v : ℕ) → 0xb0c0 ≤ v → v ≤ 0xb0c5 → (ltb (u16 v) 0xb0c0 || ltb 0xb0c5 (u16 v)) ≡ false
      in_range v from to = ground arith

      selected : (b : ℕ) → (vbe_after b (wrote16 0 b ∷ log)).index ≡ 0
      selected b = ground arith

  mode_of-IsMode : (r : ℕ → ℕ) → IsMode (mode_of base low hw r)
  unfolding put must_disable
  mode_of-IsMode r = record {
    xres = refl;
    yres = refl;
    bpp = refl;
    enabled = refl;
    bank = refl;
    v_width = refl;
    v_height = refl;
    x_off = refl;
    y_off = refl;
  }

-- Where the documented device answers at the base, with a port behind it: `init_vga_controller` returns that it is
-- initialised, and whatever its registers were, it is enabled in a mode of 760 by 480 pixels of 32 bits.
pub init_vga_controller-Returns :
    (bar2 : ℕ) (address : ConfigAddress) (hw : Hardware) (log : Log)
    → base_of bar2 + 1 < 2 ^ 16
    → IsVbe (base_of bar2) hw
    → Returns
        (λ s after. (s ≡ status_initialised) × IsMode (vbe_after (base_of bar2) after).register)
        (init_vga_controller bar2 address hw log)
unfolding init_vga_controller write_config outl vbe_after
init_vga_controller-Returns bar2 address hw log low device =
    Returns-bind _ (vbe_version-Returns (base_of bar2) low hw device log) λ v log1 h1. rw h1 (
      Returns-bind _ (set_mode-Returns (base_of bar2) low hw log1) λ u log2 h2. returns (
        refl,
        rw h2
            (mode_of-IsMode (base_of bar2) low hw device (vbe_after (base_of bar2) log1).register),
      ))
