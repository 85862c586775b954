-- ===== src/Fwcfg/Stream.antt =====
-- A device whose selected item is read byte by byte, at the port that `fwcfg.h` reads.
use tiny_bios.Prelude.{
  ℕ, zero, suc, ◌+◌, ◌<◌, ◌≡◌, refl, ap, ◌∙◌, arith, false, ◌&&◌, [], ◌∷◌, ◌==◌, leb, ltb, u8,
  if◌then◌else◌,
}
use tiny_bios.Memory.{Memory, store8}
use tiny_bios.Memory.Words.{store8-same, store8-other}
use tiny_bios.Port.{Log, Hardware, read8, wrote16, inb, outw}
use tiny_bios.Port.Triples.{Returns, returns, Returns-bind, Returns-mono}
use tiny_bios.Fwcfg.{select, fwcfg_inb, insb}

-- The item that was selected last, and how many bytes have been read since.
unfoldable pub selected : Log → ℕ
selected [] = 0
selected (wrote16 v port ∷ log) = if port == 0x510 then v else selected log
selected (_ ∷ log) = selected log

unfoldable pub offset : Log → ℕ
offset [] = 0
offset (wrote16 v port ∷ log) = if port == 0x510 then 0 else offset log
offset (read8 v port ∷ log) = if port == 0x510 then offset log + 1 else offset log
offset (_ ∷ log) = offset log

-- Each byte read from port 0x510, which selects the item too, is the next one of it. The items are
-- bytes. The documented data port is 0x511; `fwcfg.h` reads the selector's own.
pub record IsFwcfg (items : ℕ → ℕ → ℕ) (hw : Hardware) : Type 0 where
  pub serves : (log : Log) → hw log 8 0x510 ≡ items (selected log) (offset log)
  pub bytes : (item at : ℕ) → items item at < 256

module _ (items : ℕ → ℕ → ℕ) (hw : Hardware) (device : IsFwcfg items hw) where
  pub select-Returns :
      (sel : ℕ) (log : Log)
      → Returns (λ u after. (selected after ≡ sel) × (offset after ≡ 0)) (select sel hw log)
  unfolding select outw selected offset
  select-Returns sel log = returns (refl, refl)

  fwcfg_inb-Returns :
      (log : Log)
      → Returns
          (λ v after.
            (v ≡ items (selected log) (offset log))
            × (selected after ≡ selected log)
            × (offset after ≡ offset log + 1))
          (fwcfg_inb hw log)
  unfolding fwcfg_inb inb selected offset
  fwcfg_inb-Returns log = returns (
    ap u8 (device.serves log) ∙ omega (arith, device.bytes (selected log) (offset log)),
    refl,
    refl,
  )

  -- Reading to memory leaves the next bytes of the item there, and every other byte as it was.
  pub insb-Returns :
      (left dst : ℕ) (m : Memory) (log : Log)
      → Returns
          (λ m' after.
            (selected after ≡ selected log)
            × (offset after ≡ offset log + left)
            × ((i : ℕ) → i < left → m' (dst + i) ≡ items (selected log) (offset log + i))
            × ((x : ℕ) → (leb dst x && ltb x (dst + left)) ≡ false → m' x ≡ m x))
          (insb left dst m hw log)
  unfolding insb
  insb-Returns zero dst m log =
      returns (refl, omega arith, (λ i lt. absurd (omega arith)), (λ x outside. refl))
  insb-Returns (suc left) dst m log = Returns-bind _ (fwcfg_inb-Returns log) λ v log1 h1.
      Returns-mono (insb-Returns left (dst + 1) (store8 m dst v) log1) (λ m' log2 h2. (
        h2.0 ∙ h1.1,
        omega (arith, h2.1, h1.2),
        inside v log1 m' h1 (h2.2) (h2.3),
        outside v m' (h2.3),
      ))
    where
      byte :
          (v : ℕ) → v ≡ items (selected log) (offset log) → u8 v ≡ items (selected log) (offset log)
      byte v e = omega (arith, e, device.bytes (selected log) (offset log))

      inside :
          (v : ℕ) (log1 : Log) (m' : Memory)
          → (v ≡ items (selected log) (offset log))
            × (selected log1 ≡ selected log)
            × (offset log1 ≡ offset log + 1)
          → ((i : ℕ) → i < left → m' (dst + 1 + i) ≡ items (selected log1) (offset log1 + i))
          → ((x : ℕ)
              → (leb (dst + 1) x && ltb x (dst + 1 + left)) ≡ false
              → m' x ≡ store8 m dst v x)
          → (i : ℕ) → i < suc left
          → m' (dst + i) ≡ items (selected log) (offset log + i)
      inside v log1 m' h1 rest others zero lt =
          others (dst + 0) (ground arith)
          ∙ ap (store8 m dst v) {x = dst + 0} {y = dst} (omega arith)
          ∙ store8-same m dst v
          ∙ byte v (h1.0)
          ∙ ap (items (selected log)) {x = offset log} {y = offset log + 0} (omega arith)
      inside v log1 m' h1 rest others (suc i) lt =
          ap m' {x = dst + suc i} {y = dst + 1 + i} (omega arith)
          ∙ rest i (omega arith)
          ∙ ap (λ s. items s (offset log1 + i)) (h1.1)
          ∙ ap (items (selected log)) {x = offset log1 + i} {y = offset log + suc i}
              (omega (arith, h1.2))

      outside :
          (v : ℕ) (m' : Memory)
          → ((x : ℕ)
              → (leb (dst + 1) x && ltb x (dst + 1 + left)) ≡ false
              → m' x ≡ store8 m dst v x)
          → (x : ℕ) → (leb dst x && ltb x (dst + suc left)) ≡ false
          → m' x ≡ m x
      outside v m' others x apart =
          others x (ground arith) ∙ store8-other m dst v x (λ e. ground arith)
