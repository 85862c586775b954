-- ===== src/Boot/Steps.antt =====
-- The steps of the start that end on every machine.
use Prim.Native.String.{String}
use tiny_bios.Pci.{Entry}
use tiny_bios.Pci.Names.{print_name, print_devtree}
use tiny_bios.Pic.{no_words}
use tiny_bios.Prelude.{◌⊎◌, inl, inr, ℕ, ◌≡◌, refl, Bool, Option, none, some, List, [], ◌∷◌}
use tiny_bios.Device.{status_faulty}
use tiny_bios.Memory.{Memory}
use tiny_bios.Port.{Cmd, message}
use tiny_bios.Port.Triples.{
  Any, Always, Always-pure, Always-if, Always-bind, Always-after, Always-emit, Always-inb,
  Always-outb, Always-panic,
}
use tiny_bios.Startup.{zeroed}
use tiny_bios.Startup.Critical.{new_device-zeroed}
use tiny_bios.Boot.{init_memory_map, print_map}
use tiny_bios.Cmos.{MemoryEntry, add_memory, read_memory_info}
use tiny_bios.Paging.{init_paging, pages_for, pdpt_count, pml4_count}
use tiny_bios.Boot.Sequence.{Allocations, no_keyboard, no_cmos, new_devices}

print_map-Always : (entries : List MemoryEntry) → Always Any (print_map entries)
unfolding print_map
print_map-Always [] = Always-pure tt
print_map-Always (e ∷ entries) =
    Always-after (Always-emit _) (Always-after (Always-emit _) (print_map-Always entries))

read_memory_info-Always : (entries : List MemoryEntry) → Always Any (read_memory_info entries)
unfolding read_memory_info
read_memory_info-Always entries = Always-bind (Always-outb _ _) λ u h.
    Always-bind (Always-inb _) λ low h'. Always-bind (Always-outb _ _) λ u' h''.
      Always-bind (Always-inb _) λ high h'''. Always-pure {a = add_memory low high entries} tt

module _ (board : List MemoryEntry → Cmd (Bool × List MemoryEntry))
    (ends : (entries : List MemoryEntry) → Always Any (board entries)) where
  pub init_memory_map-Always :
      (entries : List MemoryEntry) → Always Any (init_memory_map board entries)
  unfolding init_memory_map
  init_memory_map-Always entries = Always-bind (ends entries) λ found h.
      Always-bind
        (Always-if found.0 (Always-pure {P = Any} tt) (
          Always-bind
            (Always-emit (message "Mainboard-specific memory init failed, fallback to CMOS\n" []))
            λ u h'.
              Always-bind (read_memory_info-Always found.1)
                λ fallback h''. Always-pure {a = (status_faulty, fallback)} tt))
        λ ready h'.
          Always-bind (Always-emit (message "Memory map:\n" []))
            λ u h''. Always-bind (print_map-Always ready.1) λ u' h'''. Always-pure {a = ready} tt

known : {A : Type 0} (x : Option A) → (x ≡ none) ⊎ ((a : A) × (x ≡ some a))
known none = inl refl
known (some a) = inr (a, refl)

pub init_paging-Always :
    (pte pdpt pml4 : ℕ → Option ℕ) (map : List MemoryEntry)
    → Always Any (init_paging pte pdpt pml4 map)
unfolding init_paging
init_paging-Always pte pdpt pml4 map = elim (known (pte (pages_for map))) [
  | inl e ↦ rw e (Always-panic _)
  | inr (a, e) ↦ rw e (elim (known (pdpt (pdpt_count (pages_for map)))) [
    | inl f ↦ rw f (Always-panic _)
    | inr (b, f) ↦ rw f (elim (known (pml4 (pml4_count (pages_for map)))) [
      | inl g ↦ rw g (Always-panic _)
      | inr (c, g) ↦ rw g (Always-pure tt)
    ])
  ])
]

print_name-Always : (name : Option String) → Always Any (print_name name)
unfolding print_name
print_name-Always none = Always-pure tt
print_name-Always (some name) = Always-emit _

pub print_devtree-Always : (entries : List Entry) → Always Any (print_devtree entries)
unfolding print_devtree
print_devtree-Always [] = Always-pure tt
print_devtree-Always (e ∷ entries) = Always-after (Always-emit _) (
    Always-after (print_name-Always _) (
      Always-after (print_name-Always _) (
        Always-after
          (Always-if e.device_data.bist_executed (Always-emit _) (Always-pure {P = Any} tt))
          (print_devtree-Always entries))))

pub new_devices-Always :
    (al : Allocations) (m : Memory)
    → Always
        (λ d.
          (d.memory_device ≡ zeroed [])
          × (d.programmable_interrupt_controller ≡ zeroed no_words)
          × (d.cmos_dev ≡ zeroed no_cmos)
          × (d.keyboard_controller_device ≡ zeroed no_keyboard)
          × (d.programmable_interrupt_timer ≡ zeroed m))
        (new_devices al m)
unfolding new_devices
new_devices-Always al m = Always-bind (new_device-zeroed _ _ _) λ d1 h1.
    Always-bind (new_device-zeroed _ _ _) λ d2 h2. Always-bind (new_device-zeroed _ _ _) λ d3 h3.
      Always-bind (new_device-zeroed _ _ _)
        λ d4 h4. Always-bind (new_device-zeroed _ _ _) λ d5 h5. Always-pure (h1, h2, h3, h4, h5)
