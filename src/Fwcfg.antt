-- ===== src/Fwcfg.antt =====
-- src/mainboards/qemu/fwcfg/fwcfg.c with src/include/mainboards/qemu/fwcfg/fwcfg.h, and
-- src/mainboards/qemu/memory_init_late.c: the firmware configuration device of QEMU, and the memory
-- map that is read from it. What the device answers goes to memory, a local variable to the address
-- `local`. The allocator's answers are parameters, and so are the byte swaps of <byteswap.h>.
pub mod Stream
pub mod MemoryMap
pub mod Directory
pub mod Init
mod Tests
use Prim.Native.String.{String}
use tiny_bios.Prelude.{
  ℕ, zero, suc, ◌+◌, ◌*◌, ◌/◌, ◌%◌, ◌^◌, Bool, true, false, ◌&&◌, ◌||◌, Option, none, some, List,
  [], ◌∷◌, ◌++◌, length, ◌==◌, ◌!=◌, ltb, u32, if◌then◌else◌,
}
use tiny_bios.Memory.{Memory, store8, load16, load32, load64, store16, store32, memset}
use tiny_bios.Port.{Cmd, pure, ◌>>=◌, ◌>>◌, inb, inw, inl, outw, blogf, no_rounds_left}
use tiny_bios.Text.{strncmp}
use tiny_bios.Cmos.{MemoryEntry}

abbrev pub fwcfg_addr : ℕ
fwcfg_addr = 0x0510

abbrev pub fwcfg_data : ℕ
fwcfg_data = 0x0510

-- `fwcfg_file`: `size`, `select`, `reserved` and 56 characters `name`.
abbrev pub file_size : ℕ
file_size = 64

abbrev pub name_size : ℕ
name_size = 56

abbrev pub fwcfg_file_dir : ℕ
fwcfg_file_dir = 25

unfoldable pub select : ℕ → Cmd Unit
select sel = outw sel fwcfg_addr

unfoldable pub fwcfg_inb : Cmd ℕ
fwcfg_inb = inb fwcfg_data

unfoldable pub fwcfg_inw : Cmd ℕ
fwcfg_inw = inw fwcfg_data

unfoldable pub fwcfg_inl : Cmd ℕ
fwcfg_inl = inl fwcfg_data

-- The loop of `qemu_fwcfg_insb` from an address on, with `left` bytes left.
unfoldable pub insb : (left dst : ℕ) → Memory → Cmd Memory
insb zero dst m = pure m
insb (suc left) dst m = do v ← fwcfg_inb; insb left (dst + 1) (store8 m dst v)

unfoldable pub fwcfg_present : (local : ℕ) → Memory → Cmd Bool
fwcfg_present local m = do select 0; m1 ← insb 4 local m; pure (load32 m1 local == 0x554D4551)

module _ (bswap_16 bswap_32 : ℕ → ℕ) where
  unfoldable pub swap_fields : (file : ℕ) → Memory → Memory
  swap_fields file m =
      let m1 = store16 m (file + 4) (bswap_16 (load16 m (file + 4))) in
      store32 m1 file (bswap_32 (load32 m1 file))

  -- With `left` entries of the directory left.
  unfoldable pub find_loop : (left : ℕ) → (file name : ℕ) → Memory → Cmd (Bool × Memory)
  find_loop zero file name m = do
    blogf "QEMU FW-CFG Interface present but missing file '%s'\n" []
    pure (false, m)
  find_loop (suc left) file name m = do
    m1 ← insb file_size file m
    (if strncmp name_size m1 (file + 8) name == 0
        then pure (true, swap_fields file m1)
        else find_loop left file name m1)

  -- The address of the entry, or null.
  unfoldable pub find_file_entry :
      (granted : Option ℕ) → (local name : ℕ) → Memory → Cmd (Option ℕ × Memory)
  find_file_entry none local name m = do
    blogf "Failed to allocate memory for fwcfg_file!\n" []
    pure (none, m)
  find_file_entry (some file) local name m = do
    select fwcfg_file_dir
    m1 ← insb 4 local (memset file 0 file_size m)
    (found, m2) ← find_loop (bswap_32 (load32 m1 local)) file name m1
    pure ((if found then some file else none), m2)

  -- Every round stores to the first dword of the buffer.
  unfoldable pub read_loop : (left : ℕ) → (ret : ℕ) → Memory → Cmd Memory
  read_loop zero ret m = pure m
  read_loop (suc left) ret m = do
    m1 ← insb 4 ret m
    read_loop left ret (store32 m1 ret (bswap_32 (load32 m1 ret)))

  -- `fwcfg_read_file`: the address of the buffer, or null.
  unfoldable pub read_file : (granted : Option ℕ) → (file : ℕ) → Memory → Cmd (Option ℕ × Memory)
  read_file none file m = pure (none, m)
  read_file (some ret) file m = do m1 ← read_loop (load32 m file / 4) ret m; pure (some ret, m1)

unfoldable pub load_entry : Memory → ℕ → MemoryEntry
load_entry m at = record { addr = load64 m at; size = load64 m (at + 8); type = load32 m (at + 16) }

abbrev pub entry_size : ℕ
entry_size = 20

-- `memory_map` has room for 128 entries.
abbrev pub max_entries : ℕ
max_entries = 128

abbrev pub chain : {A B : Type 0} → Option A → (A → Option B) → Option B
chain none k = none
chain (some a) k = k a

-- No answer, where the code stores through a null pointer or behind the array.
module _ (granted : ℕ → Bool) where
  unfoldable pub add_from_to : List MemoryEntry → MemoryEntry → Option (List MemoryEntry)
  add_from_to map e =
      if granted (length map) && ltb (length map) max_entries then some (map ++ e ∷ []) else none

  unfoldable pub add_all : List MemoryEntry → List MemoryEntry → Option (List MemoryEntry)
  add_all map [] = some map
  add_all map (e ∷ es) = chain (add_from_to map e) (λ more. add_all more es)

-- What an entry of the file adds: the first megabytes of the memory that starts at 0 are told apart.
unfoldable pub regions : MemoryEntry → List MemoryEntry
regions e =
    if (e.size == 0) || (e.type != 1)
    then []
    else if e.addr == 0
    then record { addr = 0; size = 0x1ffff; type = 1 }
      ∷ record { addr = 0xa0000; size = 0xfffff; type = 3 }
      ∷ record { addr = 0x00100000; size = 0x00efffff; type = 1 }
      ∷ record { addr = 0x00f00000; size = 0x00ffffff; type = 2 }
      ∷ record e { addr = 0x01000000 }
      ∷ []
    else e ∷ []

module _ (granted : ℕ → Bool) (local : ℕ) where
  -- The loop over the file, from `pos` on, whose rounds it counts itself: on fuel.
  unfoldable pub read_map :
      (rounds : ℕ) → (pos size : ℕ) → List MemoryEntry → Memory → Cmd (Option (List MemoryEntry))
  read_map zero pos size map m = no_rounds_left
  read_map (suc rounds) pos size map m =
      if ltb pos size
      then (do
        m1 ← insb entry_size local m
        read_next (add_all granted map (regions (load_entry m1 local)))
            (λ more. read_map rounds (u32 (pos + entry_size)) size more m1))
      else pure (some map)
    where
      read_next :
          Option (List MemoryEntry)
          → (List MemoryEntry → Cmd (Option (List MemoryEntry)))
          → Cmd (Option (List MemoryEntry))
      read_next none k = pure none
      read_next (some more) k = k more

  unfoldable pub finish : Option (List MemoryEntry) → Cmd (Option (Bool × List MemoryEntry))
  finish none = pure none
  finish (some map) = pure (some (length map != 0, map))

  unfoldable pub read_file_map :
      (rounds : ℕ) → Option ℕ → List MemoryEntry → Memory → Cmd (Option (Bool × List MemoryEntry))
  read_file_map rounds none map m = do
    blogf "Missing 'etc/e820 file from qemu fw-cfg\n" []
    pure (some (false, map))
  read_file_map rounds (some file) map m = do
    blogf "Found '%s', parsing memory map\n" ((file + 8) ∷ [])
    select (load16 m (file + 4))
    parsed ← read_map rounds 0 (load32 m file) map m
    finish parsed

  -- `mainboard_specific_memory_init`; `name` is the address of the file's name, `file` the allocator's
  -- answer for its entry, which is freed in the end. The result is whether it succeeded, and the map.
  unfoldable pub memory_init :
      (bswap_16 bswap_32 : ℕ → ℕ)
      → (rounds : ℕ) → (file : Option ℕ) → (name : ℕ) → List MemoryEntry
      → Memory
      → Cmd (Option (Bool × List MemoryEntry))
  memory_init bswap_16 bswap_32 rounds file name map m = do
    present ← fwcfg_present local m
    (if present
        then (do
          (found, m1) ← find_file_entry bswap_16 bswap_32 file local name m
          read_file_map rounds found map m1)
        else (do blogf "Qemu FW-CFG not present\n" []; pure (some (false, map))))
