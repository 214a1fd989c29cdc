-- ===== src/Init/Tests.antt =====
-- A board whose heap starts in the second megabyte of memory.
use mathlib.Core.Path.{subst}
use mk_os.Elf.Program.{IsProgram}
use mk_os.Base.{true, refl, sym, ◌+◌, ◌-◌, ℕ, ◌^◌, ◌≤◌, ◌<◌, ◌≡◌, arith, [], ◌∷◌}
use mk_os.Base.Run.{carry, no_continuous_memory, Settles}
use mk_os.Page.{pool_pages}
use mk_os.Page.Init.{IsHeap, page_init-Bounds}
use mk_os.Mm.Space.{address_map}
use mk_os.Mm.Walk.{translate}
use mk_os.Init.{Board, init_memory, init_devices}
use mk_os.Kmalloc.Disjoint.{kmalloc_each, pieces_with}
use mk_os.Init.Pieces.{kmalloc-disjoint}
use mk_os.Init.Devices.{IsListening, init_devices-Settles}
use mk_os.Fixtures.{tables, tables-IsPlaced, reset}
use mk_os.Bitops.{ntohl}
use mk_os.Memory.{from}
use mk_os.Vfs.{accepts}
use mk_os.Image.{image_header, ih_magic_value, sizeof_image_header}
use mk_os.Vfs.{config_nor_cs1_size}
use mk_os.Vfs.Images.{IsImage}
use mk_os.Fixtures.Flash.{base, flash, segment, flash-IsProgram, size_read}
use mk_os.Init.{init_kernel}
use mk_os.Init.Bootable.{IsBootable}
use mk_os.Init.Program.{Booted, init_kernel-Settles}

abbrev board : Board
board = record {
  heap_start = 0x40100000;
  memory = λ a. 0;
  tables = tables;
  mmu = reset;
  typer = 4;
  frequency = 62500000;
  input = [];
}

board-IsHeap : IsHeap 0x40100000
board-IsHeap = omega arith

init_devices-Settles_example :
    Settles
      (λ _ s.
        IsListening board (pool_pages 0x40100000) s.controller
        × ((va : ℕ) → va < 2 ^ 64 → translate s.mmu va ≡ address_map va))
      no_continuous_memory
      (init_devices board)
init_devices-Settles_example = init_devices-Settles board board-IsHeap tables-IsPlaced

kmalloc-disjoint_example :
    Settles
      (λ ps _. (x : ℕ) → pieces_with x ps ≤ 1)
      no_continuous_memory
      (carry (init_memory board) λ _ m. kmalloc_each (20 ∷ 20000 ∷ 3 ∷ []) m)
kmalloc-disjoint_example =
    kmalloc-disjoint board board-IsHeap (20 ∷ 20000 ∷ 3 ∷ [])
      (omega arith, (omega arith, (omega arith, tt)))

-- the board with a program in flash
abbrev loaded : Board
loaded = record board { memory = flash }

magic_read : ntohl (image_header flash base).ih_magic ≡ ih_magic_value
unfolding ntohl
magic_read = refl

flash-accepted :
    accepts (image_header flash base) (config_nor_cs1_size - sizeof_image_header) ≡ true
unfolding ntohl
flash-accepted = refl

flash-IsImage : IsImage flash base config_nor_cs1_size
flash-IsImage = record { room = omega arith; magic = magic_read; accepted = flash-accepted }

loaded-IsBootable : IsBootable loaded 0x40008000 (from flash (base + 32)) (base ∷ []) 0 segment
loaded-IsBootable = record {
  heap = board-IsHeap;
  placed = tables-IsPlaced;
  images = (refl, flash-IsImage, tt);
  few = omega arith;
  there = omega arith;
  named = (refl, λ h. (refl, λ h'. absurd (h' refl)));
  first = λ j h. absurd (omega arith);
  program =
      subst (λ (n : ℕ). IsProgram flash (base + 64) n segment) (sym size_read) flash-IsProgram;
  in_ram = omega arith;
  low_frame = omega (arith, page_init-Bounds 0x40100000 board-IsHeap);
}

init_kernel-Settles_example :
    Settles
      (λ _ s. Booted loaded base segment s)
      no_continuous_memory
      (init_kernel 0x40008000 0x40001000 (from flash (base + 32)) loaded)
init_kernel-Settles_example = init_kernel-Settles 0x40001000 loaded-IsBootable
