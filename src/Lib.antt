-- ===== src/Lib.antt =====
-- A model of the FAT32 kernel's core, with its correctness theorems.
--
-- The program. A kernel mounts a FAT32 image that it holds in memory (src/file_system.rs), a shell
-- session works on it (src/file_system/interface.rs) and prints to the text screen
-- (src/vga_buffer.rs); the heap comes from one of several allocators (src/allocator.rs,
-- src/allocator/). The shell calls the file system with paths; the file system resolves a path
-- directory by directory, finds clusters by the file allocation table (FAT), and reads and writes
-- the image in place.
--
-- The modules and the code.
-- - Base: names of the library passed on, and helpers: Boolean tests, lists, runs (`Run`) and
--   results, windows of a byte list (`slice`, `copy_at`), masks, words, text.
-- - FileSystem: the mounted volume, `mount` for `Fat32FileSystem::new`, and what the theorems ask
--   of a volume (`IsVolume`, `InData`, `InTable`).
--   - Sectors: `read_sector`, `read_cluster`. Table: `read_fat_entry`, `write_fat_entry`,
--     `allocate_cluster`.
--   - Names: `lfn_checksum`, `short_name_to_string`, `format_to_8_3`. Entry: `FatDir`,
--     `LongFileName`, `FileInfo` and their constructors. LongNames: `process_lfn_entry`,
--     `assemble_lfn`. Listing: `list_directory_entries`, `process_data_entry`.
--   - FilePath: `parse_path`, `find_parent_cluster`. Directories: `create_file`, `mkdir`,
--     `write_directory_entry`, `init_directory_cluster`. Files: `read_file`, `write_file`,
--     `update_file_size`.
-- - Allocator: `align_up`, and one module for each allocator: Bump, LinkedList, FixedSizeBlock and
--   Slab, the one that the kernel uses. Memory: memory as a function from addresses to words.
--   Nodes: the circular lists of slab.rs; Pages: its `PageAllocator`. Heap: `init_heap`.
-- - Frames: the frame allocators of src/memory.rs; Frames/Mapping: the active page table.
-- - Shell: `ShellSession` and its commands.
-- - Vga: `Writer`, and the colours. Printing: `_print` of src/vga_buffer.rs as steps of a thread
--   that takes the lock of `WRITER`, with interrupts in between.
-- - Interrupts: the interrupt table and the handlers of src/interrupts.rs, and the stack of the
--   double fault; Interrupts/Segments: the rest of src/gdt.rs.
-- - Kernel: `kernel_main` of src/main.rs, and `init` of src/lib.rs as the list of its actions, which
--   `kernel_main` hands on; Kernel/Harness: the test runner
--   of src/lib.rs, and src/serial.rs.
-- - Tests: an example volume, runs of the code on it, and the theorems at concrete inputs.
--
-- How the code is modelled. The image is a list of bytes, and an operation that writes to it returns
-- the new volume. `Run` says how a call ends: it returns, it panics, or the model's fuel is used up.
-- Sums, differences and products of `u32` and `usize` panic when they leave the type, as in a build
-- with overflow checks; a cast cuts to the width. The sum behind the end of a free region in
-- LinkedList is a plain sum: the regions lie inside the address space; so are the sums of addresses
-- inside a page in Slab. There and in FixedSizeBlock a structure is the words at its fields' offsets.
-- Strings are their UTF-8 bytes. Messages of errors are the source's.
--
-- Fuel. Only the loop of `read_file` has it: it ends when the FAT does. A chain of n clusters needs
-- n rounds. The count of trailing zeros and the next power of two in Slab have 64 rounds, the width
-- of the type. The loops over the clusters 2 to 49999, over sectors, entries, parts of a path, regions
-- and screen cells are structural.
--
-- Parameters. `to_uppercase` of the standard library is an argument of the operations that call it;
-- `UppersAscii` says what is used of it. The x86_64 crate's virtual addresses are `VirtAddrs`
-- (`IsCanonical`), its pages, mapper and frame allocator `Paging` (`IsPaging`), the memory map of the
-- bootloader and physical frames `Boot` (`IsPhysical`), and the heap of the linked_list_allocator
-- crate `FirstFit`. Its interrupt flag is a `Processor` (`IsMasking`), its interrupt table `Tables`
-- (`IsTables`), its segments `Descriptors` (`IsDescriptors`); the keyboard and the interrupt
-- controllers of pc_keyboard and pic8259, and how values are printed, are `Devices`. The mapper on a
-- page table, the frames and the disk's image are arguments of `kernel_main`.
--
-- Order of steps. Only Printing has interleavings: one processor, where a handler starts between
-- two steps of a thread whenever interrupts are enabled, and runs to its end before the thread goes
-- on. Elsewhere one caller at a time is modelled, and a handler is one step.
--
-- Not modelled: the memory cells behind volatile accesses and static references; the endless
-- halting loops, which are the end of a run; a fault in the middle of a print, whose handler would
-- wait for the lock; the integration tests.
mod Base
pub mod FileSystem
pub mod Allocator
pub mod Shell
pub mod Printing
pub mod Interrupts
pub mod Kernel
pub mod Vga
pub mod Frames
mod Tests
