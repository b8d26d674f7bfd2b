-- ===== src/Lib.antt =====
-- Bedrock is a deterministic hypervisor: a Linux kernel module that runs a guest on VMX, with emulated
-- devices whose every answer is a function of the guest's instruction count, so that a run can be
-- repeated exactly and a virtual machine forked at any point.
--
-- The program's parts and the files that model them:
-- - Memory: crates/bedrock-memory/src/addr.rs, the four table indices of a guest address.
-- - Ept: crates/bedrock-ept/src, the extended page tables. Ept/Entry has the entry formats (entry.rs),
--   Ept/Frames the trait `FrameAllocator` (traits.rs) as a record of its operations with what its
--   documentation promises, Ept/Table `EptPageTable` (table.rs): a method passes on one state, the page
--   table with the memory and the allocator, beside its result. The other files there have the proofs:
--   walks (Walk), a new table (Grow), the invariant that the tables are a tree of owned frames (Tree),
--   the map from pages to frames (Map, Remap). Ept/Clone is `clone_for_fork`, its three upper loops one
--   function by the level, and the files below it have its proofs.
-- - Vpid: crates/bedrock-vmx/src/traits/vpid.rs, the allocator of VPIDs, a bitmap and a hint. The bitmap
--   is a function of the word's index; a call is atomic. The loop in a word is on fuel 2, which is enough:
--   it goes round again only after it has marked VPID 0.
-- - Decoder: crates/bedrock-vmx/src/decoder.rs, which decodes the MOV instructions of MMIO accesses. The
--   arms of its `match` share one function for the ModR/M operand, as their code is the same.
-- - Apic, IoApic: crates/bedrock-vmx/src/devices/apic.rs and ioapic.rs, with the register maps of
--   crates/bedrock-vmx/src/exits/apic.rs. The ISR, the TMR, the IRR and the redirection table are
--   functions of an index.
-- - Interrupts: crates/bedrock-vmx/src/exits/interrupts.rs: the timer, the I/O channel's interrupt, the
--   choice of a vector and its acknowledgement, on the part of the VM's state that they use. A payload
--   given to the event stream is recorded in the state. Interrupts/Inject has the whole of
--   `inject_pending_interrupt` with what it calls, over a VMCS whose fields have values and may refuse an
--   access.
-- - GuestPaging: crates/bedrock-vmx/src/exits/ept.rs, the walk of the guest's own page tables, over any
--   CR3 and guest memory; Pages has the walk of one page and Range that of a buffer.
-- - IoChannel: crates/bedrock-vmx/src/vm_state.rs, the slot and the queue of I/O requests, which
--   Interrupts signals. Whether the kernel's allocator has memory for the queue is a parameter.
-- - Random: crates/bedrock-vmx/src/devices/random.rs, the device behind RDRAND, RDSEED and GET_RANDOM,
--   and the register write of crates/bedrock-vmx/src/exits/rdrand.rs.
-- - Rtc: crates/bedrock-vmx/src/devices/rtc.rs, the CMOS clock. The loop over the years is on fuel, one
--   round more than there are days, which is enough as a year has 365 days at least. Rtc/Calendar is the
--   Gregorian calendar by its own rules, which the clock is measured by; Loops has the two loops.
-- - Registers, Idle: crates/bedrock-vmx/src/exits/time.rs and the registers by number of exits/cr.rs there:
--   what RDTSC, RDTSCP and RDPMC put into the registers, and HLT and MWAIT, which move the time on.
-- - Cow: crates/bedrock-vmx/src/cow.rs, the pages that a forked VM has copied, in both builds.
-- - Forked: crates/bedrock-vmx/src/vm/forked.rs, the memory of a VM that shares its parent's until it writes,
--   with `read_page` of vm/root.rs for the root. A virtual machine has its EPT, its copied pages and the
--   host's memory. Forked/Pages, Reads, Writes and Memory have guest memory as bytes; Copies, Faults and Resolve
--   a copy-on-write fault, whose copy two other methods repeat; Isolation what the parents see, and Steps any
--   order of these and of stores that the guest makes where its EPT lets it. A read or a write is on fuel, one round more than there are bytes, and each round takes one at least: Rounds has that it is
--   enough.
-- - Mmio: the dispatch of EPT violations in exits/ept.rs there, with the handlers of exits/apic.rs that fetch
--   and decode an instruction and access a device. Mmio/Instruction has the fetch, Access and Handlers all
--   branches of the handlers, Window a guest that uses the I/O APIC, Violation a fault with no memory.
-- - Pebs: crates/bedrock-vmx/src/exits/pebs.rs and the functions of exits/mod.rs that go with it: the counter
--   that stops the guest shortly before the next target, and the single steps from there. Pebs/Entry is what
--   precedes an entry, Targets the four targets, Counter what the counter is set up for, Rounds a run of the
--   guest from one exit to the next, Aim what a run leaves as it is, Approach one round after another, and
--   Boundary an exit on a target. The processor is a relation: which runs the counter and the flag allow. The
--   margin, which depends on the processor's model, is an argument.
-- - Events: the event stream, whose writer is in crates/bedrock-vmx/src/vm_state.rs, its format in
--   crates/bedrock-vmx/src/events/types.rs, and Events/Reader the iterator of crates/bedrock-vm/src/
--   events.rs. The model has the bytes of the buffer below the cursor, the only ones that are read, and a
--   call of `rdtsc` is an argument. The other files there have the proofs: one record (Record), a buffer of
--   records (Stream), the writer's branches (Branches, Writes), the overflow and the drain (Overflow), exit
--   records (Patch, Capture) and where one stands (Located), and the operations as steps with what they keep
--   (Preserve, Reach). The
--   reader's iteration is on fuel, one round more than there are bytes, which is enough as a record has 32.
-- - IoProtocol: crates/bedrock-vm/src/io_channel.rs, the messages of the I/O channel as bytes, with
--   `String::from_utf8_lossy` a parameter.
-- Base has what they share: machine words as numbers below a power of two with their wrap-around
-- written out, the digits of a word, its bytes, integers, lists and results. Tests has runs at concrete
-- states.
--
-- Not modelled: the frame list of the kernel build, which drops a frame that it has no room for (the model has
-- the cargo build's, in crates/bedrock-ept/src/compat.rs), the exit handlers that read and write the VMCS,
-- the decoding of an event's payload by its kind, hypercalls, the registration of the PEBS page and its MSRs, the kernel module's ioctls, and the
-- rest of the userspace crates, which call all of this. Concurrent calls of the VPID allocator are taken one after another.
pub mod Base
pub mod Memory
pub mod Ept
pub mod Vpid
pub mod Decoder
pub mod Apic
pub mod IoApic
pub mod GuestPaging
pub mod IoChannel
pub mod IoProtocol
pub mod Events
pub mod Interrupts
pub mod Random
pub mod Rtc
pub mod Registers
pub mod Idle
pub mod Cow
pub mod Forked
pub mod Mmio
pub mod Pebs
pub mod Tests
