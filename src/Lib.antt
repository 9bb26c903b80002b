-- ===== src/Lib.antt =====
-- Verification of tartaruga: an RV32I core with multiplication (SystemVerilog, under rtl/ and
-- includes/), the C++ simulator that runs it (simulator/), and the C programs that run on it
-- (benchmarks/).
--
-- The program. The core fetches a word, decodes it, reads its operands, executes it (one cycle, or
-- five for a product), accesses memory and puts the result into a reorder buffer, from which
-- instructions commit in program order. A store waits in a store buffer until it commits, and then
-- goes through a write-through data cache to memory. Memory is a C++ array behind DPI calls; the
-- loader fills it from an ELF file, and the main loop clocks the core until it finishes or stops
-- committing.
--
-- The model. A 32-bit word is a number with the wrap-around written out, an array is a function
-- from its index, a packed struct is a record, an enum is a data type. A clocked module is a record
-- of its registers, a record of its inputs, and a function from both to the registers after the
-- clock edge; its outputs are functions of the same two. Blocking assignments of an `always_comb`
-- are composed in the order of the source.
--
-- - Base: shared names, Boolean tests, arrays, words, binary digits.
-- - Pkg: includes/tartaruga_pkg.sv and includes/riscv_pkg.sv.
-- - Alu: rtl/datapath/exe/alu.sv and branch.sv (`alu_result`, `taken`), the product of mul.sv.
-- - Decode: rtl/datapath/decode/decoder.sv (`decode`) and immediate.sv (`immediate_word`).
--   Decode/Encode: the instructions and their encodings as the RISC-V manual lays them out.
-- - Exe: rtl/datapath/exe/exe.sv and the delay line of mul.sv (`exe_step`, `exe_out`).
-- - Mem: the result and the branch target of rtl/datapath/mem/mem.sv; Mem/Stage: the stage with its
--   store buffer and its data cache (`mem_stall`, `mem_valid`, `mem_out`).
-- - Fetch: the program counter of rtl/datapath/fetch/fetch.sv; Frontend: the whole of it, with Icache
--   (rtl/caches/icache.sv) and Imem (rtl/caches/imem_wrapper.sv) connected (`frontend_step`).
-- - Single: one instruction through these blocks, with no other in flight, against Single/Isa,
--   the effects that the manual gives. Single/Values: `alu_result` against the values of the manual;
--   Alu/Laws describes it by digits and relations.
-- - Datapath: the operands (`operand`), the stall and the reorder buffer of
--   rtl/datapath/datapath.sv; the results of the other stages are inputs. Datapath/Reach,
--   StoreBuffer/Reach and Dcache/Reach: the states that cycles lead to from reset.
-- - Pipeline: the whole of rtl/datapath/datapath.sv, the stages and the registers between them, with
--   the memory behind both caches (`pipeline_step`); Pipeline/Indices: the states from reset on;
--   Pipeline/Lost: an instruction that leaves exe while the memory stage stalls.
-- - Regfile: rtl/datapath/decode/regfile.sv; Regfile/History: the reads after a history of writes.
-- - Rob: rtl/datapath/wb/rob.sv (`rob_step`, `commit_out`, `hazard`), against the queue of Rob/Queue.
-- - StoreBuffer: rtl/datapath/mem/store_buffer.sv (`sb_step`, `bypass`), against StoreBuffer/Queue.
-- - Dcache: rtl/caches/dcache.sv (`dcache_step`, `mem_request`), against a memory of words.
-- - Wrapper: rtl/caches/dmem_wrapper.sv (`wrapper_step`), in front of the memory of Sim/Memory; Dmem:
--   the connection of Dcache and Wrapper in rtl/datapath/mem/mem.sv (`dmem_step`).
-- - Sim: simulator/unified_mem.cpp (Sim/Memory), elf_reader.cpp (Sim/Elf), the loop of sim_main.cpp
--   (Sim/Loop) and kanata.cpp (Sim/Kanata).
-- - Bench: benchmarks/matrix_mul, buffer_sum and memcpy.
-- - Masks: conjunctions with runs of ones and of zeros.
-- - Encoding: riscv-tests/env/encoding.h, the MATCH and MASK of every instruction
--   (Encoding/Instructions); Encoding/Words: the instances of the patterns of the core's instructions
--   against Decode/Encode; Encoding/Run: such words through the hardware.
-- - Env: riscv-tests/env/v/, the environment of the tests with virtual memory: string.c (Env/Strings,
--   on a memory of bytes) and the demand paging of vm.c (Env/Vm: `vm_boot`, `handle_fault`, `evict`).
--   Env/Vm/Isolation: the states that faults lead to from boot.
-- - Tests: the theorems at concrete inputs.
--
-- Bounds and fuel. The searches of the two buffers run a fixed number of rounds, 15 and 3, the
-- indices other than the tail, as the loops of the source do. The main loop takes fuel, one unit for
-- a cycle; a core that stops committing uses at most 102. The loops of the loader and of the
-- benchmarks are recursions on the number of rounds. The string functions that end at a zero byte
-- take fuel, one unit for a byte; more than the length of the string is enough. ENTROPY, from which
-- the pages of the free list are drawn, is any number.
--
-- Not in the model: the core as Verilator builds it is a parameter of the main loop; the layout of
-- ELF structures is that of <elf.h>, so the loader starts from the list of sections. The commit
-- log and the tracing of the simulator are left out. Of riscv-tests/, a copy of another
-- project, only the table and the environment above are in the model; of vm.c not the control
-- registers, the console and the dispatch of traps.
pub mod Base
pub mod Pkg
pub mod Alu
pub mod Decode
pub mod Exe
pub mod Mem
pub mod Fetch
pub mod Single
pub mod Rob
pub mod StoreBuffer
pub mod Sim
pub mod Regfile
pub mod Dcache
pub mod Bench
pub mod Tests
pub mod Datapath
pub mod Encoding
pub mod Env
pub mod Masks
pub mod Wrapper
pub mod Dmem
pub mod Icache
pub mod Imem
pub mod Frontend
pub mod Pipeline
