-- ===== src/Lib.antt =====
-- Verification library for the programs of the CS:APP labs.
--
-- The programs share no code, and each is a module of its own:
--
-- - Y86: the Y86-64 instruction simulator of labs/04-architecture/sim/misc. Y86/Memory.antt is the
-- memory and the register file of isa.c (get_byte_val, get_word_val, set_byte_val, set_word_val,
-- get_reg_val, set_reg_val); Y86/Alu.antt is compute_alu, compute_cc and cond_holds; Y86/Machine.antt
-- has the state and the instruction, Machine/Fetch.antt and Machine/Execute.antt are the two halves of
-- step_state, one function for each case of its switch, and Machine/Run.antt is the loop of yis.c.
-- Y86/ObjectFile.antt is load_mem, and ObjectFile/Printing.antt the function of yas.c that prints what it
-- loads; Y86/Differences.antt is copy_state and diff_state with what they call; Y86/Names.antt has the
-- tables of registers and instructions and the look-up in them; Y86/Assembler.antt has the symbol
-- table and the operands of yas.c (get_reg, get_num, get_mem); Y86/Copying.antt is ncopy of
-- ../pipe/ncopy.c. Y86/Seq.antt is the simulator of the sequential processor, ../seq/ssim.c:
-- Seq/Control.antt has the signals that seq-std.hcl and seq-full.hcl describe, Seq/Step.antt is
-- update_state, sim_step and sim_run, and Seq/Check.antt the comparison of run_tty_sim with isa.c.
-- - CacheSim: the cache simulator of labs/05-cache. CacheSim/Params.antt is setup_params of params.c,
-- CacheSim/Sets.antt is init_cache and access_cache of cache.c, and CacheSim/Runs.antt is
-- handle_entry and the loop of run of csim.c.
-- - Shell: labs/07-shell/tsh.c. Shell/Jobs.antt is the job table with its operations, and
-- Shell/Control.antt is what changes it: reap_child, wait_childs, do_bgfg and the signal handlers.
-- Shell/Lines.antt is parseline, and Shell/Eval.antt is eval with builtin_cmd, what do_bgfg does with
-- its argument, and waitfg. Shell/Histories.antt puts these calls one after the other, as a relation
-- of steps on the table.
-- - Proxy: labs/09-proxy. Proxy/Cache.antt is the list of cached objects of cache.c, Proxy/Queue.antt the
-- buffer of sbuf.c, by one thread and, in Queue/Threads.antt, as steps of many, and Proxy/Requests.antt
-- the parsing of a request and the headers that forward_request of proxy.c sends on, and
-- Proxy/Responses.antt what its forward_response puts into the cache.
-- - Malloc: labs/08-malloc. Malloc/Heap.antt is the heap of memlib.c, and Malloc/Ranges.antt the list by
-- which mdriver.c checks that payloads do not overlap; Ranges/Histories.antt puts their calls one after
-- the other.
-- - DataLab: labs/01-data. DataLab/Puzzles.antt has puzzles of bits.c, DataLab/Answers.antt what tests.c
-- compares the integer ones with; DataLab/Floats.antt says which number a floating-point pattern is.
-- - Transpose: the transposes of labs/05-cache/trans.c, trans_32 and trans_odds, on two arrays that do not
-- overlap, so that a write to B leaves A.
-- - Base: lists, sums over lists, C strings as their bytes, integers and machine words, for all of them.
--
-- State is a record that each operation takes and returns. A machine word is a natural number below
-- 2 ^ 64 and a signed test reads its top bit; arithmetic that wraps has `% 2 ^ 64` written out. An
-- access outside an array is a value of its own (`fault`, and `crash` for a step), so that the absence
-- of one can be stated. A pointer into the job table is an index.
--
-- The loops of yis.c and of sim_run take the most steps that its command line allows, so their recursion needs no other
-- fuel. The two loops of cache_bookkeeping share one: as much as one for each entry and, on top, the
-- rounds by which its patience is below 1, is enough. The loop of parseline has the number of bytes,
-- and diff_mem the number of words and one; the loop of ncopy has its length. The loops of trans.c have as
-- much as their upper bound, since each round adds at least 1. All other loops go over
-- lists or a fixed number of rounds. setup_params shifts an `int`, which is 2 ^ s for fewer than 31 index
-- bits; a shift by the width or more is undefined and is no case of the model. The counts of csim.c are `int`s, and the bound on a trace
-- keeps them below 2 ^ 31.
--
-- Not modelled: printing, except for the messages of the shell, which are events, and the lines of an
-- object file; reading of options, traces and command lines; signals, processes, sockets and threads as
-- such, of which only the calls that the programs make are events or steps, and the statuses that they
-- are given are arguments; strtol, which is a parameter of eval; the error responses of the proxy; the remaining
-- labs (howManyBits of the data lab, the pipelined simulator, the passes of the assembler, trans_64 and the
-- performance kernels, the allocator itself); and code that is generated or copied from the book.
pub mod Base
pub mod CacheSim
pub mod DataLab
pub mod Malloc
pub mod Proxy
pub mod Shell
pub mod Transpose
pub mod Y86
