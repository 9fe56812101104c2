-- ===== src/Lib.antt =====
-- A verification library for the parallel transaction simulator: a load generator (main.c) makes
-- signed transactions in batches on several threads and sends them over ZeroMQ to a receiver
-- (src/receiver.c), which answers each batch with the numbers of accepted and rejected transactions.
--
-- Files and the code that they model:
-- - Prelude: lists under native indices, C's block copy, bytes, words and bitwise operations, tests.
-- - Common: src/common.c. Hex (bytes_to_hex, hex_to_bytes and their buffer versions), Compare
--   (compare_bytes, is_zero, count_leading_zeros, and memcmp as the macros use it), Hash (hash160,
--   sha256_truncated, sha256_multi, blake3_hash), Strings (safe_strcpy, starts_with, trim), Benchmark
--   (the counters, as a state that each call changes, and Report, over an abstract `double`), Log (the log and the allocators).
--   OpenSSL's digests are the record `OpenSsl` with the laws `IsOpenSsl`, the digests' lengths.
-- - Blake3: src/blake3.c and include/blake3.h. Words (load32_le, store32_le, rotr32), Compress (g,
--   round_fn, compress), Chunk (the chunk state; Blocks goes over
--   its blocks alone), Hasher (init, update, finalize and the one-shot
--   forms; Stack is the stack of chaining values, Depth its bound, Tree the tree it
--   computes, Pieces input that comes in several updates). Absorb is
--   the loop that chunk_state_update and blake3_hasher_update share: make room when the buffer is full,
--   then copy what fits. It runs on fuel, one more than the length of the input, and Absorb/Laws shows
--   that each turn takes at least one byte, so that the fuel is enough. Stack memory that is read
--   before it is written is an argument `memory`.
-- - Wallet: include/wallet.h and src/wallet.c. Address (parsing, printing, comparison), Keys (creation
--   of wallets and the nonce counter), Sign (wallet_sign, wallet_verify), Files (wallet_save, wallet_load on
--   files without a byte 0; the loop over the lines runs on fuel, the length of the file, since each
--   line has a byte at least; strtoull and the text of "%lu" are arguments).
-- - Transaction: src/transaction.c and include/transaction.h. Layout (the packed struct, the hashed
--   bytes, the legacy hex form), Sign (transaction_sign and the constructors), Wire (the protobuf
--   form, where a copy out of bounds leaves no array of a transaction), Destroy. OpenSSL's signer is
--   a function from a key and a message to the way in which signing ends.
-- - Proto: the two messages of proto/blockchain.proto. The generated packers are the record
--   `Protobuf` with the laws `IsProtobuf`: unpacking gives back what was packed, in bounded space.
-- - Receiver: src/receiver.c, one function for an iteration of its loop; Serve is main, with the
--   loop seen after any number of messages.
-- - Generator: main.c. Generator holds the options and the division into batches, Generator/Batch
--   what a thread does with a batch (Batch/Distinct compares the transactions
--   of a job), Generator/Exchange how it sends a batch and waits for the answer,
--   with ZeroMQ's REQ socket as the record `Req` and the rules of its manual as `IsReq`. An answer that
--   is longer than its buffer ends in the outcome `overran`.
-- - Schedule: main.c's loop under `omp for schedule(dynamic)`. A state of the loop says which batch is
--   next and which batch each thread holds; `Step` is one thread's move and `Run` a sequence of moves.
--   `Step` states what OpenMP documents of that schedule, which is no code of the program; the body of
--   the loop, with the receiver or without, is what it moves.
-- - Main: main.c's main, from the options to the exit code, with the wallets and sockets it acquires
--   and releases as a list of effects. Ledger, Wallets, Sockets and TearDown follow its parts,
--   Totals and Bounded are about the total that it reports.
-- - System: generator and receiver together; a run is the sequence in which the receiver takes the
--   batches, each with the thread that sends it. Credit is about the answer to any one message.
-- - Tests: runs at concrete inputs; Tests/Codec is a concrete `Protobuf` that has the laws.
--
-- Numbers are native naturals, with the wrap-around of uint8_t, uint32_t and uint64_t written out; a
-- signed option is an integer `ℤ`. A pointer that may be NULL is an `Option`; an allocation that may
-- fail is a Boolean argument where the code looks at its result.
--
-- Not modelled: format_timestamp of src/common.c, which only calls localtime and strftime, and the text
-- of the report's format; printing; the generated code of proto/.
pub mod Prelude
pub mod Common
pub mod Blake3
pub mod Proto
pub mod Wallet
pub mod Transaction
pub mod Receiver
pub mod Generator
pub mod System
pub mod Schedule
pub mod Main
pub mod Tests
