-- ===== src/Lib.antt =====
-- A verification library for Janusminer, a miner for Janushash: a proof of work that multiplies a
-- triple SHA-256, computed by GPUs, with a VerusHash, computed by CPU threads.
--
-- The parts, from the repository's root, and the files that model them:
--   src/shared/src/general: General/ByteOrder (byte_order.hpp), General/Reader and General/Writer
--     (reader.hpp, writer.hpp), General/Hex (hex.{hpp,cpp}), General/Funds with General/Decimal
--     (funds.{hpp,cpp}), General/CompactUint (compact_uint.{hpp,cpp}).
--   src/shared/src/block: Chain/Height (chain/height.{hpp,cpp}, ../general/params.hpp), Chain/Worksum
--     (chain/worksum.{hpp,cpp}), Chain/Target (header/difficulty{_declaration,}.hpp), Chain/Digest
--     (header/hash_exponential_request.hpp), Chain/CustomFloat (header/custom_float.hpp),
--     Chain/PinNonce (body/nonce.{hpp,cpp}), Chain/Body (body/view.{hpp,cpp}), Chain/Messages
--     (what is serialized: nonces, transaction ids, bodies, and the payments of
--     ../communication/create_payment.{hpp,cpp}).
--   src/miner: Miner/CyclicQueue (cyclic_queue.hpp), Miner/JobQueue (cpu/verus_job.{hpp,cpp}),
--     Miner/NonceTracker (gpu/opencl_hasher.{hpp,cpp}), Miner/Rates (cpu/efficiency_estimator.hpp,
--     verus_pool.hpp), Miner/Stratum (stratum/job.{hpp,cpp}, stratum/messages.hpp and the handlers of
--     device_pool.{hpp,cpp}), Miner/Candidates (verusopt/verus_clhash_opt.cpp from JanusMinerOpt on,
--     sha256t_results.hpp), Miner/Workers (cpu/verus_worker.{hpp,cpp}, verus_pool.{hpp,cpp}),
--     Miner/GpuRates (hashrate.hpp, the rates of gpu/opencl_hasher.{hpp,cpp}),
--     Miner/GpuRunner (the threshold and the JobLock of gpu/opencl_hasher.hpp).
-- Common holds what they share. A file below a part's file has its proofs or a piece of it.
--
-- How they interact: the coordinator (Miner/Stratum/Session) turns what the pool sends into a
-- generator of jobs (Miner/Stratum/Job); a GPU draws a job and hands out its nonces
-- (Miner/NonceTracker); the results lie in a ring in memory (Miner/CyclicQueue) and wait for the CPU
-- in a queue (Miner/JobQueue), from which workers take batches and report their rates
-- (Miner/Rates, Miner/Workers); the product of hashes that a worker compares with the target
-- (Miner/Candidates) is a software float (Chain/CustomFloat). A block is measured against its target
-- by Chain/Digest and Chain/Target.
--
-- Conventions. Numbers are native and a machine word's wrap-around is written out (`% 2 ^ w`); a
-- byte is a number, a text or an array a list of them. `none` is a failed assertion, an exception or a
-- null pointer, as each file says; a type of its own where there is more to tell. Objects behind
-- shared pointers are in a store where they are changed through one (Miner/Stratum).
--
-- Fuel: the loops of `merkle_loop`, `pop_loop`, `normalize` and those of the compact amounts run on
-- fuel. Each round of `pop_loop` but the last takes a job from the queue, so one more than the
-- jobs is enough; a round of `merkle_loop` halves the hashes, so one more than the hashes is enough;
-- the other loops, also `shift_right_loop` and `shift_left_loop`, shift a word and take at most its
-- width.
--
-- Parameters: SHA-256, the signatures of libsecp256k1, the job type and `generate_job` of the GPU's
-- parent, the VerusHash of a header with a nonce (that of the loop over candidates and the one that
-- it is asserted to be), the scaling of a threshold or a batch by a `double`, and the sum of `size_t`
-- and `double`, with what is documented of them as hypotheses.
--
-- Not modelled: floating-point arithmetic (the targets made from a `double`, the Janusscore), the
-- conversions of custom_float.hpp, VerusHash and the GPU kernels, network and HTTP, the command
-- line, logging, and the locks: each operation is one step, as under its mutex. In Miner/Workers the
-- steps of several threads come in any order.
pub mod Common
pub mod General
pub mod Chain
pub mod Miner
