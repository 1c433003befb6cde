-- ===== src/Miner/Tests.antt =====
-- Inputs of the queues, the nonces, the rates and the stratum connection.
use janusminer.Common.{
  ℕ, ◌+◌, ◌-◌, ◌%◌, ◌^◌, ◌≡◌, ◌≢◌, ◌<◌, ◌⊎◌, arith, refl, true, false, Option, none, some, List, [],
  ◌∷◌, ◌++◌, length, get_elem?, set, replicate, u32, length-replicate,
}
use janusminer.Miner.CyclicQueue.{Queue, Buffer, alloc, free, available}
use janusminer.Miner.CyclicQueue.Alloc.{Outcome, alloc-Outcome, alloc_refused}
use janusminer.Miner.JobQueue.{Job, JobQueue, WorkerJob, push, pop}
use janusminer.Miner.JobQueue.Fifo.{total_size, IsValid}
use janusminer.Miner.JobQueue.Push.{
  Call, pushes, pops, Ledger, run, IsBalanced, opening, opening-IsBalanced, run-IsBalanced,
}
use janusminer.Miner.NonceTracker.{make_tracker}
use janusminer.Miner.NonceTracker.Cover.{nonces, request_all, handed_out_lem}
use janusminer.Miner.Rates.{PerSecond}
use janusminer.Miner.Rates.Efficiency
use janusminer.Miner.Rates.AllCount
use janusminer.Miner.Rates.Samples.{IsConsistent, push-IsConsistent}
use janusminer.Miner.Rates.Window.{suffix}
use janusminer.Miner.Rates.Reports.{present, given, IsCounting, totals, set_timing_lem}
use janusminer.Miner.Stratum.{MiningNotify, Subscription, StratumJobData, Store}
use janusminer.Miner.Stratum.Session.{
  Event, mining_notify, set_difficulty, connection_start, subscribed, initial, handle_all,
}
use janusminer.Miner.Stratum.Job.{
  StratumJob, generate_jobs, gen_header, gen_merkle_root, submission,
}
use janusminer.Miner.Stratum.Live.{WorkIsReady}
use janusminer.Miner.Stratum.Pointers.{handle_all_lem}
use janusminer.Miner.Stratum.Extranonce.{generate_jobs_distinct}
use janusminer.Miner.Stratum.HeaderBytes.{submission-gen_header}

-- A ring of 100 elements, of which those from 60 on and those up to 20 are free.
abbrev ring : Queue
ring = record {
  size = 100;
  i0 = 60;
  i1 = 20;
  has_space = true;
  failed_alloc = false;
  callbacks = 0;
  buffers = [];
}

alloc-Outcome_example : (r : Option Buffer × Queue) × (alloc ring 51 ≡ some r) × Outcome ring 51 r
alloc-Outcome_example = alloc-Outcome ring 51 (omega arith) refl (omega arith)

abbrev full_ring : Queue
full_ring = record {
  size = 100;
  i0 = 60;
  i1 = 60;
  has_space = false;
  failed_alloc = false;
  callbacks = 0;
  buffers = [];
}

alloc_refused_example :
    (0 < available (free full_ring 30))
    × (alloc (free full_ring 30) 11
        ≡ some (none, record (free full_ring 30) { failed_alloc = true }))
alloc_refused_example =
    alloc_refused full_ring 30 11 (omega arith) refl refl (omega arith) (omega arith) refl
      (omega arith)

abbrev job_a : Job
job_a = record { label = 1; clean_index = 0; size = 3 }

abbrev job_b : Job
job_b = record { label = 2; clean_index = 0; size = 4 }

abbrev calls : List Call
calls = pushes job_a ∷ pops 2 ∷ pushes job_b ∷ pops 9 ∷ pops 1 ∷ []

run-IsBalanced_example : (l' : Ledger) × (run opening calls ≡ some l') × IsBalanced l'
unfolding janusminer.Miner.JobQueue.initial
run-IsBalanced_example = run-IsBalanced opening calls opening-IsBalanced (omega arith) (omega arith)

-- Two jobs wait, of the first of which one candidate is gone.
abbrev two_jobs : JobQueue
two_jobs = record {
  fresh = false;
  hashrate = none;
  clean_index = 0;
  cursor = 1;
  queue = job_a ∷ job_b ∷ [];
  watermark = 6;
}

two_jobs-IsValid : IsValid two_jobs
unfolding total_size
two_jobs-IsValid = record { sizes = omega arith; front = omega arith; level = refl }

abbrev requests : List ℕ
requests = 1000 ∷ 4294967295 ∷ 7 ∷ []

handed_out_lem_example :
    let (l, t) = request_all (make_tracker Job job_a 4294967290) requests in
    l ++ nonces t.offset t.remaining ≡ nonces 4294967290 ((u32 - 1) + 1)
handed_out_lem_example = handed_out_lem job_a 4294967290 requests (omega arith) (omega arith)

abbrev rates : List ℕ
rates = 1 ∷ 2 ∷ 3 ∷ 4 ∷ 5 ∷ 6 ∷ 7 ∷ 8 ∷ 9 ∷ 10 ∷ 11 ∷ []

abbrev rate : PerSecond
rate = record { total = 7; considered = 3 }

-- One sample.
abbrev one_sample : Efficiency.State
one_sample = record { sumcs = 3; sumtt = 7; a = 49; b = 21; d = 9; deque = rate ∷ [] }

one_sample-IsConsistent : IsConsistent one_sample
one_sample-IsConsistent = record {
  considered = refl;
  total = refl;
  total_squared = refl;
  mixed = refl;
  considered_squared = refl;
}

abbrev other_rate : PerSecond
other_rate = record { total = 20; considered = 5 }

push-IsConsistent_example :
    (s' : Efficiency.State) × (Efficiency.push one_sample other_rate ≡ some s')
    × IsConsistent s'
    × (s'.deque ≡ suffix 10 (one_sample.deque ++ other_rate ∷ []))
push-IsConsistent_example =
    push-IsConsistent one_sample other_rate one_sample-IsConsistent (omega arith)

-- Two workers, of which the second has given a rate.
abbrev half_round : AllCount.State
half_round = record { count = 1; fresh = true; bv = none ∷ some rate ∷ [] }

set_timing_lem_example :
    (s' : AllCount.State) × IsCounting s'
    × (((present half_round.bv + 1 < length half_round.bv)
          × (AllCount.set_timing (λ a b. a + b) half_round 0 other_rate ≡ some (none, s'))
          × (s'.bv ≡ set half_round.bv 0 (some other_rate)))
        ⊎ ((present half_round.bv + 1 ≡ length half_round.bv)
            × (AllCount.set_timing (λ a b. a + b) half_round 0 other_rate
                ≡ some (
                  some (
                    half_round.fresh,
                    totals
                        (λ a b. a + b)
                        (λ a b h. refl)
                        (given (set half_round.bv 0 (some other_rate))),
                  ),
                  s',
                ))
            × (s'.fresh ≡ false)
            × (present s'.bv ≡ 0)))
set_timing_lem_example =
    set_timing_lem (λ a b. a + b) (λ a b h. refl) half_round 0 other_rate
      (record { counted = refl; incomplete = omega arith }) refl (omega arith) (omega arith)

abbrev notification : MiningNotify
notification = record {
  job_id = 1 ∷ [];
  prev_hash = replicate 32 1;
  merkle_prefix = replicate 8 2;
  nversion = replicate 4 3;
  nbits = replicate 4 4;
  ntime = replicate 4 5;
  clean = true;
}

abbrev subscription_data : Subscription
subscription_data = record { extranonce1 = 9 ∷ []; extranonce2size = 4 }

abbrev pool_events : List (Event ℕ)
pool_events =
    connection_start 1
    ∷ subscribed subscription_data
    ∷ set_difficulty 5
    ∷ mining_notify notification
    ∷ []

handle_all_lem_example : let m = handle_all initial pool_events in WorkIsReady m.store m.work
handle_all_lem_example = handle_all_lem pool_events

abbrev objects : Store ℕ
objects = record { difficulties = 5 ∷ []; extranonces = 4294967295 ∷ [] }

abbrev job_data : StratumJobData
job_data = record {
  base = record { difficulty = some 0; extranonce = some 0; clean_index = 1; connection_id = 1 };
  notify = notification;
  subscription = subscription_data;
}

-- In place of SHA256: the 32 bytes are the length.
abbrev length_hash : List ℕ → List ℕ
length_hash l = replicate 32 (length l % 2 ^ 8)

generate_jobs_distinct_example :
    (js : List (StratumJob ℕ)) × (a : StratumJob ℕ) × (b : StratumJob ℕ) × (generate_jobs
        length_hash 3
        (replicate 76 0)
        objects
        job_data
      ≡ some js)
    × (get_elem? js 0 ≡ some a)
    × (get_elem? js 2 ≡ some b)
    × (a.extra2 ≢ b.extra2)
generate_jobs_distinct_example =
    generate_jobs_distinct length_hash 3 (replicate 76 0) objects job_data 4294967295 0 2
      (omega arith) (omega arith)
      (record {
        difficulty = 0;
        has_difficulty = refl;
        difficulty_fits = omega arith;
        extranonce = 0;
        has_extranonce = refl;
        counter = refl;
        size = refl;
      })
      (omega arith) (omega arith)

abbrev some_job : StratumJob ℕ
some_job = record {
  job_id = 1 ∷ [];
  clean_index = 1;
  target_difficulty = 5;
  difficulty = 0;
  extra2 = 0 ∷ 0 ∷ 0 ∷ 7 ∷ [];
  header = gen_header length_hash (replicate 76 0) job_data (0 ∷ 0 ∷ 0 ∷ 7 ∷ []);
}

submission-gen_header_example :
    let n = job_data.notify in
    let root = gen_merkle_root length_hash job_data some_job.extra2 in
    (some_job.header ≡ n.prev_hash ++ n.nbits ++ root ++ n.nversion ++ n.ntime)
    × (submission some_job (replicate 4 8) ≡ record {
      job_id = some_job.job_id;
      extra2 = some_job.extra2;
      time = n.ntime;
      nonce = replicate 4 8;
    })
submission-gen_header_example =
    submission-gen_header length_hash (λ l. length-replicate 32 (length l % 2 ^ 8)) (replicate 76 0)
      job_data some_job (replicate 4 8) refl
      (record { prev_hash = refl; nbits = refl; nversion = refl; ntime = refl }) refl
