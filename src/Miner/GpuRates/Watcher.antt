-- ===== src/Miner/GpuRates/Watcher.antt =====
-- `HashrateWatcher` (src/miner/hashrate.hpp): its total against its snapshots.
use janusminer.Common.{
  ℕ, ◌+◌, ◌-◌, ◌%◌, ◌≡◌, ◌<◌, refl, arith, true, false, some, List, [], ◌∷◌, ◌++◌, u64, ltb, ◌==◌,
  Bool-cases, inl, inr, All, Returns, guard, ◌>>=◌, ◌>>◌,
}
use janusminer.Miner.GpuRates.{
  Snapshot, HashrateWatcher, prune_loop, prune, register_hashes, watcher_rate, rate,
}

abbrev pub hashes_of : List Snapshot → ℕ
hashes_of [] = 0
hashes_of (s ∷ ss) = s.hashes + hashes_of ss

-- The hashes of all snapshots but the first.
abbrev pub behind_first : List Snapshot → ℕ
behind_first [] = 0
behind_first (s ∷ ss) = hashes_of ss

pub record IsCounting (w : HashrateWatcher) : Type 0 where
  pub total : w.total_without_first ≡ behind_first w.snapshots
  pub small : hashes_of w.snapshots < u64

-- Every snapshot is from before a time.
abbrev pub AllBefore : ℕ → List Snapshot → Type 0
AllBefore now = All (λ s. s.time < now)

prune_loop_lem :
    (before now : ℕ) (ss : List Snapshot) (total : ℕ)
    → total ≡ behind_first ss
    → hashes_of ss < u64
    → AllBefore now ss
    → IsCounting (prune_loop before ss total) × AllBefore now (prune_loop before ss total).snapshots
unfolding prune_loop
prune_loop_lem before now [] total e small times = (record { total = e; small = small }, tt)
prune_loop_lem before now (s ∷ []) total e small times = elim (Bool-cases (ltb s.time before)) [
  | inl old ↦ rw old (record { total = e; small = omega arith }, tt)
  | inr new ↦ rw new (record { total = e; small = small }, times)
]
prune_loop_lem before now (s ∷ s' ∷ ss) total e small times =
    elim (Bool-cases (ltb s.time before)) [
      | inl old ↦ rw old (
          prune_loop_lem before now (s' ∷ ss) ((total + (u64 - s'.hashes)) % u64) (omega arith)
            (omega arith) times.1)
      | inr new ↦ rw new (record { total = e; small = small }, times)
    ]

hashes_of-append :
    (ss : List Snapshot) (s : Snapshot) → hashes_of (ss ++ s ∷ []) ≡ hashes_of ss + s.hashes
hashes_of-append [] s = omega arith
hashes_of-append (x ∷ ss) s = omega (arith, hashes_of-append ss s)

registered :
    (now n : ℕ) (ss : List Snapshot) (total : ℕ)
    → total ≡ behind_first ss
    → hashes_of ss + n < u64
    → IsCounting (register_hashes now n (record { snapshots = ss; total_without_first = total }))
unfolding register_hashes
registered now n [] total e room = record { total = e; small = omega arith }
registered now n (s ∷ ss) total e room = record {
  total = omega (arith, hashes_of-append ss (record { time = now; hashes = n }));
  small = omega (arith, hashes_of-append ss (record { time = now; hashes = n }));
}

abbrev pub CountsOn : ℕ × HashrateWatcher → Type 0
CountsOn (r, w) = IsCounting w

rated :
    (now : ℕ) (w : HashrateWatcher)
    → IsCounting w
    → AllBefore now w.snapshots
    → Returns CountsOn (elim (w.snapshots) [
      | s ∷ s' ∷ ss ↦ rate w.total_without_first (now - s.time) >>= λ r. some (r, w)
      | _ ↦ guard (w.total_without_first == 0) >> some (0, w)
    ])
unfolding rate
rated now w counting times = by_snapshots w.snapshots counting.total times
  where
    none_left : w.total_without_first ≡ 0 → (w.total_without_first == 0) ≡ true
    none_left e = ground arith

    by_snapshots :
        (ss : List Snapshot)
        → w.total_without_first ≡ behind_first ss
        → AllBefore now ss
        → Returns CountsOn (elim ss [
          | s ∷ s' ∷ ss' ↦ rate w.total_without_first (now - s.time) >>= λ r. some (r, w)
          | _ ↦ guard (w.total_without_first == 0) >> some (0, w)
        ])
    by_snapshots [] e t = rw (none_left e) (_, refl, counting)
    by_snapshots (s ∷ []) e t = rw (none_left e) (_, refl, counting)
    by_snapshots (s ∷ s' ∷ ss) e t = rw later (_, refl, counting)
      where
        later : (now - s.time == 0) ≡ false
        later = ground (arith, t.0)

-- For a watcher whose total is the sum of the hashes of all snapshots but the first, a
-- registration keeps it so if the sum of all stays below 2 ^ 64, and at a time after all snapshots
-- the rate fails no assert, divides by no 0 and keeps it so.
pub watcher_lem :
    (w : HashrateWatcher) (at n now : ℕ)
    → IsCounting w
    → hashes_of w.snapshots + n < u64
    → at < now
    → AllBefore now w.snapshots
    → IsCounting (register_hashes at n w) × Returns CountsOn (watcher_rate now w)
unfolding watcher_rate prune
watcher_lem w at n now counting room later times =
    let (pruned, times') =
      prune_loop_lem (now - 2000000000) now w.snapshots w.total_without_first counting.total
        counting.small times in
    (
      registered at n w.snapshots w.total_without_first counting.total room,
      rated now (prune_loop (now - 2000000000) w.snapshots w.total_without_first) pruned times',
    )
