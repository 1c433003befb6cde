-- ===== src/Miner/Stratum/Pointers.antt =====
-- Proofs on the pointers of the generators that the coordinator gives to the hasher
-- (src/miner/device_pool.cpp).
use janusminer.Common.{
  ℕ, ◌+◌, ◌≡◌, arith, refl, ap, sym, inl, inr, Option-cases, Option, none, some, List, [], ◌∷◌,
  ◌++◌, length, set, length-append, length-set,
}
use janusminer.Miner.Stratum.{StratumJobData, Store, make_difficulty, make_extranonce}
use janusminer.Miner.Stratum.Session.{
  StratumConnectionData, Event, mining_notify, set_difficulty, connection_start, subscribed,
  connection_end, Coordinator, clear, initial, generator_args, update_notify, update_difficulty,
  assign_if_any, handle_event, handle_all,
}
use janusminer.Miner.Stratum.Live.{
  Points-mono, WorkIsReady, WorkIsReady-mono, Grows, IsWorking, assigned-IsWorking,
}
use mathlib.Core.Path.{subst}

-- The connection with the first difficulty.
abbrev with_pointer : StratumConnectionData → ℕ → StratumConnectionData
with_pointer c p = record c { jobdata = record c.jobdata { difficulty = some p } }

module _ {ℓ} {D : Type ℓ} where
  update_difficulty_first :
      (st : Store D) (c : StratumConnectionData) (d : D)
      → c.jobdata.difficulty ≡ none
      → let c' = with_pointer c (length st.difficulties) in
        update_difficulty st c d
        ≡ (generator_args c', c', record st { difficulties = st.difficulties ++ d ∷ [] })
  unfolding update_difficulty make_difficulty
  update_difficulty_first st c d e = rw e refl

  update_difficulty_again :
      (st : Store D) (c : StratumConnectionData) (d : D) (p : ℕ)
      → c.jobdata.difficulty ≡ some p
      → update_difficulty st c d ≡ (none, c, record st { difficulties = set st.difficulties p d })
  unfolding update_difficulty
  update_difficulty_again st c d p e =
      ap
        (λ o. elim o [
          | some p ↦ (none, c, record st { difficulties = set st.difficulties p d })
          | none ↦
              let c' = with_pointer c (length st.difficulties) in
              (generator_args c', c', record st { difficulties = st.difficulties ++ d ∷ [] })
        ])
        e

  -- The coordinator after an update, which hands over the generator that comes of it, if one does.
  abbrev updated :
      Coordinator D → Option StratumJobData × StratumConnectionData × Store D → Coordinator D
  updated m u = assign_if_any (record m { store = u.2; connection = u.1 }) u.0

  handle_event-IsWorking :
      (m : Coordinator D) (e : Event D) → IsWorking m → IsWorking (handle_event m e)
  unfolding handle_event update_notify make_extranonce clear
  handle_event-IsWorking m (mining_notify n) w =
      let k = length m.store.extranonces in
      let more : length (m.store.extranonces ++ 0 ∷ []) ≡ k + 1 =
        length-append m.store.extranonces (0 ∷ []) in
      let st' : Store D = record m.store { extranonces = m.store.extranonces ++ 0 ∷ [] } in
      let g : Grows m.store st' = record {
        difficulties = omega arith;
        extranonces = omega (arith, more);
      } in
      assigned-IsWorking
        (record m { connection = (update_notify m.store m.connection n).1; store = st' })
        (record { difficulty = w.live.difficulty; notified = (k, refl, omega (arith, more)) })
        (WorkIsReady-mono m.store st' m.work g w.ready)
  handle_event-IsWorking m (set_difficulty d) w =
      elim (Option-cases m.connection.jobdata.difficulty) [
        | inl e ↦
            let k = length m.store.difficulties in
            let more : length (m.store.difficulties ++ d ∷ []) ≡ k + 1 =
              length-append m.store.difficulties (d ∷ []) in
            let st' : Store D = record m.store { difficulties = m.store.difficulties ++ d ∷ [] } in
            let g : Grows m.store st' = record {
              difficulties = omega (arith, more);
              extranonces = omega arith;
            } in
            subst (λ u. IsWorking (updated m u))
              (sym (update_difficulty_first m.store m.connection d e))
              (assigned-IsWorking
                (record m { connection = with_pointer m.connection k; store = st' })
                (record { difficulty = omega (arith, more); notified = w.live.notified })
                (WorkIsReady-mono m.store st' m.work g w.ready))
        | inr f ↦
            let same : length (set m.store.difficulties f.0 d) ≡ length m.store.difficulties =
              length-set m.store.difficulties f.0 d in
            let st' : Store D = record m.store { difficulties = set m.store.difficulties f.0 d } in
            let g : Grows m.store st' = record {
              difficulties = omega (arith, same);
              extranonces = omega arith;
            } in
            subst (λ u. IsWorking (updated m u))
              (sym (update_difficulty_again m.store m.connection d f.0 f.1))
              (record {
                live = record {
                  difficulty =
                      Points-mono m.connection.jobdata.difficulty (length m.store.difficulties)
                        (length st'.difficulties) g.difficulties w.live.difficulty;
                  notified = w.live.notified;
                };
                ready = WorkIsReady-mono m.store st' m.work g w.ready;
              })
      ]
  handle_event-IsWorking m (connection_start id) w = record {
    live = record { difficulty = tt; notified = tt };
    ready = w.ready;
  }
  handle_event-IsWorking m (subscribed s) w = record {
    live = record { difficulty = w.live.difficulty; notified = w.live.notified };
    ready = w.ready;
  }
  handle_event-IsWorking m (connection_end id) w = record {
    live = record { difficulty = tt; notified = tt };
    ready = w.ready;
  }

  handle_all-IsWorking :
      (m : Coordinator D) (es : List (Event D)) → IsWorking m → IsWorking (handle_all m es)
  unfolding handle_all
  handle_all-IsWorking m [] w = w
  handle_all-IsWorking m (e ∷ es) w =
      handle_all-IsWorking (handle_event m e) es (handle_event-IsWorking m e w)

  -- Whatever events have come from the pool, in whatever order, a generator that the hasher has
  -- points to a difficulty and an extranonce that exist.
  pub handle_all_lem :
      (es : List (Event D)) → let m = handle_all initial es in WorkIsReady m.store m.work
  unfolding initial clear
  handle_all_lem es =
      (handle_all-IsWorking initial es
        (record { live = record { difficulty = tt; notified = tt }; ready = tt })).ready
