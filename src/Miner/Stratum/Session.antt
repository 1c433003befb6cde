-- ===== src/Miner/Stratum/Session.antt =====
-- `StratumConnectionData` and what `MiningCoordinator` does on the events of a stratum connection
-- (src/miner/device_pool.{hpp,cpp}). The generator that the GPU hasher has is `work`.
use janusminer.Common.{ℕ, ◌+◌, Option, none, some, List, [], ◌∷◌, set, if◌then◌else◌}
use janusminer.Miner.Stratum.{
  MiningNotify, Subscription, StratumJobDataBase, StratumJobData, Store, make_difficulty,
  make_extranonce,
}

pub record StratumConnectionData : Type 0 where
  pub jobdata : StratumJobDataBase
  pub notify : Option MiningNotify
  pub subscription : Option Subscription

-- `*this = {}` and the id.
unfoldable pub clear : ℕ → StratumConnectionData
clear connection_id = record {
  jobdata = record {
    difficulty = none;
    extranonce = none;
    clean_index = 0;
    connection_id = connection_id;
  };
  notify = none;
  subscription = none;
}

unfoldable pub generator_args : StratumConnectionData → Option StratumJobData
generator_args c = elim c.jobdata.difficulty [
  | none ↦ none
  | some _ ↦ elim c.notify [
    | none ↦ none
    | some n ↦ elim c.subscription [
      | none ↦ none
      | some s ↦ some (record { base = c.jobdata; notify = n; subscription = s })
    ]
  ]
]

pub data Event {ℓ} (D : Type ℓ) : Type ℓ where
  mining_notify : MiningNotify → Event D
  set_difficulty : D → Event D
  connection_start : ℕ → Event D
  subscribed : Subscription → Event D
  connection_end : ℕ → Event D

pub record Coordinator {ℓ} (D : Type ℓ) : Type ℓ where
  pub store : Store D
  pub connection : StratumConnectionData
  pub clean_index : ℕ
  pub pool_clean_index : ℕ
  pub work : Option StratumJobData

module _ {ℓ} {D : Type ℓ} where
  unfoldable pub initial : Coordinator D
  unfolding clear
  initial = record {
    store = record { difficulties = []; extranonces = [] };
    connection = clear 0;
    clean_index = 0;
    pool_clean_index = 0;
    work = none;
  }

  unfoldable pub update_notify :
      Store D
      → StratumConnectionData
      → MiningNotify
      → Option StratumJobData × StratumConnectionData × Store D
  unfolding make_extranonce generator_args
  update_notify st c n =
      let index = if n.clean then c.jobdata.clean_index + 1 else c.jobdata.clean_index in
      let (p, st') = make_extranonce st 0 in
      let c' : StratumConnectionData = record c {
        jobdata = record c.jobdata { clean_index = index; extranonce = some p };
        notify = some n;
      } in
      (generator_args c', c', st')

  unfoldable pub update_difficulty :
      Store D → StratumConnectionData → D → Option StratumJobData × StratumConnectionData × Store D
  unfolding make_difficulty generator_args
  update_difficulty st c d = elim c.jobdata.difficulty [
    | some p ↦ (none, c, record st { difficulties = set st.difficulties p d })
    | none ↦
        let (p, st') = make_difficulty st d in
        let c' : StratumConnectionData = record c {
          jobdata = record c.jobdata { difficulty = some p };
        } in
        (generator_args c', c', st')
  ]

  unfoldable pub assign_work : Coordinator D → StratumJobData → Coordinator D
  assign_work m sj =
      if sj.notify.clean
      then record m {
        clean_index = sj.base.clean_index;
        pool_clean_index = sj.base.clean_index;
        work = some sj;
      }
      else record m { work = some sj }

  abbrev pub assign_if_any : Coordinator D → Option StratumJobData → Coordinator D
  assign_if_any m none = m
  assign_if_any m (some sj) = assign_work m sj

  unfoldable pub handle_event : Coordinator D → Event D → Coordinator D
  unfolding update_notify update_difficulty assign_work clear
  handle_event m (mining_notify n) =
      let (args, c, st) = update_notify m.store m.connection n in
      assign_if_any (record m { connection = c; store = st }) args
  handle_event m (set_difficulty d) =
      let (args, c, st) = update_difficulty m.store m.connection d in
      assign_if_any (record m { connection = c; store = st }) args
  handle_event m (connection_start id) = record m { connection = clear id }
  handle_event m (subscribed s) = record m {
    connection = record m.connection { subscription = some s };
  }
  handle_event m (connection_end id) = record m { connection = clear 0 }

  unfoldable pub handle_all : Coordinator D → List (Event D) → Coordinator D
  unfolding handle_event
  handle_all m [] = m
  handle_all m (e ∷ es) = handle_all (handle_event m e) es
