-- ===== src/Miner/Stratum.antt =====
-- src/miner/stratum/messages.hpp and the data that stratum jobs share (src/miner/stratum/job.hpp). A
-- byte is a number, a text a list of bytes, and a `double` an element of a type `D`. The objects behind
-- the `std::shared_ptr`s are in a store, and a pointer is its index there.
pub mod Session
pub mod Job
pub mod Live
pub mod Pointers
pub mod Extranonce
pub mod HeaderBytes
use janusminer.Common.{ℕ, zero, suc, ◌+◌, Bool, Option, none, some, List, [], ◌∷◌, ◌++◌, length}

-- `Mining_Notify`.
pub record MiningNotify : Type 0 where
  pub job_id : List ℕ
  pub prev_hash : List ℕ
  pub merkle_prefix : List ℕ
  pub nversion : List ℕ
  pub nbits : List ℕ
  pub ntime : List ℕ
  pub clean : Bool

pub record Subscription : Type 0 where
  pub extranonce1 : List ℕ
  pub extranonce2size : ℕ

pub record Submission : Type 0 where
  pub job_id : List ℕ
  pub extra2 : List ℕ
  pub time : List ℕ
  pub nonce : List ℕ

pub record StratumJobDataBase : Type 0 where
  pub difficulty : Option ℕ
  pub extranonce : Option ℕ
  pub clean_index : ℕ
  pub connection_id : ℕ

pub record StratumJobData : Type 0 where
  pub base : StratumJobDataBase
  pub notify : MiningNotify
  pub subscription : Subscription

pub record Store {ℓ} (D : Type ℓ) : Type ℓ where
  pub difficulties : List D
  pub extranonces : List ℕ

module _ {ℓ} {D : Type ℓ} where
  -- `std::make_shared` gives the pointer and the store with the object.
  unfoldable pub make_difficulty : Store D → D → ℕ × Store D
  make_difficulty s d =
      (length s.difficulties, record s { difficulties = s.difficulties ++ d ∷ [] })

  unfoldable pub make_extranonce : Store D → ℕ → ℕ × Store D
  make_extranonce s n = (length s.extranonces, record s { extranonces = s.extranonces ++ n ∷ [] })
