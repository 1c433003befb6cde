-- ===== src/Miner/Stratum/Live.antt =====
-- What the pointers of a stratum connection and of the hasher's generator (src/miner/device_pool.cpp)
-- are worth, and how they last.
use janusminer.Common.{
  ℕ, ◌≡◌, ◌<◌, ◌≤◌, arith, refl, sym, Bool, true, false, Option, none, some, length, if◌then◌else◌,
}
use janusminer.Miner.Stratum.{MiningNotify, Subscription, StratumJobData, Store}
use janusminer.Miner.Stratum.Session.{
  StratumConnectionData, Coordinator, generator_args, assign_work, assign_if_any,
}
use mathlib.Core.Path.{subst}

-- Both branches have what the whole has.
if_both {ℓ κ} :
    {A : Type ℓ} (P : A → Type κ) (b : Bool) (x y : A) → P x → P y → P (if b then x else y)
if_both P true x y p q = p
if_both P false x y p q = q

-- A pointer, if there is one, to one of `n` objects.
abbrev pub Points : Option ℕ → ℕ → Type 0
Points none n = Unit
Points (some p) n = p < n

-- A pointer to one of `n` objects.
abbrev pub IsPointer : Option ℕ → ℕ → Type 0
IsPointer o n = (p : ℕ) × (o ≡ some p) × (p < n)

pub record IsReady {ℓ} {D : Type ℓ} (st : Store D) (data' : StratumJobData) : Type 0 where
  pub difficulty : IsPointer data'.base.difficulty (length st.difficulties)
  pub extranonce : IsPointer data'.base.extranonce (length st.extranonces)

-- The generator, if the hasher has one, is ready.
abbrev pub WorkIsReady {ℓ} : {D : Type ℓ} → Store D → Option StratumJobData → Type 0
WorkIsReady st none = Unit
WorkIsReady st (some sj) = IsReady st sj

abbrev pub NotifiedHas : Option MiningNotify → Option ℕ → ℕ → Type 0
NotifiedHas none o n = Unit
NotifiedHas (some _) o n = IsPointer o n

pub record IsLive {ℓ} {D : Type ℓ} (st : Store D) (c : StratumConnectionData) : Type 0 where
  pub difficulty : Points c.jobdata.difficulty (length st.difficulties)
  pub notified : NotifiedHas c.notify c.jobdata.extranonce (length st.extranonces)

pub Points-mono : (o : Option ℕ) (m n : ℕ) → m ≤ n → Points o m → Points o n
Points-mono none m n h p = tt
Points-mono (some q) m n h p = omega arith

IsPointer-mono : (o : Option ℕ) (m n : ℕ) → m ≤ n → IsPointer o m → IsPointer o n
IsPointer-mono o m n h p = (p.0, p.1, omega (arith, p.2))

NotifiedHas-mono :
    (k : Option MiningNotify) (o : Option ℕ) (m n : ℕ)
    → m ≤ n
    → NotifiedHas k o m
    → NotifiedHas k o n
NotifiedHas-mono none o m n h p = tt
NotifiedHas-mono (some _) o m n h p = IsPointer-mono o m n h p

module _ {ℓ} {D : Type ℓ} where
  -- No object goes away.
  pub record Grows (st st' : Store D) : Type 0 where
    pub difficulties : length st.difficulties ≤ length st'.difficulties
    pub extranonces : length st.extranonces ≤ length st'.extranonces

  pub WorkIsReady-mono :
      (st st' : Store D) (w : Option StratumJobData)
      → Grows st st'
      → WorkIsReady st w
      → WorkIsReady st' w
  WorkIsReady-mono st st' none g r = tt
  WorkIsReady-mono st st' (some sj) g r = record {
    difficulty =
        IsPointer-mono sj.base.difficulty (length st.difficulties) (length st'.difficulties)
          g.difficulties r.difficulty;
    extranonce =
        IsPointer-mono sj.base.extranonce (length st.extranonces) (length st'.extranonces)
          g.extranonces r.extranonce;
  }

  -- The arguments that a live connection gives are ready.
  generator_args-WorkIsReady :
      (st : Store D) (c : StratumConnectionData) → IsLive st c → WorkIsReady st (generator_args c)
  unfolding generator_args
  generator_args-WorkIsReady st c l = go c.jobdata.difficulty c.notify c.subscription refl refl
    where
      go :
          (o : Option ℕ) (k : Option MiningNotify) (s : Option Subscription)
          → c.jobdata.difficulty ≡ o
          → c.notify ≡ k
          → WorkIsReady st (elim o [
            | none ↦ none
            | some _ ↦ elim k [
              | none ↦ none
              | some n ↦ elim s [
                | none ↦ none
                | some s' ↦ some (record { base = c.jobdata; notify = n; subscription = s' })
              ]
            ]
          ])
      go none k s e f = tt
      go (some p) none s e f = tt
      go (some p) (some n) none e f = tt
      go (some p) (some n) (some s) e f =
          let pd : Points (some p) (length st.difficulties) =
            subst (λ o. Points o (length st.difficulties)) e l.difficulty in
          let pe : NotifiedHas (some n) c.jobdata.extranonce (length st.extranonces) =
            subst (λ k. NotifiedHas k c.jobdata.extranonce (length st.extranonces)) f l.notified in
          record { difficulty = (p, e, pd); extranonce = pe }

  assign_lem :
      (m : Coordinator D) (a : Option StratumJobData)
      → WorkIsReady m.store m.work
      → WorkIsReady m.store a
      → let m' = assign_if_any m a in
        WorkIsReady m'.store m'.work × (m'.store ≡ m.store) × (m'.connection ≡ m.connection)
  unfolding assign_work
  assign_lem m none r l = (r, refl, refl)
  assign_lem m (some sj) r l =
      if_both
        (λ m'. WorkIsReady m'.store m'.work × (m'.store ≡ m.store) × (m'.connection ≡ m.connection))
        sj.notify.clean
        (record m {
          clean_index = sj.base.clean_index;
          pool_clean_index = sj.base.clean_index;
          work = some sj;
        })
        (record m { work = some sj }) (l, refl, refl) (l, refl, refl)

  -- What every state has.
  pub record IsWorking (m : Coordinator D) : Type 0 where
    pub live : IsLive m.store m.connection
    pub ready : WorkIsReady m.store m.work

  pub assigned-IsWorking :
      (m : Coordinator D)
      → IsLive m.store m.connection
      → WorkIsReady m.store m.work
      → IsWorking (assign_if_any m (generator_args m.connection))
  assigned-IsWorking m l r =
      let a =
        assign_lem m (generator_args m.connection) r
          (generator_args-WorkIsReady m.store m.connection l) in
      record {
        live =
            subst (λ st. IsLive st (assign_if_any m (generator_args m.connection)).connection)
              (sym a.1) (subst (λ c. IsLive m.store c) (sym a.2) l);
        ready = a.0;
      }
