-- ===== src/Miner/Stratum/HeaderBytes.antt =====
-- Proofs on `gen_header` and `submission` (src/miner/stratum/job.{hpp,cpp}).
use janusminer.Common.{
  ℕ, zero, suc, ◌≡◌, ◌≤◌, arith, refl, ap, sym, ◌∙◌, List, [], ◌∷◌, ◌++◌, append_assoc, append-nil,
  length, length-append, length-take, length-drop, take, drop, take-append, drop-append,
  take-append-drop,
}
use janusminer.Miner.Stratum.{StratumJobData}
use janusminer.Miner.Stratum.Job.{StratumJob, memcpy, gen_merkle_root, gen_header, submission}

-- What is written replaces as many bytes.
memcpy_front :
    (old rest new : List ℕ) → length old ≡ length new → memcpy (old ++ rest) 0 new ≡ new ++ rest
unfolding memcpy
memcpy_front [] rest [] h = refl
memcpy_front [] rest (n ∷ new) h = absurd (omega arith)
memcpy_front (o ∷ old) rest [] h = absurd (omega arith)
memcpy_front (o ∷ old) rest (n ∷ new) h = ap (λ l. n ∷ l) (memcpy_front old rest new (omega arith))

memcpy_here :
    (before old rest new : List ℕ) (k : ℕ)
    → length before ≡ k
    → length old ≡ length new
    → memcpy (before ++ old ++ rest) k new ≡ before ++ new ++ rest
unfolding memcpy
memcpy_here [] old rest new k e h = rw (← e) (memcpy_front old rest new h)
memcpy_here (b ∷ before) old rest new zero e h = absurd (omega arith)
memcpy_here (b ∷ before) [] rest [] (suc k) e h = refl
memcpy_here (b ∷ before) (o ∷ old) rest [] (suc k) e h = absurd (omega arith)
memcpy_here (b ∷ before) old rest (n ∷ new) (suc k) e h =
    ap (λ l. b ∷ l) (memcpy_here before old rest (n ∷ new) k (omega arith) h)

memcpy_next :
    (before old rest new : List ℕ) (k : ℕ)
    → length before ≡ k
    → length old ≡ length new
    → memcpy (before ++ (old ++ rest)) k new ≡ before ++ new ++ rest
memcpy_next before old rest new k e h =
    ap (λ l. memcpy l k new) (sym (append_assoc before old rest))
    ∙ memcpy_here before old rest new k e h

-- What stands from the offset on is the field and the rest.
memcpy_lem :
    (before left new : List ℕ) (k n : ℕ)
    → length before ≡ k
    → length new ≡ n
    → n ≤ length left
    → memcpy (before ++ left) k new ≡ before ++ new ++ drop n left
memcpy_lem before left new k n e m h =
    let old : length (take n left) ≡ length new = omega (arith, m, length-take n left) in
    ap (λ l. memcpy (before ++ l) k new) (sym (take-append-drop n left))
    ∙ memcpy_next before (take n left) (drop n left) new k e old

length_zero : (l : List ℕ) → length l ≡ 0 → l ≡ []
length_zero [] h = refl
length_zero (x ∷ l) h = absurd (omega arith)

module _ (sha256 : List ℕ → List ℕ) (size : (l : List ℕ) → length (sha256 l) ≡ 32) where
  -- The sizes that the types of the source fix.
  pub record IsSized (data' : StratumJobData) : Type 0 where
    pub prev_hash : length data'.notify.prev_hash ≡ 32
    pub nbits : length data'.notify.nbits ≡ 4
    pub nversion : length data'.notify.nversion ≡ 4
    pub ntime : length data'.notify.ntime ≡ 4

  -- All of the header's 76 bytes are written: they are the five fields, one after the other, whatever
  -- the array held.
  gen_header_lem :
      (unwritten : List ℕ) (data' : StratumJobData) (extra2 : List ℕ)
      → length unwritten ≡ 76
      → IsSized data'
      → let n = data'.notify in
        gen_header sha256 unwritten data' extra2
        ≡ (((n.prev_hash ++ n.nbits) ++ gen_merkle_root sha256 data' extra2) ++ n.nversion)
          ++ n.ntime
  unfolding gen_header gen_merkle_root
  gen_header_lem u data' extra2 h s =
      let n = data'.notify in
      let root = gen_merkle_root sha256 data' extra2 in
      let l4 = length-append n.prev_hash n.nbits in
      let l36 = length-append (n.prev_hash ++ n.nbits) root in
      let l68 = length-append (n.prev_hash ++ n.nbits ++ root) n.nversion in
      let sz : length root ≡ 32 = size _ in
      let r1 = drop 32 u in
      let r2 = drop 4 r1 in
      let r3 = drop 32 r2 in
      let r4 = drop 4 r3 in
      let d1 = length-drop 32 u in
      let d2 = length-drop 4 r1 in
      let d3 = length-drop 32 r2 in
      let d4 = length-drop 4 r3 in
      let d5 = length-drop 4 r4 in
      let none_left : drop 4 r4 ≡ [] =
        length_zero (drop 4 r4) (omega (arith, h, d1, d2, d3, d4, d5)) in
      let m1 = memcpy_lem [] u n.prev_hash 0 32 refl s.prev_hash (omega (arith, h)) in
      let m2 = memcpy_lem n.prev_hash r1 n.nbits 32 4 s.prev_hash s.nbits (omega (arith, h, d1)) in
      let m3 =
        memcpy_lem (n.prev_hash ++ n.nbits) r2 root 36 32 (omega (arith, l4, s.prev_hash, s.nbits))
          sz (omega (arith, h, d1, d2)) in
      let m4 =
        memcpy_lem (n.prev_hash ++ n.nbits ++ root) r3 n.nversion 68 4
          (omega (arith, l4, l36, sz, s.prev_hash, s.nbits)) s.nversion
          (omega (arith, h, d1, d2, d3)) in
      let m5 =
        memcpy_lem (n.prev_hash ++ n.nbits ++ root ++ n.nversion) r4 n.ntime 72 4
          (omega (arith, l4, l36, l68, sz, s.prev_hash, s.nbits, s.nversion)) s.ntime
          (omega (arith, h, d1, d2, d3, d4)) in
      ap (λ a. memcpy (memcpy (memcpy (memcpy a 32 n.nbits) 36 root) 68 n.nversion) 72 n.ntime) m1
      ∙ ap (λ a. memcpy (memcpy (memcpy a 36 root) 68 n.nversion) 72 n.ntime) m2
      ∙ ap (λ a. memcpy (memcpy a 68 n.nversion) 72 n.ntime) m3
      ∙ ap (λ a. memcpy a 72 n.ntime) m4
      ∙ m5
      ∙ ap (λ a. n.prev_hash ++ n.nbits ++ root ++ n.nversion ++ n.ntime ++ a) none_left
      ∙ append-nil _

  -- For a hash of 32 bytes and fields of their sizes, the header of a job is its five fields one
  -- after the other, whatever the array held before, and a submission has the time of the job that
  -- the pool has given out, with its id and extranonce.
  pub submission-gen_header {ℓ} :
      {D : Type ℓ} (unwritten : List ℕ) (data' : StratumJobData) (j : StratumJob D) (nonce : List ℕ)
      → length unwritten ≡ 76
      → IsSized data'
      → j.header ≡ gen_header sha256 unwritten data' j.extra2
      → let n = data'.notify in
        let root = gen_merkle_root sha256 data' j.extra2 in
        (j.header ≡ n.prev_hash ++ n.nbits ++ root ++ n.nversion ++ n.ntime)
        × (submission j nonce
            ≡ record { job_id = j.job_id; extra2 = j.extra2; time = n.ntime; nonce = nonce })
  unfolding submission gen_merkle_root
  submission-gen_header u data' j nonce h s e =
      let n = data'.notify in
      let root = gen_merkle_root sha256 data' j.extra2 in
      let l4 = length-append n.prev_hash n.nbits in
      let l36 = length-append (n.prev_hash ++ n.nbits) root in
      let l68 = length-append (n.prev_hash ++ n.nbits ++ root) n.nversion in
      let whole = e ∙ gen_header_lem u data' j.extra2 h s in
      let front = n.prev_hash ++ n.nbits ++ root ++ n.nversion in
      let n72 : 72 ≡ length front =
        omega (arith, l4, l36, l68, size _, s.prev_hash, s.nbits, s.nversion) in
      let after : drop 72 (front ++ n.ntime) ≡ n.ntime =
        ap (λ k. drop k (front ++ n.ntime)) n72 ∙ drop-append front n.ntime in
      let time : take 4 n.ntime ≡ n.ntime =
        ap (λ k. take k n.ntime) (sym s.ntime)
        ∙ ap (take (length n.ntime)) (sym (append-nil n.ntime))
        ∙ take-append n.ntime [] in
      (
        whole,
        ap (λ t. record { job_id = j.job_id; extra2 = j.extra2; time = t; nonce = nonce })
            (ap (λ l. take 4 (drop 72 l)) whole ∙ ap (take 4) after ∙ time),
      )
