-- ===== src/Gps/Retries.antt =====
-- When the thread of `gps_loop` ends.
use transmitter_linux.Common.{
  ℕ, zero, suc, ◌+◌, ◌≤◌, ◌≡◌, refl, ◌∙◌, List, [], ◌∷◌, ◌++◌, replicate, arith, Bool-cases, inl,
  inr, ltb,
}
use transmitter_linux.Odid.{Odid, UasData}
use transmitter_linux.Gps.Defs.{
  Gpsd, Turn, killed, not_ready, read_failed, report, Loop, finished, gps_loop, loop_start,
  process_gps_data,
}

module _ {F : Type 0} (odid : Odid F) (gpsd : Gpsd) where
  waits :
      (n : ℕ) (s : Loop F) (turns : List (Turn F))
      → s.retries + n ≤ 61
      → gps_loop odid gpsd s (replicate n not_ready ++ turns)
        ≡ gps_loop odid gpsd (record s { retries = s.retries + n }) turns
  unfolding gps_loop
  waits zero s turns h = ground arith
  waits (suc n) s turns h = ground (arith, waits n (record s { retries = s.retries + 1 }) turns)

  -- From its start the thread outlives 61 waits in a row without data and goes on from there, and
  -- the 62nd in a row ends it with status 1, whatever would follow.
  gps_loop-not_ready :
      (u : UasData F) (turns : List (Turn F))
      → (gps_loop odid gpsd (loop_start u) (replicate 61 not_ready ++ turns)
          ≡ gps_loop odid gpsd (record (loop_start u) { retries = 61 }) turns)
        × (gps_loop odid gpsd (loop_start u) (replicate 62 not_ready ++ turns) ≡ finished 1 u)
  gps_loop-not_ready u turns = (
    waits 61 (loop_start u) turns (omega arith),
    waits 61 (loop_start u) (not_ready ∷ turns) (omega arith) ∙ (unfold gps_loop in refl),
  )

  -- A loop that sees `kill_program` ends, whatever it met before and however long it waited, and
  -- its status is 0 or 1.
  gps_loop-killed :
      (turns rest : List (Turn F)) (s : Loop F)
      → (status : ℕ) × (u : UasData F) × (gps_loop odid gpsd s (turns ++ (killed ∷ rest))
          ≡ finished status u)
        × (status ≤ 1)
  unfolding gps_loop
  gps_loop-killed [] rest s = (0, s.uas_data, refl, omega arith)
  gps_loop-killed (killed ∷ turns) rest s = (0, s.uas_data, refl, omega arith)
  gps_loop-killed (not_ready ∷ turns) rest s = elim (Bool-cases (ltb 60 s.retries)) [
    | inl e ↦ (1, s.uas_data, rw e, omega arith)
    | inr e ↦ rw e (gps_loop-killed turns rest (record s { retries = s.retries + 1 }))
  ]
  gps_loop-killed (read_failed ∷ turns) rest s = elim (Bool-cases (ltb 5 s.read_retries)) [
    | inl e ↦ (1, s.uas_data, rw e, omega arith)
    | inr e ↦
        rw e
          (gps_loop-killed turns rest (record s { retries = 0; read_retries = s.read_retries + 1 }))
  ]
  gps_loop-killed (report fix ∷ turns) rest s = gps_loop-killed turns rest (record {
    retries = 0;
    read_retries = 0;
    uas_data = process_gps_data odid gpsd fix s.uas_data;
  })

  -- From its start the thread outlives six failed reads in a row and goes on from there, and the
  -- seventh in a row ends it with status 1, whatever would follow.
  gps_loop-read_failed :
      (u : UasData F) (turns : List (Turn F))
      → (gps_loop odid gpsd (loop_start u) (replicate 6 read_failed ++ turns)
          ≡ gps_loop odid gpsd (record (loop_start u) { read_retries = 6 }) turns)
        × (gps_loop odid gpsd (loop_start u) (replicate 7 read_failed ++ turns) ≡ finished 1 u)
  unfolding gps_loop
  gps_loop-read_failed u turns = (refl, refl)

  -- From its start the thread outlives 61 waits in a row without data, and six reads in a row that
  -- fail, and goes on from there; the 62nd such wait and the seventh such read end it with status 1,
  -- whatever would follow.
  pub gps_loop-finished :
      (u : UasData F) (turns : List (Turn F))
      → ((gps_loop odid gpsd (loop_start u) (replicate 61 not_ready ++ turns)
            ≡ gps_loop odid gpsd (record (loop_start u) { retries = 61 }) turns)
          × (gps_loop odid gpsd (loop_start u) (replicate 62 not_ready ++ turns) ≡ finished 1 u))
        × ((gps_loop odid gpsd (loop_start u) (replicate 6 read_failed ++ turns)
              ≡ gps_loop odid gpsd (record (loop_start u) { read_retries = 6 }) turns)
            × (gps_loop odid gpsd (loop_start u) (replicate 7 read_failed ++ turns) ≡ finished 1 u))
  gps_loop-finished u turns = (gps_loop-not_ready u turns, gps_loop-read_failed u turns)
