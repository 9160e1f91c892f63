-- ===== src/Barrier/Rendezvous/Keeping.antt =====
-- c9y/barrier.h: what arrive and wait keep of the threads that meet at a barrier.
use c9y.Base.{
  All-middle, All-around, ℕ, zero, suc, ◌+◌, ◌<◌, ◌≡◌, inl, inr, refl, ap, subst, sym, true, false,
  some, List, ◌∷◌, ◌++◌, length, replicate, arith, length-append, length-replicate,
}
use c9y.Base.Int.{pos, ◌+ℤ◌, ◌-ℤ◌}
use c9y.Barrier.{ArrivalToken, barrier, Arrival, arrive, wait}
use c9y.Base.{All}
use c9y.Barrier.Phases.{in_phase}
use c9y.Barrier.Rendezvous.{
  Thread, idle, waiting, System, Step, arriving, leaving, Reach, here, next, start,
}
use c9y.Barrier.Rendezvous.Counting.{arrived, Fits, arrived-append, arrived-le-length, phase_full}

abbrev pub iterate {ℓ} : {S : Type ℓ} → (S → S) → ℕ → S → S
iterate f zero w = w
iterate f (suc k) w = f (iterate f k w)

module _ {ℓ} {S : Type ℓ} (compl_func : S → S) where
  arrive-early :
      (m k c : ℕ) (w : S)
      → arrive compl_func (pos 1) (in_phase m k (suc (suc c))) w ≡ record {
        barrier = in_phase m k (suc c);
        world = w;
        token = record { iteration = pos k };
        notified = false;
      }
  unfolding arrive ◌-ℤ◌
  arrive-early m k c w = ground arith

  arrive-last :
      (m k : ℕ) (w : S)
      → arrive compl_func (pos 1) (in_phase m k 1) w ≡ record {
        barrier = in_phase m (suc k) m;
        world = compl_func w;
        token = record { iteration = pos k };
        notified = true;
      }
  unfolding arrive ◌-ℤ◌ ◌+ℤ◌
  arrive-last m k w = ground arith

  -- What an arrival makes of a system.
  abbrev after : ℕ → (before behind : List Thread) → Arrival S → System S
  after n before behind a = record {
    barrier = a.barrier;
    threads = before ++ waiting n a.token ∷ behind;
    world = a.world;
  }

  module _ (m : ℕ) (world : S) where
    -- The threads are in phase k, and c of them have not arrived in it.
    pub record IsMeeting (k c : ℕ) (s : System S) : Type ℓ where
      pub phase : s.barrier ≡ in_phase m k c
      pub sum : c + arrived k s.threads ≡ m
      pub missing : 0 < c
      pub all_threads : length s.threads ≡ m
      pub fits : All (Fits k) s.threads
      pub completed : s.world ≡ iterate compl_func k world

    abbrev pub Meets : System S → Type ℓ
    Meets s = (k : ℕ) × (c : ℕ) × IsMeeting k c s

    -- Another thread in the place of one.
    replaced :
        (t u : Thread) (before behind ts : List Thread)
        → ts ≡ before ++ t ∷ behind
        → length ts ≡ m
        → length (before ++ u ∷ behind) ≡ m
    replaced t u before behind ts e h = omega (
      arith,
      h,
      ap length e,
      length-append before (t ∷ behind),
      length-append before (u ∷ behind),
    )

    arriving-Meets :
        (k c n : ℕ) (before behind : List Thread) (s : System S)
        → s.threads ≡ before ++ idle n ∷ behind
        → IsMeeting k c s
        → Meets (after n before behind (arrive compl_func (pos 1) s.barrier s.world))
    arriving-Meets k zero n before behind s e i = absurd (omega (arith, i.missing))
    arriving-Meets k (suc zero) n before behind s e i =
        let (fb, this, fh) =
          All-middle (Fits k) before (idle n) behind (subst (All (Fits k)) e i.fits) in
        let (fb', nb) =
          phase_full k before fb
            (omega (arith, full, arrived-le-length k before, arrived-le-length k behind)) in
        let (fh', nh) =
          phase_full k behind fh
            (omega (arith, full, arrived-le-length k before, arrived-le-length k behind)) in
        rw (i.phase, arrive-last m k s.world)
          (
            suc k,
            m,
            record {
              phase = refl;
              sum = ground (
                arith,
                nb,
                nh,
                this,
                arrived-append (suc k) before (waiting n (record { iteration = pos k }) ∷ behind),
              );
              missing = omega (arith, i.sum);
              all_threads = replaced _ _ before behind s.threads e i.all_threads;
              fits = All-around (Fits (suc k)) before _ behind fb' (ground (arith, this)) fh';
              completed = ap compl_func i.completed;
            },
          )
      where
        full : arrived k before + arrived k behind ≡ length before + length behind
        full = omega (
          arith,
          i.sum,
          i.all_threads,
          ap length e,
          ap (arrived k) e,
          length-append before (idle n ∷ behind),
          arrived-append k before (idle n ∷ behind),
        )
    arriving-Meets k (suc (suc c)) n before behind s e i =
        let (fb, this, fh) =
          All-middle (Fits k) before (idle n) behind (subst (All (Fits k)) e i.fits) in
        rw (i.phase, arrive-early m k c s.world)
          (
            k,
            suc c,
            record {
              phase = refl;
              sum = ground (
                arith,
                i.sum,
                ap (arrived k) e,
                this,
                arrived-append k before (idle n ∷ behind),
                arrived-append k before (waiting n (record { iteration = pos k }) ∷ behind),
              );
              missing = omega arith;
              all_threads = replaced _ _ before behind s.threads e i.all_threads;
              fits = All-around (Fits k) before _ behind fb (ap pos (sym this), inl this) fh;
              completed = i.completed;
            },
          )

    leaving-Meets :
        (k c n : ℕ) (at : ArrivalToken) (before behind : List Thread) (s : System S)
        → s.threads ≡ before ++ waiting n at ∷ behind
        → wait at s.barrier ≡ some tt
        → IsMeeting k c s
        → Meets (record s { threads = before ++ idle (suc n) ∷ behind })
    unfolding wait
    leaving-Meets k c n at before behind s e w i =
        let (fb, this, fh) =
          All-middle (Fits k) before (waiting n at) behind (subst (All (Fits k)) e i.fits) in
        let over : suc n ≡ k = elim this.1 [
          | inl same ↦ absurd (ground (arith, i.phase, w, this.0, same))
          | inr later ↦ later
        ] in
        (
          k,
          c,
          record {
            phase = i.phase;
            sum = ground (
              arith,
              i.sum,
              ap (arrived k) e,
              over,
              arrived-append k before (waiting n at ∷ behind),
              arrived-append k before (idle (suc n) ∷ behind),
            );
            missing = i.missing;
            all_threads = replaced _ _ before behind s.threads e i.all_threads;
            fits = All-around (Fits k) before _ behind fb over fh;
            completed = i.completed;
          },
        )

    Step-Meets : {s t : System S} → Step compl_func s t → Meets s → Meets t
    Step-Meets {s} (arriving n before behind h e) (k, c, i) =
        rw e (arriving-Meets k c n before behind s h i)
    Step-Meets {s} (leaving n at before behind h w e) (k, c, i) =
        rw e (leaving-Meets k c n at before behind s h w i)

    pub Reach-Meets : {s t : System S} → Meets s → Reach compl_func s t → Meets t
    Reach-Meets i here = i
    Reach-Meets i (next r st) = Step-Meets st (Reach-Meets i r)

    pub start-Meets : 0 < m → Meets (start m world)
    unfolding barrier
    start-Meets h = (
      0,
      m,
      record {
        phase = refl;
        sum = omega (arith, none_arrived m);
        missing = h;
        all_threads = length-replicate m (idle 0);
        fits = all_idle m;
        completed = refl;
      },
    )
      where
        none_arrived : (n : ℕ) → arrived 0 (replicate n (idle 0)) ≡ 0
        none_arrived zero = refl
        none_arrived (suc n) = omega (arith, none_arrived n)

        all_idle : (n : ℕ) → All (Fits 0) (replicate n (idle 0))
        all_idle zero = tt
        all_idle (suc n) = (refl, all_idle n)
