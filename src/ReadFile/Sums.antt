-- ===== src/ReadFile/Sums.antt =====
-- 03NetPro_thread/05Pthread/05test_homework.c: what the threads have read and summed.
use demo_class.Common.{
  ℕ, ◌+◌, ◌<◌, ◌≤◌, ◌≡◌, ◌≢◌, refl, ◌∙◌, inl, inr, lt_or_ge, Bool-cases, ◌^◌, ◌==◌, arith, Bool,
  true, false,
}
use demo_class.ReadFile.{
  Place, idle, reads, has_read, loaded, summed, leaves, ended, Owner, nobody, held, System, init,
  put, Step, locks, is_interrupted, gets, at_end, fails, loads, stores, unlocks, returns, Reach,
  here, later,
}

-- the thread has the mutex
abbrev pub holds : Place → Bool
holds idle = false
holds reads = true
holds (has_read n) = true
holds (loaded n t) = true
holds summed = true
holds (leaves b) = true
holds (ended b) = false

-- the bytes that a thread has read and not yet summed
abbrev pub pending : Place → ℕ
pending idle = 0
pending reads = 0
pending (has_read n) = n
pending (loaded n t) = n
pending summed = 0
pending (leaves b) = 0
pending (ended b) = 0

-- the thread has seen the end of the file
abbrev pub done : Place → Bool
done idle = false
done reads = false
done (has_read n) = false
done (loaded n t) = false
done summed = false
done (leaves b) = b
done (ended b) = b

-- what a thread has loaded of the sum
abbrev pub IsCurrent : ℕ → Place → Type 0
IsCurrent total idle = Unit
IsCurrent total reads = Unit
IsCurrent total (has_read n) = Unit
IsCurrent total (loaded n t) = t ≡ total
IsCurrent total summed = Unit
IsCurrent total (leaves b) = Unit
IsCurrent total (ended b) = Unit

-- what the owner of the mutex has not yet summed
abbrev pub owed : Owner → (ℕ → Place) → ℕ
owed nobody place = 0
owed (held i) place = pending (place i)

pub record Inv (size : ℕ) (s : System) : Type 0 where
  pub owner : (i : ℕ) → holds (s.place i) ≡ true → s.rmutex ≡ held i
  pub holder : (i : ℕ) → s.rmutex ≡ held i → holds (s.place i) ≡ true
  pub all : s.total_size + owed s.rmutex s.place + s.file ≡ size
  pub at_the_end : (i : ℕ) → done (s.place i) ≡ true → s.file ≡ 0
  pub current : (i : ℕ) → IsCurrent s.total_size (s.place i)
  pub fits : size < 2 ^ 31 → s.is_defined ≡ true

Inv-init : (size : ℕ) → Inv size (init size)
Inv-init size = record {
  owner = λ i h. absurd (cc);
  holder = λ i h. absurd (ground arith);
  all = omega arith;
  at_the_end = λ i h. absurd (cc);
  current = λ i. tt;
  fits = λ small. refl;
}

-- a thread without the mutex has loaded nothing
IsCurrent-free : (total t : ℕ) (p : Place) → IsCurrent t p → holds p ≡ false → IsCurrent total p
IsCurrent-free total t idle c h = tt
IsCurrent-free total t reads c h = tt
IsCurrent-free total t (has_read n) c h = tt
IsCurrent-free total t (loaded n t') c h = absurd (cc)
IsCurrent-free total t summed c h = tt
IsCurrent-free total t (leaves b) c h = tt
IsCurrent-free total t (ended b) c h = tt

-- where one thread is put
IsCurrent-put :
    (total : ℕ) (place : ℕ → Place) (i : ℕ) (p : Place)
    → IsCurrent total p
    → ((j : ℕ) → i ≢ j → IsCurrent total (place j))
    → (j : ℕ) → IsCurrent total (put place i p j)
IsCurrent-put total place i p mine others j = elim (Bool-cases (i == j)) [
  | inl y ↦ rw y mine
  | inr n ↦ rw n (others j (ground arith))
]

Step-Inv : {size i : ℕ} {s t : System} → Step i s t → Inv size s → Inv size t
Step-Inv {size} {i} {s} (is_interrupted e) v = v
Step-Inv {size} {i} {s} (locks e free) v = record {
  owner = λ j h. let o = v.owner j in let mine = v.owner i in ground arith;
  holder = λ j h. let o = v.holder j in let mine = v.owner i in ground arith;
  all = let mine = v.owner i in let sum = v.all in ground arith;
  at_the_end = λ j h. let o = v.at_the_end j in let mine = v.at_the_end i in ground arith;
  current = IsCurrent-put s.total_size s.place i reads tt (λ j ne. v.current j);
  fits = v.fits;
}
Step-Inv {size} {i} {s} (gets n e positive small enough) v = record {
  owner = λ j h. let o = v.owner j in let mine = v.owner i in ground arith;
  holder = λ j h. let o = v.holder j in let mine = v.owner i in ground arith;
  all = let mine = v.owner i in let sum = v.all in ground arith;
  at_the_end = λ j h. let o = v.at_the_end j in let mine = v.at_the_end i in ground arith;
  current = IsCurrent-put s.total_size s.place i (has_read n) tt (λ j ne. v.current j);
  fits = v.fits;
}
Step-Inv {size} {i} {s} (at_end e none_left) v = record {
  owner = λ j h. let o = v.owner j in let mine = v.owner i in ground arith;
  holder = λ j h. let o = v.holder j in let mine = v.owner i in ground arith;
  all = let mine = v.owner i in let sum = v.all in ground arith;
  at_the_end = λ j h. let o = v.at_the_end j in let mine = v.at_the_end i in ground arith;
  current = IsCurrent-put s.total_size s.place i (leaves true) tt (λ j ne. v.current j);
  fits = v.fits;
}
Step-Inv {size} {i} {s} (fails e) v = record {
  owner = λ j h. let o = v.owner j in let mine = v.owner i in ground arith;
  holder = λ j h. let o = v.holder j in let mine = v.owner i in ground arith;
  all = let mine = v.owner i in let sum = v.all in ground arith;
  at_the_end = λ j h. let o = v.at_the_end j in let mine = v.at_the_end i in ground arith;
  current = IsCurrent-put s.total_size s.place i (leaves false) tt (λ j ne. v.current j);
  fits = v.fits;
}
Step-Inv {size} {i} {s} (loads n e) v = record {
  owner = λ j h. let o = v.owner j in let mine = v.owner i in ground arith;
  holder = λ j h. let o = v.holder j in let mine = v.owner i in ground arith;
  all = let mine = v.owner i in let sum = v.all in ground arith;
  at_the_end = λ j h. let o = v.at_the_end j in let mine = v.at_the_end i in ground arith;
  current = IsCurrent-put s.total_size s.place i (loaded n s.total_size) refl (λ j ne. v.current j);
  fits = v.fits;
}
Step-Inv {size} {i} {s} (stores n t e) v = record {
  owner = λ j h. let o = v.owner j in let mine = v.owner i in ground arith;
  holder = λ j h. let o = v.holder j in let mine = v.owner i in ground arith;
  all = let mine = v.owner i in let sum = v.all in let c = v.current i in ground arith;
  at_the_end = λ j h. let o = v.at_the_end j in let mine = v.at_the_end i in ground arith;
  current = IsCurrent-put (t + n) s.place i summed tt (λ j ne.
      IsCurrent-free (t + n) s.total_size (s.place j) (v.current j) (
        let o = v.owner j in
        let mine = v.owner i in
        elim (Bool-cases (holds (s.place j))) [ inl y ↦ absurd (ground arith) | inr n ↦ n ]));
  fits = λ small.
      let d = v.fits small in
      let mine = v.owner i in let sum = v.all in let c = v.current i in ground arith;
}
Step-Inv {size} {i} {s} (unlocks e) v = record {
  owner = λ j h. let o = v.owner j in let mine = v.owner i in ground arith;
  holder = λ j h. let o = v.holder j in let mine = v.owner i in ground arith;
  all = let mine = v.owner i in let sum = v.all in ground arith;
  at_the_end = λ j h. let o = v.at_the_end j in let mine = v.at_the_end i in ground arith;
  current = IsCurrent-put s.total_size s.place i idle tt (λ j ne. v.current j);
  fits = v.fits;
}
Step-Inv {size} {i} {s} (returns b e) v = record {
  owner = λ j h. let o = v.owner j in let mine = v.owner i in ground arith;
  holder = λ j h. let o = v.holder j in let mine = v.owner i in ground arith;
  all = let mine = v.owner i in let sum = v.all in ground arith;
  at_the_end = λ j h. let o = v.at_the_end j in let mine = v.at_the_end i in ground arith;
  current = IsCurrent-put s.total_size s.place i (ended b) tt (λ j ne. v.current j);
  fits = v.fits;
}

Reach-Inv : {n size : ℕ} {s : System} → Reach n (init size) s → Inv size s
Reach-Inv {n} {size} here = Inv-init size
Reach-Inv (later i r lt st) = Step-Inv st (Reach-Inv r)

-- Two threads are never between the lock and the unlock together.
pub Reach-exclusion :
    {n size : ℕ} {s : System} (i j : ℕ)
    → Reach n (init size) s
    → holds (s.place i) ≡ true
    → holds (s.place j) ≡ true
    → i ≡ j
Reach-exclusion i j r hi hj =
    let v = Reach-Inv r in let oi = v.owner i hi in let oj = v.owner j hj in ground arith

-- a step moves its own thread only
Step-others : {i : ℕ} {s t : System} (j : ℕ) → Step i s t → i ≢ j → t.place j ≡ s.place j
Step-others j (locks e free) ne = ground arith
Step-others j (is_interrupted e) ne = refl
Step-others j (gets n e positive small enough) ne = ground arith
Step-others j (at_end e none_left) ne = ground arith
Step-others j (fails e) ne = ground arith
Step-others j (loads n e) ne = ground arith
Step-others j (stores n t e) ne = ground arith
Step-others j (unlocks e) ne = ground arith
Step-others j (returns b e) ne = ground arith

Reach-others : {n size : ℕ} {s : System} (j : ℕ) → Reach n (init size) s → n ≤ j → s.place j ≡ idle
Reach-others j here le = refl
Reach-others j (later i r lt st) le = Step-others j st (ground arith) ∙ Reach-others j r le

-- behind the last return nobody has bytes that are not summed
owed-over :
    {n size : ℕ} {s : System} (o : Owner) (code : ℕ → Bool)
    → Reach n (init size) s
    → ((j : ℕ) → j < n → s.place j ≡ ended (code j))
    → s.rmutex ≡ o
    → owed o s.place ≡ 0
owed-over nobody code r over e = refl
owed-over {n} (held j) code r over e =
    let has_it = (Reach-Inv r).holder j e in
    elim (lt_or_ge j n) [
      | inl lt ↦ absurd (let q = over j lt in ground arith)
      | inr ge ↦ absurd (let q = Reach-others j r ge in ground arith)
    ]

-- When every thread has returned, one of them 0, `total_size` is the size of the file and no sum has left the
-- range of an `int`, for a file shorter than 2^31 bytes, whatever the schedule, the interrupts, the sizes of
-- the reads and the failures in the other threads.
pub Reach-total :
    {n size : ℕ} {s : System} (i : ℕ) (code : ℕ → Bool)
    → Reach n (init size) s
    → size < 2 ^ 31
    → ((j : ℕ) → j < n → s.place j ≡ ended (code j))
    → i < n
    → code i ≡ true
    → (s.total_size ≡ size) × (s.is_defined ≡ true)
Reach-total {n} {size} {s} i code r small over lt ok =
    let v = Reach-Inv r in
    let last = over i lt in
    let read = v.at_the_end i (ground arith) in
    let sum = v.all in
    let paid = owed-over s.rmutex code r over refl in (ground arith, v.fits small)
