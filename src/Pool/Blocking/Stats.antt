-- ===== src/Pool/Blocking/Stats.antt =====
-- The counts that BlockingPool reports, against the holders that its clients have.
use demiplane.Prelude.{ℕ, ◌+◌, ◌≡◌, Option, List, [], ◌++◌, length, length-append, arith}
use demiplane.Pool.Blocking.{free_count, active_count, difference}
use demiplane.Pool.Blocking.Counts.{count, count-append, length_le_of_count}
use demiplane.Pool.Blocking.Promises.{promises, successes}
use demiplane.Pool.Blocking.System.{Distinct, started, construct-Reach-Owned}
use demiplane.Pool.Blocking.Places.{Owned}
use demiplane.Pool.Blocking.Clients.{System, Reach}

-- The holders on their way to a client.
abbrev pub promised : System → List ℕ
promised s = promises s.pool.assigned s.sleeping ++ successes s.pool.posted

length-Owned :
    (s : System)
    → Owned s
    → length s.pool.holders ≡ length s.pool.free + (length s.lent + length (promised s))
length-Owned s o =
    let due = promises s.pool.assigned s.sleeping in
    let owed = successes s.pool.posted in
    let away = s.lent ++ promised s in
    let joined = s.pool.free ++ away in
    let all : (a : ℕ) → count a joined ≡ count a s.pool.holders = λ a. omega (
      arith,
      o.partition a,
      count-append a s.pool.free away,
      count-append a s.lent (promised s),
      count-append a due owed,
    ) in
    omega (
      arith,
      length_le_of_count joined s.pool.holders (λ a. omega (arith, all a)),
      length_le_of_count s.pool.holders joined (λ a. omega (arith, all a)),
      length-append {0} s.pool.free away,
      length-append {0} s.lent (promised s),
    )

difference_lem : (m n k : ℕ) → m ≡ n + k → difference m n ≡ k
unfolding difference
difference_lem m n k e = ground arith

-- From a construction with different connections on, while the pool is open and however the sections
-- of concurrent calls interleave as in `Reach`, `active_count` is the number of holders that clients
-- have or are promised, and `free_count` and `active_count` add up to the number of holders of the
-- pool.
pub active_count-construct :
    {t : System} (capacity : ℕ) (attempts : List (Option ℕ))
    → Distinct attempts []
    → Reach (started capacity attempts) t
    → (active_count t.pool ≡ length t.lent + length (promised t))
      × (free_count t.pool + active_count t.pool ≡ length t.pool.holders)
unfolding active_count free_count
active_count-construct {t} capacity attempts d r =
    let o = construct-Reach-Owned capacity attempts d r in
    let total = length-Owned t o in
    let active =
      difference_lem t.pool.created (length t.pool.free) (length t.lent + length (promised t))
        (omega (arith, o.counted)) in
    (active, omega arith)
