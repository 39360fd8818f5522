-- ===== src/Pool/Blocking/System.antt =====
-- The pool with its clients: sections of concurrent calls interleave in any order.
use demiplane.Prelude.{
  ℕ, ◌<◌, ◌≡◌, refl, ap, ◌∙◌, true, false, Option, none, some, List, [], ◌∷◌, ◌++◌, length-append,
  arith,
}
use demiplane.Pool.Blocking.{Pool, wake, return_holder, drop_dead, reset, construct, start_with}
use demiplane.Pool.Blocking.Counts.{
  count, count-append, count-erase, contains-count, length-erase, decrement_lem,
}
use demiplane.Pool.Blocking.Promises.{hand_over-Handed}
use demiplane.Pool.Blocking.Clients.{
  System, give_back, Step, Reach, enters, connects, wakes, times_out, runs, gives_back, here, next,
}
use demiplane.Pool.Blocking.Places.{
  Owned, enter-Owned, connected-Owned, wakes-Owned, timeout-Owned, runs-Owned,
}

return-Owned : (h : ℕ) (s : System) → 0 < count h s.lent → Owned s → Owned (give_back true h s)
unfolding reset return_holder
return-Owned h s held o =
    let r = hand_over-Handed h s.pool.waiters s.sleeping s.pool o.asleep o.alone o.unserved in
    simp o.is_open (record {
      is_open = r.same_open ∙ o.is_open;
      partition = λ a. omega (
        arith,
        o.partition a,
        r.placed a,
        count-erase a h s.lent held,
        ap (count a) r.same_holders,
      );
      once = λ a. rw r.same_holders (o.once a);
      counted = rw (r.same_created, r.same_holders) o.counted;
      asleep = λ w. omega (arith, r.fewer w, o.asleep w);
      alone = o.alone;
      unserved = r.unserved;
    })

drop-Owned : (h : ℕ) (s : System) → 0 < count h s.lent → Owned s → Owned (give_back false h s)
unfolding reset drop_dead
drop-Owned h s held o =
    let present : 0 < count h s.pool.holders = omega (arith, o.partition h) in
    let fewer = length-erase h s.pool.holders present in
    let less = decrement_lem s.pool.created (omega (arith, o.counted)) in
    simp (o.is_open, contains-count h s.pool.holders present)
      (record {
        is_open = refl;
        partition = λ a. omega (
          arith,
          o.partition a,
          count-erase a h s.pool.holders present,
          count-erase a h s.lent held,
        );
        once = λ a. omega (arith, o.once a, count-erase a h s.pool.holders present);
        counted = omega (arith, o.counted);
        asleep = o.asleep;
        alone = o.alone;
        unserved = o.unserved;
      })

Step-Owned : {s t : System} → Step s t → Owned s → Owned t
unfolding wake
Step-Owned (enters r s f) o = enter-Owned r s f o
Step-Owned (connects r made s new f) o = connected-Owned r made s new f o
Step-Owned (wakes w s h) o = wakes-Owned (s.pool.assigned w) w s refl h o
Step-Owned (times_out w s) o = timeout-Owned w s o
Step-Owned (runs before after w out s e) o = runs-Owned before after w out s e o
Step-Owned (gives_back true h s held) o = return-Owned h s held o
Step-Owned (gives_back false h s held) o = drop-Owned h s held o

pub Reach-Owned : {s t : System} → Owned s → Reach s t → Owned t
Reach-Owned o here = o
Reach-Owned o (next r step) = Step-Owned step (Reach-Owned o r)

-- The connections that a constructor makes are different objects.
abbrev pub Distinct : List (Option ℕ) → List ℕ → Type 0
Distinct [] hs = Unit {0}
Distinct (none ∷ rest) hs = Distinct rest hs
Distinct (some h ∷ rest) hs = (count h hs ≡ 0) × Distinct rest (hs ++ h ∷ [])

abbrev unlent : Pool → System
unlent p = record { pool = p; lent = []; sleeping = [] }

start_with-Owned :
    (attempts : List (Option ℕ)) (p : Pool)
    → Distinct attempts p.holders
    → Owned (unlent p)
    → Owned (unlent (start_with attempts p))
unfolding start_with
start_with-Owned [] p d o = o
start_with-Owned (none ∷ rest) p d o = start_with-Owned rest p d o
start_with-Owned (some h ∷ rest) p d o = start_with-Owned rest _ d.1 (record {
  is_open = o.is_open;
  partition = λ a.
      omega
        (arith, o.partition a, count-append a p.holders (h ∷ []), count-append a p.free (h ∷ []));
  once = λ a. ground (arith, o.once a, count-append a p.holders (h ∷ []), d.0);
  counted = omega (arith, o.counted, length-append {0} p.holders (h ∷ []));
  asleep = o.asleep;
  alone = o.alone;
  unserved = o.unserved;
})

-- The state that the constructor leaves, before any client has a holder.
abbrev pub started : ℕ → List (Option ℕ) → System
started capacity attempts = unlent (construct capacity attempts)

-- From a construction with different connections on, while the pool is open and however the sections
-- of concurrent calls and the posted handlers interleave, when each new connection and each new
-- waiter is a new object and only lent holders are given back: each holder of the pool is in exactly
-- one place, the free list, the hands of one client, the assignment of one sleeping waiter or one
-- posted handler that has not run, and `created_` is the number of holders.
pub construct-Reach-Owned :
    {t : System} (capacity : ℕ) (attempts : List (Option ℕ))
    → Distinct attempts []
    → Reach (started capacity attempts) t
    → Owned t
unfolding construct
construct-Reach-Owned capacity attempts d r =
    Reach-Owned
      (start_with-Owned attempts _ d (record {
        is_open = refl;
        partition = λ a. omega arith;
        once = λ a. omega arith;
        counted = refl;
        asleep = λ w. omega arith;
        alone = λ w. omega arith;
        unserved = λ w h. absurd (omega arith);
      }))
      r
