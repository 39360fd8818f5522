-- ===== src/Logger/Invariant.antt =====
-- What holds of the logger between two accesses.
use demiplane.Prelude.{
  ℕ, zero, suc, ◌+◌, ◌≤◌, ◌<◌, ◌≡◌, refl, ap, arith, Bool, true, false, Option, none, some, List,
  [], ◌∷◌, ◌++◌, length, get_elem?, if◌then◌else◌,
}
use demiplane.Prelude.Powers.{IsPower, place}
use demiplane.Disruptor.{Sequencer}
use demiplane.Logger.{
  LogEvent, LogCall, log, shutdown, Producer, idle, claiming, loaded, ready, claimed, written,
  Consumer, polling, waiting, scanning, draining, marking, stopped, Logger,
}

-- The first sequence whose flag the consumer has not cleared.
abbrev pub position : Consumer → ℕ
position (polling n) = n
position (waiting n) = n
position (scanning n at hi) = n
position (draining n available) = n
position (marking n available stop) = n
position (stopped n) = n

-- How many sequences the consumer has read.
abbrev pub read_count : Consumer → ℕ
read_count (polling n) = n
read_count (waiting n) = n
read_count (scanning n at hi) = n
read_count (draining n available) = n
read_count (marking n available stop) = suc n
read_count (stopped n) = n

abbrev pub flag : ℕ → Sequencer → Bool
flag s q = q.available_flags (place q.buffer_size s)

-- What the consumer has seen is published up to `to`, and claimed.
pub record Seen (q : Sequencer) (from to bound : ℕ) : Type 0 where
  pub set : (s : ℕ) → from ≤ s → s < to → flag s q ≡ true
  pub under : bound ≤ q.cursor

abbrev pub Knows : Consumer → Sequencer → Type 0
Knows (polling n) q = Unit
Knows (waiting n) q = Unit
Knows (scanning n at hi) q = Seen q n at hi
Knows (draining n available) q = Seen q n available available
Knows (marking n available stop) q = Seen q n available available × (n < available)
Knows (stopped n) q = Unit

module _ {ℓ} {A : Type ℓ} where
  -- The sequence that a thread has claimed and not published.
  abbrev pub holds : Producer A → Option ℕ
  holds idle = none
  holds (claiming r) = none
  holds (loaded c r) = none
  holds (ready c r) = none
  holds (claimed s r) = some s
  holds (written s) = some s

  -- The request that an event in the ring stands for.
  abbrev pub carried : LogEvent A → LogCall A
  carried e = if e.shutdown_signal then shutdown else log e.message

  unfoldable pub take : ℕ → List (LogCall A) → List (LogCall A)
  take (suc n) (r ∷ rs) = r ∷ take n rs
  take _ _ = []

  -- The messages of the requests, in order.
  unfoldable pub messages : List (LogCall A) → List A
  messages [] = []
  messages (log m ∷ rs) = m ∷ messages rs
  messages (shutdown ∷ rs) = messages rs

  abbrev pub slot : ℕ → Logger A → LogEvent A
  slot s x = x.ring_buffer (place x.sequencer.buffer_size s)

  -- What holds of one thread.
  pub record Sound (x : Logger A) (p : ℕ) : Type ℓ where
    pub room :
        (c : ℕ) (r : LogCall A)
        → x.producers p ≡ ready c r
        → c < x.sequencer.gating_sequence + x.sequencer.buffer_size
    pub held :
        (s : ℕ)
        → holds (x.producers p) ≡ some s
        → (position x.consumer ≤ s) × (s < x.sequencer.cursor) × (flag s x.sequencer ≡ false)
    pub asked :
        (s : ℕ) (r : LogCall A) → x.producers p ≡ claimed s r → get_elem? x.claims s ≡ some r
    pub wrote :
        (s : ℕ) → x.producers p ≡ written s → get_elem? x.claims s ≡ some (carried (slot s x))

  pub record IsConsistent (x : Logger A) : Type ℓ where
    pub power : IsPower x.sequencer.buffer_size
    pub gated : x.sequencer.gating_sequence ≤ position x.consumer
    pub behind : position x.consumer ≤ x.sequencer.cursor
    pub bounded : x.sequencer.cursor ≤ x.sequencer.gating_sequence + x.sequencer.buffer_size
    pub counted : length x.claims ≡ x.sequencer.cursor
    pub sound : (p : ℕ) → Sound x p
    pub unique :
        (p q s : ℕ) → holds (x.producers p) ≡ some s → holds (x.producers q) ≡ some s → p ≡ q
    pub filled :
        (s : ℕ)
        → position x.consumer ≤ s
        → s < position x.consumer + x.sequencer.buffer_size
        → flag s x.sequencer ≡ true
        → (s < x.sequencer.cursor) × (get_elem? x.claims s ≡ some (carried (slot s x)))
    pub seen : Knows x.consumer x.sequencer
    pub in_order : x.collected ≡ messages (take (read_count x.consumer) x.claims)

  pub get_elem?-append_left :
      (l : List (LogCall A)) (r : LogCall A) (s : ℕ)
      → s < length l
      → get_elem? (l ++ r ∷ []) s ≡ get_elem? l s
  get_elem?-append_left [] r s h = absurd (omega arith)
  get_elem?-append_left (y ∷ l) r zero h = refl
  get_elem?-append_left (y ∷ l) r (suc s) h = get_elem?-append_left l r s (omega arith)

  pub get_elem?-append_last :
      (l : List (LogCall A)) (r : LogCall A) → get_elem? (l ++ r ∷ []) (length l) ≡ some r
  get_elem?-append_last [] r = refl
  get_elem?-append_last (y ∷ l) r = get_elem?-append_last l r

  pub take-append_left :
      (l : List (LogCall A)) (r : LogCall A) (n : ℕ)
      → n ≤ length l
      → take n (l ++ r ∷ []) ≡ take n l
  unfolding take
  take-append_left [] r zero h = refl
  take-append_left [] r (suc n) h = absurd (omega arith)
  take-append_left (y ∷ l) r zero h = refl
  take-append_left (y ∷ l) r (suc n) h = ap (◌∷◌ y) (take-append_left l r n (omega arith))

  pub messages-take-suc :
      (l : List (LogCall A)) (n : ℕ) (r : LogCall A)
      → get_elem? l n ≡ some r
      → messages (take (suc n) l) ≡ messages (take n l) ++ messages (r ∷ [])
  unfolding messages take
  messages-take-suc [] n r h = absurd cc
  messages-take-suc (y ∷ l) zero r h =
      let e : y ≡ r = cc in ap (λ (z : LogCall A). messages (z ∷ [])) e
  messages-take-suc (log m ∷ l) (suc n) r h = ap (◌∷◌ m) (messages-take-suc l n r h)
  messages-take-suc (shutdown ∷ l) (suc n) r h = messages-take-suc l n r h

-- The consumer has read no further than the cursor.
pub read_count_le :
    (c : Consumer) (q : Sequencer) → Knows c q → position c ≤ q.cursor → read_count c ≤ q.cursor
read_count_le (polling n) q k h = h
read_count_le (waiting n) q k h = h
read_count_le (scanning n at hi) q k h = h
read_count_le (draining n available) q k h = h
read_count_le (marking n available stop) q k h = let (s, b) = k in omega (arith, s.under)
read_count_le (stopped n) q k h = h

-- What the consumer knows stays true when more is claimed and published.
pub Knows-mono :
    (c : Consumer) (q q' : Sequencer)
    → ((s : ℕ) → flag s q ≡ true → flag s q' ≡ true)
    → q.cursor ≤ q'.cursor
    → Knows c q
    → Knows c q'
Knows-mono (polling n) q q' f h k = k
Knows-mono (waiting n) q q' f h k = k
Knows-mono (scanning n at hi) q q' f h k = record {
  set = λ s a b. f s (k.set s a b);
  under = omega (arith, k.under);
}
Knows-mono (draining n available) q q' f h k = record {
  set = λ s a b. f s (k.set s a b);
  under = omega (arith, k.under);
}
Knows-mono (marking n available stop) q q' f h k =
    let (seen, b) = k in
    (record { set = λ s u v. f s (seen.set s u v); under = omega (arith, seen.under) }, b)
Knows-mono (stopped n) q q' f h k = k
