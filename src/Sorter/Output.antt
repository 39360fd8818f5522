-- ===== src/Sorter/Output.antt =====
-- output_entries, calculate_output_count and maintain_window_size: what the front of the window
-- goes to, and what is left of it.
use mathlib.Core.List.{List, [], ◌∷◌, ◌++◌, append-nil, append_assoc, Pairwise-append}
use Prim.Native.Nat.{min}
use demiplane.Prelude.{
  zero, suc, ◌+◌, ℕ, ◌≡◌, ◌-◌, ◌≤◌, refl, sym, ap, Bool, true, false, length, arith, inl, inr, All,
  length-append,
}
use demiplane.Sorter.{
  SlidingWindowSorter, is_empty, size_t, emit, output_entries, maintain_window_size,
  calculate_output_count,
}
use demiplane.Sorter.Order.{IsSorted, take, drop, take-append-drop, length-drop}
use demiplane.Sorter.Gather.{is_empty-cases}
use demiplane.Sorter.Insertion.{is_false}

module _ {ℓ} {A : Type ℓ} where
  -- The entries of the batches, in the order of the calls of the consumer.
  unfoldable pub delivered : List (List A) → List A
  delivered [] = []
  delivered (batch ∷ rest) = batch ++ delivered rest

  pub delivered-append :
      (bs cs : List (List A)) → delivered (bs ++ cs) ≡ delivered bs ++ delivered cs
  unfolding delivered
  delivered-append [] cs = refl
  delivered-append (b ∷ bs) cs = simp (delivered-append bs cs, append_assoc)

  -- What the consumer has had, and what the sorter still has.
  abbrev pub held : SlidingWindowSorter A → List A
  held s = delivered s.consumed ++ s.sorted_window ++ s.new_entries

  -- What the consumer has had, and then the window.
  abbrev pub stream : SlidingWindowSorter A → List A
  stream s = delivered s.consumed ++ s.sorted_window

  -- The consumer was called on batches that all have `P`.
  abbrev pub Adds {κ} :
      (List A → Type κ) → SlidingWindowSorter A → SlidingWindowSorter A → Type (ℓ ⊔ κ)
  Adds P s u = (bs : List (List A)) × (u.consumed ≡ s.consumed ++ bs) × All P bs

  abbrev pub IsCounted : SlidingWindowSorter A → Type 0
  IsCounted s = s.total_processed ≡ size_t (length (delivered s.consumed))

  -- `u` is `s` after a batch of its window: the same entries in the same order.
  pub record IsEmitted (s u : SlidingWindowSorter A) : Type ℓ where
    pub config : u.config ≡ s.config
    pub pending : u.new_entries ≡ s.new_entries
    pub same : stream u ≡ stream s
    pub counted : IsCounted s → IsCounted u

  split_batch :
      (c : List (List A)) (n : ℕ) (w : List A)
      → delivered (c ++ take n w ∷ []) ++ drop n w ≡ delivered c ++ w
  unfolding delivered
  split_batch c n w =
      simp (delivered-append c (take n w ∷ []), append-nil, append_assoc, take-append-drop n w)

  handed_over : ℕ → SlidingWindowSorter A → SlidingWindowSorter A
  handed_over n s =
      let m = min n (length s.sorted_window) in
      record s {
        sorted_window = drop m s.sorted_window;
        consumed = s.consumed ++ take m s.sorted_window ∷ [];
        total_processed = size_t (s.total_processed + length (take m s.sorted_window));
      }

  emit-zero : (s : SlidingWindowSorter A) → emit 0 s ≡ s
  unfolding emit
  emit-zero s = refl

  emit_idle : (n : ℕ) (s : SlidingWindowSorter A) → is_empty s.sorted_window ≡ true → emit n s ≡ s
  unfolding emit output_entries
  emit_idle n s e = ground arith

  emit-handed_over :
      (n : ℕ) (s : SlidingWindowSorter A)
      → is_empty s.sorted_window ≡ false
      → emit (suc n) s ≡ handed_over (suc n) s
  unfolding emit output_entries handed_over
  emit-handed_over n s e = ground arith

  unmoved : (s : SlidingWindowSorter A) → IsEmitted s s
  unmoved s = record { config = refl; pending = refl; same = refl; counted = λ c. c }

  pub emit-IsEmitted : (n : ℕ) (s : SlidingWindowSorter A) → IsEmitted s (emit n s)
  unfolding handed_over delivered
  emit-IsEmitted zero s = rw (emit-zero s) (unmoved s)
  emit-IsEmitted (suc n) s = elim (is_empty-cases s.sorted_window) [
    | inl e ↦ rw (emit_idle (suc n) s e.0) (unmoved s)
    | inr e ↦
        let m = min (suc n) (length s.sorted_window) in
        rw (emit-handed_over n s e) (record {
          config = refl;
          pending = refl;
          same = split_batch s.consumed m s.sorted_window;
          counted = λ (c : IsCounted s).
              rw (delivered-append s.consumed (take m s.sorted_window ∷ [])) (
                omega (
                  arith,
                  c,
                  length-append (delivered s.consumed) (take m s.sorted_window ++ []),
                  ap length (append-nil (take m s.sorted_window)),
                ));
        })
  ]

  -- Each batch that it hands over is sorted, if the window was, and so is what is left.
  pub emit-IsSorted :
      (less : A → A → Bool) (n : ℕ) (s : SlidingWindowSorter A)
      → IsSorted less s.sorted_window
      → IsSorted less (emit n s).sorted_window × Adds (IsSorted less) s (emit n s)
  unfolding handed_over
  emit-IsSorted less zero s h = rw (emit-zero s) (h, ([], sym (append-nil s.consumed), tt))
  emit-IsSorted less (suc n) s h = elim (is_empty-cases s.sorted_window) [
    | inl e ↦ rw (emit_idle (suc n) s e.0) (h, ([], sym (append-nil s.consumed), tt))
    | inr e ↦
        let m = min (suc n) (length s.sorted_window) in
        let (front, back, _) =
          (Pairwise-append (λ a b. is_false (less b a))).0
            (rw (take-append-drop m s.sorted_window) h) in
        rw (emit-handed_over n s e) (back, (take m s.sorted_window ∷ [], refl, (front, tt)))
  ]

  pub length-emit :
      (n : ℕ) (s : SlidingWindowSorter A)
      → length (emit n s).sorted_window ≡ length s.sorted_window - n
  unfolding emit output_entries
  length-emit n s = ground (
    arith,
    is_empty-cases s.sorted_window,
    length-drop (min n (length s.sorted_window)) s.sorted_window,
  )

  pub maintain_window_size_idle :
      (s : SlidingWindowSorter A)
      → length s.sorted_window ≤ s.config.window_size
      → maintain_window_size s ≡ s
  unfolding maintain_window_size
  maintain_window_size_idle s h = ground arith

  -- calculate_output_count is enough: what it leaves fits in the window.
  pub calculate_output_count_enough :
      (s : SlidingWindowSorter A)
      → length s.sorted_window - calculate_output_count s ≤ s.config.window_size
  unfolding calculate_output_count
  calculate_output_count_enough s = ground arith
