-- ===== src/Queue/Heap/Remove.antt =====
-- What `list.remove` and `max` do on a heap (investigation_queue.py).
use uyuni_ai.Common.{
  ℕ, suc, ◌≤◌, ◌≡◌, ◌≢◌, ◌⊎◌, inl, refl, true, false, none, some, List, [], ◌∷◌, arith, ◌==◌,
  if◌then◌else◌,
}
use uyuni_ai.Common.Lists.{length}
use uyuni_ai.Queue.Heap.{Item, item_lt, heap_remove, heap_max, find, Above, NoSeq, IsHeap, Below}

module _ {P : Type 0} where
  pub find-fingerprint :
      (f : ℕ) (w : Item P) (xs : List (Item P)) → find f xs ≡ some w → w.fingerprint ≡ f
  find-fingerprint f w [] e = cc
  find-fingerprint f w (x ∷ xs) e = ground (arith, find-fingerprint f w xs)

  pub find-NoSeq :
      (s f : ℕ) (w : Item P) (xs : List (Item P)) → find f xs ≡ some w → NoSeq s xs → w.sequence ≢ s
  find-NoSeq s f w [] e h = cc
  find-NoSeq s f w (x ∷ xs) e h = ground (arith, find-NoSeq s f w xs)

  pub find-Below :
      (n f : ℕ) (w : Item P) (xs : List (Item P))
      → find f xs ≡ some w
      → Below n xs
      → suc w.sequence ≤ n
  find-Below n f w [] e h = cc
  find-Below n f w (x ∷ xs) e h = ground (arith, find-Below n f w xs)

  pub Above-heap_remove :
      (a w : Item P) (xs : List (Item P)) → Above a xs → Above a (heap_remove w xs)
  Above-heap_remove a w [] h = tt
  Above-heap_remove a w (x ∷ xs) h = ground (arith, Above-heap_remove a w xs)

  pub NoSeq-heap_remove :
      (s : ℕ) (w : Item P) (xs : List (Item P)) → NoSeq s xs → NoSeq s (heap_remove w xs)
  NoSeq-heap_remove s w [] h = tt
  NoSeq-heap_remove s w (x ∷ xs) h = ground (arith, NoSeq-heap_remove s w xs)

  pub Below-heap_remove :
      (n : ℕ) (w : Item P) (xs : List (Item P)) → Below n xs → Below n (heap_remove w xs)
  Below-heap_remove n w [] h = tt
  Below-heap_remove n w (x ∷ xs) h = ground (arith, Below-heap_remove n w xs)

  find-none-heap_remove :
      (f : ℕ) (w : Item P) (xs : List (Item P))
      → find f xs ≡ none
      → find f (heap_remove w xs) ≡ none
  find-none-heap_remove f w [] h = refl
  find-none-heap_remove f w (x ∷ xs) h = ground (arith, find-none-heap_remove f w xs)

  pub IsHeap-heap_remove : (w : Item P) (xs : List (Item P)) → IsHeap xs → IsHeap (heap_remove w xs)
  IsHeap-heap_remove w [] h = tt
  IsHeap-heap_remove w (x ∷ xs) h = ground (
    arith,
    IsHeap-heap_remove w xs,
    Above-heap_remove x w xs,
    NoSeq-heap_remove x.sequence w xs,
    find-none-heap_remove x.fingerprint w xs,
  )

  -- The removal of an item that the heap holds takes out its fingerprint and no other.
  pub find-heap_remove :
      (f g : ℕ) (w : Item P) (xs : List (Item P))
      → IsHeap xs
      → find f xs ≡ some w
      → find g (heap_remove w xs) ≡ (if f == g then none else find g xs)
  find-heap_remove f g w [] h e = cc
  find-heap_remove f g w (x ∷ xs) h e =
      ground (arith, find-heap_remove f g w xs, find-NoSeq x.sequence f w xs)

  pub NoSeq-heap_remove_self :
      (f : ℕ) (w : Item P) (xs : List (Item P))
      → IsHeap xs
      → find f xs ≡ some w
      → NoSeq w.sequence (heap_remove w xs)
  NoSeq-heap_remove_self f w [] h e = cc
  NoSeq-heap_remove_self f w (x ∷ xs) h e =
      ground (arith, NoSeq-heap_remove_self f w xs, find-NoSeq x.sequence f w xs)

  pub length-heap_remove :
      (f : ℕ) (w : Item P) (xs : List (Item P))
      → IsHeap xs
      → find f xs ≡ some w
      → suc (length (heap_remove w xs)) ≡ length xs
  length-heap_remove f w [] h e = cc
  length-heap_remove f w (x ∷ xs) h e =
      ground (arith, length-heap_remove f w xs, find-NoSeq x.sequence f w xs)

  heap_max_cases :
      (best : Item P) (xs : List (Item P))
      → IsHeap xs
      → (heap_max best xs ≡ best)
        ⊎ (find (heap_max best xs).fingerprint xs ≡ some (heap_max best xs))
  heap_max_cases best [] h = inl refl
  heap_max_cases best (x ∷ xs) h =
      ground (arith, heap_max_cases (if item_lt best x then x else best) xs h.3)

  -- The greatest item of a heap is one of its items.
  pub find-heap_max :
      (x : Item P) (xs : List (Item P))
      → IsHeap (x ∷ xs)
      → find (heap_max x xs).fingerprint (x ∷ xs) ≡ some (heap_max x xs)
  find-heap_max x xs h = ground (arith, heap_max_cases x xs h.3)

  heap_max-ge_best : (best : Item P) (xs : List (Item P)) → item_lt (heap_max best xs) best ≡ false
  heap_max-ge_best best [] = ground arith
  heap_max-ge_best best (x ∷ xs) =
      ground (arith, heap_max-ge_best (if item_lt best x then x else best) xs)

  heap_max-ge_tail :
      (f : ℕ) (w best : Item P) (xs : List (Item P))
      → find f xs ≡ some w
      → item_lt (heap_max best xs) w ≡ false
  heap_max-ge_tail f w best [] e = cc
  heap_max-ge_tail f w best (x ∷ xs) e = ground (
    arith,
    heap_max-ge_tail f w (if item_lt best x then x else best) xs,
    heap_max-ge_best (if item_lt best x then x else best) xs,
  )

  -- No item of the heap comes after the greatest.
  pub heap_max-ge :
      (f : ℕ) (w x : Item P) (xs : List (Item P))
      → find f (x ∷ xs) ≡ some w
      → item_lt (heap_max x xs) w ≡ false
  heap_max-ge f w x xs e = ground (arith, heap_max-ge_tail f w x xs, heap_max-ge_best x xs)

  -- The first item of a heap comes before every other.
  pub Above-find :
      (f : ℕ) (a w : Item P) (xs : List (Item P))
      → Above a xs
      → find f xs ≡ some w
      → item_lt a w ≡ true
  Above-find f a w [] h e = cc
  Above-find f a w (x ∷ xs) h e = ground (arith, Above-find f a w xs)
