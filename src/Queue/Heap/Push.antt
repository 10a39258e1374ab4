-- ===== src/Queue/Heap/Push.antt =====
-- What `heappush` does to a heap (investigation_queue.py).
use uyuni_ai.Common.{
  ℕ, suc, ◌≤◌, ◌≡◌, ◌≢◌, refl, true, false, none, some, List, [], ◌∷◌, arith, ◌==◌, if◌then◌else◌,
}
use uyuni_ai.Common.Lists.{length}
use uyuni_ai.Queue.Heap.{Item, item_lt, heappush, find, Above, NoSeq, IsHeap, Below}

module _ {P : Type 0} where
  pub length-heappush :
      (it : Item P) (xs : List (Item P)) → length (heappush it xs) ≡ suc (length xs)
  length-heappush it [] = refl
  length-heappush it (x ∷ xs) = ground (arith, length-heappush it xs)

  pub find-heappush :
      (f : ℕ) (it : Item P) (xs : List (Item P))
      → find it.fingerprint xs ≡ none
      → find f (heappush it xs) ≡ (if it.fingerprint == f then some it else find f xs)
  find-heappush f it [] h = refl
  find-heappush f it (x ∷ xs) h = ground (arith, find-heappush f it xs)

  pub Below-heappush :
      (n : ℕ) (it : Item P) (xs : List (Item P))
      → suc it.sequence ≤ n
      → Below n xs
      → Below n (heappush it xs)
  Below-heappush n it [] h b = (h, tt)
  Below-heappush n it (x ∷ xs) h b = ground (arith, Below-heappush n it xs)

  -- a sequence number that the counter has not reached is not in the heap
  pub NoSeq-of_Below : (n : ℕ) (xs : List (Item P)) → Below n xs → NoSeq n xs
  NoSeq-of_Below n [] b = tt
  NoSeq-of_Below n (x ∷ xs) b = (omega arith, NoSeq-of_Below n xs b.1)

  pub Below_mono : (n m : ℕ) (xs : List (Item P)) → n ≤ m → Below n xs → Below m xs
  Below_mono n m [] h b = tt
  Below_mono n m (x ∷ xs) h b = (omega arith, Below_mono n m xs h b.1)

  item_lt_trans : (a b c : Item P) → item_lt a b ≡ true → item_lt b c ≡ true → item_lt a c ≡ true
  item_lt_trans a b c h k = ground arith

  pub Above-trans :
      (a b : Item P) (xs : List (Item P)) → item_lt a b ≡ true → Above b xs → Above a xs
  Above-trans a b [] h k = tt
  Above-trans a b (x ∷ xs) h k = (item_lt_trans a b x h k.0, Above-trans a b xs h k.1)

  Above-heappush :
      (a it : Item P) (xs : List (Item P))
      → item_lt a it ≡ true
      → Above a xs
      → Above a (heappush it xs)
  Above-heappush a it [] h k = (h, tt)
  Above-heappush a it (x ∷ xs) h k = ground (arith, Above-heappush a it xs)

  NoSeq-heappush :
      (s : ℕ) (it : Item P) (xs : List (Item P))
      → it.sequence ≢ s
      → NoSeq s xs
      → NoSeq s (heappush it xs)
  NoSeq-heappush s it [] h k = (h, tt)
  NoSeq-heappush s it (x ∷ xs) h k = ground (arith, NoSeq-heappush s it xs)

  item_lt_total :
      (a b : Item P) → item_lt a b ≡ false → b.sequence ≢ a.sequence → item_lt b a ≡ true
  item_lt_total a b h k = ground arith

  -- A push of a new fingerprint with a new sequence number leaves a heap.
  pub IsHeap-heappush :
      (it : Item P) (xs : List (Item P))
      → find it.fingerprint xs ≡ none
      → NoSeq it.sequence xs
      → IsHeap xs
      → IsHeap (heappush it xs)
  IsHeap-heappush it [] f s h = (tt, tt, refl, tt)
  IsHeap-heappush it (x ∷ xs) f s h = ground (
    arith,
    IsHeap-heappush it xs,
    Above-trans it x xs,
    Above-heappush x it xs,
    NoSeq-heappush x.sequence it xs,
    find-heappush x.fingerprint it xs,
    item_lt_total it x,
  )
