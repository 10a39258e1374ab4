-- ===== src/Queue/Heap.antt =====
-- The items of the queue and the part of `heapq` that it uses (investigation_queue.py). A heap is
-- only read through its least and its greatest item, so it is kept in the order of its items: a
-- sorted array is one of the layouts that `heapq` allows, and `heapify` has nothing to do.
pub mod Push
pub mod Remove
use uyuni_ai.Common.{
  ℕ, suc, ◌+◌, ◌≤◌, ◌≡◌, ◌≢◌, refl, ◌⊎◌, Bool, true, false, ◌&&◌, ◌||◌, Option, none, some, List,
  [], ◌∷◌, arith, ltb, ◌==◌, if◌then◌else◌,
}
use uyuni_ai.Common.Lists.{length}

pub record Item (P : Type 0) : Type 0 where
  pub priority : ℕ
  pub sequence : ℕ
  pub fingerprint : ℕ
  pub payload : P

module _ {P : Type 0} where
  -- the generated `<` of the dataclass: fields marked `compare=False` are left out
  abbrev pub item_lt : Item P → Item P → Bool
  item_lt a b = ltb a.priority b.priority || (a.priority == b.priority && ltb a.sequence b.sequence)

  -- the generated `==`, by which `list.remove` finds its item
  abbrev pub item_eq : Item P → Item P → Bool
  item_eq a b = a.priority == b.priority && a.sequence == b.sequence

  -- heapq.heappush
  abbrev pub heappush : Item P → List (Item P) → List (Item P)
  heappush it [] = it ∷ []
  heappush it (x ∷ xs) = if item_lt it x then it ∷ x ∷ xs else x ∷ heappush it xs

  -- self._heap.remove(it)
  abbrev pub heap_remove : Item P → List (Item P) → List (Item P)
  heap_remove it [] = []
  heap_remove it (x ∷ xs) = if item_eq x it then xs else x ∷ heap_remove it xs

  -- max(self._heap, key=...): the first of the greatest
  abbrev pub heap_max : Item P → List (Item P) → Item P
  heap_max best [] = best
  heap_max best (x ∷ xs) = heap_max (if item_lt best x then x else best) xs

  -- the item of a fingerprint
  abbrev pub find : ℕ → List (Item P) → Option (Item P)
  find f [] = none
  find f (x ∷ xs) = if x.fingerprint == f then some x else find f xs

  -- every item of the heap comes after `a`
  abbrev pub Above : Item P → List (Item P) → Type 0
  Above a [] = Unit
  Above a (x ∷ xs) = (item_lt a x ≡ true) × Above a xs

  -- no item of the heap has the sequence number `s`
  abbrev pub NoSeq : ℕ → List (Item P) → Type 0
  NoSeq s [] = Unit
  NoSeq s (x ∷ xs) = (x.sequence ≢ s) × NoSeq s xs

  -- ascending, with no sequence number and no fingerprint twice
  abbrev pub IsHeap : List (Item P) → Type 0
  IsHeap [] = Unit
  IsHeap (x ∷ xs) = Above x xs × NoSeq x.sequence xs × (find x.fingerprint xs ≡ none) × IsHeap xs

  -- every sequence number of the heap is below `n`
  abbrev pub Below : ℕ → List (Item P) → Type 0
  Below n [] = Unit
  Below n (x ∷ xs) = (suc x.sequence ≤ n) × Below n xs
