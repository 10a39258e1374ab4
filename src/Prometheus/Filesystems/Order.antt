-- ===== src/Prometheus/Filesystems/Order.antt =====
-- The order of the filesystems (`sorted` in `get_filesystem_usage_percent` of
-- uyuni_ai_agent/prometheus_client.py).
use uyuni_ai.Common.{ℕ, suc, ◌≡◌, refl, true, false, List, [], ◌∷◌, arith, if_cases}
use uyuni_ai.Common.Lists.{All, length}
use uyuni_ai.Common.Text.{codes, codes_lt}
use uyuni_ai.Detector.Thresholds.{Filesystem}
use uyuni_ai.Prometheus.Filesystems.{insert_filesystem, sorted_filesystems}

-- the mount point comes before none of the list's first
abbrev pub Leads : Filesystem → List Filesystem → Type 0
Leads fs [] = Unit
Leads fs (g ∷ _) = codes_lt (codes g.mountpoint) (codes fs.mountpoint) ≡ false

-- in the order of the mount points
abbrev pub Ascending : List Filesystem → Type 0
Ascending [] = Unit
Ascending (fs ∷ rest) = Leads fs rest × Ascending rest

codes_lt_asym : (s t : List ℕ) → codes_lt s t ≡ true → codes_lt t s ≡ false
codes_lt_asym [] [] h = refl
codes_lt_asym [] (_ ∷ _) h = refl
codes_lt_asym (_ ∷ _) [] h = cc
codes_lt_asym (a ∷ s) (b ∷ t) h = ground (arith, codes_lt_asym s t)

insert-Leads :
    (h g : Filesystem) (rest : List Filesystem)
    → codes_lt (codes h.mountpoint) (codes g.mountpoint) ≡ true
    → Leads h rest
    → Leads h (insert_filesystem g rest)
unfolding insert_filesystem
insert-Leads h g [] lt l = codes_lt_asym (codes h.mountpoint) (codes g.mountpoint) lt
insert-Leads h g (k ∷ rest) lt l =
    if_cases (λ xs. Leads h xs) (codes_lt (codes k.mountpoint) (codes g.mountpoint)) (λ _. l)
      (λ _. codes_lt_asym (codes h.mountpoint) (codes g.mountpoint) lt)

insert-Ascending :
    (g : Filesystem) (rest : List Filesystem)
    → Ascending rest
    → Ascending (insert_filesystem g rest)
unfolding insert_filesystem
insert-Ascending g [] u = (tt, tt)
insert-Ascending g (h ∷ rest) (l, u) =
    if_cases (λ xs. Ascending xs) (codes_lt (codes h.mountpoint) (codes g.mountpoint))
      (λ lt. (insert-Leads h g rest lt l, insert-Ascending g rest u)) (λ ge. (ge, (l, u)))

pub sorted-Ascending : (found : List Filesystem) → Ascending (sorted_filesystems found)
unfolding sorted_filesystems
sorted-Ascending [] = tt
sorted-Ascending (fs ∷ rest) = insert-Ascending fs (sorted_filesystems rest) (sorted-Ascending rest)

insert-All :
    (P : Filesystem → Type 0) (g : Filesystem) (rest : List Filesystem)
    → P g
    → All P rest
    → All P (insert_filesystem g rest)
unfolding insert_filesystem
insert-All P g [] p u = (p, tt)
insert-All P g (h ∷ rest) p (q, u) =
    if_cases (λ xs. All P xs) (codes_lt (codes h.mountpoint) (codes g.mountpoint))
      (λ _. (q, insert-All P g rest p u)) (λ _. (p, (q, u)))

pub sorted-All :
    (P : Filesystem → Type 0) (found : List Filesystem)
    → All P found
    → All P (sorted_filesystems found)
unfolding sorted_filesystems
sorted-All P [] u = tt
sorted-All P (fs ∷ rest) (p, u) = insert-All P fs (sorted_filesystems rest) p (sorted-All P rest u)

length-insert :
    (g : Filesystem) (rest : List Filesystem)
    → length (insert_filesystem g rest) ≡ suc (length rest)
unfolding insert_filesystem
length-insert g [] = refl
length-insert g (h ∷ rest) = ground (arith, length-insert g rest)

pub length-sorted : (found : List Filesystem) → length (sorted_filesystems found) ≡ length found
unfolding sorted_filesystems
length-sorted [] = refl
length-sorted (fs ∷ rest) =
    omega (arith, length-insert fs (sorted_filesystems rest), length-sorted rest)

-- one filesystem taken out of a list
pub data Takes (fs : Filesystem) : List Filesystem → List Filesystem → Type 0 where
  first : (rest : List Filesystem) → Takes fs (fs ∷ rest) rest
  later :
      (g : Filesystem) (all_of rest : List Filesystem)
      → Takes fs all_of rest
      → Takes fs (g ∷ all_of) (g ∷ rest)

-- the same filesystems in another order
abbrev pub Rearranged : List Filesystem → List Filesystem → Type 0
Rearranged [] ys = ys ≡ []
Rearranged (x ∷ xs) ys = (rest : List Filesystem) × Takes x ys rest × Rearranged xs rest

insert-Takes : (g : Filesystem) (rest : List Filesystem) → Takes g (insert_filesystem g rest) rest
unfolding insert_filesystem
insert-Takes g [] = first []
insert-Takes g (h ∷ rest) =
    if_cases (λ xs. Takes g xs (h ∷ rest)) (codes_lt (codes h.mountpoint) (codes g.mountpoint))
      (λ _. later h (insert_filesystem g rest) rest (insert-Takes g rest)) (λ _. first (h ∷ rest))

pub sorted-Rearranged : (found : List Filesystem) → Rearranged found (sorted_filesystems found)
unfolding sorted_filesystems
sorted-Rearranged [] = refl
sorted-Rearranged (fs ∷ rest) =
    (sorted_filesystems rest, insert-Takes fs (sorted_filesystems rest), sorted-Rearranged rest)
