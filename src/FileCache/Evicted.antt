-- ===== src/FileCache/Evicted.antt =====
-- The size of the cache after an eviction.
use mathlib.Core.Bool.{true≢false}
use citra_flows.Common.{
  ℕ, ◌+◌, ◌-◌, zero, suc, ◌≤◌, ◌<◌, All, drop, String, Bool, List, [], ◌∷◌, length, select, leb,
  leb→le, ◌≡◌, refl, sym, ap, ◌∙◌, arith, if_ind, if_ind_eq, if◌then◌else◌,
}
use citra_flows.FileCache.{
  Removal, removed, is_counted, is_kept, File, is_before, insert_file, sort_files, total_size,
  evict_from, evict_if_oversize,
}

total_size-insert_file :
    (f : File) (fs : List File) → total_size (insert_file f fs) ≡ length f.content + total_size fs
unfolding insert_file
total_size-insert_file f [] = refl
total_size-insert_file f (g ∷ gs) =
    if_ind (λ xs. total_size xs ≡ length f.content + (length g.content + total_size gs))
      (is_before f g) refl (omega (arith, total_size-insert_file f gs))

total_size-sort_files : (fs : List File) → total_size (sort_files fs) ≡ total_size fs
unfolding sort_files
total_size-sort_files [] = refl
total_size-sort_files (f ∷ fs) =
    total_size-insert_file f (sort_files fs)
    ∙ ap (λ n. length f.content + n) (total_size-sort_files fs)

-- What an eviction from a list keeps: all but the first `k`, and `k` is the least number that makes
-- the rest fit.
pub record Least (limit : ℕ) (fs kept : List File) : Type 0 where
  pub k : ℕ
  pub rest : kept ≡ drop k fs
  pub fits : total_size kept ≤ limit
  pub needed : (j : ℕ) → j < k → limit < total_size (drop j fs)

nothing : {limit : ℕ} (fs : List File) → total_size fs ≤ limit → Least limit fs fs
nothing fs h = record {
  k = 0;
  rest = sym (drop_none fs);
  fits = h;
  needed = λ j lt. absurd (omega (arith, lt));
}
  where
    drop_none : (xs : List File) → drop 0 xs ≡ xs
    drop_none [] = refl
    drop_none (x ∷ xs) = refl

evict_from-Least :
    (limit : ℕ) (removal : String → Removal) (total : ℕ) (fs : List File)
    → ((path : String) → removal path ≡ removed)
    → total ≡ total_size fs
    → Least limit fs (evict_from limit removal total fs)
unfolding evict_from
evict_from-Least limit removal total [] all e = nothing [] (omega arith)
evict_from-Least limit removal total (f ∷ fs) all e =
    let left = if is_counted (removal f.path) then total - length f.content else total in
    let rec = evict_from-Least limit removal left fs all (
      ap (λ r. if is_counted r then total - length f.content else total) (all f.path)
      ∙ omega (arith, e)) in
    if_ind_eq (Least limit (f ∷ fs)) (leb total limit)
      (λ t. nothing (f ∷ fs) (omega (arith, leb→le total limit t, e)))
      (λ n.
        if_ind_eq (Least limit (f ∷ fs)) (is_kept (removal f.path))
          (λ u. absurd (true≢false (sym u ∙ ap is_kept (all f.path))))
          (λ t. record {
            k = suc rec.k;
            rest = rec.rest;
            fits = rec.fits;
            needed = more (ground (arith, n, e)) rec.needed;
          }))
  where
    more :
        {k : ℕ}
        → limit < total_size (f ∷ fs)
        → ((j : ℕ) → j < k → limit < total_size (drop j fs))
        → (j : ℕ) → j < suc k
        → limit < total_size (drop j (f ∷ fs))
    more big h zero lt = big
    more big h (suc j) lt = h j (omega (arith, lt))

-- Each file was last read no later than those behind it.
abbrev pub IsSorted : List File → Type 0
IsSorted [] = Unit
IsSorted (f ∷ fs) = All (λ (g : File). f.atime ≤ g.atime) fs × IsSorted fs

insert_file-All :
    (n : ℕ) (f : File) (fs : List File)
    → n ≤ f.atime
    → All (λ (g : File). n ≤ g.atime) fs
    → All (λ (g : File). n ≤ g.atime) (insert_file f fs)
unfolding insert_file
insert_file-All n f [] h a = (h, tt)
insert_file-All n f (g ∷ gs) h a =
    if_ind (All (λ (x : File). n ≤ x.atime)) (is_before f g) (h, a)
      (a.0, insert_file-All n f gs h a.1)

All-earlier :
    (m n : ℕ) (fs : List File)
    → m ≤ n
    → All (λ (g : File). n ≤ g.atime) fs
    → All (λ (g : File). m ≤ g.atime) fs
All-earlier m n [] h a = tt
All-earlier m n (g ∷ gs) h a = (omega (arith, h, a.0), All-earlier m n gs h a.1)

insert_file-IsSorted : (f : File) (fs : List File) → IsSorted fs → IsSorted (insert_file f fs)
unfolding insert_file
insert_file-IsSorted f [] s = (tt, tt)
insert_file-IsSorted f (g ∷ gs) s =
    if_ind_eq IsSorted (is_before f g)
      (λ t.
        let le : f.atime ≤ g.atime = ground (arith, t) in
        ((le, All-earlier f.atime g.atime gs le s.0), s))
      (λ n. (insert_file-All g.atime f gs (ground (arith, n)) s.0, insert_file-IsSorted f gs s.1))

sort_files-IsSorted : (fs : List File) → IsSorted (sort_files fs)
unfolding sort_files
sort_files-IsSorted [] = tt
sort_files-IsSorted (f ∷ fs) = insert_file-IsSorted f (sort_files fs) (sort_files-IsSorted fs)

-- How many of the files pass a test.
abbrev count : (File → Bool) → List File → ℕ
count p fs = length (select p fs)

count-insert_file :
    (p : File → Bool) (f : File) (fs : List File) → count p (insert_file f fs) ≡ count p (f ∷ fs)
unfolding insert_file
count-insert_file p f [] = refl
count-insert_file p f (g ∷ gs) =
    if_ind (λ xs. count p xs ≡ count p (f ∷ g ∷ gs)) (is_before f g) refl
      (ground (arith, count-insert_file p f gs))

count-sort_files : (p : File → Bool) (fs : List File) → count p (sort_files fs) ≡ count p fs
unfolding sort_files
count-sort_files p [] = refl
count-sort_files p (f ∷ fs) =
    count-insert_file p f (sort_files fs) ∙ ground (arith, count-sort_files p fs)

-- The same files, in the order of their last reading.
abbrev pub IsSortOf : List File → List File → Type 0
IsSortOf files sorted =
    ((p : File → Bool) → length (select p sorted) ≡ length (select p files)) × IsSorted sorted

-- When every file can be removed with its metadata and the files do not fit the limit, an eviction
-- removes a prefix of the list of the files sorted by their last reading: as many as are needed for
-- the rest to fit and not one more.
pub evict_if_oversize-Least :
    (limit : ℕ) (removal : String → Removal) (files : List File)
    → ((path : String) → removal path ≡ removed)
    → limit < total_size files
    → IsSortOf files (sort_files files)
      × Least limit (sort_files files) (evict_if_oversize limit removal files)
unfolding evict_if_oversize
evict_if_oversize-Least limit removal files all big =
    let total = total_size files in
    (
      (λ p. count-sort_files p files, sort_files-IsSorted files),
      if_ind_eq (Least limit (sort_files files)) (leb total limit)
          (λ t. absurd (omega (arith, leb→le total limit t, big)))
          (λ n.
            evict_from-Least limit removal total (sort_files files) all
              (sym (total_size-sort_files files))),
    )
