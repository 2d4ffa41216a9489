-- ===== src/Clean/Newest.antt =====
-- `SilogFileManagerCleanOldFiles` of silog_dae/src/silog_file_manager.c: which file goes first.
use si_log.Base.{
  ℕ, zero, suc, ◌+◌, ◌≤◌, ◌<◌, ◌⊎◌, inl, inr, Bool-cases, same_text, ◌&&◌, ◌==◌, if◌then◌else◌, ◌≡◌,
  ◌∙◌, refl, sym, ap, subst, Bool, true, false, Option, none, some, List, [], ◌∷◌, ◌++◌, ltb,
  length, take, arith,
}
use si_log.Errors.{ErrorCode, ok}
use si_log.PQueue.{PQueue, Malloc, init, pop, size_of}
use si_log.PQueue.Order.{Below, IsOrder, IsHeap}
use si_log.PQueue.Contents.{count}
use si_log.PQueue.Push.{IsBacked}
use si_log.PQueue.Pop.{pop_lem}
use si_log.Clean.{
  FileInfo, DirEntry, file_info_size, max_log_file_count, oldest_file_compare, collect, delete_loop,
  clean_old_files,
}
use si_log.Clean.Collect.{
  history, count_list, always, Filled, oldest_file_compare-IsOrder, collect-Filled,
}

-- No file of the list is newer than `t`.
abbrev pub NoneNewer : ℕ → List FileInfo → Type 0
NoneNewer t [] = Unit
NoneNewer t (f ∷ fs) = (f.mtime ≤ t) × NoneNewer t fs

-- The file is one of the list.
abbrev pub Member : FileInfo → List FileInfo → Type 0
Member f [] = ⊥
Member f (g ∷ gs) = (f ≡ g) ⊎ Member f gs

same_text-≡ : (xs ys : List ℕ) → same_text xs ys ≡ true → xs ≡ ys
same_text-≡ [] [] e = refl
same_text-≡ [] (y ∷ ys) e = ground (arith, e)
same_text-≡ (x ∷ xs) [] e = ground (arith, e)
same_text-≡ (x ∷ xs) (y ∷ ys) e =
    let head : x ≡ y = ground (arith, e) in
    let tail = same_text-≡ xs ys (ground (arith, e)) in λ i. head i ∷ tail i

same_text_refl : (xs : List ℕ) → same_text xs xs ≡ true
same_text_refl [] = refl
same_text_refl (x ∷ xs) = ground (arith, same_text_refl xs)

abbrev same_file : FileInfo → FileInfo → Bool
same_file f g = same_text f.path g.path && f.mtime == g.mtime

same_file-≡ : (f g : FileInfo) → same_file f g ≡ true → f ≡ g
same_file-≡ f g e =
    let path = same_text-≡ f.path g.path (ground (arith, e)) in
    let mtime : f.mtime ≡ g.mtime = ground (arith, e) in
    λ i. record { path = path i; mtime = mtime i }

same_file_refl : (f : FileInfo) → same_file f f ≡ true
same_file_refl f = ground (arith, same_text_refl f.path)

count_list-Member :
    (f : FileInfo) (gs : List FileInfo) → 0 < count_list (same_file f) gs → Member f gs
count_list-Member f [] h = absurd (omega (arith, h))
count_list-Member f (g ∷ gs) h = elim (Bool-cases (same_file f g)) [
  | inl same ↦ inl (same_file-≡ f g same)
  | inr other ↦ inr (count_list-Member f gs (omega (arith, (rw other at h))))
]

abbrev newer : ℕ → FileInfo → Bool
newer t f = ltb t f.mtime

count_list-NoneNewer : (t : ℕ) (fs : List FileInfo) → count_list (newer t) fs ≡ 0 → NoneNewer t fs
count_list-NoneNewer t [] e = tt
count_list-NoneNewer t (f ∷ fs) e = (ground arith, count_list-NoneNewer t fs (ground arith))

-- Nothing that is below the top in the queue's order is newer.
newer-false : (f top : FileInfo) → Below oldest_file_compare f top → newer top.mtime f ≡ false
unfolding oldest_file_compare
newer-false f top below = ground arith

count-none_newer :
    (buffer : ℕ → FileInfo) (n : ℕ) (top : FileInfo)
    → ((i : ℕ) → i < n → Below oldest_file_compare (buffer i) top)
    → count (newer top.mtime) buffer n ≡ 0
count-none_newer buffer zero top below = refl
count-none_newer buffer (suc n) top below =
    let last : Below oldest_file_compare (buffer n) top = below n (omega arith) in
    let rest = count-none_newer buffer n top (λ i lt. below i (omega arith)) in
    let old : newer top.mtime (buffer n) ≡ false = newer-false (buffer n) top last in
    ground (arith, rest, old)

delete_loop-first :
    (fuel : ℕ) (max_file_count i : ℕ) (q q' : PQueue FileInfo) (top : FileInfo)
    → max_file_count < q.size
    → pop true (some q) true ≡ (ok, some top, some q')
    → delete_loop (suc fuel) always i max_file_count (some q)
      ≡ top.path ∷ delete_loop fuel always (i + 1) max_file_count (some q')
unfolding delete_loop size_of
delete_loop-first fuel max_file_count i q q' top more popped =
    let test : ltb max_file_count q.size ≡ true = ground arith in
    rw test (
      ap
        (λ (r : ErrorCode × Option FileInfo × Option (PQueue FileInfo)). elim r.1 [
          | none ↦ delete_loop fuel always (i + 1) max_file_count r.2
          | some f ↦ f.path ∷ delete_loop fuel always (i + 1) max_file_count r.2
        ])
        popped)

-- The queue after the initialisation in `SilogFileManagerCleanOldFiles`.
abbrev made : (ℕ → FileInfo) → PQueue FileInfo
made buffer = record {
  buffer = buffer;
  allocated = 66_560;
  element_size = file_info_size;
  capacity = max_log_file_count;
  size = 0;
  compare = oldest_file_compare;
}

made-IsBacked : (buffer : ℕ → FileInfo) → IsBacked (made buffer)
made-IsBacked buffer = ((λ i lt. omega arith), omega arith)

clean_old_files-loop :
    (malloc : Malloc FileInfo) (queue : PQueue FileInfo) (log_dir base : List ℕ)
    (max_file_count : ℕ) (entries : List DirEntry) {buffer : ℕ → FileInfo}
    → malloc 66_560 ≡ some buffer
    → clean_old_files malloc always always queue log_dir base max_file_count (some entries) ≡ (
        let full =
          collect always log_dir (take 127 (base ++ b'_' ∷ [])) 0 entries (some (made buffer)) in
        (ok, delete_loop (size_of full) always 0 max_file_count full))
unfolding clean_old_files init
clean_old_files-loop malloc queue log_dir base max_file_count entries answer = rw answer refl

-- The loop that deletes starts with a file of the queue such that no file of the queue is newer.
delete_loop-NoneNewer :
    (q₀ q : PQueue FileInfo) (fs : List FileInfo) (max_file_count : ℕ)
    → q₀.size ≡ 0
    → Filled q₀ fs q
    → max_file_count < length fs
    → (first : FileInfo) × (rest : List (List ℕ)) × (delete_loop q.size always 0 max_file_count
          (some q)
        ≡ first.path ∷ rest)
      × Member first fs
      × NoneNewer first.mtime fs
delete_loop-NoneNewer q₀ q fs max_file_count empty has more =
    let order = subst IsOrder (sym has.ordered) oldest_file_compare-IsOrder in
    let (top, q', popped, size, below, contents) =
      pop_lem q order (subst (λ c. IsHeap c q.buffer q.size) (sym has.ordered) has.heap)
        (omega (arith, has.size)) in
    let below' : (i : ℕ) → i < q.size → Below oldest_file_compare (q.buffer i) top =
      subst (λ c. (i : ℕ) → i < q.size → Below c (q.buffer i) top) has.ordered below in
    let all_old = count-none_newer q.buffer q.size top below' in
    let kept : count (same_file top) q'.buffer q'.size + 1 ≡ count (same_file top) q.buffer q.size =
      subst
        (λ b.
          count (same_file top) q'.buffer q'.size + (if b then 1 else 0)
          ≡ count (same_file top) q.buffer q.size)
        (same_file_refl top) (contents (same_file top)) in
    let whole : q.size ≡ suc q'.size = omega (arith, size) in
    (
      top,
      delete_loop q'.size always 1 max_file_count (some q'),
      ap (λ n. delete_loop n always 0 max_file_count (some q)) whole
          ∙ delete_loop-first q'.size max_file_count 0 q q' top (omega (arith, has.size)) popped,
      count_list-Member top fs (
          omega (
            arith,
            kept,
            has.contents (same_file top),
            ap (count (same_file top) q₀.buffer) empty,
          )),
      count_list-NoneNewer top.mtime fs (
          omega (
            arith,
            all_old,
            has.contents (newer top.mtime),
            ap (count (newer top.mtime) q₀.buffer) empty,
          )),
    )

-- Where memory is at hand and the history has more files than the maximum, but no more than 128,
-- `SilogFileManagerCleanOldFiles` first deletes the path of a file of the history, where the history holds no file that was modified
-- later: the newest file goes first.
pub clean_old_files-NoneNewer :
    (malloc : Malloc FileInfo) (queue : PQueue FileInfo) (log_dir base : List ℕ)
    (max_file_count : ℕ) (entries : List DirEntry) {buffer : ℕ → FileInfo}
    → malloc 66_560 ≡ some buffer
    → max_file_count < length (history log_dir (take 127 (base ++ b'_' ∷ [])) entries)
    → length (history log_dir (take 127 (base ++ b'_' ∷ [])) entries) ≤ 128
    → (first : FileInfo) × (rest : List (List ℕ)) × (clean_old_files malloc always always queue
          log_dir base max_file_count
          (some entries)
        ≡ (ok, first.path ∷ rest))
      × Member first (history log_dir (take 127 (base ++ b'_' ∷ [])) entries)
      × NoneNewer first.mtime (history log_dir (take 127 (base ++ b'_' ∷ [])) entries)
unfolding size_of
clean_old_files-NoneNewer malloc queue log_dir base max_file_count entries {buffer} answer more
      fits =
    let prefix = take 127 (base ++ b'_' ∷ []) in
    let (q, filled, has) =
      collect-Filled log_dir prefix 0 entries (made buffer) refl (λ i p lt. absurd (omega arith))
        (made-IsBacked buffer) (omega arith) in
    let (first, rest, e, found, old) =
      delete_loop-NoneNewer (made buffer) q (history log_dir prefix entries) max_file_count refl has
        more in
    (
      first,
      rest,
      clean_old_files-loop malloc queue log_dir base max_file_count entries answer
          ∙ (ap
                (λ (f : Option (PQueue FileInfo)).
                  (ok, delete_loop (size_of f) always 0 max_file_count f))
                filled
              ∙ ap (λ l. (ok, l)) e),
      found,
      old,
    )
