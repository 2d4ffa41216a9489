-- ===== src/Clean/Collect.antt =====
-- `SilogFileManagerCleanOldFiles` of silog_dae/src/silog_file_manager.c: what the queue holds after
-- the loop over the directory.
use si_log.Base.{
  ℕ, suc, ◌+◌, ◌≤◌, ◌<◌, ◌≡◌, ◌∙◌, refl, sym, ap, subst, Bool, true, none, some, List, [], ◌∷◌,
  if◌then◌else◌, length, Option-cases, inl, inr, arith,
}
use si_log.Errors.{ok}
use si_log.PQueue.{PQueue, push}
use si_log.PQueue.Order.{IsOrder, IsHeap}
use si_log.PQueue.Contents.{count}
use si_log.PQueue.Push.{IsBacked, push_lem}
use si_log.Clean.{FileInfo, DirEntry, oldest_file_compare, is_history, path_in, collect}

-- The files that the directory's history consists of, as the queue stores them.
abbrev pub history : List ℕ → List ℕ → List DirEntry → List FileInfo
history log_dir prefix [] = []
history log_dir prefix (e ∷ entries) = elim (if is_history prefix e.name then e.mtime else none) [
  | none ↦ history log_dir prefix entries
  | some t ↦ record { path = path_in log_dir e.name; mtime = t } ∷ history log_dir prefix entries
]

abbrev pub count_list : (FileInfo → Bool) → List FileInfo → ℕ
count_list p [] = 0
count_list p (f ∷ fs) = (if p f then 1 else 0) + count_list p fs

pub oldest_file_compare-IsOrder : IsOrder oldest_file_compare
unfolding oldest_file_compare
oldest_file_compare-IsOrder = record {
  below_refl = λ a. ground arith;
  below_of_above = λ a b h. ground arith;
  below_trans = λ a b c h k. ground arith;
}

-- A queue of files with the old ones of `q` and those of a list.
pub record Filled (q : PQueue FileInfo) (fs : List FileInfo) (q' : PQueue FileInfo) : Type 0 where
  pub ordered : q'.compare ≡ oldest_file_compare
  pub heap : IsHeap oldest_file_compare q'.buffer q'.size
  pub size : q'.size ≡ q.size + length fs
  pub contents :
      (p : FileInfo → Bool) → count p q'.buffer q'.size ≡ count p q.buffer q.size + count_list p fs

abbrev pub always : ℕ → Bool
always i = true

push-Filled :
    (q : PQueue FileInfo) (f : FileInfo)
    → q.compare ≡ oldest_file_compare
    → IsHeap oldest_file_compare q.buffer q.size
    → IsBacked q
    → q.size < q.capacity
    → (q' : PQueue FileInfo) × (push true (some q) (some f) ≡ (ok, some q'))
      × IsBacked q'
      × (q'.capacity ≡ q.capacity)
      × Filled q (f ∷ []) q'
push-Filled q f same heap backed room =
    let (q', e, same', heap', contents) =
      push_lem q f (subst IsOrder (sym same) oldest_file_compare-IsOrder)
        (subst (λ c. IsHeap c q.buffer q.size) (sym same) heap) backed room in
    (
      q',
      e,
      subst IsBacked (sym same') backed,
      ap (λ (r : PQueue FileInfo). r.capacity) same',
      record {
        ordered = ap (λ (r : PQueue FileInfo). r.compare) same' ∙ same;
        heap = subst (λ c. IsHeap c q'.buffer q'.size) same heap';
        size = omega (arith, ap (λ (r : PQueue FileInfo). r.size) same');
        contents = λ p. omega (arith, contents p);
      },
    )

pub collect-Filled :
    (log_dir prefix : List ℕ) (i : ℕ) (entries : List DirEntry) (q : PQueue FileInfo)
    → q.compare ≡ oldest_file_compare
    → IsHeap oldest_file_compare q.buffer q.size
    → IsBacked q
    → q.size + length (history log_dir prefix entries) ≤ q.capacity
    → (q' : PQueue FileInfo) × (collect always log_dir prefix i entries (some q) ≡ some q')
      × Filled q (history log_dir prefix entries) q'
unfolding collect
collect-Filled log_dir prefix i [] q same heap backed room = (
  q,
  refl,
  record { ordered = same; heap = heap; size = omega arith; contents = λ p. omega arith },
)
collect-Filled log_dir prefix i (e ∷ entries) q same heap backed room =
    elim (Option-cases (if is_history prefix e.name then e.mtime else none)) [
      | inl skip ↦
          rw (collect, history, skip)
            (collect-Filled log_dir prefix (i + 1) entries q same heap backed
              (rw (history, skip) at room))
      | inr (t, kept) ↦
          let f : FileInfo = record { path = path_in log_dir e.name; mtime = t } in
          let room' : q.size + suc (length (history log_dir prefix entries)) ≤ q.capacity =
            rw (history, kept) at room in
          let (q', pushed, backed', capacity, one) =
            push-Filled q f same heap backed (omega arith) in
          let (q'', e'', rest) =
            collect-Filled log_dir prefix (i + 1) entries q' one.ordered one.heap backed'
              (omega (arith, one.size)) in
          rw (collect, history, kept)
            (
              q'',
              ap (λ r. collect always log_dir prefix (i + 1) entries r.1) pushed ∙ e'',
              record {
                ordered = rest.ordered;
                heap = rest.heap;
                size = omega (arith, rest.size, one.size);
                contents = λ p. omega (arith, rest.contents p, one.contents p);
              },
            )
    ]
