-- ===== src/Remote/Server/Table.antt =====
-- The client table of silog_comm/src/silog_remote.c as a list: active slots, descriptors, free slots.
use si_log.Base.{
  ℕ, zero, suc, ◌+◌, ◌-◌, ◌&&◌, ltb, ◌≤◌, ◌<◌, ◌≡◌, ◌≢◌, refl, ap, false, none, some, List, [], ◌∷◌,
  ◌++◌, ◌==◌, if◌then◌else◌, length, get_or, set, replicate, arith, Bool-cases, inl, inr,
}
use si_log.Remote.Server.{Client, Manager, vacant, closed_by, find_free_from, close_client}

-- How often `x` stands in a list.
abbrev pub times : ℕ → List ℕ → ℕ
times x [] = 0
times x (y ∷ ys) = (if x == y then 1 else 0) + times x ys

pub times-append : (x : ℕ) (xs ys : List ℕ) → times x (xs ++ ys) ≡ times x xs + times x ys
times-append x [] ys = omega arith
times-append x (y ∷ xs) ys = omega (arith, times-append x xs ys)

abbrev pub count_active : List Client → ℕ
count_active [] = 0
count_active (c ∷ cs) = (if c.active then 1 else 0) + count_active cs

-- The descriptors of the active clients.
abbrev pub held : List Client → List ℕ
held [] = []
held (c ∷ cs) = closed_by c ++ held cs

-- An active slot has a descriptor, and a free one has none.
abbrev pub IsSlot : Client → Type 0
IsSlot c = if c.active then c.fd ≢ none else (c.fd ≡ none)

abbrev pub AllSlots : List Client → Type 0
AllSlots [] = Unit
AllSlots (c ∷ cs) = IsSlot c × AllSlots cs

pub count_active-set :
    (cs : List Client) (i : ℕ) (c : Client)
    → i < length cs
    → count_active (set cs i c) + (if (get_or cs i vacant).active then 1 else 0)
      ≡ count_active cs + (if c.active then 1 else 0)
count_active-set [] i c h = absurd (omega arith)
count_active-set (d ∷ cs) zero c h = omega arith
count_active-set (d ∷ cs) (suc i) c h = omega (arith, count_active-set cs i c (omega arith))

pub times-held-set :
    (x : ℕ) (cs : List Client) (i : ℕ) (c : Client)
    → i < length cs
    → times x (held (set cs i c)) + times x (closed_by (get_or cs i vacant))
      ≡ times x (held cs) + times x (closed_by c)
times-held-set x [] i c h = absurd (omega arith)
times-held-set x (d ∷ cs) zero c h =
    omega (arith, times-append x (closed_by d) (held cs), times-append x (closed_by c) (held cs))
times-held-set x (d ∷ cs) (suc i) c h = omega (
  arith,
  times-held-set x cs i c (omega arith),
  times-append x (closed_by d) (held cs),
  times-append x (closed_by d) (held (set cs i c)),
)

pub AllSlots-set :
    (cs : List Client) (i : ℕ) (c : Client) → AllSlots cs → IsSlot c → AllSlots (set cs i c)
AllSlots-set [] i c all s = tt
AllSlots-set (d ∷ cs) zero c all s = (s, all.1)
AllSlots-set (d ∷ cs) (suc i) c all s = (all.0, AllSlots-set cs i c all.1 s)

pub AllSlots-replicate : (n : ℕ) → AllSlots (replicate n vacant)
AllSlots-replicate zero = tt
AllSlots-replicate (suc n) = (refl, AllSlots-replicate n)

pub count_active-replicate : (n : ℕ) → count_active (replicate n vacant) ≡ 0
count_active-replicate zero = refl
count_active-replicate (suc n) = omega (arith, count_active-replicate n)

pub held-replicate : (n : ℕ) → held (replicate n vacant) ≡ []
held-replicate zero = refl
held-replicate (suc n) = held-replicate n

-- The slot found lies in the table and is not active.
pub find_free_from-some :
    (cs : List Client) (i : ℕ) {slot : ℕ}
    → find_free_from cs i ≡ some slot
    → (j : ℕ) × (slot ≡ i + j) × (j < length cs) × ((get_or cs j vacant).active ≡ false)
unfolding find_free_from
find_free_from-some [] i e = cc
find_free_from-some (c ∷ cs) i e = elim (Bool-cases c.active) [
  | inr free ↦ (0, ground arith, omega arith, free)
  | inl taken ↦
      let (j, at, inside, free) = find_free_from-some cs (i + 1) (rw taken at e) in
      (suc j, omega arith, omega arith, free)
]

-- None is found only where every slot is active.
pub find_free_from-none :
    (cs : List Client) (i : ℕ) → find_free_from cs i ≡ none → count_active cs ≡ length cs
unfolding find_free_from
find_free_from-none [] i e = refl
find_free_from-none (c ∷ cs) i e = ground (arith, find_free_from-none cs (i + 1))

pub count_active-le : (cs : List Client) → count_active cs ≤ length cs
count_active-le [] = omega arith
count_active-le (c ∷ cs) = ground (arith, count_active-le cs)

-- The slot behind a prefix.
pub get_or-middle :
    (pre : List Client) (c : Client) (cs : List Client)
    → get_or (pre ++ c ∷ cs) (length pre) vacant ≡ c
get_or-middle [] c cs = refl
get_or-middle (p ∷ pre) c cs = get_or-middle pre c cs

pub set-middle :
    (pre : List Client) (c d : Client) (cs : List Client)
    → set (pre ++ c ∷ cs) (length pre) d ≡ pre ++ d ∷ cs
set-middle [] c d cs = refl
set-middle (p ∷ pre) c d cs = ap (λ t. p ∷ t) (set-middle pre c d cs)

pub close_client-middle :
    (m : Manager) (pre : List Client) (c : Client) (cs : List Client)
    → m.clients ≡ pre ++ c ∷ cs
    → length pre < m.max_clients
    → close_client m (length pre) ≡ (
      record m {
        clients = pre ++ vacant ∷ cs;
        client_count =
            if c.active && ltb 0 m.client_count then m.client_count - 1 else m.client_count;
      },
      closed_by c,
    )
unfolding close_client
close_client-middle m pre c cs e lt = ground (
  arith,
  get_or-middle pre c cs,
  set-middle pre c vacant cs,
  ap (λ l. get_or l (length pre) vacant) e,
  ap (λ l. set l (length pre) vacant) e,
)
