-- ===== src/XList/Counts.antt =====
-- How many pointers there are on a node of the list (include/xlist.hpp): the `_M_next` and
-- `_M_prev` of the nodes, and the iterators in the slots of the program that uses the list.
use pparam.Prelude.{
  ℕ, zero, suc, ◌+◌, ◌%◌, ◌≤◌, ◌<◌, ◌≡◌, ◌≢◌, refl, Bool, true, false, none, some, ◌==◌,
  if◌then◌else◌, arith, Bool-cases, inl, inr, ==_iff,
}
use pparam.XList.{uint_mod, update, Iterator}
use pparam.XList.Effects.{up, down}

abbrev pub hit : ℕ → ℕ → ℕ
hit p n = if p == n then 1 else 0

pub up_mod : (usage : ℕ → ℕ) (p n : ℕ) → up usage p n % uint_mod ≡ (usage n + hit p n) % uint_mod
unfolding up
up_mod usage p n = ground (arith, ==_iff p n)

pub down_mod :
    (usage : ℕ → ℕ) (p n : ℕ) → (down usage p n + hit p n) % uint_mod ≡ usage n % uint_mod
unfolding down
down_mod usage p n = ground (arith, ==_iff p n)

-- The pointers `field p` on `n`, of the living nodes `p` below `k`.
unfoldable pub pointers : (ℕ → Bool) → (ℕ → ℕ) → ℕ → ℕ → ℕ
pointers alive field n zero = 0
pointers alive field n (suc k) = pointers alive field n k + (if alive k then hit (field k) n else 0)

pub pointers_le : (alive : ℕ → Bool) (field : ℕ → ℕ) (n k : ℕ) → pointers alive field n k ≤ k
unfolding pointers
pointers_le alive field n zero = omega arith
pointers_le alive field n (suc k) = ground (arith, pointers_le alive field n k)

pointers-update_above :
    (alive : ℕ → Bool) (field : ℕ → ℕ) (n p q k : ℕ)
    → k ≤ p
    → pointers alive (update field p q) n k ≡ pointers alive field n k
unfolding pointers
pointers-update_above alive field n p q zero h = refl
pointers-update_above alive field n p q (suc k) h =
    ground (arith, pointers-update_above alive field n p q k)

pub pointers-update :
    (alive : ℕ → Bool) (field : ℕ → ℕ) (n p q k : ℕ)
    → p < k
    → alive p ≡ true
    → pointers alive (update field p q) n k + hit (field p) n ≡ pointers alive field n k + hit q n
unfolding pointers
pointers-update alive field n p q zero h live = absurd (omega arith)
pointers-update alive field n p q (suc k) h live = elim (Bool-cases (p == k)) [
  | inl e ↦ ground (arith, ==_iff p k, pointers-update_above alive field n p q k)
  | inr e ↦ ground (arith, ==_iff p k, pointers-update alive field n p q k)
]

alive_above :
    (alive : ℕ → Bool) (field : ℕ → ℕ) (n p k : ℕ) (b : Bool)
    → k ≤ p
    → pointers (update alive p b) field n k ≡ pointers alive field n k
unfolding pointers
alive_above alive field n p zero b h = refl
alive_above alive field n p (suc k) b h = ground (arith, alive_above alive field n p k b)

-- The pointers of a node that is destroyed are gone.
pub pointers_buried :
    (alive : ℕ → Bool) (field : ℕ → ℕ) (n p k : ℕ)
    → p < k
    → alive p ≡ true
    → pointers (update alive p false) field n k + hit (field p) n ≡ pointers alive field n k
unfolding pointers
pointers_buried alive field n p zero h live = absurd (omega arith)
pointers_buried alive field n p (suc k) h live = elim (Bool-cases (p == k)) [
  | inl e ↦ ground (arith, ==_iff p k, alive_above alive field n p k false)
  | inr e ↦ ground (arith, ==_iff p k, pointers_buried alive field n p k)
]

-- The pointer of a node that is created last.
pub pointers_created :
    (alive : ℕ → Bool) (field : ℕ → ℕ) (n q k : ℕ)
    → pointers (update alive k true) (update field k q) n (k + 1)
      ≡ pointers alive field n k + hit q n
unfolding pointers
pointers_created alive field n q k =
    let next : k + 1 ≡ suc k = omega arith in
    rw next (
      ground (
        arith,
        ==_iff k k,
        alive_above alive (update field k q) n k k true,
        pointers-update_above alive field n k q k,
      ))

-- A counted pointer makes the count positive.
pub pointers_pos :
    (alive : ℕ → Bool) (field : ℕ → ℕ) (n p k : ℕ)
    → p < k
    → alive p ≡ true
    → hit (field p) n ≤ pointers alive field n k
unfolding pointers
pointers_pos alive field n p zero h live = absurd (omega arith)
pointers_pos alive field n p (suc k) h live = elim (Bool-cases (p == k)) [
  | inl e ↦ ground (arith, ==_iff p k)
  | inr e ↦ ground (arith, ==_iff p k, pointers_pos alive field n p k)
]

-- No pointer leads to a node that every living node avoids.
pub pointers_none :
    (alive : ℕ → Bool) (field : ℕ → ℕ) (n k : ℕ)
    → ((p : ℕ) → alive p ≡ true → field p ≢ n)
    → pointers alive field n k ≡ 0
unfolding pointers
pointers_none alive field n zero avoid = refl
pointers_none alive field n (suc k) avoid = elim (Bool-cases (alive k)) [
  | inl live ↦ ground (arith, ==_iff (field k) n, avoid k live, pointers_none alive field n k avoid)
  | inr dead ↦ ground (arith, pointers_none alive field n k avoid)
]

abbrev pub hit_iterator : Iterator → ℕ → ℕ
hit_iterator it n = elim it.node [ none ↦ 0 | some p ↦ hit p n ]

-- The iterators on `n` in the first `k` slots.
unfoldable pub holders : (ℕ → Iterator) → ℕ → ℕ → ℕ
holders iter n zero = 0
holders iter n (suc k) = holders iter n k + hit_iterator (iter k) n

hit_iterator_le : (it : Iterator) (n : ℕ) → hit_iterator it n ≤ 1
hit_iterator_le it n = ground arith

pub holders_le : (iter : ℕ → Iterator) (n k : ℕ) → holders iter n k ≤ k
unfolding holders
holders_le iter n zero = omega arith
holders_le iter n (suc k) = omega (arith, holders_le iter n k, hit_iterator_le (iter k) n)

holders-update_above :
    (iter : ℕ → Iterator) (n i k : ℕ) (it : Iterator)
    → k ≤ i
    → holders (update iter i it) n k ≡ holders iter n k
unfolding holders
holders-update_above iter n i zero it h = refl
holders-update_above iter n i (suc k) it h = ground (arith, holders-update_above iter n i k it)

pub holders-update :
    (iter : ℕ → Iterator) (n i k : ℕ) (it : Iterator)
    → i < k
    → holders (update iter i it) n k + hit_iterator (iter i) n
      ≡ holders iter n k + hit_iterator it n
unfolding holders
holders-update iter n i zero it h = absurd (omega arith)
holders-update iter n i (suc k) it h = elim (Bool-cases (i == k)) [
  | inl e ↦ ground (arith, ==_iff i k, holders-update_above iter n i k it)
  | inr e ↦ ground (arith, ==_iff i k, holders-update iter n i k it)
]

pub holders_none :
    (iter : ℕ → Iterator) (n k : ℕ)
    → ((i : ℕ) → i < k → hit_iterator (iter i) n ≡ 0)
    → holders iter n k ≡ 0
unfolding holders
holders_none iter n zero avoid = refl
holders_none iter n (suc k) avoid =
    omega (arith, avoid k (omega arith), holders_none iter n k (λ i lt. avoid i (omega arith)))

pub holders_pos :
    (iter : ℕ → Iterator) (n i k : ℕ) → i < k → hit_iterator (iter i) n ≤ holders iter n k
unfolding holders
holders_pos iter n i zero h = absurd (omega arith)
holders_pos iter n i (suc k) h = elim (Bool-cases (i == k)) [
  | inl e ↦ ground (arith, ==_iff i k)
  | inr e ↦ ground (arith, ==_iff i k, holders_pos iter n i k)
]
