-- ===== src/Reconcile/UnqueuedTasks.antt =====
-- src/reconcile/context.rs: `UnqueuedTasks`, tasks that are kept under an id until they are queued.
-- The map from ids to tasks is a list of entries; ids are 64 bits wide.
mod Tests
use ensync.Base.{
  ℕ, zero, suc, ◌+◌, ◌%◌, ◌^◌, ◌==◌, ◌≤◌, ◌<◌, ◌≡◌, ◌≢◌, refl, sym, ap, ◌∙◌, Bool, true, false,
  ◌||◌, not, Option, none, some, List, [], ◌∷◌, length, map, if◌then◌else◌, arith, Bool-cases, inl,
  inr,
}

-- `next_id + Wrapping(1)`
abbrev next : ℕ → ℕ
next id = (id + 1) % 2 ^ 64

-- `UnqueuedTasksData`
pub record UnqueuedTasks (T : Type 0) : Type 0 where
  pub tasks : List (ℕ × T)
  pub next_id : ℕ

unfoldable pub has_id : ℕ → List ℕ → Bool
has_id id [] = false
has_id id (j ∷ js) = j == id || has_id id js

module _ {T : Type 0} where
  abbrev pub ids : List (ℕ × T) → List ℕ
  ids ts = map (λ e. e.0) ts

  unfoldable pub find_task : ℕ → List (ℕ × T) → Option T
  find_task id [] = none
  find_task id ((j, t) ∷ ts) = if j == id then some t else find_task id ts

  unfoldable pub remove_task : ℕ → List (ℕ × T) → List (ℕ × T)
  remove_task id [] = []
  remove_task id ((j, t) ∷ ts) =
      let rest = remove_task id ts in if j == id then rest else (j, t) ∷ rest

  -- `while lock.tasks.contains_key(&lock.next_id.0)`, with the rounds that are left.
  unfoldable pub first_id : ℕ → List (ℕ × T) → ℕ → Option ℕ
  unfolding has_id
  first_id zero ts id = none
  first_id (suc rounds) ts id =
      let rest = first_id rounds ts (next id) in if has_id id (ids ts) then rest else some id

  kept_under : T → UnqueuedTasks T → Option ℕ → Option (ℕ × UnqueuedTasks T)
  kept_under t self none = none
  kept_under t self (some id) =
      some (id, record { tasks = (id, t) ∷ self.tasks; next_id = next id })

  -- `tasks.put(task)`. There is one more round than there are tasks.
  unfoldable pub put : T → UnqueuedTasks T → Option (ℕ × UnqueuedTasks T)
  unfolding kept_under first_id
  put t self = kept_under t self (first_id (length self.tasks + 1) self.tasks self.next_id)

  taken : ℕ → UnqueuedTasks T → Option T → Option (T × UnqueuedTasks T)
  unfolding remove_task
  taken id self none = none
  taken id self (some t) = some (t, record self { tasks = remove_task id self.tasks })

  -- `tasks.get(id)`. `none` is the panic of its `unwrap`.
  unfoldable pub get : ℕ → UnqueuedTasks T → Option (T × UnqueuedTasks T)
  unfolding taken find_task
  get id self = taken id self (find_task id self.tasks)

-- The ids without `x`.
without_id : ℕ → List ℕ → List ℕ
without_id x [] = []
without_id x (y ∷ ys) = let rest = without_id x ys in if y == x then rest else y ∷ rest

length-without_id-le : (x : ℕ) (l : List ℕ) → length (without_id x l) ≤ length l
unfolding without_id
length-without_id-le x [] = omega arith
length-without_id-le x (y ∷ ys) = ground (arith, length-without_id-le x ys)

length-without_id : (x : ℕ) (l : List ℕ) → has_id x l ≡ true → length (without_id x l) < length l
unfolding without_id has_id
length-without_id x [] h = cc
length-without_id x (y ∷ ys) h = ground (arith, length-without_id x ys, length-without_id-le x ys)

has_id-without_id :
    (x z : ℕ) (l : List ℕ) → x ≢ z → has_id z l ≡ true → has_id z (without_id x l) ≡ true
unfolding without_id has_id
has_id-without_id x z [] d h = h
has_id-without_id x z (y ∷ ys) d h = ground (arith, has_id-without_id x z ys d)

module _ {T : Type 0} where
  -- Among more ids in a row than there are tasks, one is free.
  first_id-some :
      (ts : List (ℕ × T)) (rounds id : ℕ) (l : List ℕ)
      → id < 2 ^ 64
      → rounds ≤ 2 ^ 64
      → ((i : ℕ)
          → i < rounds
          → has_id ((id + i) % 2 ^ 64) (ids ts) ≡ true
          → has_id ((id + i) % 2 ^ 64) l ≡ true)
      → length l < rounds
      → (r : ℕ) × (first_id rounds ts id ≡ some r) × (r < 2 ^ 64) × (has_id r (ids ts) ≡ false)
  unfolding first_id
  first_id-some ts zero id l b k fits h = elim h [ ]
  first_id-some ts (suc rounds) id l b k fits h = elim (Bool-cases (has_id id (ids ts))) [
    | inr free ↦ (id, rw free refl, b, free)
    | inl used ↦
        let here : (id + 0) % 2 ^ 64 ≡ id = omega arith in
        let there : has_id id l ≡ true = rw here at (fits 0 (omega arith) (rw here used)) in
        let (r, e, p, q) =
          first_id-some ts rounds (next id) (without_id id l) (omega arith) (omega arith)
            (λ i lt u.
              let step : (next id + i) % 2 ^ 64 ≡ (id + (i + 1)) % 2 ^ 64 = omega arith in
              rw step (
                has_id-without_id id ((id + (i + 1)) % 2 ^ 64) l (λ w. absurd (omega arith))
                  (fits (i + 1) (omega arith) (rw step at u))))
            (omega (arith, length-without_id id l there)) in
        (r, rw used e, p, q)
  ]

  first_id-free :
      (ts : List (ℕ × T)) (rounds id r : ℕ)
      → first_id rounds ts id ≡ some r
      → has_id r (ids ts) ≡ false
  unfolding first_id
  first_id-free ts zero id r h = cc
  first_id-free ts (suc rounds) id r h = elim (Bool-cases (has_id id (ids ts))) [
    | inr free ↦ let e : id ≡ r = ground arith in rw (← e) free
    | inl used ↦ first_id-free ts rounds (next id) r (ground arith)
  ]

  remove_task-absent :
      (id : ℕ) (ts : List (ℕ × T)) → has_id id (ids ts) ≡ false → remove_task id ts ≡ ts
  unfolding remove_task has_id
  remove_task-absent id [] h = refl
  remove_task-absent id ((j, t) ∷ ts) h = ground (arith, remove_task-absent id ts)

  -- What `put` returns: an id that no task has and that is 64 bits wide, like the next id, and a table
  -- with one more task.
  pub record IsFresh (t : T) (s : UnqueuedTasks T) (id : ℕ) (s' : UnqueuedTasks T) : Type 0 where
    pub is_kept : put t s ≡ some (id, s')
    pub id_fits : id < 2 ^ 64
    pub next_fits : s'.next_id < 2 ^ 64
    pub is_new : has_id id (ids s.tasks) ≡ false
    pub grown : s'.tasks ≡ (id, t) ∷ s.tasks

  -- With fewer than `2 ^ 64` tasks the loop of `put` ends, also where the next id wraps around, with
  -- an id that no task has; the id and the next id are 64 bits wide.
  pub put-IsFresh :
      (t : T) (s : UnqueuedTasks T)
      → s.next_id < 2 ^ 64
      → length s.tasks < 2 ^ 64
      → (id : ℕ) × (s' : UnqueuedTasks T) × IsFresh t s id s'
  unfolding put kept_under
  put-IsFresh t s b n =
      let (r, e, p, q) =
        first_id-some s.tasks (length s.tasks + 1) s.next_id (ids s.tasks) b (omega arith)
          (λ i lt u. u) (omega (arith, length-ids s.tasks)) in
      (
        r,
        record { tasks = (r, t) ∷ s.tasks; next_id = next r },
        record {
          is_kept = rw e refl;
          id_fits = p;
          next_fits = omega arith;
          is_new = q;
          grown = refl;
        },
      )
    where
      length-ids : (ts : List (ℕ × T)) → length (ids ts) ≡ length ts
      length-ids [] = refl
      length-ids (e ∷ ts) = omega (arith, length-ids ts)

  kept_under-eq :
      (t : T) (s : UnqueuedTasks T) (id : ℕ) (s' : UnqueuedTasks T) (o : Option ℕ)
      → kept_under t s o ≡ some (id, s')
      → (o ≡ some id) × (s' ≡ record { tasks = (id, t) ∷ s.tasks; next_id = next id })
  unfolding kept_under
  kept_under-eq t s id s' none h = cc
  kept_under-eq t s id s' (some j) h =
      let e : j ≡ id = ap (λ o. id_of o) h in
      (
        ap some e,
        sym (ap (λ o. rest_of o) h)
            ∙ ap (λ j. record { tasks = (j, t) ∷ s.tasks; next_id = next j }) e,
      )
    where
      id_of : Option (ℕ × UnqueuedTasks T) → ℕ
      id_of none = 0
      id_of (some (i, _)) = i

      rest_of : Option (ℕ × UnqueuedTasks T) → UnqueuedTasks T
      rest_of none = s'
      rest_of (some (_, x)) = x

  get-there :
      (id : ℕ) (t : T) (ts : List (ℕ × T)) (n : ℕ)
      → has_id id (ids ts) ≡ false
      → get id (record { tasks = (id, t) ∷ ts; next_id = n })
        ≡ some (t, record { tasks = ts; next_id = n })
  unfolding get taken find_task remove_task
  get-there id t ts n h =
      let r : (id == id) ≡ true = ground arith in rw (r, remove_task-absent id ts h, r) refl

  -- The task that was put under an id is what `get` returns for it, and the table is then as it was
  -- before; until then every other id finds what it found before.
  pub get-put :
      (t : T) (s s' : UnqueuedTasks T) (id : ℕ)
      → put t s ≡ some (id, s')
      → (get id s' ≡ some (t, record { tasks = s.tasks; next_id = s'.next_id }))
        × ((k : ℕ) → k ≢ id → find_task k s'.tasks ≡ find_task k s.tasks)
  unfolding put find_task
  get-put t s s' id h =
      let (e, q) = kept_under-eq t s id s' _ h in
      let free = first_id-free s.tasks (length s.tasks + 1) s.next_id id e in
      rw q (get-there id t s.tasks (next id) free, λ k d. ground arith)
