-- ===== src/Pcbuffer/Fifo.antt =====
-- our-course/labs/lab05-concurrency/part3-pcbuffer/solutions/pcbuffer.c: the ring of slots holds the
-- items put and not yet taken, in their order.
use native.Mathlib.Nat.{mod-lt, mod-add-mod, mod-eq_of_lt, mod-eq-sub-mod}
use ia_operating_systems.Base.{
  ℕ, ◌+◌, ◌-◌, ◌%◌, ◌≤◌, ◌<◌, ◌≡◌, ◌≢◌, ◌⊎◌, inl, inr, some, update_ne, arith, refl, ap, sym, ◌∙◌,
  subst, dec_lt, ℕ_discrete,
}
use ia_operating_systems.Pcbuffer.{
  Buffer, pcb_init, store_item, take_item, Pc, idle, put_store, get_take, Call, advance,
}
use ia_operating_systems.Pcbuffer.Counts.{p_store, g_take}

pub record FifoInv (b : Buffer) : Type 0 where
  pub some_room : 1 ≤ b.capacity
  pub fits : b.count ≤ b.capacity
  pub flow : b.puts ≡ b.gets + b.count
  pub front : b.head ≡ b.gets % b.capacity
  pub back : b.tail ≡ b.puts % b.capacity
  pub stored : (k : ℕ) → b.gets ≤ k → k < b.puts → b.slots (k % b.capacity) ≡ b.put_items k
  pub taken : (k : ℕ) → k < b.gets → b.got_items k ≡ b.put_items k

-- Positions less than one round apart are different slots.
slots_apart : (k p n : ℕ) → k < p → p < k + n → k % n ≢ p % n
slots_apart k p n h l e = elim (dec_lt (k % n + (p - k)) n) [
  | yes below ↦ omega (arith, e, again, mod-eq_of_lt below)
  | no past ↦ omega (
    arith,
    e,
    again,
    mod-eq-sub-mod {n = k % n + (p - k)} {m = n} (omega arith),
    remainder,
    mod-eq_of_lt {n = k % n + (p - k) - n} {m = n} (omega (arith, remainder)),
  )
]
  where
    remainder : k % n < n
    remainder = mod-lt k (omega arith)

    again : (k % n + (p - k)) % n ≡ p % n
    again = mod-add-mod k n (p - k) ∙ ap (λ x. x % n) (omega arith)

next_slot : (n k : ℕ) → (k % n + 1) % n ≡ (k + 1) % n
next_slot n k = mod-add-mod k n 1

pub store_item-FifoInv :
    {b : Buffer} (item : ℕ) → FifoInv b → b.count < b.capacity → FifoInv (store_item b item)
unfolding store_item
store_item-FifoInv {b} item v room = record {
  some_room = v.some_room;
  fits = omega (arith, room);
  flow = omega (arith, v.flow);
  front = v.front;
  back = ap (λ t. (t + 1) % b.capacity) v.back ∙ next_slot b.capacity b.puts;
  stored = λ k low high. elim (ℕ_discrete b.puts k) [
    | yes here ↦ ground (arith, v.back)
    | no below ↦
        update_ne b.slots b.tail item (k % b.capacity) (λ e.
          slots_apart k b.puts b.capacity (omega arith) (omega (arith, v.flow)) (sym e ∙ v.back))
        ∙ v.stored k low (omega arith)
        ∙ sym (update_ne b.put_items b.puts item k below)
  ];
  taken =
      λ k lt. v.taken k lt ∙ sym (update_ne b.put_items b.puts item k (λ e. omega (arith, v.flow)));
}

pub take_item-FifoInv : {b : Buffer} → FifoInv b → 1 ≤ b.count → FifoInv (take_item b)
unfolding take_item
take_item-FifoInv {b} v more = record {
  some_room = v.some_room;
  fits = omega (arith, v.fits);
  flow = omega (arith, v.flow, more);
  front = ap (λ h. (h + 1) % b.capacity) v.front ∙ next_slot b.capacity b.gets;
  back = v.back;
  stored = λ k low high. v.stored k (omega arith) high;
  taken = λ k lt. elim (ℕ_discrete b.gets k) [
    | yes here ↦ ground (arith, v.front, v.stored b.gets, v.flow)
    | no below ↦ update_ne b.got_items b.gets (b.slots b.head) k below ∙ v.taken k (omega arith)
  ];
}

-- What a step does to the buffer: it moves the mutex at most, or it stores or takes an item.
Change : Buffer → Pc → Buffer → Type 0
Change b q b' =
    (b' ≡ record b { lock = b'.lock })
    ⊎ ((1 ≤ p_store q) × ((item : ℕ) × (b' ≡ store_item b item)))
    ⊎ ((1 ≤ g_take q) × (b' ≡ take_item b))

advance-Change :
    (b : Buffer) {b' : Buffer} {p : Pc} (call : Call) (q : Pc)
    → advance call b q ≡ some (b', p)
    → Change b q b'
unfolding advance Change
advance-Change b call idle e = inl (ground arith)
advance-Change b call (put_store item) e = inr (inl (omega arith, (item, ground arith)))
advance-Change b call get_take e = inr (inr (omega arith, ground arith))
advance-Change b call q e = inl (ground arith)

lock-FifoInv : {b : Buffer} (l : ℕ) → FifoInv b → FifoInv (record b { lock = l })
lock-FifoInv l v = record {
  some_room = v.some_room;
  fits = v.fits;
  flow = v.flow;
  front = v.front;
  back = v.back;
  stored = v.stored;
  taken = v.taken;
}

pub advance-FifoInv :
    {b b' : Buffer} {p : Pc} (call : Call) (q : Pc)
    → FifoInv b
    → (1 ≤ p_store q → b.count < b.capacity)
    → (1 ≤ g_take q → 1 ≤ b.count)
    → advance call b q ≡ some (b', p)
    → FifoInv b' × (b'.capacity ≡ b.capacity)
unfolding Change store_item take_item
advance-FifoInv {b} {b'} call q v room more e = elim (advance-Change b call q e) [
  | inl same ↦ (subst FifoInv (sym same) (lock-FifoInv b'.lock v), ap (λ x. x.capacity) same)
  | inr (inl (h, (item, put))) ↦
      (subst FifoInv (sym put) (store_item-FifoInv item v (room h)), ap (λ x. x.capacity) put)
  | inr (inr (h, got)) ↦
      (subst FifoInv (sym got) (take_item-FifoInv v (more h)), ap (λ x. x.capacity) got)
]

pub pcb_init-FifoInv : (capacity : ℕ) → 1 ≤ capacity → FifoInv (pcb_init capacity)
pcb_init-FifoInv capacity h = record {
  some_room = h;
  fits = omega arith;
  flow = refl;
  front = sym (mod-eq_of_lt h);
  back = sym (mod-eq_of_lt h);
  stored = λ k low high. absurd (omega arith);
  taken = λ k lt. absurd (omega arith);
}
