-- ===== src/Kernel/Task/Stack.antt =====
-- The stack of a new task passes the scheduler's overflow check.
use rpitos.Prelude.{
  ℕ, zero, suc, ◌+◌, ◌-◌, ◌*◌, ◌%◌, ◌^◌, ◌<◌, ◌≡◌, ◌≢◌, refl, ap, ◌∙◌, true, false, Option, none,
  some, List, ◌++◌, leb, ◌==◌, update, arith, length, length-append, Bool-cases, Option-cases, inl,
  inr,
}
use rpitos.Status.{Status, e_ok, e_out_of_mem, e_resource_exhausted, Run, done}
use rpitos.Kernel.Links.{set_item, state_item, event_item}
use rpitos.Kernel.State.{set_links, Kernel, Tcb, ready, max_num_tasks, pool_tcb, set_tcb}
use rpitos.Kernel.Scheduler.Ready.{out_of_range}
use rpitos.Kernel.Scheduler.Ready.Priority.{tcb-add_to_ready_list}
use rpitos.Kernel.Scheduler.Switch.{overflowed}
use rpitos.Kernel.Heap.{malloc}
use rpitos.Kernel.Task.{free_item, copies, frame, init_stack, clamp, new_tcb, enter, create}

-- A task that is ready to be dispatched, with the words of its stack.
pub record IsFresh (core stack_depth priority : ℕ) (t : ℕ) (k : Kernel) : Type 0 where
  pub words : List ℕ
  pub stack : (k.tcb t).stack ≡ some words
  pub size : length words ≡ stack_depth
  pub intact : overflowed (some words) ≡ false
  pub state : (k.tcb t).current_state ≡ ready
  pub priority_of : (k.tcb t).priority ≡ clamp priority
  pub inside : out_of_range (k.tcb t) ≡ false
  pub sp : (k.tcb t).current_sp + 16 ≡ stack_depth

-- What task_create does.
pub data Creates (core stack_depth priority : ℕ) (counter : ℕ → ℕ) (offset : ℕ) (k : Kernel)
    : Run (Status × Option ℕ × (ℕ → ℕ) × ℕ × Kernel) → Type 0 where
  exhausted :
      counter core ≡ max_num_tasks
      → Creates core stack_depth priority counter offset k
          (done (e_resource_exhausted, none, counter, offset, k))
  no_memory :
      (offset' : ℕ) (k' : Kernel)
      → counter core ≢ max_num_tasks
      → (malloc (4 * stack_depth % 2 ^ 32) offset).0 ≡ none
      → k'.links ≡ k.links
      → Creates core stack_depth priority counter offset k
          (done (e_out_of_mem, some (pool_tcb core (counter core)), counter, offset', k'))
  created :
      (offset' block : ℕ) (k' : Kernel)
      → counter core ≢ max_num_tasks
      → malloc (4 * stack_depth % 2 ^ 32) offset ≡ (some block, offset')
      → IsFresh core stack_depth priority (pool_tcb core (counter core)) k'
      → Creates core stack_depth priority counter offset k (
          done (
            e_ok,
            some (pool_tcb core (counter core)),
            update counter core ((counter core + 1) % 2 ^ 16),
            offset',
            k',
          ))

lt_not_le : (a b : ℕ) → a < b → leb b a ≡ false
lt_not_le a b h = ground (arith, h)

length-copies : (n w : ℕ) → length (copies n w) ≡ n
length-copies zero w = refl
length-copies (suc n) w = ap suc (length-copies n w)

length-frame : (f x p : ℕ) → length (frame f x p) ≡ 16
unfolding frame
length-frame f x p = refl

abbrev words_of : ℕ → ℕ → ℕ → ℕ → List ℕ
words_of depth f x p = copies (depth - 16) 0x5A ++ frame f x p

length-words_of : (depth f x p : ℕ) → 16 < depth → length (words_of depth f x p) ≡ depth
length-words_of depth f x p h = omega (
  arith,
  h,
  length-append (copies (depth - 16) 0x5A) (frame f x p),
  length-copies (depth - 16) 0x5A,
  length-frame f x p,
)

intact_words : (n : ℕ) (ws : List ℕ) → 0 < n → overflowed (some (copies n 0x5A ++ ws)) ≡ false
intact_words zero ws h = absurd (omega arith)
intact_words (suc n) ws h = refl

tcb-enter :
    (t : ℕ) (v : Tcb) (k : Kernel)
    → out_of_range v ≡ false
    → (enter t v k).tcb t ≡ record v { current_state = ready }
unfolding enter
tcb-enter t v k inside =
    let m = set_item (event_item t) (free_item t) (set_item (state_item t) (free_item t) k.links) in
    let k1 = set_tcb t v (set_links m k) in
    let self : k1.tcb t ≡ v = ground arith in
    tcb-add_to_ready_list t t k1 ∙ rw (self, inside) (ground arith)

clamp_lt : (priority : ℕ) → clamp priority < 6
clamp_lt priority = ground arith

enter-IsFresh :
    (core id depth priority f x p t : ℕ) (k : Kernel)
    → core < 4
    → 16 < depth
    → IsFresh core depth priority t
        (enter t (new_tcb core id depth (clamp priority) (words_of depth f x p) (k.tcb t)) k)
unfolding new_tcb
enter-IsFresh core id depth priority f x p t k b h =
    let v = new_tcb core id depth (clamp priority) (words_of depth f x p) (k.tcb t) in
    let c = clamp_lt priority in
    let inside : out_of_range v ≡ false =
      simp (lt_not_le (clamp priority) 6 c, lt_not_le core 4 b) refl in
    let e = tcb-enter t v k inside in
    record {
      words = words_of depth f x p;
      stack = ap (λ r. r.stack) e;
      size = length-words_of depth f x p h;
      intact = intact_words (depth - 16) (frame f x p) (omega (arith, h));
      state = ap (λ r. r.current_state) e;
      priority_of = ap (λ r. r.priority) e;
      inside = ap out_of_range e ∙ inside;
      sp = ap (λ r. r.current_sp + 16) e ∙ omega (arith, h);
    }

create_words :
    (core f x depth priority p : ℕ) (counter : ℕ → ℕ) (offset : ℕ) (k : Kernel)
    → core < 4
    → 16 < depth
    → (counter core == max_num_tasks) ≡ false
    → Creates core depth priority counter offset k
        (create core f x depth priority p counter offset k)
unfolding create init_stack
create_words core f x depth priority p counter offset k b h room =
    let (block, offset') = malloc (4 * depth % 2 ^ 32) offset in
    let enough : leb 16 depth ≡ true = ground (arith, h) in
    elim (Option-cases ((malloc (4 * depth % 2 ^ 32) offset).0)) [
      | inl e ↦ rw (room, e) (no_memory offset' _ (ground arith) e refl)
      | inr (a, e) ↦
          rw (room, e, enough)
            (created offset' a _ (ground arith) (ap (λ o. (o, offset')) e) (
              enter-IsFresh core (counter core) depth priority f x p (pool_tcb core (counter core))
                k b h))
    ]

-- task_create, on a core below COMPANION_CORE_MAX_CORES and with more than sixteen stack words, returns:
-- E_RESOURCE_EXHAUSTED with nothing changed when the pool of the core is used up, E_OUT_OF_MEM with the
-- lists unchanged when heap_malloc gives no block, and otherwise E_OK, with the next task of the pool
-- READY at the clamped priority, its stack of the wanted size, its saved stack pointer sixteen words below the end, and not counted
-- as overwritten by the check of scheduler_switch_context.
pub create-Creates :
    (core f x depth priority p : ℕ) (counter : ℕ → ℕ) (offset : ℕ) (k : Kernel)
    → core < 4
    → 16 < depth
    → Creates core depth priority counter offset k
        (create core f x depth priority p counter offset k)
unfolding create
create-Creates core f x depth priority p counter offset k b h =
    elim (Bool-cases (counter core == max_num_tasks)) [
      | inl e ↦ rw e (exhausted (ground (arith, e)))
      | inr e ↦ create_words core f x depth priority p counter offset k b h e
    ]
