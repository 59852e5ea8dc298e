-- ===== src/Kernel/Links.antt =====
-- The intrusive doubly linked lists of source/kernel/task_types/task_types.h, and the pointer
-- writes that scheduler.c, mutex.c and semaphore.c share. A list item is known by its address:
-- each task control block holds two, `state_item` and `event_item`. A list is known by its
-- address too. `none` is NULL.
pub mod Chain
pub mod Cut
pub mod PushBack
pub mod Unlink
pub mod Splice
pub mod Contents
pub mod Index
use rpitos.Prelude.{
  Bool, false, ◌==◌, ℕ, ◌+◌, ◌*◌, ◌%◌, ◌^◌, Bool, Option, none, some, update, same_ptr,
  if◌then◌else◌,
}

pub record ListItem : Type 0 where
  pub next : Option ℕ
  pub prev : Option ℕ
  pub owner : ℕ
  pub container : Option ℕ

-- `struct List`; `num_items` is a `uint16_t`.
pub record TaskList : Type 0 where
  pub num_items : ℕ
  pub head : Option ℕ
  pub index : Option ℕ
  pub list_end : Option ℕ

abbrev pub empty_list : TaskList
empty_list = record { num_items = 0; head = none; index = none; list_end = none }

-- Where the two items of a task control block lie.
abbrev pub state_item : ℕ → ℕ
state_item t = 2 * t

abbrev pub event_item : ℕ → ℕ
event_item t = 2 * t + 1

-- The memory that holds the items and the lists.
pub record Links : Type 0 where
  pub item : ℕ → ListItem
  pub list : ℕ → TaskList

abbrev pub set_item : ℕ → ListItem → Links → Links
set_item i v m = record m { item = update m.item i v }

abbrev pub set_list : ℕ → TaskList → Links → Links
set_list l v m = record m { list = update m.list l v }

abbrev pub set_next : ℕ → Option ℕ → Links → Links
set_next i v m = set_item i (record (m.item i) { next = v }) m

abbrev pub set_prev : ℕ → Option ℕ → Links → Links
set_prev i v m = set_item i (record (m.item i) { prev = v }) m

abbrev pub set_head : ℕ → Option ℕ → Links → Links
set_head l v m = set_list l (record (m.list l) { head = v }) m

abbrev pub set_list_end : ℕ → Option ℕ → Links → Links
set_list_end l v m = set_list l (record (m.list l) { list_end = v }) m

abbrev pub set_index : ℕ → Option ℕ → Links → Links
set_index l v m = set_list l (record (m.list l) { index = v }) m

abbrev pub set_num_items : ℕ → ℕ → Links → Links
set_num_items l n m = set_list l (record (m.list l) { num_items = n }) m

-- `num_items++` and `num_items--`.
abbrev pub inc16 : ℕ → ℕ
inc16 n = (n + 1) % 2 ^ 16

abbrev pub dec16 : ℕ → ℕ
dec16 n = (n + 65535) % 2 ^ 16

-- `if (item->prev != NULL) item->prev->next = item->next; else list->head = item->next;`
unfoldable pub bypass_prev : ℕ → ℕ → Links → Links
bypass_prev i l m = elim ((m.item i).prev) [
  | none ↦ set_head l (m.item i).next m
  | some p ↦ set_next p (m.item i).next m
]

-- `if (item->next != NULL) item->next->prev = item->prev; else list->list_end = item->prev;`
unfoldable pub bypass_next : ℕ → ℕ → Links → Links
bypass_next i l m = elim ((m.item i).next) [
  | none ↦ set_list_end l (m.item i).prev m
  | some n ↦ set_prev n (m.item i).prev m
]

-- `if (list->index == item) list->index = (item->next != NULL) ? item->next : list->head;`
unfoldable pub advance_index : ℕ → ℕ → Links → Links
advance_index i l m =
    if same_ptr (m.list l).index (some i)
    then set_index l (elim ((m.item i).next) [ none ↦ (m.list l).head | some n ↦ some n ]) m
    else m

-- `item->next = NULL; item->prev = NULL; item->container = NULL;`
unfoldable pub clear_item : ℕ → Links → Links
clear_item i m = set_item i (record (m.item i) { next = none; prev = none; container = none }) m

-- The removal of timer_tick_handler, mutex_unlock and the blocked list: `index` stays.
unfoldable pub unlink : ℕ → ℕ → Links → Links
unfolding bypass_prev bypass_next clear_item
unlink i l m =
    let m1 = bypass_next i l (bypass_prev i l m) in
    clear_item i (set_num_items l (dec16 (m1.list l).num_items) m1)

-- The removal from a ready list, which moves `index` on.
unfoldable pub unlink_ready : ℕ → ℕ → Links → Links
unfolding bypass_prev bypass_next advance_index clear_item
unlink_ready i l m =
    let m1 = advance_index i l (bypass_next i l (bypass_prev i l m)) in
    clear_item i (set_num_items l (dec16 (m1.list l).num_items) m1)

-- The item's fields, and its place behind the last item.
unfoldable pub join_end : ℕ → ℕ → ℕ → Links → Links
join_end i owner l m =
    set_item i
      (record { next = none; prev = (m.list l).list_end; owner = owner; container = some l }) m

-- The append of mutex_add_to_blocked_list and semaphore_add_to_blocked_list: `index` stays.
unfoldable pub push_back : ℕ → ℕ → ℕ → Links → Links
unfolding join_end
push_back i owner l m =
    let m1 = join_end i owner l m in
    let m2 : Links = elim ((m1.list l).list_end) [
      | none ↦ set_head l (some i) m1
      | some e ↦ set_next e (some i) m1
    ] in
    let m3 = set_list_end l (some i) m2 in set_num_items l (inc16 (m3.list l).num_items) m3

-- The append of scheduler_add_to_ready_list: the first item becomes `index` too.
unfoldable pub push_back_ready : ℕ → ℕ → ℕ → Links → Links
unfolding join_end
push_back_ready i owner l m =
    let m1 = join_end i owner l m in
    let m2 : Links = elim ((m1.list l).list_end) [
      | none ↦ set_index l (some i) (set_head l (some i) m1)
      | some e ↦ set_next e (some i) m1
    ] in
    let m3 = set_list_end l (some i) m2 in set_num_items l (inc16 (m3.list l).num_items) m3

-- `item->container == list`.
abbrev pub in_list : Option ℕ → ℕ → Bool
in_list none l = false
in_list (some c) l = c == l
