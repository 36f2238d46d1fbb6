-- ===== src/Links.antt =====
-- The intrusive circular lists of kernel/include/kernel/list.h: `struct list_head` nodes at
-- addresses, with the `next` and `prev` pointers as functions of the address. A write to a field
-- updates the function at one address, in the order of the source.
pub mod Path
pub mod Queue
pub mod Ring
mod Tests
use swallow_os.Prelude.{ℕ, Bool, ◌==◌, update}

-- The `struct list_head`s in memory.
pub record Links : Type 0 where
  pub next : ℕ → ℕ
  pub prev : ℕ → ℕ

abbrev pub null : ℕ
null = 0

abbrev pub list_poison1 : ℕ
list_poison1 = 0x100

abbrev pub list_poison2 : ℕ
list_poison2 = 0x200

-- `INIT_LIST_HEAD`
unfoldable pub init_list_head : Links → ℕ → Links
init_list_head l list = record { next = update l.next list list; prev = update l.prev list list }

unfoldable pub is_last_entry : Links → ℕ → Bool
is_last_entry l h = l.next h == h

-- `__list_add`
unfoldable pub list_add_between : Links → ℕ → ℕ → ℕ → Links
list_add_between l new prev next = record {
  next = update (update l.next new next) prev new;
  prev = update (update l.prev next new) new prev;
}

unfoldable pub list_add : Links → ℕ → ℕ → Links
unfolding list_add_between
list_add l new head = list_add_between l new head (l.next head)

unfoldable pub list_add_tail : Links → ℕ → ℕ → Links
unfolding list_add_between
list_add_tail l new head = list_add_between l new (l.prev head) head

-- `__list_del`
unfoldable pub list_join : Links → ℕ → ℕ → Links
list_join l prev next = record { next = update l.next prev next; prev = update l.prev next prev }

unfoldable pub list_del : Links → ℕ → Links
unfolding list_join
list_del l entry =
    let joined = list_join l (l.prev entry) (l.next entry) in
    record {
      next = update joined.next entry list_poison1;
      prev = update joined.prev entry list_poison2;
    }

-- Four writes, each of which reads what the ones before it wrote.
unfoldable pub list_replace : Links → ℕ → ℕ → Links
list_replace l old new =
    let next = update l.next new (l.next old) in
    let prev = update l.prev (next new) new in
    let prev' = update prev new (prev old) in
    record { next = update next (prev' new) new; prev = prev' }

unfoldable pub list_replace_init : Links → ℕ → ℕ → Links
unfolding list_replace init_list_head
list_replace_init l old new = init_list_head (list_replace l old new) old
