-- ===== src/LinkedList.antt =====
-- The singly linked list of src/list.c and src/list.h. A node is an address, and `p_next` gives
-- the pointer that is stored at it; a node is the first member of a timer, so the timers of
-- src/tmr.c are linked through the same field.
pub mod Chain
use bmsnode_firmware.Prelude.{ℕ, zero, suc, ◌==◌, if◌then◌else◌}

abbrev pub Ptr : Type 0
Ptr = ℕ

-- `struct list_node`, for every address.
abbrev pub Links : Type 0
Links = Ptr → Ptr

abbrev pub null : Ptr
null = 0

-- The store `p->f = v`, for a field given at every address.
abbrev pub update : (Ptr → ℕ) → Ptr → ℕ → Ptr → ℕ
update h p v a = if a == p then v else h a

unfoldable pub list_add : Links → Ptr → Ptr → Links
list_add p_next head node = update (update p_next node (p_next head)) head node

-- The `while` loop of `list_remove`, from the node `prev`; the first argument is fuel.
pub remove_loop : ℕ → Links → Ptr → Ptr → Links
remove_loop zero p_next prev node = p_next
remove_loop (suc fuel) p_next prev node =
    let cur = p_next prev in
    let more = remove_loop fuel p_next cur node in
    if cur == null
    then p_next
    else if cur == node
    then update (update p_next prev (p_next node)) node null
    else more

unfoldable pub list_remove : ℕ → Links → Ptr → Ptr → Links
unfolding remove_loop
list_remove fuel p_next head node = remove_loop fuel p_next head node

unfoldable pub list_iter : Links → Ptr → Ptr
list_iter p_next node = if node == null then null else p_next node
